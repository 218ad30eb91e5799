-- ===== src/OpSimulator/DepositTask/Stalls.antt =====
-- What an error of the subscription does to the task.
use supersim.Prelude.{
  ℕ, ◌≡◌, ◌≢◌, refl, List, [], ◌∷◌, ◌++◌, some, err, External, arith, inl, inr, Option-cases,
}
use supersim.Interop.Types.{Log}
use supersim.OpSimulator.Deposits.{DepositError, subscription_failed, log_to_deposit_tx}
use supersim.OpSimulator.DepositTask.Steps.{
  Steps, arrives, breaks, passes, leaves, finishes, step-Steps,
}
use supersim.OpSimulator.DepositTask.{
  selecting, reporting, ended, Consumer, waiting, finished, Task, new_task, Event, log_arrives,
  log_subscription_fails, step, run,
}

-- The goroutine is at `errCh <- err`, and the task has not ended.
pub record IsStalled {D : Type 0} (sent : List D) (e : DepositError) (t : Task D) : Type 0 where
  pub is_reporting : t.producer ≡ reporting e
  pub goes_on : t.consumer ≢ finished
  pub has_sent : t.submitted ≡ sent

module _ {D : Type 0} (event_id : ℕ) (unmarshal : Log → External D) where
  step-IsStalled :
      (ev : Event) (sent : List D) (e : DepositError) (t u : Task D)
      → IsStalled sent e t
      → Steps event_id unmarshal t u ev
      → IsStalled sent e u
  step-IsStalled _ sent e t u h (arrives w q) = let r = h.is_reporting in cc
  step-IsStalled _ sent e t u h (breaks w q) = let r = h.is_reporting in cc
  step-IsStalled _ sent e t u h (passes w v q) = let r = h.is_reporting in cc
  step-IsStalled _ sent e t u h (finishes w v q) = let r = h.is_reporting in cc
  step-IsStalled _ sent e t u h (leaves v q) =
      rw q (record { is_reporting = h.is_reporting; goes_on = λ f. cc; has_sent = h.has_sent })

  run-IsStalled :
      (evs : List Event) (sent : List D) (e : DepositError) (t u : Task D)
      → IsStalled sent e t
      → run event_id unmarshal evs t ≡ some u
      → IsStalled sent e u
  unfolding run
  run-IsStalled [] sent e t u h r = let same : t ≡ u = cc in rw (← same) h
  run-IsStalled (ev ∷ evs) sent e t u h r = elim (Option-cases (step event_id unmarshal ev t)) [
    | inl q ↦ absurd (ground arith)
    | inr (t', q) ↦
        run-IsStalled evs sent e t' u
          (step-IsStalled ev sent e t t' h (step-Steps event_id unmarshal t' ev t q)) (ground arith)
  ]

  run-append :
      (es fs : List Event) (t u : Task D)
      → run event_id unmarshal (es ++ fs) t ≡ some u
      → (v : Task D) × (run event_id unmarshal es t ≡ some v)
        × (run event_id unmarshal fs v ≡ some u)
  unfolding run
  run-append [] fs t u r = (t, refl, r)
  run-append (e ∷ es) fs t u r = elim (Option-cases (step event_id unmarshal e t)) [
    | inl q ↦ absurd (ground arith)
    | inr (t', q) ↦
        let (v, first, rest) = run-append es fs t' u (ground arith) in
        (v, ground (arith, q, first), rest)
  ]

  -- A task that has ended has unsubscribed.
  abbrev IsCoupled : Task D → Type 0
  IsCoupled t = t.consumer ≡ finished → t.producer ≡ ended

  selecting-ne-finished :
      (t : Task D) → t.producer ≡ selecting → IsCoupled t → t.consumer ≢ finished
  selecting-ne-finished t w h f = let e = h f in cc

  step-IsCoupled :
      (ev : Event) (t u : Task D) → IsCoupled t → Steps event_id unmarshal t u ev → IsCoupled u
  step-IsCoupled _ t u h (arrives w q) = rw q (λ f. absurd (selecting-ne-finished t w h f))
  step-IsCoupled _ t u h (breaks w q) = rw q (λ f. absurd (selecting-ne-finished t w h f))
  step-IsCoupled _ t u h (passes w v q) = rw q (λ f. cc)
  step-IsCoupled _ t u h (finishes w v q) = rw q (λ f. refl)
  step-IsCoupled _ t u h (leaves v q) = rw q (λ f. cc)

  run-IsCoupled :
      (evs : List Event) (t u : Task D)
      → IsCoupled t
      → run event_id unmarshal evs t ≡ some u
      → IsCoupled u
  unfolding run
  run-IsCoupled [] t u h r = let same : t ≡ u = cc in rw (← same) h
  run-IsCoupled (ev ∷ evs) t u h r = elim (Option-cases (step event_id unmarshal ev t)) [
    | inl q ↦ absurd (ground arith)
    | inr (t', q) ↦
        run-IsCoupled evs t' u (step-IsCoupled ev t t' h (step-Steps event_id unmarshal t' ev t q))
          (ground arith)
  ]

  -- An event that the goroutine of the subscription makes an error of: a log that is not read as a
  -- deposit, or the end of the subscription to the logs.
  abbrev pub IsError : Event → DepositError → Type 0
  IsError (log_arrives log) e = log_to_deposit_tx event_id unmarshal log ≡ err e
  IsError (log_subscription_fails x) e = subscription_failed x ≡ e
  IsError ev e = ⊥

  -- The goroutine is at `errCh <- err` from then on.
  IsError-IsStalled :
      (ev : Event) (e : DepositError) (t u : Task D)
      → IsError ev e
      → IsCoupled t
      → Steps event_id unmarshal t u ev
      → IsStalled t.submitted e u
  IsError-IsStalled _ e t u bad h (arrives w q) =
      rw (q, bad)
        (record { is_reporting = refl; goes_on = selecting-ne-finished t w h; has_sent = refl })
  IsError-IsStalled _ e t u bad h (breaks w q) =
      rw (q, bad)
        (record { is_reporting = refl; goes_on = selecting-ne-finished t w h; has_sent = refl })
  IsError-IsStalled _ e t u bad h (passes w v q) = absurd bad
  IsError-IsStalled _ e t u bad h (leaves v q) = absurd bad
  IsError-IsStalled _ e t u bad h (finishes w v q) = absurd bad

  -- From the start, whatever happened before: once a log of the portal has come in that is not read
  -- as a deposit, or the subscription to the logs has failed, no deposit that comes later is sent to
  -- the L2, and the task never ends, also not where its context does.
  pub run-IsStalled_after :
      (before after : List Event) (ev : Event) (e : DepositError) (u : Task D)
      → IsError ev e
      → run event_id unmarshal (before ++ ev ∷ after) new_task ≡ some u
      → (v : Task D) × (run event_id unmarshal before new_task ≡ some v) × IsStalled v.submitted e u
  unfolding run
  run-IsStalled_after before after ev e u bad r =
      let (v, first, rest) = run-append before (ev ∷ after) new_task u r in
      elim (Option-cases (step event_id unmarshal ev v)) [
        | inl q ↦ absurd (ground arith)
        | inr (w, q) ↦
            let coupled = run-IsCoupled before new_task v (λ f. absurd (idle f)) first in
            let stalled =
              IsError-IsStalled ev e v w bad coupled (step-Steps event_id unmarshal w ev v q) in
            (v, first, run-IsStalled after v.submitted e w u stalled (ground arith))
      ]
    where
      idle : ◌≢◌ {A = Consumer} waiting finished
      idle f = cc
