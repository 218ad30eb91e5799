-- ===== src/OpSimulator/DepositTask/Steps.antt =====
-- What each event needs, and what it does: the step relation behind `step`.
use supersim.Prelude.{ℕ, ◌≡◌, ◌⊎◌, refl, [], ◌∷◌, ◌++◌, some, String, External, arith, inl, inr}
use supersim.Interop.Types.{Log}
use supersim.OpSimulator.Deposits.{DepositError, subscription_failed, log_to_deposit_tx}
use supersim.OpSimulator.DepositTask.{
  Producer, selecting, offering, reporting, ended, Consumer, waiting, unsubscribing, finished, Task,
  Event, after_log, log_arrives, log_subscription_fails, deposit_passes, context_ends, done_passes,
  step,
}

pub data Steps {D : Type 0} (event_id : ℕ) (unmarshal : Log → External D) (t u : Task D)
    : Event → Type 0 where
  arrives :
      {log : Log}
      → t.producer ≡ selecting
      → u ≡ record t {
        producer = after_log event_id unmarshal (log_to_deposit_tx event_id unmarshal log);
      }
      → Steps event_id unmarshal t u (log_arrives log)
  breaks :
      {x : String}
      → t.producer ≡ selecting
      → u ≡ record t { producer = reporting (subscription_failed x) }
      → Steps event_id unmarshal t u (log_subscription_fails x)
  passes :
      {d : D}
      → t.producer ≡ offering d
      → t.consumer ≡ waiting
      → u ≡ record t { producer = selecting; submitted = t.submitted ++ d ∷ [] }
      → Steps event_id unmarshal t u deposit_passes
  leaves :
      t.consumer ≡ waiting
      → u ≡ record t { consumer = unsubscribing }
      → Steps event_id unmarshal t u context_ends
  finishes :
      t.producer ≡ selecting
      → t.consumer ≡ unsubscribing
      → u ≡ record t { producer = ended; consumer = finished }
      → Steps event_id unmarshal t u done_passes

Consumer-cases : (c : Consumer) → (c ≡ waiting) ⊎ (c ≡ unsubscribing) ⊎ (c ≡ finished)
Consumer-cases waiting = inl refl
Consumer-cases unsubscribing = inr (inl refl)
Consumer-cases finished = inr (inr refl)

Producer-cases :
    {D : Type 0} (p : Producer D)
    → (p ≡ selecting)
      ⊎ ((d : D) × (p ≡ offering d))
      ⊎ ((e : DepositError) × (p ≡ reporting e))
      ⊎ (p ≡ ended)
Producer-cases selecting = inl refl
Producer-cases (offering d) = inr (inl (d, refl))
Producer-cases (reporting e) = inr (inr (inl (e, refl)))
Producer-cases ended = inr (inr (inr refl))

module _ {D : Type 0} (event_id : ℕ) (unmarshal : Log → External D) (u : Task D) where
  pub step-Steps :
      (e : Event) (t : Task D)
      → step event_id unmarshal e t ≡ some u
      → Steps event_id unmarshal t u e
  unfolding step
  step-Steps (log_arrives log) t s = elim (Producer-cases t.producer) [
    | inl w ↦ arrives w (ground (arith, w))
    | inr (inl (d, w)) ↦ absurd (ground (arith, w))
    | inr (inr (inl (x, w))) ↦ absurd (ground (arith, w))
    | inr (inr (inr w)) ↦ absurd (ground (arith, w))
  ]
  step-Steps (log_subscription_fails x) t s = elim (Producer-cases t.producer) [
    | inl w ↦ breaks w (ground (arith, w))
    | inr (inl (d, w)) ↦ absurd (ground (arith, w))
    | inr (inr (inl (y, w))) ↦ absurd (ground (arith, w))
    | inr (inr (inr w)) ↦ absurd (ground (arith, w))
  ]
  step-Steps deposit_passes t s = elim (Producer-cases t.producer) [
    | inl w ↦ absurd (ground (arith, w))
    | inr (inl (d, w)) ↦ elim (Consumer-cases t.consumer) [
      | inl v ↦ passes w v (ground (arith, w, v))
      | inr (inl v) ↦ absurd (ground (arith, w, v))
      | inr (inr v) ↦ absurd (ground (arith, w, v))
    ]
    | inr (inr (inl (x, w))) ↦ absurd (ground (arith, w))
    | inr (inr (inr w)) ↦ absurd (ground (arith, w))
  ]
  step-Steps done_passes t s = elim (Producer-cases t.producer) [
    | inl w ↦ elim (Consumer-cases t.consumer) [
      | inl v ↦ absurd (ground (arith, w, v))
      | inr (inl v) ↦ finishes w v (ground (arith, w, v))
      | inr (inr v) ↦ absurd (ground (arith, w, v))
    ]
    | inr (inl (d, w)) ↦ absurd (ground (arith, w))
    | inr (inr (inl (x, w))) ↦ absurd (ground (arith, w))
    | inr (inr (inr w)) ↦ absurd (ground (arith, w))
  ]
  step-Steps context_ends t s = elim (Consumer-cases t.consumer) [
    | inl v ↦ leaves v (ground (arith, v))
    | inr (inl v) ↦ absurd (ground (arith, v))
    | inr (inr v) ↦ absurd (ground (arith, v))
  ]
