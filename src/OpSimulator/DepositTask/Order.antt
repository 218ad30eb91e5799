-- ===== src/OpSimulator/DepositTask/Order.antt =====
-- Which deposits the task submits, and in which order.
use mathlib.Core.List.{append-nil, append_assoc}
use supersim.Prelude.{
  ℕ, ◌≡◌, refl, sym, ◌∙◌, List, [], ◌∷◌, ◌++◌, some, ok, External, arith, inl, inr, Option-cases,
  Result-cases,
}
use supersim.Interop.Types.{Log}
use supersim.OpSimulator.Deposits.{log_to_deposit_tx}
use supersim.OpSimulator.DepositTask.{
  Producer, selecting, offering, reporting, ended, Task, new_task, Event, log_arrives,
  log_subscription_fails, deposit_passes, context_ends, done_passes, step, run,
}
use supersim.OpSimulator.DepositTask.Steps.{
  Steps, arrives, breaks, passes, leaves, finishes, step-Steps,
}

-- The deposit that is not yet taken over.
abbrev pub pending : {D : Type 0} → Producer D → List D
pending selecting = []
pending (offering d) = d ∷ []
pending (reporting e) = []
pending ended = []

abbrev pub seen_of : {D : Type 0} → Task D → List D
seen_of t = t.submitted ++ pending t.producer

module _ {D : Type 0} (event_id : ℕ) (unmarshal : Log → External D) where
  -- The deposits that the logs of a run are read as.
  unfoldable pub deposits_of : List Event → List D
  deposits_of [] = []
  deposits_of (log_arrives log ∷ es) =
      let rest = deposits_of es in
      elim (log_to_deposit_tx event_id unmarshal log) [ ok d ↦ d ∷ rest | _ ↦ rest ]
  deposits_of (log_subscription_fails x ∷ es) = deposits_of es
  deposits_of (deposit_passes ∷ es) = deposits_of es
  deposits_of (context_ends ∷ es) = deposits_of es
  deposits_of (done_passes ∷ es) = deposits_of es

  step-deposits_of :
      (e : Event) (es : List Event) (t u : Task D)
      → Steps event_id unmarshal t u e
      → seen_of t ++ deposits_of (e ∷ es) ≡ seen_of u ++ deposits_of es
  unfolding deposits_of
  step-deposits_of _ es t u (arrives {log = log} w q) =
      rw q (elim (Result-cases (log_to_deposit_tx event_id unmarshal log)) [
        | inl (d, p) ↦ ground (
          arith,
          w,
          p,
          append-nil t.submitted,
          append_assoc t.submitted (d ∷ []) (deposits_of es),
        )
        | inr (inl (x, p)) ↦ ground (arith, w, p)
        | inr (inr p) ↦ ground (arith, w, p)
      ])
  step-deposits_of _ es t u (breaks w q) = rw q (ground (arith, w))
  step-deposits_of _ es t u (passes {d = d} w v q) =
      rw q (ground (arith, w, append-nil (t.submitted ++ d ∷ [])))
  step-deposits_of _ es t u (finishes w v q) = rw q (ground (arith, w))
  step-deposits_of _ es t u (leaves v q) = rw q refl

  run-seen :
      (es : List Event) (t u : Task D)
      → run event_id unmarshal es t ≡ some u
      → seen_of u ≡ seen_of t ++ deposits_of es
  unfolding run deposits_of
  run-seen [] t u r = let same : t ≡ u = cc in rw (← same) (sym (append-nil (seen_of t)))
  run-seen (e ∷ es) t u r = elim (Option-cases (step event_id unmarshal e t)) [
    | inl q ↦ absurd (ground arith)
    | inr (t', q) ↦
        run-seen es t' u (ground arith)
        ∙ sym (step-deposits_of e es t t' (step-Steps event_id unmarshal t' e t q))
  ]

  -- In whatever order things happen: what has been submitted to the L2, with the one deposit that
  -- may be waiting to be, is just the deposits that the logs so far are read as, in their order.
  pub run-deposits_of :
      (es : List Event) (t : Task D)
      → run event_id unmarshal es new_task ≡ some t
      → t.submitted ++ pending t.producer ≡ deposits_of es
  run-deposits_of es t r = run-seen es new_task t r
