-- ===== src/OpSimulator/DepositTask.antt =====
-- The deposits' way from the L1 to the L2: the goroutine of SubscribeDepositTx
-- (opsimulator/deposits.go) and the first task of startBackgroundTasks
-- (opsimulator/opsimulator.go), which meet at channels without a buffer. The context of the
-- subscription is `context.Background()`, which is never done. A run is the order in which the
-- events happen.
pub mod Steps
pub mod Order
pub mod Stalls
mod Tests
use supersim.Prelude.{
  ℕ, List, [], ◌∷◌, ◌++◌, Option, none, some, String, Result, ok, err, panic, External,
}
use supersim.Interop.Types.{Log}
use supersim.OpSimulator.Deposits.{DepositError, subscription_failed, log_to_deposit_tx}

-- Where the goroutine of the subscription is: at its `select`, at `ch <- dep`, at `errCh <- err`, or
-- at its end.
pub data Producer (D : Type 0) : Type 0 where
  selecting : Producer D
  offering : D → Producer D
  reporting : DepositError → Producer D
  ended : Producer D

-- Where the task is: at its `select`, at `d.doneCh <- struct{}{}` of `Unsubscribe`, or at its end. It
-- does not read `sub.Err()`.
pub data Consumer : Type 0 where
  waiting unsubscribing finished : Consumer

-- `submitted` are the deposits that `SendTransaction` was called with; an error of it is only logged.
pub record Task (D : Type 0) : Type 0 where
  pub producer : Producer D
  pub consumer : Consumer
  pub submitted : List D

abbrev pub new_task : {D : Type 0} → Task D
new_task = record { producer = selecting; consumer = waiting; submitted = [] }

pub data Event : Type 0 where
  log_arrives : Log → Event
  log_subscription_fails : String → Event
  deposit_passes : Event
  context_ends : Event
  done_passes : Event

module _ {D : Type 0} (event_id : ℕ) (unmarshal : Log → External D) where
  abbrev pub after_log : Result DepositError D → Producer D
  after_log (ok d) = offering d
  after_log (err e) = reporting e
  after_log panic = ended

  -- An event that cannot happen where the two are is `none`.
  unfoldable pub step : Event → Task D → Option (Task D)
  step (log_arrives log) t = elim t.producer [
    | selecting ↦
        some (record t { producer = after_log (log_to_deposit_tx event_id unmarshal log) })
    | _ ↦ none
  ]
  step (log_subscription_fails e) t = elim t.producer [
    | selecting ↦ some (record t { producer = reporting (subscription_failed e) })
    | _ ↦ none
  ]
  step deposit_passes t = elim t.producer [
    | offering d ↦ elim t.consumer [
      | waiting ↦ some (record t { producer = selecting; submitted = t.submitted ++ d ∷ [] })
      | _ ↦ none
    ]
    | _ ↦ none
  ]
  step context_ends t = elim t.consumer [
    | waiting ↦ some (record t { consumer = unsubscribing })
    | _ ↦ none
  ]
  step done_passes t = elim t.producer [
    | selecting ↦ elim t.consumer [
      | unsubscribing ↦ some (record t { producer = ended; consumer = finished })
      | _ ↦ none
    ]
    | _ ↦ none
  ]

  unfoldable pub run : List Event → Task D → Option (Task D)
  unfolding step
  run [] t = some t
  run (e ∷ es) t = elim (step e t) [ none ↦ none | some t' ↦ run es t' ]
