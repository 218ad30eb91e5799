-- ===== src/OpSimulator/DepositTask/Tests.antt =====
-- A deposit is passed on; then a log comes in that is none, and the context ends.
use supersim.Prelude.{ℕ, ◌≡◌, refl, List, [], ◌∷◌, ◌++◌, some, err, External, returns}
use supersim.Interop.Types.{Log}
use supersim.Interop.TestData.{log_of, sent_log}
use supersim.OpSimulator.Deposits.{not_a_deposit_event, log_to_deposit_tx}
use supersim.OpSimulator.DepositTask.{
  selecting, reporting, waiting, unsubscribing, finished, Task, new_task, Event, log_arrives,
  deposit_passes, context_ends, done_passes, step, run,
}
use supersim.OpSimulator.DepositTask.Order.{pending, deposits_of, run-deposits_of}
use supersim.OpSimulator.DepositTask.Stalls.{IsStalled, run-IsStalled_after}

-- Event 8 is a deposit, and its transaction is the hash of the log's transaction.
abbrev hash_of : Log → External ℕ
hash_of log = returns log.tx_hash

abbrev one_passes : List Event
one_passes = log_arrives (log_of (8 ∷ []) [] 500) ∷ deposit_passes ∷ []

abbrev stalled : Task ℕ
stalled = record {
  producer = reporting not_a_deposit_event;
  consumer = unsubscribing;
  submitted = 500 ∷ [];
}

run_stalled :
    run 8 hash_of (one_passes ++ log_arrives sent_log ∷ context_ends ∷ []) new_task ≡ some stalled
unfolding run log_to_deposit_tx
run_stalled = refl

malformed : log_to_deposit_tx 8 hash_of sent_log ≡ err not_a_deposit_event
unfolding log_to_deposit_tx
malformed = refl

run-IsStalled_after_example :
    (v : Task ℕ) × (run 8 hash_of one_passes new_task ≡ some v)
    × IsStalled v.submitted not_a_deposit_event stalled
run-IsStalled_after_example =
    run-IsStalled_after 8 hash_of one_passes (context_ends ∷ []) (log_arrives sent_log)
      not_a_deposit_event stalled malformed run_stalled

run-deposits_of_example :
    stalled.submitted ++ pending stalled.producer
    ≡ deposits_of 8 hash_of (one_passes ++ log_arrives sent_log ∷ context_ends ∷ [])
run-deposits_of_example =
    run-deposits_of 8 hash_of (one_passes ++ log_arrives sent_log ∷ context_ends ∷ []) stalled
      run_stalled

-- Without such a log the task ends with its context.
ends :
    run 8 hash_of (one_passes ++ context_ends ∷ done_passes ∷ []) new_task
    ≡ some (record {
      producer = supersim.OpSimulator.DepositTask.ended;
      consumer = finished;
      submitted = 500 ∷ [];
    })
unfolding run log_to_deposit_tx
ends = refl
