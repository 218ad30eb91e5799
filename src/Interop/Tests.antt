-- ===== src/Interop/Tests.antt =====
-- The package's theorems at one message from chain 901 to chain 902, and runs of the code on it.
use supersim.Prelude.{
  ℕ, zero, suc, ◌+◌, ◌<◌, ◌≡◌, ◌≢◌, refl, List, [], ◌∷◌, Option, none, some, ok, err, External,
  returns, fails, String, All, arith,
}
use supersim.Prelude.Dict.{lookup}
use supersim.Prelude.Tasks.{running, returned, state_of}
use supersim.Interop.Types.{Log, Error, external, relay_failed_after}
use supersim.Interop.Message.{executing_message_payload_bytes}
use supersim.Interop.Message.Payload.{executing_message_payload_bytes_inj}
use supersim.Interop.Store.{message_payload}
use supersim.Interop.Indexer.{Indexer, incoming, done, watch, index_logs, process_event_log}
use supersim.Interop.Indexer.History.{role_of}
use supersim.Interop.Indexer.Turns.{Turn, Goroutines}
use supersim.Interop.Indexer.Life.{lifecycle, reports_from, index_logs-life}
use supersim.Interop.Indexer.Changes.{IsKeyed, process_event_log-IsKeyed}
use supersim.Interop.Indexer.Origins.{AllOrigins, index_logs-AllOrigins}
use supersim.Interop.Indexer.Watch.{logs_of, watch-ignores_done}
use supersim.Interop.Indexer.Publications.{IsDeliverable, process_event_log-IsDeliverable}
use supersim.Interop.Relayer.{
  Relayer, Outcomes, relay_call, relay_message_with_retry, relay_messages,
}
use supersim.Interop.Relayer.Retries.{tried, relay_message_with_retry_lem}
use supersim.Interop.Relayer.Delivery.{Job, select_of, call_of, relay_messages-success}
use supersim.Interop.TestData.{
  small_lib, sent_log, hash_5, relayed_log, failed_log, identifier_5, entry_5, reader,
  empty_indexer, stored_indexer,
}

abbrev life : List (ℕ × Log)
life = (902, failed_log 201) ∷ (902, relayed_log 202) ∷ (902, relayed_log 203) ∷ []

abbrev whole_life : List (ℕ × Log)
whole_life = (901, sent_log) ∷ life

-- The goroutine of chain 902 waits after the failed relay, and the relay that follows is not taken.
abbrev turns : List Turn
turns =
    record { chain_id = 901; log = sent_log; stuck_at = none }
    ∷ record { chain_id = 902; log = failed_log 201; stuck_at = some 0 }
    ∷ record { chain_id = 902; log = relayed_log 202; stuck_at = none }
    ∷ []

abbrev at_start : Goroutines
at_start = record { indexer = empty_indexer; waiting = [] }

index_logs-life_example :
    (i' : Indexer) × (index_logs small_lib (λ c. reader) life stored_indexer ≡ running i')
    × (lifecycle hash_5 i'.store
        ≡ some (record { sent_tx_hash = 100; failed_tx_hashes = 201 ∷ []; relayed_tx_hash = 202 }))
unfolding role_of reports_from lookup
index_logs-life_example =
    index_logs-life small_lib (λ c. reader) hash_5 life stored_indexer 100
      (omega arith, (omega arith, (omega arith, tt))) (λ n. n, (λ n. n, (λ n. n, tt)))
      (λ e. omega arith, (λ e. omega arith, (λ e. omega arith, tt))) refl

index_logs-AllOrigins_example :
    AllOrigins small_lib
      (state_of (index_logs small_lib (λ c. reader) whole_life empty_indexer)).store
unfolding lookup
index_logs-AllOrigins_example =
    index_logs-AllOrigins small_lib (λ c. reader) whole_life empty_indexer
      (λ n. omega arith, (λ n. omega arith, (λ n. omega arith, (λ n. omega arith, tt))))
      (λ k e h. cc)

process_event_log-IsKeyed_example :
    IsKeyed small_lib (process_event_log small_lib reader 901 sent_log empty_indexer).1.store
unfolding lookup
process_event_log-IsKeyed_example =
    process_event_log-IsKeyed small_lib reader 901 sent_log empty_indexer (λ k e h. cc)

process_event_log-IsDeliverable_example :
    All IsDeliverable (process_event_log small_lib reader 901 sent_log empty_indexer).1.published
process_event_log-IsDeliverable_example =
    process_event_log-IsDeliverable small_lib reader 901 sent_log empty_indexer tt

watches_on :
    (watch small_lib reader 901 (done ∷ incoming sent_log ∷ []) empty_indexer
      ≡ index_logs small_lib
          (λ c. reader)
          (logs_of 901 (done ∷ incoming sent_log ∷ []))
          empty_indexer)
    × ((e : Option Error) (i' : Indexer)
        → watch small_lib reader 901 (done ∷ incoming sent_log ∷ []) empty_indexer ≢ returned e i')
watches_on = watch-ignores_done small_lib reader 901 (done ∷ incoming sent_log ∷ []) empty_indexer

executing_message_payload_bytes_inj_example :
    (sent_log.topics ≡ sent_log.topics) × (sent_log.payload ≡ sent_log.payload)
unfolding executing_message_payload_bytes
executing_message_payload_bytes_inj_example =
    executing_message_payload_bytes_inj small_lib sent_log (record sent_log { tx_hash = 7 }) refl
      (omega arith, (omega arith, (omega arith, (omega arith, tt))))
      (omega arith, (omega arith, (omega arith, (omega arith, tt)))) refl

abbrev job_of : External (Unit {0}) → Job
job_of x = record {
  entry = entry_5;
  identifier = identifier_5;
  log = sent_log;
  outcome = λ n. x;
  has_identifier = refl;
  has_log = refl;
}

abbrev idle : Relayer
idle = record { calls = []; sleeps = [] }

relay_messages-success_example :
    relay_messages small_lib (select_of (job_of (returns tt)) ∷ []) idle
    ≡ relay_messages small_lib []
        (record { calls = call_of small_lib (job_of (returns tt)) ∷ []; sleeps = [] })
relay_messages-success_example =
    relay_messages-success small_lib (job_of (returns tt) ∷ []) [] idle (refl, tt)

-- The first call fails and the second one succeeds.
abbrev second_time : Outcomes
second_time zero = fails "busy"
second_time (suc n) = returns tt

fails_before : (k : ℕ) → k < 1 → (x : String) × (second_time k ≡ fails x)
fails_before zero h = ("busy", refl)
fails_before (suc k) h = absurd (omega arith)

relay_message_with_retry_lem_example :
    (second_time 1 ≡ returns tt
      → relay_message_with_retry small_lib entry_5 2 second_time idle
        ≡ (ok tt, tried 1 0 (call_of small_lib (job_of (returns tt))) idle))
    × ((x : String)
        → 1 + 1 ≡ 2
        → second_time 1 ≡ fails x
        → relay_message_with_retry small_lib entry_5 2 second_time idle ≡ (
          err (relay_failed_after 2 (external x)),
          tried 1 0 (call_of small_lib (job_of (returns tt))) idle,
        ))
unfolding relay_call message_payload
relay_message_with_retry_lem_example =
    relay_message_with_retry_lem small_lib entry_5 (call_of small_lib (job_of (returns tt)))
      second_time 2 1 idle refl (omega arith) fails_before
