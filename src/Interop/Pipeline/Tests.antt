-- ===== src/Interop/Pipeline/Tests.antt =====
-- Messages 5 and 6 from chain 901 to chain 902; the relay of the first fails.
use supersim.Prelude.{ℕ, ◌≡◌, refl, true, false, [], ◌∷◌, ◌++◌, some, ok, fails}
use supersim.Prelude.Dict.{insert}
use supersim.Prelude.Int.{pos, of_int64, to_uint64}
use supersim.Prelude.Tasks.{running, returned}
use supersim.Interop.Types.{Log, external, relay_failed_after}
use supersim.Interop.Message.{L2ToL2Message, new_message_from_sent_event, hash, encode}
use supersim.Interop.Store.{Entry, handle_sent_event, set}
use supersim.Interop.Indexer.{
  Indexer, get_identifier, process_event_log, process_sent, sent_message_from_source_key,
  sent_message_to_destination_key,
}
use supersim.Interop.Relayer.{Relayer, Outcomes}
use supersim.Interop.Relayer.Delivery.{Job, call_of}
use supersim.Interop.TestData.{
  small_lib, checksum, reader, log_of, sent_log, message_5, hash_5, entry_5, identifier_5,
  empty_indexer,
}
use supersim.Interop.Pipeline.{run}
use supersim.Interop.Pipeline.Blocks.{Sends, run-waits}

abbrev next_log : Log
next_log = log_of (1 ∷ 902 ∷ 77 ∷ 6 ∷ []) (9 ∷ 1 ∷ 2 ∷ []) 101

abbrev message_6 : L2ToL2Message
message_6 = record message_5 { nonce = pos 6 }

abbrev hash_6 : ℕ
hash_6 = checksum (902 ∷ 901 ∷ 6 ∷ 9 ∷ 77 ∷ 1 ∷ 2 ∷ [])

abbrev entry_6 : Entry
entry_6 = record {
  message = message_6;
  identifier = some identifier_5;
  log = some next_log;
  lifecycle = record { sent_tx_hash = 101; failed_tx_hashes = []; relayed_tx_hash = 0 };
}

abbrev after_5 : Indexer
after_5 = record {
  store = record { entry_by_hash = (hash_5, entry_5) ∷ [] };
  published =
      (sent_message_from_source_key 901, entry_5)
      ∷ (sent_message_to_destination_key 902, entry_5)
      ∷ [];
}

abbrev after_6 : Indexer
after_6 = record {
  store = record { entry_by_hash = (hash_5, entry_5) ∷ (hash_6, entry_6) ∷ [] };
  published =
      (sent_message_from_source_key 901, entry_5)
      ∷ (sent_message_to_destination_key 902, entry_5)
      ∷ (sent_message_from_source_key 901, entry_6)
      ∷ (sent_message_to_destination_key 902, entry_6)
      ∷ [];
}

sends_5 : process_event_log small_lib reader 901 sent_log empty_indexer ≡ (ok tt, after_5)
unfolding process_event_log process_sent get_identifier handle_sent_event set insert
    new_message_from_sent_event hash encode of_int64 to_uint64
sends_5 = refl

sends_6 : process_event_log small_lib reader 901 next_log after_5 ≡ (ok tt, after_6)
unfolding process_event_log process_sent get_identifier handle_sent_event set insert
    new_message_from_sent_event hash encode of_int64 to_uint64
sends_6 = refl

abbrev first : Sends small_lib reader 901 902 empty_indexer sent_log entry_5 after_5
first = record { source = 901; processes = sends_5; publishes = refl }

abbrev second : Sends small_lib reader 901 902 after_5 next_log entry_6 after_6
second = record { source = 901; processes = sends_6; publishes = refl }

abbrev reverted : Outcomes
reverted attempt = fails "execution reverted"

abbrev job : Job
job = record {
  entry = entry_5;
  identifier = identifier_5;
  log = sent_log;
  outcome = reverted;
  has_identifier = refl;
  has_log = refl;
}

abbrev idle : Relayer
idle = record { calls = []; sleeps = [] }

run-waits_example :
    run small_lib reader 901 902
      ((sent_log, reverted) ∷ (next_log, reverted) ∷ (sent_log, reverted) ∷ [])
      (record { indexer = empty_indexer; relayer = running idle; is_waiting = false })
    ≡ some (record {
      indexer = after_6;
      relayer =
          returned
            (some (relay_failed_after 1 (external "execution reverted")))
            (record idle { calls = idle.calls ++ call_of small_lib job ∷ [] });
      is_waiting = true;
    })
run-waits_example =
    run-waits small_lib reader 901 902 empty_indexer after_5 after_6 idle sent_log next_log job
      entry_6 "execution reverted" reverted ((sent_log, reverted) ∷ []) first refl second
