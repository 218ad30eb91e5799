-- ===== src/Interop/Indexer.antt =====
-- interop/indexer.go: logs of the messengers go into the store, and the entries are published under
-- keys. The event bus is outside the repository, so what is handed to `eb.Publish` is recorded.
-- The lines that only print are left out.
pub mod Topics
pub mod Steps
pub mod History
pub mod Life
pub mod Changes
pub mod Origins
pub mod Turns
pub mod Known
pub mod Watch
pub mod SetUp
pub mod Publications
use supersim.Prelude.{
  ℕ, ◌==◌, if◌then◌else◌, List, [], ◌∷◌, ◌++◌, Option, none, some, Result, ok, err, panic, External,
  from_external, ◌>>=◌ as then_result, or_panic, get_elem?,
}
use supersim.Prelude.Int.{ℤ, of_int64}
use supersim.Prelude.State.{Action, lift, modify, wrap_err, ◌>>=◌, ◌>>◌}
use supersim.Prelude.Tasks.{Loop, running, crashed}
use supersim.Prelude.Text.{Text, codes, decimal}
use supersim.Interop.Types.{
  Log, Header, Identifier, Error, external, get_block_failed, get_identifier_failed,
  handle_sent_failed, handle_relayed_failed, handle_failed_relayed_failed, unexpected_event, Ethlib,
}
use supersim.Interop.Store.{
  Store, Entry, Method, handle_sent_event, handle_relayed_event, handle_failed_relayed_event,
}

unfoldable pub sent_message_from_source_key : ℕ → Text
sent_message_from_source_key chain = codes "SentMessage:source:" ++ decimal chain

unfoldable pub sent_message_to_destination_key : ℕ → Text
sent_message_to_destination_key chain = codes "SentMessage:destination:" ++ decimal chain

unfoldable pub relayed_message_to_destination_key : ℕ → Text
relayed_message_to_destination_key chain = codes "RelayedMessage:destination:" ++ decimal chain

unfoldable pub failed_relayed_message_to_destination_key : ℕ → Text
failed_relayed_message_to_destination_key chain =
    codes "FailedRelayedMessage:destination" ++ decimal chain

pub record Indexer : Type 0 where
  pub store : Store
  pub published : List (Text × Entry)

-- `ethereum.ChainReader`, of which `HeaderByNumber` is called.
abbrev pub ChainReader : Type 0
ChainReader = ℤ → External Header

unfoldable pub get_identifier : ChainReader → ℕ → Log → Result Error Identifier
get_identifier backend chain_id log =
    then_result
      (from_external (λ e. get_block_failed (external e)) (backend (of_int64 log.block_number)))
      λ header. ok (record {
        origin = log.address;
        block_number = header.number;
        log_index = of_int64 log.index;
        timestamp = of_int64 header.time;
        chain_id = of_int64 chain_id;
      })

abbrev pub on_store : {A : Type 0} → Method A → Action Indexer Error A
on_store m i = let (r, s) = m i.store in (r, record i { store = s })

abbrev pub publish : Text → Entry → Action Indexer Error (Unit {0})
publish key entry = modify λ i. record i { published = i.published ++ (key, entry) ∷ [] }

-- What the `select` of a chain's goroutine takes: a log, or the end of the tasks' context.
pub data Select : Type 0 where
  incoming : Log → Select
  done : Select

-- A failed log is printed and left; a panic in the goroutine ends the program.
abbrev pub after_log : {A : Type 0} → Result Error A × Indexer → Loop Indexer Error
after_log (ok a, i) = running i
after_log (err e, i) = running i
after_log (panic, i) = crashed i

module _ (lib : Ethlib) where
  unfoldable pub process_sent : ChainReader → ℕ → Log → Action Indexer Error (Unit {0})
  process_sent backend chain_id log = do
    identifier ← wrap_err get_identifier_failed (lift (get_identifier backend chain_id log))
    entry ← wrap_err handle_sent_failed (on_store (handle_sent_event lib log identifier))
    publish (sent_message_from_source_key entry.message.source) entry
    publish (sent_message_to_destination_key entry.message.destination) entry

  unfoldable pub process_relayed : Log → Action Indexer Error (Unit {0})
  process_relayed log = do
    entry ← wrap_err handle_relayed_failed (on_store (handle_relayed_event lib log))
    publish (relayed_message_to_destination_key entry.message.destination) entry

  unfoldable pub process_failed_relayed : Log → Action Indexer Error (Unit {0})
  process_failed_relayed log = do
    entry ← wrap_err handle_failed_relayed_failed (on_store (handle_failed_relayed_event lib log))
    publish (failed_relayed_message_to_destination_key entry.message.destination) entry

  -- The switch of `processEventLog` on the first topic.
  unfoldable pub process_event_log : ChainReader → ℕ → Log → Action Indexer Error (Unit {0})
  process_event_log backend chain_id log = do
    topic ← lift (or_panic (get_elem? log.topics 0))
    if topic == lib.sent_message_id
        then process_sent backend chain_id log
        else if topic == lib.relayed_message_id
        then process_relayed log
        else if topic == lib.failed_relayed_message_id
        then process_failed_relayed log
        else lift (err (unexpected_event topic))

  -- The `for` of a chain's goroutine; `sub.Unsubscribe()` does not leave it.
  unfoldable pub watch : ChainReader → ℕ → List Select → Indexer → Loop Indexer Error
  watch backend chain_id [] i = running i
  watch backend chain_id (incoming log ∷ rest) i =
      elim (after_log (process_event_log backend chain_id log i)) [
        | running i' ↦ watch backend chain_id rest i'
        | Loop.returned e i' ↦ Loop.returned e i'
        | crashed i' ↦ crashed i'
      ]
  watch backend chain_id (done ∷ rest) i = watch backend chain_id rest i

  -- The goroutines of all the chains, at the logs that they take, in the order in which these get to
  -- the store. A goroutine that waits in a `Publish` takes no more; which logs are taken is the
  -- subject of Turns.
  unfoldable pub index_logs : (ℕ → ChainReader) → List (ℕ × Log) → Indexer → Loop Indexer Error
  index_logs backends [] i = running i
  index_logs backends ((chain_id, log) ∷ rest) i =
      elim (after_log (process_event_log (backends chain_id) chain_id log i)) [
        | running i' ↦ index_logs backends rest i'
        | Loop.returned e i' ↦ Loop.returned e i'
        | crashed i' ↦ crashed i'
      ]
