-- ===== src/Interop/Store.antt =====
-- interop/store.go: the life of a message and the store of the messages seen. Each method holds the
-- store's lock, so it is one step. An entry is never written to after it is made, so a pointer to
-- it is its value; `identifier` and `log` are the entry's two pointers that may be nil.
pub mod Life
use supersim.Prelude.{
  ℕ, ◌==◌, Bool, not, List, [], ◌∷◌, ◌++◌, Option, none, some, Result, ok, err, fail_if, or_err,
  or_panic, get_elem?, ltb, length, if◌then◌else◌,
}
use supersim.Prelude.Dict.{Dict, lookup, insert}
use supersim.Prelude.State.{Action, lift, gets, modify, wrap_err, ◌>>=◌, ◌>>◌}
use supersim.Interop.Types.{
  Log, Identifier, Error, create_message_failed, hash_failed, store_failed, message_not_found,
  already_relayed, unexpected_event_type, update_lifecycle_failed, relayed_event_failed,
  failed_relayed_event_failed, Ethlib,
}
use supersim.Interop.Message.{
  L2ToL2Message, hash, new_message_from_sent_event, executing_message_payload_bytes,
}

-- `L2ToL2MessageState`
pub data MessageState : Type 0 where
  sent relayed failed_relay : MessageState

-- `L2ToL2MessageLifecycle`
pub record Lifecycle : Type 0 where
  pub sent_tx_hash : ℕ
  pub failed_tx_hashes : List ℕ
  pub relayed_tx_hash : ℕ

unfoldable pub with_failed_tx_hash : Lifecycle → ℕ → Lifecycle
with_failed_tx_hash s h = record {
  sent_tx_hash = s.sent_tx_hash;
  failed_tx_hashes = ([] ++ s.failed_tx_hashes) ++ h ∷ [];
  relayed_tx_hash = s.relayed_tx_hash;
}

unfoldable pub with_relayed_tx_hash : Lifecycle → ℕ → Lifecycle
with_relayed_tx_hash s h = record {
  sent_tx_hash = s.sent_tx_hash;
  failed_tx_hashes = [] ++ s.failed_tx_hashes;
  relayed_tx_hash = h;
}

unfoldable pub status : Lifecycle → MessageState
status s =
    if not (s.relayed_tx_hash == 0)
    then relayed
    else if ltb 0 (length s.failed_tx_hashes)
    then failed_relay
    else sent

-- `L2ToL2MessageStoreEntry`
pub record Entry : Type 0 where
  pub message : L2ToL2Message
  pub identifier : Option Identifier
  pub log : Option Log
  pub lifecycle : Lifecycle

-- `L2ToL2MessageStore`
pub record Store : Type 0 where
  pub entry_by_hash : Dict Entry

unfoldable pub new_store : Store
new_store = record { entry_by_hash = [] }

-- A method of the store.
abbrev pub Method : Type 0 → Type 0
Method A = Action Store Error A

unfoldable pub set : ℕ → Entry → Method (Unit {0})
set msg_hash entry = modify λ s. record { entry_by_hash = insert msg_hash entry s.entry_by_hash }

-- `Store.Get` and `StoreManager.Get`
unfoldable pub get : ℕ → Method Entry
get msg_hash = gets λ s. or_err (lookup msg_hash s.entry_by_hash) message_not_found

-- The new entry takes over the message only.
unfoldable pub update_lifecycle : ℕ → (Lifecycle → Result Error Lifecycle) → Method Entry
unfolding get
update_lifecycle msg_hash updater = do
  entry ← get msg_hash
  lifecycle ← wrap_err update_lifecycle_failed (lift (updater entry.lifecycle))
  let new_entry : Entry = record {
    message = entry.message;
    identifier = none;
    log = none;
    lifecycle = lifecycle;
  }
  modify (λ s. record { entry_by_hash = insert msg_hash new_entry s.entry_by_hash })
  lift (ok new_entry)

-- The closures that the two handlers pass to `UpdateLifecycle`.
unfoldable pub relayed_updater : ℕ → Lifecycle → Result Error Lifecycle
unfolding with_relayed_tx_hash
relayed_updater tx_hash l =
    if not (l.relayed_tx_hash == 0)
    then err already_relayed
    else ok (with_relayed_tx_hash l tx_hash)

unfoldable pub failed_updater : ℕ → Lifecycle → Result Error Lifecycle
unfolding with_failed_tx_hash
failed_updater tx_hash l =
    if not (l.relayed_tx_hash == 0) then err already_relayed else ok (with_failed_tx_hash l tx_hash)

module _ (lib : Ethlib) where
  -- `(*L2ToL2MessageStoreEntry).MessagePayload`: a nil log is dereferenced.
  unfoldable pub message_payload : Entry → Result Error (List ℕ)
  message_payload e = elim e.log [
    | none ↦ Result.panic
    | some log ↦ ok (executing_message_payload_bytes lib log)
  ]

  abbrev pub new_entry : L2ToL2Message → Log → Identifier → Entry
  new_entry msg log identifier = record {
    message = msg;
    identifier = some identifier;
    log = some log;
    lifecycle = record { sent_tx_hash = log.tx_hash; failed_tx_hashes = []; relayed_tx_hash = 0 };
  }

  unfoldable pub handle_sent_event : Log → Identifier → Method Entry
  unfolding set
  handle_sent_event log identifier = do
    msg ← wrap_err create_message_failed (lift (new_message_from_sent_event lib log identifier))
    msg_hash ← wrap_err hash_failed (lift (hash lib msg))
    wrap_err store_failed (set msg_hash (new_entry msg log identifier))
    lift (ok (new_entry msg log identifier))

  unfoldable pub handle_relayed_event : Log → Method Entry
  handle_relayed_event log = do
    msg_hash ← lift (or_panic (get_elem? log.topics 3))
    wrap_err relayed_event_failed (update_lifecycle msg_hash (relayed_updater log.tx_hash))

  unfoldable pub handle_failed_relayed_event : Log → Method Entry
  handle_failed_relayed_event log = do
    topic ← lift (or_panic (get_elem? log.topics 0))
    lift (fail_if (not (topic == lib.failed_relayed_message_id)) unexpected_event_type)
    msg_hash ← lift (or_panic (get_elem? log.topics 3))
    wrap_err failed_relayed_event_failed (update_lifecycle msg_hash (failed_updater log.tx_hash))
