-- ===== src/Interop/Indexer/Steps.antt =====
-- What each branch of `processEventLog` does to the entry that the store has under one hash.
use supersim.Prelude.{
  ℕ, ◌==◌, ==_refl, if◌then◌else◌, ◌≡◌, ◌≢◌, Option, none, some, Result, ok, err, panic, arith,
  get_elem?, Option-cases, inl, inr, ◌>>=◌, Result-cases,
}
use supersim.Prelude.Dict.{lookup, insert, lookup-insert}
use supersim.Interop.Types.{Log, Error, Ethlib}
use supersim.Interop.Message.{new_message_from_sent_event, hash}
use supersim.Interop.Store.{
  Store, Entry, Lifecycle, new_entry, update_lifecycle, handle_sent_event, handle_relayed_event,
  handle_failed_relayed_event, relayed_updater, failed_updater,
}
use supersim.Interop.Store.Life.{Report, updater_of}
use supersim.Interop.Indexer.{
  Indexer, ChainReader, get_identifier, process_sent, process_relayed, process_failed_relayed,
}

-- The store seen through one hash, and what a log is to the message of hash `k`.
pub data Role : Type 0 where
  starts : Entry → Role
  reports : Report → Role
  nothing : Role

abbrev pub view : ℕ → Store → Option Entry
view k s = lookup k s.entry_by_hash

abbrev pub if_hash : ℕ → ℕ → Role → Role
if_hash h k r = if h == k then r else nothing

abbrev pub updated : Entry → Lifecycle → Entry
updated x l = record { message = x.message; identifier = none; log = none; lifecycle = l }

-- An accepted report makes the entry anew, with its message only; a refused one leaves it.
abbrev pub renew : Entry → Result Error Lifecycle → Entry
renew x (ok l) = updated x l
renew x (err e) = x
renew x panic = x

abbrev pub play : Role → Option Entry → Option Entry
play (starts e) o = some e
play (reports r) none = none
play (reports r) (some x) = some (renew x (updater_of r x.lifecycle))
play nothing o = o

module _ (h : ℕ) (f : Lifecycle → Result Error Lifecycle) (s : Store) where
  pub update_lifecycle-missing : lookup h s.entry_by_hash ≡ none → (update_lifecycle h f s).1 ≡ s
  unfolding update_lifecycle
  update_lifecycle-missing e = ground arith

  pub update_lifecycle-accepted :
      (x : Entry) (l : Lifecycle)
      → lookup h s.entry_by_hash ≡ some x
      → f x.lifecycle ≡ ok l
      → (update_lifecycle h f s).1
        ≡ record { entry_by_hash = insert h (updated x l) s.entry_by_hash }
  unfolding update_lifecycle
  update_lifecycle-accepted x l e u = ground arith

  pub update_lifecycle-refused :
      (x : Entry)
      → lookup h s.entry_by_hash ≡ some x
      → ((l : Lifecycle) → f x.lifecycle ≢ ok l)
      → (update_lifecycle h f s).1 ≡ s
  unfolding update_lifecycle
  update_lifecycle-refused x e u = elim (Result-cases (f x.lifecycle)) [
    | inl (l, q) ↦ absurd (u l q)
    | inr (inl (q, r)) ↦ ground arith
    | inr (inr q) ↦ ground arith
  ]

pub update_lifecycle-view :
    (h k : ℕ) (r : Report) (s : Store)
    → view k (update_lifecycle h (updater_of r) s).1 ≡ play (if_hash h k (reports r)) (view k s)
update_lifecycle-view h k r s = elim (Option-cases (lookup h s.entry_by_hash)) [
  | inl e ↦ rw (update_lifecycle-missing h (updater_of r) s e) (ground arith)
  | inr (x, e) ↦ elim (Result-cases (updater_of r x.lifecycle)) [
    | inl (l, u) ↦
        rw (update_lifecycle-accepted h (updater_of r) s x l e u)
          (ground (arith, lookup-insert h k (updated x l) s.entry_by_hash))
    | inr (inl (f, u)) ↦
        rw (update_lifecycle-refused h (updater_of r) s x e (λ l q. cc)) (ground arith)
    | inr (inr u) ↦ rw (update_lifecycle-refused h (updater_of r) s x e (λ l q. cc)) (ground arith)
  ]
]

module _ (lib : Ethlib) where
  -- The hash of the message that a sent event decodes to, and the entry of it.
  unfoldable pub sent_entry : ChainReader → ℕ → Log → Result Error (ℕ × Entry)
  sent_entry backend chain_id log = do
    identifier ← get_identifier backend chain_id log
    msg ← new_message_from_sent_event lib log identifier
    h ← hash lib msg
    ok (h, new_entry lib msg log identifier)

  abbrev pub role_of_sent : Result Error (ℕ × Entry) → ℕ → Role
  role_of_sent (ok (h, e)) k = if_hash h k (starts e)
  role_of_sent (err e) k = nothing
  role_of_sent panic k = nothing

  pub process_sent-view :
      (backend : ChainReader) (chain_id k : ℕ) (log : Log) (i : Indexer)
      → view k (process_sent lib backend chain_id log i).1.store
        ≡ play (role_of_sent (sent_entry backend chain_id log) k) (view k i.store)
  unfolding process_sent handle_sent_event sent_entry
  process_sent-view backend chain_id k log i =
      elim (Result-cases (get_identifier backend chain_id log)) [
        | inl (id, e) ↦ elim (Result-cases (new_message_from_sent_event lib log id)) [
          | inl (m, e₂) ↦ elim (Result-cases (hash lib m)) [
            | inl (h, e₃) ↦
                ground (arith, lookup-insert h k (new_entry lib m log id) i.store.entry_by_hash)
            | inr (inl (x, e₃)) ↦ ground arith
            | inr (inr e₃) ↦ ground arith
          ]
          | inr (inl (x, e₂)) ↦ ground arith
          | inr (inr e₂) ↦ ground arith
        ]
        | inr (inl (x, e)) ↦ ground arith
        | inr (inr e) ↦ ground arith
      ]

  pub process_relayed-store :
      (h : ℕ) (log : Log) (i : Indexer)
      → get_elem? log.topics 3 ≡ some h
      → (process_relayed lib log i).1.store
        ≡ (update_lifecycle h (relayed_updater log.tx_hash) i.store).1
  unfolding process_relayed handle_relayed_event
  process_relayed-store h log i e =
      elim (Result-cases (update_lifecycle h (relayed_updater log.tx_hash) i.store).0) [
        | inl (a, q) ↦ ground arith
        | inr (inl (a, q)) ↦ ground arith
        | inr (inr q) ↦ ground arith
      ]

  pub process_failed_relayed-store :
      (h : ℕ) (log : Log) (i : Indexer)
      → get_elem? log.topics 0 ≡ some lib.failed_relayed_message_id
      → get_elem? log.topics 3 ≡ some h
      → (process_failed_relayed lib log i).1.store
        ≡ (update_lifecycle h (failed_updater log.tx_hash) i.store).1
  unfolding process_failed_relayed handle_failed_relayed_event
  process_failed_relayed-store h log i e₀ e =
      elim (Result-cases (update_lifecycle h (failed_updater log.tx_hash) i.store).0) [
        | inl (a, q) ↦ ground (arith, ==_refl lib.failed_relayed_message_id)
        | inr (inl (a, q)) ↦ ground (arith, ==_refl lib.failed_relayed_message_id)
        | inr (inr q) ↦ ground (arith, ==_refl lib.failed_relayed_message_id)
      ]
