-- ===== src/Interop/Indexer/Changes.antt =====
-- What one log does to the store and to the publications, whatever its topics are.
use supersim.Prelude.{
  ℕ, ◌==◌, ◌≡◌, none, some, Result, ok, arith, get_elem?, ◌⊎◌, inl, inr, Bool-cases, Result-cases,
  Option-cases,
}
use supersim.Prelude.Dict.{lookup, insert, lookup-insert}
use supersim.Interop.Types.{Log, Identifier, Error, Ethlib}
use supersim.Interop.Message.{L2ToL2Message, new_message_from_sent_event, hash}
use supersim.Interop.Store.{
  Store, Entry, Lifecycle, new_entry, update_lifecycle, handle_sent_event, handle_relayed_event,
  handle_failed_relayed_event, relayed_updater, failed_updater,
}
use supersim.Interop.Indexer.{
  Indexer, ChainReader, get_identifier, process_sent, process_relayed, process_failed_relayed,
  process_event_log,
}
use supersim.Interop.Indexer.Steps.{
  updated, update_lifecycle-missing, update_lifecycle-accepted, update_lifecycle-refused,
  process_relayed-store, process_failed_relayed-store,
}

-- The lifecycle after a relay, or a failed relay, by the transaction `tx`.
abbrev pub IsUpdate : ℕ → Lifecycle → Lifecycle → Type 0
IsUpdate tx l l' = (relayed_updater tx l ≡ ok l') ⊎ (failed_updater tx l ≡ ok l')

-- The store after a log of the transaction `tx`: as it was, with a new entry under the hash of its
-- message, or with the lifecycle of an entry that it had made anew, by one of the two updaters.
pub data Change (lib : Ethlib) (tx : ℕ) (s : Store) (s' : Store) : Type 0 where
  unchanged : s' ≡ s → Change lib tx s s'
  entered :
      (h : ℕ) (m : L2ToL2Message) (log : Log) (id : Identifier)
      → hash lib m ≡ ok h
      → s' ≡ record { entry_by_hash = insert h (new_entry lib m log id) s.entry_by_hash }
      → Change lib tx s s'
  renewed :
      (h : ℕ) (e : Entry) (l : Lifecycle)
      → lookup h s.entry_by_hash ≡ some e
      → IsUpdate tx e.lifecycle l
      → s' ≡ record { entry_by_hash = insert h (updated e l) s.entry_by_hash }
      → Change lib tx s s'

module _ (lib : Ethlib) where
  update_lifecycle-Change :
      (tx h : ℕ) (f : Lifecycle → Result Error Lifecycle) (s : Store)
      → ((l l' : Lifecycle) → f l ≡ ok l' → IsUpdate tx l l')
      → Change lib tx s (update_lifecycle h f s).1
  update_lifecycle-Change tx h f s updates = elim (Option-cases (lookup h s.entry_by_hash)) [
    | inl e ↦ unchanged (update_lifecycle-missing h f s e)
    | inr (x, e) ↦ elim (Result-cases (f x.lifecycle)) [
      | inl (l, u) ↦
          renewed h x l e (updates x.lifecycle l u) (update_lifecycle-accepted h f s x l e u)
      | inr (inl (q, u)) ↦ unchanged (update_lifecycle-refused h f s x e (λ l p. cc))
      | inr (inr u) ↦ unchanged (update_lifecycle-refused h f s x e (λ l p. cc))
    ]
  ]

  process_sent-Change :
      (backend : ChainReader) (chain_id : ℕ) (log : Log) (i : Indexer)
      → Change lib log.tx_hash i.store (process_sent lib backend chain_id log i).1.store
  unfolding process_sent handle_sent_event
  process_sent-Change backend chain_id log i =
      elim (Result-cases (get_identifier backend chain_id log)) [
        | inl (id, e) ↦ elim (Result-cases (new_message_from_sent_event lib log id)) [
          | inl (m, e₂) ↦ elim (Result-cases (hash lib m)) [
            | inl (h, e₃) ↦ entered h m log id e₃ (ground arith)
            | inr (inl (x, e₃)) ↦ unchanged (ground arith)
            | inr (inr e₃) ↦ unchanged (ground arith)
          ]
          | inr (inl (x, e₂)) ↦ unchanged (ground arith)
          | inr (inr e₂) ↦ unchanged (ground arith)
        ]
        | inr (inl (x, e)) ↦ unchanged (ground arith)
        | inr (inr e) ↦ unchanged (ground arith)
      ]

  -- The two handlers change the store as `UpdateLifecycle` does, or fail before they call it.
  Change-same : (tx : ℕ) (s t u : Store) → t ≡ u → Change lib tx s u → Change lib tx s t
  Change-same tx s t u e c = rw e c

  process_relayed-short :
      (log : Log) (i : Indexer)
      → get_elem? log.topics 3 ≡ none
      → (process_relayed lib log i).1.store ≡ i.store
  unfolding process_relayed handle_relayed_event
  process_relayed-short log i e = ground arith

  process_relayed-Change :
      (log : Log) (i : Indexer) → Change lib log.tx_hash i.store (process_relayed lib log i).1.store
  process_relayed-Change log i = elim (Option-cases (get_elem? log.topics 3)) [
    | inl e ↦ unchanged (process_relayed-short log i e)
    | inr (h, e) ↦ Change-same _ _ _ _ (process_relayed-store lib h log i e) (
        update_lifecycle-Change log.tx_hash h (relayed_updater log.tx_hash) i.store
          (λ l l' u. inl u))
  ]

  process_failed_relayed-short :
      (log : Log) (i : Indexer)
      → get_elem? log.topics 3 ≡ none
      → (process_failed_relayed lib log i).1.store ≡ i.store
  unfolding process_failed_relayed handle_failed_relayed_event
  process_failed_relayed-short log i e = ground arith

  process_failed_relayed-Change :
      (log : Log) (i : Indexer)
      → get_elem? log.topics 0 ≡ some lib.failed_relayed_message_id
      → Change lib log.tx_hash i.store (process_failed_relayed lib log i).1.store
  process_failed_relayed-Change log i e₀ = elim (Option-cases (get_elem? log.topics 3)) [
    | inl e ↦ unchanged (process_failed_relayed-short log i e)
    | inr (h, e) ↦ Change-same _ _ _ _ (process_failed_relayed-store lib h log i e₀ e) (
        update_lifecycle-Change log.tx_hash h (failed_updater log.tx_hash) i.store
          (λ l l' u. inr u))
  ]

  -- Any log changes the store in one of the three ways.
  pub process_event_log-Change :
      (backend : ChainReader) (chain_id : ℕ) (log : Log) (i : Indexer)
      → Change lib log.tx_hash i.store (process_event_log lib backend chain_id log i).1.store
  unfolding process_event_log
  process_event_log-Change backend chain_id log i = elim (Option-cases (get_elem? log.topics 0)) [
    | inl e ↦ unchanged (ground arith)
    | inr (t, e) ↦ elim (Bool-cases (t == lib.sent_message_id)) [
      | inl q ↦ Change-same _ _ _ _ (ground arith) (process_sent-Change backend chain_id log i)
      | inr q ↦ elim (Bool-cases (t == lib.relayed_message_id)) [
        | inl q' ↦ Change-same _ _ _ _ (ground arith) (process_relayed-Change log i)
        | inr q' ↦ elim (Bool-cases (t == lib.failed_relayed_message_id)) [
          | inl r ↦
              Change-same _ _ _ _ (ground arith)
                (process_failed_relayed-Change log i (ground arith))
          | inr r ↦ unchanged (ground arith)
        ]
      ]
    ]
  ]

  -- Every entry stands under the hash of its message.
  abbrev pub IsKeyed : Store → Type 0
  IsKeyed s = (k : ℕ) (e : Entry) → lookup k s.entry_by_hash ≡ some e → hash lib e.message ≡ ok k

  insert-IsKeyed :
      (h : ℕ) (e : Entry) (s : Store)
      → hash lib e.message ≡ ok h
      → IsKeyed s
      → IsKeyed (record { entry_by_hash = insert h e s.entry_by_hash })
  insert-IsKeyed h e s q keyed k x found =
      ground (arith, lookup-insert h k e s.entry_by_hash, keyed k x)

  Change-IsKeyed : {tx : ℕ} {s s' : Store} → Change lib tx s s' → IsKeyed s → IsKeyed s'
  Change-IsKeyed (unchanged p) keyed = rw p keyed
  Change-IsKeyed {s} (entered h m log id q p) keyed =
      rw p (insert-IsKeyed h (new_entry lib m log id) s q keyed)
  Change-IsKeyed {s} (renewed h e l q u p) keyed =
      rw p (insert-IsKeyed h (updated e l) s (keyed h e q) keyed)

  -- Whatever the log, and also where it is refused or panics, each entry of the store goes on
  -- standing under the hash of the message it holds.
  pub process_event_log-IsKeyed :
      (backend : ChainReader) (chain_id : ℕ) (log : Log) (i : Indexer)
      → IsKeyed i.store
      → IsKeyed (process_event_log lib backend chain_id log i).1.store
  process_event_log-IsKeyed backend chain_id log i keyed =
      Change-IsKeyed (process_event_log-Change backend chain_id log i) keyed
