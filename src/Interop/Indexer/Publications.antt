-- ===== src/Interop/Indexer/Publications.antt =====
-- What is published, and that a relayer can relay what it receives.
use supersim.Prelude.{
  ℕ, ◌==◌, ◌≡◌, ◌≢◌, refl, ap, List, [], ◌∷◌, ◌++◌, some, arith, get_elem?, All, All-append, inl,
  inr, Bool-cases, Result-cases, Option-cases,
}
use mathlib.Core.List.{append-nil, append_assoc}
use supersim.Prelude.Text.{Text}
use supersim.Interop.Types.{Log, Identifier, Ethlib}
use supersim.Interop.Message.{L2ToL2Message, new_message_from_sent_event, hash}
use supersim.Interop.Store.{
  Entry, new_entry, handle_sent_event, handle_relayed_event, handle_failed_relayed_event,
}
use supersim.Interop.Indexer.{
  Indexer, ChainReader, get_identifier, process_sent, process_relayed, process_failed_relayed,
  process_event_log, sent_message_from_source_key, sent_message_to_destination_key,
  relayed_message_to_destination_key, failed_relayed_message_to_destination_key,
}
use supersim.Interop.Indexer.Topics.{
  Topic, sent_from, sent_to, relayed_to, failed_to, key_of, key_of_inj,
}

-- What a relayer of chain `d` needs of an entry that it receives.
abbrev pub Relayable : ℕ → Entry → Type 0
Relayable d e =
    (e.message.destination ≡ d)
    × ((id : Identifier) × (e.identifier ≡ some id))
    × ((log : Log) × (e.log ≡ some log))

-- A publication that the relayer of a chain receives is one that it can relay.
abbrev pub IsDeliverable : Text × Entry → Type 0
IsDeliverable (key, e) = (d : ℕ) → key ≡ sent_message_to_destination_key d → Relayable d e

destination_of : Topic → ℕ
destination_of (sent_from c) = c
destination_of (sent_to c) = c
destination_of (relayed_to c) = c
destination_of (failed_to c) = c

sent_to_inj :
    (c d : ℕ) → sent_message_to_destination_key c ≡ sent_message_to_destination_key d → c ≡ d
unfolding destination_of
sent_to_inj c d h = ap destination_of (key_of_inj (sent_to c) (sent_to d) h)

-- Under another kind of key nothing goes to a relayer.
other_IsDeliverable :
    (t : Topic) (e : Entry) → ((d : ℕ) → t ≢ sent_to d) → IsDeliverable (key_of t, e)
other_IsDeliverable t e n d h = absurd (n d (key_of_inj t (sent_to d) h))

module _ (lib : Ethlib) where
  sent_IsDeliverable :
      (m : L2ToL2Message) (log : Log) (id : Identifier)
      → IsDeliverable (sent_message_to_destination_key m.destination, new_entry lib m log id)
  sent_IsDeliverable m log id d h = (sent_to_inj m.destination d h, (id, refl), (log, refl))

  -- The publications grow by deliverable ones.
  data Grows (i j : Indexer) : Type 0 where
    grows :
        (new : List (Text × Entry))
        → All IsDeliverable new
        → j.published ≡ i.published ++ new
        → Grows i j

  process_sent-publishes :
      (backend : ChainReader) (chain_id : ℕ) (log : Log) (i : Indexer)
      → Grows i (process_sent lib backend chain_id log i).1
  unfolding process_sent handle_sent_event
  process_sent-publishes backend chain_id log i =
      elim (Result-cases (get_identifier backend chain_id log)) [
        | inl (id, e) ↦ elim (Result-cases (new_message_from_sent_event lib log id)) [
          | inl (m, e₂) ↦ elim (Result-cases (hash lib m)) [
            | inl (h, e₃) ↦
                grows
                  ((sent_message_from_source_key m.source, new_entry lib m log id)
                    ∷ (sent_message_to_destination_key m.destination, new_entry lib m log id)
                    ∷ [])
                  (
                    other_IsDeliverable (sent_from m.source) (new_entry lib m log id) (λ d q. cc),
                    (sent_IsDeliverable m log id, tt),
                  )
                  (ground (
                    arith,
                    append_assoc i.published
                        ((sent_message_from_source_key m.source, new_entry lib m log id) ∷ [])
                        ((sent_message_to_destination_key m.destination, new_entry lib m log id)
                          ∷ []),
                  ))
            | inr (inl (x, e₃)) ↦ grows [] tt (ground (arith, append-nil i.published))
            | inr (inr e₃) ↦ grows [] tt (ground (arith, append-nil i.published))
          ]
          | inr (inl (x, e₂)) ↦ grows [] tt (ground (arith, append-nil i.published))
          | inr (inr e₂) ↦ grows [] tt (ground (arith, append-nil i.published))
        ]
        | inr (inl (x, e)) ↦ grows [] tt (ground (arith, append-nil i.published))
        | inr (inr e) ↦ grows [] tt (ground (arith, append-nil i.published))
      ]

  process_relayed-publishes : (log : Log) (i : Indexer) → Grows i (process_relayed lib log i).1
  unfolding process_relayed
  process_relayed-publishes log i = elim (Result-cases (handle_relayed_event lib log i.store).0) [
    | inl (e, q) ↦
        grows ((relayed_message_to_destination_key e.message.destination, e) ∷ [])
          (other_IsDeliverable (relayed_to e.message.destination) e (λ d h. cc), tt) (ground arith)
    | inr (inl (e, q)) ↦ grows [] tt (ground (arith, append-nil i.published))
    | inr (inr q) ↦ grows [] tt (ground (arith, append-nil i.published))
  ]

  process_failed_relayed-publishes :
      (log : Log) (i : Indexer) → Grows i (process_failed_relayed lib log i).1
  unfolding process_failed_relayed
  process_failed_relayed-publishes log i =
      elim (Result-cases (handle_failed_relayed_event lib log i.store).0) [
        | inl (e, q) ↦
            grows ((failed_relayed_message_to_destination_key e.message.destination, e) ∷ [])
              (other_IsDeliverable (failed_to e.message.destination) e (λ d h. cc), tt)
              (ground arith)
        | inr (inl (e, q)) ↦ grows [] tt (ground (arith, append-nil i.published))
        | inr (inr q) ↦ grows [] tt (ground (arith, append-nil i.published))
      ]

  Grows-same : (i j k : Indexer) → j ≡ k → Grows i k → Grows i j
  Grows-same i j k e g = rw e g

  process_event_log-publishes :
      (backend : ChainReader) (chain_id : ℕ) (log : Log) (i : Indexer)
      → Grows i (process_event_log lib backend chain_id log i).1
  unfolding process_event_log
  process_event_log-publishes backend chain_id log i =
      elim (Option-cases (get_elem? log.topics 0)) [
        | inl e ↦ grows [] tt (ground (arith, append-nil i.published))
        | inr (t, e) ↦ elim (Bool-cases (t == lib.sent_message_id)) [
          | inl q ↦ Grows-same _ _ _ (ground arith) (process_sent-publishes backend chain_id log i)
          | inr q ↦ elim (Bool-cases (t == lib.relayed_message_id)) [
            | inl q' ↦ Grows-same _ _ _ (ground arith) (process_relayed-publishes log i)
            | inr q' ↦ elim (Bool-cases (t == lib.failed_relayed_message_id)) [
              | inl r ↦ Grows-same _ _ _ (ground arith) (process_failed_relayed-publishes log i)
              | inr r ↦ grows [] tt (ground (arith, append-nil i.published))
            ]
          ]
        ]
      ]

  Grows-Deliverable :
      {i j : Indexer} → Grows i j → All IsDeliverable i.published → All IsDeliverable j.published
  Grows-Deliverable {i} (grows new p q) h = rw q (All-append IsDeliverable i.published new h p)

  -- Whatever the log, an entry published to the relayers of a chain is bound for that chain and has
  -- its identifier and its log, if those published before have.
  pub process_event_log-IsDeliverable :
      (backend : ChainReader) (chain_id : ℕ) (log : Log) (i : Indexer)
      → All IsDeliverable i.published
      → All IsDeliverable (process_event_log lib backend chain_id log i).1.published
  process_event_log-IsDeliverable backend chain_id log i h =
      Grows-Deliverable (process_event_log-publishes backend chain_id log i) h
