-- ===== src/Interop/Indexer/History.antt =====
-- The store, seen through one message's hash, is that message's own small machine: the logs of
-- other messages do not touch it, in whatever order the chains' goroutines get to the store.
use supersim.Prelude.{
  ℕ, ◌≤◌, ◌==◌, if◌then◌else◌, ◌≡◌, ◌≢◌, refl, List, [], ◌∷◌, Option, none, some, panic, arith,
  length, get_elem?, All, inl, inr, Bool-cases, Result-cases,
}
use supersim.Prelude.Tasks.{running}
use supersim.Interop.Types.{Log, Ethlib}
use supersim.Interop.Message.{new_message_from_sent_event, hash}
use supersim.Interop.Store.{
  Store, Entry, update_lifecycle, handle_sent_event, handle_relayed_event,
  handle_failed_relayed_event, relayed_updater, failed_updater,
}
use supersim.Interop.Store.Life.{Report, relay, fail, updater_of}
use supersim.Interop.Indexer.{
  Indexer, ChainReader, get_identifier, process_sent, process_relayed, process_failed_relayed,
  process_event_log, after_log, index_logs,
}
use supersim.Interop.Indexer.Steps.{
  Role, reports, nothing, view, play, if_hash, sent_entry, role_of_sent, update_lifecycle-view,
  process_sent-view, process_relayed-store, process_failed_relayed-store,
}

-- The events of the messenger have four topics.
abbrev pub HasTopics : Log → Type 0
HasTopics log = 4 ≤ length log.topics

first_topic : (ts : List ℕ) → 4 ≤ length ts → (a : ℕ) × (get_elem? ts 0 ≡ some a)
first_topic [] h = absurd (omega arith)
first_topic (a ∷ ts) h = (a, refl)

last_topic :
    (ts : List ℕ)
    → 4 ≤ length ts
    → (b c d : ℕ) × (get_elem? ts 1 ≡ some b)
      × (get_elem? ts 2 ≡ some c)
      × (get_elem? ts 3 ≡ some d)
last_topic [] h = absurd (omega arith)
last_topic (a ∷ []) h = absurd (omega arith)
last_topic (a ∷ b ∷ []) h = absurd (omega arith)
last_topic (a ∷ b ∷ c ∷ []) h = absurd (omega arith)
last_topic (a ∷ b ∷ c ∷ d ∷ ts) h = (b, c, d, refl, refl, refl)

abbrev pub role_of_topic : Option ℕ → ℕ → Role → Role
role_of_topic none k r = nothing
role_of_topic (some h) k r = if_hash h k r

update_lifecycle-ne-panic :
    (h : ℕ) (r : Report) (s : Store) → (update_lifecycle h (updater_of r) s).0 ≢ panic
unfolding update_lifecycle relayed_updater failed_updater
update_lifecycle-ne-panic h (relay t) s e = ground arith
update_lifecycle-ne-panic h (fail t) s e = ground arith

module _ (lib : Ethlib) where
  -- What a log of a chain is to the message of hash `k`, read off its first topic.
  unfoldable pub role_of : ChainReader → ℕ → ℕ → Log → Role
  role_of backend k chain_id log = elim (get_elem? log.topics 0) [
    | none ↦ nothing
    | some topic ↦
        if topic == lib.sent_message_id
        then role_of_sent lib (sent_entry lib backend chain_id log) k
        else if topic == lib.relayed_message_id
        then role_of_topic (get_elem? log.topics 3) k (reports (relay log.tx_hash))
        else if topic == lib.failed_relayed_message_id
        then role_of_topic (get_elem? log.topics 3) k (reports (fail log.tx_hash))
        else nothing
  ]

  pub process_event_log-view :
      (backend : ChainReader) (chain_id k : ℕ) (log : Log) (i : Indexer)
      → HasTopics log
      → view k (process_event_log lib backend chain_id log i).1.store
        ≡ play (role_of backend k chain_id log) (view k i.store)
  unfolding process_event_log role_of
  process_event_log-view backend chain_id k log i h =
      let (a, ea) = first_topic log.topics h in
      let (b, c, d, eb, ec, ed) = last_topic log.topics h in
      elim (Bool-cases (a == lib.sent_message_id)) [
        | inl t ↦ ground (arith, process_sent-view lib backend chain_id k log i)
        | inr f ↦ elim (Bool-cases (a == lib.relayed_message_id)) [
          | inl t ↦ ground (
            arith,
            process_relayed-store lib d log i ed,
            update_lifecycle-view d k (relay log.tx_hash) i.store,
          )
          | inr f' ↦ elim (Bool-cases (a == lib.failed_relayed_message_id)) [
            | inl t ↦ ground (
              arith,
              process_failed_relayed-store lib d log i,
              update_lifecycle-view d k (fail log.tx_hash) i.store,
            )
            | inr f'' ↦ ground arith
          ]
        ]
      ]

  -- The roles that the logs of all chains play, one after the other.
  unfoldable pub play_all : (ℕ → ChainReader) → ℕ → List (ℕ × Log) → Option Entry → Option Entry
  play_all backends k [] o = o
  play_all backends k ((chain_id, log) ∷ rest) o =
      play_all backends k rest (play (role_of (backends chain_id) k chain_id log) o)

  process_sent-ne-panic :
      (backend : ChainReader) (chain_id : ℕ) (log : Log) (i : Indexer)
      → HasTopics log
      → (process_sent lib backend chain_id log i).0 ≢ panic
  unfolding process_sent handle_sent_event new_message_from_sent_event hash get_identifier
  process_sent-ne-panic backend chain_id log i h e =
      let (b, c, d, eb, ec, ed) = last_topic log.topics h in ground arith

  process_relayed-ne-panic :
      (log : Log) (i : Indexer) → HasTopics log → (process_relayed lib log i).0 ≢ panic
  unfolding process_relayed handle_relayed_event
  process_relayed-ne-panic log i h e =
      let (b, c, d, eb, ec, ed) = last_topic log.topics h in
      ground (arith, update_lifecycle-ne-panic d (relay log.tx_hash) i.store)

  process_failed_relayed-ne-panic :
      (log : Log) (i : Indexer) → HasTopics log → (process_failed_relayed lib log i).0 ≢ panic
  unfolding process_failed_relayed handle_failed_relayed_event
  process_failed_relayed-ne-panic log i h e =
      let (a, ea) = first_topic log.topics h in
      let (b, c, d, eb, ec, ed) = last_topic log.topics h in
      ground (arith, update_lifecycle-ne-panic d (fail log.tx_hash) i.store)

  pub process_event_log-ne-panic :
      (backend : ChainReader) (chain_id : ℕ) (log : Log) (i : Indexer)
      → HasTopics log
      → (process_event_log lib backend chain_id log i).0 ≢ panic
  unfolding process_event_log
  process_event_log-ne-panic backend chain_id log i h e =
      let (a, ea) = first_topic log.topics h in
      ground (
        arith,
        process_sent-ne-panic backend chain_id log i h,
        process_relayed-ne-panic log i h,
        process_failed_relayed-ne-panic log i h,
      )

  abbrev next : ChainReader → ℕ → Log → Indexer → Indexer
  next backend chain_id log i = (process_event_log lib backend chain_id log i).1

  after_log-running :
      (backend : ChainReader) (chain_id : ℕ) (log : Log) (i : Indexer)
      → HasTopics log
      → after_log (process_event_log lib backend chain_id log i)
        ≡ running (next backend chain_id log i)
  after_log-running backend chain_id log i h =
      elim (Result-cases (process_event_log lib backend chain_id log i).0) [
        | inl (a, q) ↦ ground arith
        | inr (inl (a, q)) ↦ ground arith
        | inr (inr q) ↦ absurd (process_event_log-ne-panic backend chain_id log i h q)
      ]

  -- Logs of four topics, of any chains and in any order, make no goroutine panic; and the entry that
  -- the store then has under a hash, or that it has none, follows from the roles that the logs taken
  -- play for that hash alone.
  pub index_logs-refines :
      (backends : ℕ → ChainReader) (logs : List (ℕ × Log)) (i : Indexer)
      → All (λ (l : ℕ × Log). HasTopics l.1) logs
      → (i' : Indexer) × (index_logs lib backends logs i ≡ running i')
        × ((k : ℕ) → view k i'.store ≡ play_all backends k logs (view k i.store))
  unfolding index_logs play_all
  index_logs-refines backends [] i h = (i, refl, λ k. refl)
  index_logs-refines backends ((chain_id, log) ∷ rest) i h =
      let (i', ran, same) =
        index_logs-refines backends rest (next (backends chain_id) chain_id log i) h.1 in
      (
        i',
        rw (after_log-running (backends chain_id) chain_id log i h.0, index_logs) ran,
        λ k. rw (← process_event_log-view (backends chain_id) chain_id k log i h.0) (same k),
      )
