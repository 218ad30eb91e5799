-- ===== src/Interop/Indexer/SetUp.antt =====
-- interop/indexer.go: Start, createSubscription with the four subscriptions, and Stop. The client's
-- subscription to logs and the event bus are outside.
use supersim.Prelude.{
  ℕ, ◌≡◌, refl, List, [], Option, none, some, String, Result, External, ◌⊎◌, inl, inr, returns,
  fails, arith, from_external,
}
use supersim.Prelude.Tasks.{Loop, running, returned, crashed, Loop-cases}
use supersim.Interop.Indexer.Watch.{watch-ignores_done}
use supersim.Prelude.Text.{Text}
use supersim.Interop.Types.{Error, Ethlib}
use supersim.Interop.Store.{new_store}
use supersim.Interop.Indexer.{
  Indexer, ChainReader, Select, watch, sent_message_from_source_key,
  sent_message_to_destination_key, relayed_message_to_destination_key,
  failed_relayed_message_to_destination_key,
}

-- A constructor to each `fmt.Errorf` of a goroutine and of `createSubscription`.
pub data IndexerError : Type 0 where
  subscribe_failed : String → IndexerError
  create_subscription_failed : Text → String → IndexerError

abbrev pub new_l2_to_l2_message_indexer : Indexer
new_l2_to_l2_message_indexer = record { store = new_store; published = [] }

-- The goroutine of a chain, whole: without a subscription it ends with an error, which is printed.
unfoldable pub index_task :
    Ethlib
    → ChainReader
    → ℕ
    → External (Unit {0})
    → List Select
    → Indexer
    → Loop Indexer (IndexerError ⊎ Error)
index_task lib backend chain_id subscribe selects i = elim subscribe [
  | fails e ↦ returned (some (inl (subscribe_failed e))) i
  | returns u ↦ elim (watch lib backend chain_id selects i) [
    | running i' ↦ running i'
    | Loop.returned none i' ↦ returned none i'
    | Loop.returned (some e) i' ↦ returned (some (inr e)) i'
    | crashed i' ↦ crashed i'
  ]
]

-- `createSubscription`: the bus takes the key, or gives an error.
unfoldable pub create_subscription :
    (Text → External (Unit {0})) → Text → Result IndexerError (Unit {0})
create_subscription bus key = from_external (create_subscription_failed key) (bus key)

module _ (bus : Text → External (Unit {0})) (chain_id : ℕ) where
  unfoldable pub subscribe_sent_message_from_source : Result IndexerError (Unit {0})
  subscribe_sent_message_from_source =
      create_subscription bus (sent_message_from_source_key chain_id)

  unfoldable pub subscribe_sent_message_to_destination : Result IndexerError (Unit {0})
  subscribe_sent_message_to_destination =
      create_subscription bus (sent_message_to_destination_key chain_id)

  unfoldable pub subscribe_relayed_message_to_destination : Result IndexerError (Unit {0})
  subscribe_relayed_message_to_destination =
      create_subscription bus (relayed_message_to_destination_key chain_id)

  unfoldable pub subscribe_failed_relay_message_to_destination : Result IndexerError (Unit {0})
  subscribe_failed_relay_message_to_destination =
      create_subscription bus (failed_relayed_message_to_destination_key chain_id)

-- The goroutine of a chain returns only where it has no subscription, and then without a log.
pub index_task_returned :
    (lib : Ethlib) (backend : ChainReader) (chain_id : ℕ) (subscribe : External (Unit {0}))
    (selects : List Select) (i i' : Indexer) (e : Option (IndexerError ⊎ Error))
    → index_task lib backend chain_id subscribe selects i ≡ returned e i'
    → (why : String) × (subscribe ≡ fails why) × (e ≡ some (inl (subscribe_failed why))) × (i' ≡ i)
unfolding index_task
index_task_returned lib backend chain_id (fails why) selects i i' e h = (why, refl, cc, cc)
index_task_returned lib backend chain_id (returns u) selects i i' e h =
    let (same, stays) = watch-ignores_done lib backend chain_id selects i in
    absurd (elim (Loop-cases (watch lib backend chain_id selects i)) [
      | inl (s, q) ↦ ground (arith, q)
      | inr (inl (x, s, q)) ↦ stays x s q
      | inr (inr (s, q)) ↦ ground (arith, q)
    ])
