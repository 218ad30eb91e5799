-- ===== src/Interop/Pipeline.antt =====
-- interop/indexer.go with interop/relayer.go: the goroutine of a source chain and that of a
-- destination, at createSubscription's handler. The event bus calls a handler within `Publish`, and
-- the handler is a send on a channel without a buffer, so that the source's goroutine waits there
-- for the destination's.
pub mod Blocks
mod Tests
use supersim.Prelude.{
  ℕ, zero, suc, Bool, true, false, if◌then◌else◌, List, [], ◌∷◌, ◌++◌, length, Option, none, some,
  Result, ok, err, panic,
}
use supersim.Prelude.Tasks.{Loop, running, returned, crashed}
use supersim.Prelude.Text.{Text, text_eq}
use supersim.Interop.Types.{Log, Error, Ethlib}
use supersim.Interop.Store.{Entry}
use supersim.Interop.Indexer.{
  Indexer, ChainReader, process_event_log, sent_message_to_destination_key,
}
use supersim.Interop.Relayer.{Relayer, Outcomes, message, relay_messages}

-- `is_waiting` says that the source's goroutine is at `messageChan <- e` with no one to receive.
pub record Pipeline : Type 0 where
  pub indexer : Indexer
  pub relayer : Loop Relayer Error
  pub is_waiting : Bool

abbrev pub drop : {A : Type 0} → ℕ → List A → List A
drop zero xs = xs
drop (suc n) [] = []
drop (suc n) (x ∷ xs) = drop n xs

module _ (lib : Ethlib) (backend : ChainReader) (chain_id destination : ℕ) where
  -- `handler`, with what the relayer's calls for the entry come back with. A relayer that returned at
  -- the end of its context has unsubscribed; one that returned with an error has not.
  unfoldable pub hand_over : Outcomes → Entry → Pipeline → Pipeline
  hand_over outcome e p = elim p.relayer [
    | running r ↦ record p { relayer = relay_messages lib (message e outcome ∷ []) r }
    | returned none r ↦ p
    | returned (some x) r ↦ record p { is_waiting = true }
    | crashed r ↦ record p { is_waiting = true }
  ]

  -- `eb.Publish`: the handler is subscribed to the key of the destination.
  unfoldable pub publish_all : Outcomes → List (Text × Entry) → Pipeline → Pipeline
  unfolding hand_over
  publish_all outcome [] p = p
  publish_all outcome ((key, e) ∷ rest) p =
      let next =
        if text_eq key (sent_message_to_destination_key destination)
        then hand_over outcome e p
        else p in
      if p.is_waiting then p else publish_all outcome rest next

  -- The body of the source's loop for a log; a panic, which ends the program, is `none`.
  unfoldable pub index_log : Log → Outcomes → Pipeline → Option Pipeline
  unfolding publish_all
  index_log log outcome p =
      let (r, i) = process_event_log lib backend chain_id log p.indexer in
      let next =
        publish_all outcome (drop (length p.indexer.published) i.published)
          (record p { indexer = i }) in
      if p.is_waiting
      then some p
      else elim r [ ok u ↦ some next | err e ↦ some next | panic ↦ none ]

  unfoldable pub run : List (Log × Outcomes) → Pipeline → Option Pipeline
  unfolding index_log
  run [] p = some p
  run ((log, outcome) ∷ rest) p = elim (index_log log outcome p) [
    | none ↦ none
    | some p' ↦ run rest p'
  ]
