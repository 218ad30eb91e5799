-- ===== src/Interop/Pipeline/Blocks.antt =====
-- What a failed relay does to the indexing of the chains that send.
use mathlib.Core.List.{append-nil}
use supersim.Prelude.{
  ℕ, ◌≡◌, ◌≢◌, refl, ap, ◌∙◌, true, false, List, [], ◌∷◌, ◌++◌, length, some, String, Result, ok,
  fails, arith, Bool-cases, inl, inr,
}
use supersim.Prelude.Tasks.{Loop, running, returned}
use supersim.Prelude.Text.{text_eq, text_eq_iff}
use supersim.Interop.Types.{Log, Error, Ethlib, external, relay_failed_after}
use supersim.Interop.Store.{Entry}
use supersim.Interop.Indexer.{
  Indexer, ChainReader, process_event_log, sent_message_from_source_key,
  sent_message_to_destination_key,
}
use supersim.Interop.Indexer.Topics.{sent_from, sent_to, key_of_inj}
use supersim.Interop.Relayer.{Relayer, Outcomes, message, relay_messages}
use supersim.Interop.Relayer.Delivery.{Job, call_of, relay_messages-failure}
use supersim.Interop.Pipeline.{Pipeline, drop, hand_over, publish_all, index_log, run}

drop-append : {A : Type 0} (xs ys : List A) → drop (length xs) (xs ++ ys) ≡ ys
drop-append [] ys = refl
drop-append (x ∷ xs) ys = drop-append xs ys

module _ (lib : Ethlib) (backend : ChainReader) (chain_id destination : ℕ) where
  -- A log of a message to the destination: the indexer comes to `j` and publishes its entry.
  pub record Sends (i : Indexer) (log : Log) (e : Entry) (j : Indexer) : Type 0 where
    pub source : ℕ
    pub processes : process_event_log lib backend chain_id log i ≡ (ok tt, j)
    pub publishes :
        j.published
        ≡ i.published
          ++ (sent_message_from_source_key source, e)
            ∷ (sent_message_to_destination_key destination, e)
            ∷ []

  source_ne_destination :
      (c : ℕ)
      → text_eq (sent_message_from_source_key c) (sent_message_to_destination_key destination)
        ≡ false
  source_ne_destination c =
      elim (Bool-cases
        (text_eq (sent_message_from_source_key c) (sent_message_to_destination_key destination))) [
          | inr f ↦ f
          | inl t ↦ absurd (
              other (
                key_of_inj (sent_from c) (sent_to destination) (
                  (text_eq_iff (sent_message_from_source_key c)
                      (sent_message_to_destination_key destination)).0
                    t)))
        ]
    where
      other : sent_from c ≢ sent_to destination
      other e = cc

  to_self :
      text_eq
        (sent_message_to_destination_key destination)
        (sent_message_to_destination_key destination)
      ≡ true
  to_self =
      (text_eq_iff (sent_message_to_destination_key destination)
          (sent_message_to_destination_key destination)).1
        refl

  -- The one handler is called with the entry.
  index_log-Sends :
      (i j : Indexer) (log : Log) (e : Entry) (outcome : Outcomes) (l : Loop Relayer Error)
      → Sends i log e j
      → index_log lib backend chain_id destination log outcome
          (record { indexer = i; relayer = l; is_waiting = false })
        ≡ some (
            hand_over lib backend chain_id destination outcome e
              (record { indexer = j; relayer = l; is_waiting = false }))
  unfolding index_log publish_all
  index_log-Sends i j log e outcome l s =
      let processed : (process_event_log lib backend chain_id log i).1 ≡ j =
        ap (λ (x : Result Error (Unit {0}) × Indexer). x.1) s.processes in
      let fine : (process_event_log lib backend chain_id log i).0 ≡ ok tt =
        ap (λ (x : Result Error (Unit {0}) × Indexer). x.0) s.processes in
      ground (
        arith,
        processed,
        fine,
        s.publishes,
        source_ne_destination s.source,
        to_self,
        drop-append i.published (
            (sent_message_from_source_key s.source, e)
            ∷ (sent_message_to_destination_key destination, e)
            ∷ []),
      )

  run-waiting :
      (rest : List (Log × Outcomes)) (p : Pipeline)
      → p.is_waiting ≡ true
      → run lib backend chain_id destination rest p ≡ some p
  unfolding run index_log
  run-waiting [] p w = refl
  run-waiting ((log, o) ∷ rest) p w = ground (arith, w, run-waiting rest p w)

  abbrev failed_with : String → Job → Relayer → Loop Relayer Error
  failed_with x job r =
      returned (some (relay_failed_after 1 (external x)))
        (record r { calls = r.calls ++ call_of lib job ∷ [] })

  relay_fails :
      (job : Job) (x : String) (r : Relayer)
      → job.outcome 0 ≡ fails x
      → relay_messages lib (message job.entry job.outcome ∷ []) r ≡ failed_with x job r
  relay_fails job x r f =
      relay_messages-failure lib [] job x [] r tt f
      ∙ ap
          (λ cs.
            returned (some (relay_failed_after 1 (external x)))
              (record r { calls = cs ++ call_of lib job ∷ [] }))
          (append-nil r.calls)

  hand_over_running :
      (job : Job) (x : String) (i : Indexer) (r : Relayer)
      → job.outcome 0 ≡ fails x
      → hand_over lib backend chain_id destination job.outcome job.entry
          (record { indexer = i; relayer = running r; is_waiting = false })
        ≡ record { indexer = i; relayer = failed_with x job r; is_waiting = false }
  unfolding hand_over
  hand_over_running job x i r f = ground (arith, relay_fails job x r f)

  hand_over_failed :
      (outcome : Outcomes) (e : Entry) (job : Job) (x : String) (i : Indexer) (r : Relayer)
      → hand_over lib backend chain_id destination outcome e
          (record { indexer = i; relayer = failed_with x job r; is_waiting = false })
        ≡ record { indexer = i; relayer = failed_with x job r; is_waiting = true }
  unfolding hand_over
  hand_over_failed outcome e job x i r = refl

  -- A relay that fails ends the relayer's goroutine. The next message of a chain to that destination
  -- then stops the indexing of the chain: its entry is stored, and no log that comes later is
  -- processed, whatever it is.
  pub run-waits :
      (i j k : Indexer) (r : Relayer) (log next : Log) (job : Job) (e : Entry) (x : String)
      (outcome : Outcomes) (rest : List (Log × Outcomes))
      → Sends i log job.entry j
      → job.outcome 0 ≡ fails x
      → Sends j next e k
      → run lib backend chain_id destination
          ((log, job.outcome) ∷ (next, outcome) ∷ rest)
          (record { indexer = i; relayer = running r; is_waiting = false })
        ≡ some (record {
          indexer = k;
          relayer =
              returned
                (some (relay_failed_after 1 (external x)))
                (record r { calls = r.calls ++ call_of lib job ∷ [] });
          is_waiting = true;
        })
  unfolding run
  run-waits i j k r log next job e x outcome rest first fails_first second =
      let last : Pipeline = record {
        indexer = k;
        relayer = failed_with x job r;
        is_waiting = true;
      } in
      ground (
        arith,
        index_log-Sends i j log job.entry job.outcome (running r) first,
        hand_over_running job x j r fails_first,
        index_log-Sends j k next e outcome (failed_with x job r) second,
        hand_over_failed outcome e job x k r,
        run-waiting rest last refl,
      )
