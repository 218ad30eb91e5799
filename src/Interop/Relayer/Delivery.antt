-- ===== src/Interop/Relayer/Delivery.antt =====
-- Which messages the goroutine of a destination relays.
use mathlib.Core.List.{append-nil, append_assoc}
use supersim.Prelude.{
  ℕ, ◌≡◌, refl, ap, ◌∙◌, List, [], ◌∷◌, ◌++◌, some, ok, err, returns, fails, arith, map, All,
  String,
}
use supersim.Prelude.Tasks.{returned}
use supersim.Interop.Types.{Log, Identifier, Ethlib, external, relay_failed_after}
use supersim.Interop.Message.{executing_message_payload_bytes}
use supersim.Interop.Store.{Entry}
use supersim.Interop.Indexer.Publications.{Relayable}
use supersim.Interop.Relayer.{
  Relay, Relayer, Outcomes, Select, message, relay_call, relay_message_with_retry, relay_messages,
}
use supersim.Interop.Relayer.Retries.{relay_message_with_retry_lem}

-- A message with the log and the identifier that its entry holds, and its calls' outcomes.
pub record Job : Type 0 where
  pub entry : Entry
  pub identifier : Identifier
  pub log : Log
  pub outcome : Outcomes
  pub has_identifier : entry.identifier ≡ some identifier
  pub has_log : entry.log ≡ some log

abbrev pub select_of : Job → Select
select_of j = message j.entry j.outcome

module _ (lib : Ethlib) where
  -- The call that relays a message: its identifier, and the payload of its log.
  abbrev pub call_of : Job → Relay
  call_of j = record {
    identifier = j.identifier;
    payload = executing_message_payload_bytes lib j.log;
  }

  relay_call-job : (j : Job) → relay_call lib j.entry ≡ ok (call_of j)
  unfolding relay_call
  relay_call-job j = ground (arith, j.has_identifier, j.has_log)

  -- An entry that a relayer receives has what makes it a job.
  pub Relayable-job :
      (d : ℕ) (e : Entry) (outcome : Outcomes)
      → Relayable d e
      → (j : Job) × (j.entry ≡ e) × (j.outcome ≡ outcome)
  Relayable-job d e outcome (here, (id, q), (log, p)) = (
    record {
      entry = e;
      identifier = id;
      log = log;
      outcome = outcome;
      has_identifier = q;
      has_log = p;
    },
    refl,
    refl,
  )

  abbrev pub Succeeds : Job → Type 0
  Succeeds j = j.outcome 0 ≡ returns tt

  relay-success :
      (j : Job) (r : Relayer)
      → Succeeds j
      → relay_message_with_retry lib j.entry 1 j.outcome r
        ≡ (ok tt, record r { calls = r.calls ++ call_of j ∷ [] })
  relay-success j r s =
      (relay_message_with_retry_lem lib j.entry (call_of j) j.outcome 1 0 r (relay_call-job j)
          (omega arith) (λ k h. elim h [ ])).0
        s
      ∙ ground (arith, append-nil r.sleeps)

  relay-failure :
      (j : Job) (e : String) (r : Relayer)
      → j.outcome 0 ≡ fails e
      → relay_message_with_retry lib j.entry 1 j.outcome r
        ≡ (err (relay_failed_after 1 (external e)), record r { calls = r.calls ++ call_of j ∷ [] })
  relay-failure j e r s =
      (relay_message_with_retry_lem lib j.entry (call_of j) j.outcome 1 0 r (relay_call-job j)
          (omega arith) (λ k h. elim h [ ])).1
        e (omega arith) s
      ∙ ground (arith, append-nil r.sleeps)

  -- Messages whose first calls succeed are each relayed by one call, in the order received, and
  -- the goroutine takes what comes next.
  pub relay_messages-success :
      (jobs : List Job) (rest : List Select) (r : Relayer)
      → All Succeeds jobs
      → relay_messages lib (map select_of jobs ++ rest) r
        ≡ relay_messages lib rest (record r { calls = r.calls ++ map call_of jobs })
  unfolding relay_messages
  relay_messages-success [] rest r s =
      ap (relay_messages lib rest) (ground (arith, append-nil r.calls))
  relay_messages-success (j ∷ jobs) rest r s =
      rw (relay-success j r s.0, relay_messages)
        (relay_messages-success jobs rest (record r { calls = r.calls ++ call_of j ∷ [] }) s.1
          ∙ ap (relay_messages lib rest)
              (ground (arith, append_assoc r.calls (call_of j ∷ []) (map call_of jobs))))

  relay_messages-stops :
      (j : Job) (e : String) (rest : List Select) (r : Relayer)
      → j.outcome 0 ≡ fails e
      → relay_messages lib (select_of j ∷ rest) r
        ≡ returned
            (some (relay_failed_after 1 (external e)))
            (record r { calls = r.calls ++ call_of j ∷ [] })
  unfolding relay_messages
  relay_messages-stops j e rest r f = rw (relay-failure j e r f, relay_messages)

  -- The first message whose call fails ends the goroutine with an error: nothing that comes after
  -- it is relayed, however many messages that is.
  pub relay_messages-failure :
      (jobs : List Job) (j : Job) (e : String) (rest : List Select) (r : Relayer)
      → All Succeeds jobs
      → j.outcome 0 ≡ fails e
      → relay_messages lib (map select_of jobs ++ select_of j ∷ rest) r
        ≡ returned
            (some (relay_failed_after 1 (external e)))
            (record r { calls = (r.calls ++ map call_of jobs) ++ call_of j ∷ [] })
  relay_messages-failure jobs j e rest r s f =
      relay_messages-success jobs (select_of j ∷ rest) r s
      ∙ relay_messages-stops j e rest (record r { calls = r.calls ++ map call_of jobs }) f
