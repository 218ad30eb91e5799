-- ===== src/OpSimulator/Deposits/Stream.antt =====
-- What comes out of the subscription of deposits.
use mathlib.Core.List.{append-nil, append_assoc}
use supersim.Prelude.{
  ℕ, ◌≡◌, ◌≢◌, ap, ◌∙◌, List, [], ◌∷◌, ◌++◌, none, String, Result, ok, err, External, returns,
  fails, arith,
}
use supersim.Prelude.Tasks.{returned}
use supersim.Interop.Types.{Log}
use supersim.OpSimulator.Deposits.{
  DepositError, not_a_deposit_event, unmarshal_failed, subscription_failed, Deposits, Taken,
  log_taken, log_error, context_done, unsubscribed, log_to_deposit_tx, after_decoding,
  forward_deposits,
}

-- A log and what it is to the subscription.
pub data Reads {D : Type 0} (event_id : ℕ) (unmarshal : Log → External D)
    : List Taken → List D → List DepositError → Type 0 where
  nothing : Reads event_id unmarshal [] [] []
  deposit :
      {log : Log} {ts : List ℕ} {d : D} {rest : List Taken} {ds : List D} {es : List DepositError}
      → log.topics ≡ event_id ∷ ts
      → unmarshal log ≡ returns d
      → Reads event_id unmarshal rest ds es
      → Reads event_id unmarshal (log_taken log ∷ rest) (d ∷ ds) es
  malformed :
      {log : Log} {ts : List ℕ} {x : String} {rest : List Taken} {ds : List D}
      {es : List DepositError}
      → log.topics ≡ event_id ∷ ts
      → unmarshal log ≡ fails x
      → Reads event_id unmarshal rest ds es
      → Reads event_id unmarshal (log_taken log ∷ rest) ds (unmarshal_failed x ∷ es)
  foreign :
      {log : Log} {t : ℕ} {ts : List ℕ} {rest : List Taken} {ds : List D} {es : List DepositError}
      → log.topics ≡ t ∷ ts
      → t ≢ event_id
      → Reads event_id unmarshal rest ds es
      → Reads event_id unmarshal (log_taken log ∷ rest) ds (not_a_deposit_event ∷ es)
  anonymous :
      {log : Log} {rest : List Taken} {ds : List D} {es : List DepositError}
      → log.topics ≡ []
      → Reads event_id unmarshal rest ds es
      → Reads event_id unmarshal (log_taken log ∷ rest) ds (not_a_deposit_event ∷ es)
  broken :
      {x : String} {rest : List Taken} {ds : List D} {es : List DepositError}
      → Reads event_id unmarshal rest ds es
      → Reads event_id unmarshal (log_error x ∷ rest) ds (subscription_failed x ∷ es)

-- What ends the loop.
abbrev pub IsEnd : Taken → Type 0
IsEnd context_done = Unit
IsEnd unsubscribed = Unit
IsEnd (log_taken log) = ⊥
IsEnd (log_error x) = ⊥

module _ {D : Type 0} (event_id : ℕ) (unmarshal : Log → External D) where
  abbrev pub extended : Deposits D → List D → List DepositError → Deposits D
  extended s ds es = record { deposits = s.deposits ++ ds; errors = s.errors ++ es }

  extended_nil : (s : Deposits D) → s ≡ extended s [] []
  extended_nil s = ground (arith, append-nil s.deposits, append-nil s.errors)

  extended_deposit :
      (s : Deposits D) (d : D) (ds : List D) (es : List DepositError)
      → extended (record s { deposits = s.deposits ++ d ∷ [] }) ds es ≡ extended s (d ∷ ds) es
  extended_deposit s d ds es = ground (arith, append_assoc s.deposits (d ∷ []) ds)

  extended_error :
      (s : Deposits D) (e : DepositError) (ds : List D) (es : List DepositError)
      → extended (record s { errors = s.errors ++ e ∷ [] }) ds es ≡ extended s ds (e ∷ es)
  extended_error s e ds es = ground (arith, append_assoc s.errors (e ∷ []) es)

  decoded_step :
      (log : Log) (rest : List Taken) (s : Deposits D) (r : Result DepositError D)
      → log_to_deposit_tx event_id unmarshal log ≡ r
      → forward_deposits event_id unmarshal (log_taken log ∷ rest) s
        ≡ forward_deposits event_id unmarshal rest (after_decoding event_id unmarshal r s)
  unfolding forward_deposits
  decoded_step log rest s r e =
      ap (λ x. forward_deposits event_id unmarshal rest (after_decoding event_id unmarshal x s)) e

  decodes_deposit :
      (log : Log) (ts : List ℕ) (d : D)
      → log.topics ≡ event_id ∷ ts
      → unmarshal log ≡ returns d
      → log_to_deposit_tx event_id unmarshal log ≡ ok d
  unfolding log_to_deposit_tx
  decodes_deposit log ts d t u = ground arith

  decodes_malformed :
      (log : Log) (ts : List ℕ) (x : String)
      → log.topics ≡ event_id ∷ ts
      → unmarshal log ≡ fails x
      → log_to_deposit_tx event_id unmarshal log ≡ err (unmarshal_failed x)
  unfolding log_to_deposit_tx
  decodes_malformed log ts x t u = ground arith

  decodes_foreign :
      (log : Log) (h : ℕ) (ts : List ℕ)
      → log.topics ≡ h ∷ ts
      → h ≢ event_id
      → log_to_deposit_tx event_id unmarshal log ≡ err not_a_deposit_event
  unfolding log_to_deposit_tx
  decodes_foreign log h ts t n = ground arith

  decodes_anonymous :
      (log : Log)
      → log.topics ≡ []
      → log_to_deposit_tx event_id unmarshal log ≡ err not_a_deposit_event
  unfolding log_to_deposit_tx
  decodes_anonymous log t = ground arith

  -- Of what is taken before the context ends or the subscriber leaves, each well-formed deposit
  -- event is sent on as its deposit and everything else as an error, both in the order taken; then
  -- the goroutine returns, and what it might take afterwards is not sent.
  pub forward_deposits_lem :
      (taken rest : List Taken) (end : Taken) (ds : List D) (es : List DepositError)
      (s : Deposits D)
      → IsEnd end
      → Reads event_id unmarshal taken ds es
      → forward_deposits event_id unmarshal (taken ++ end ∷ rest) s
        ≡ returned none (extended s ds es)
  unfolding forward_deposits
  forward_deposits_lem taken rest context_done ds es s h nothing =
      ap (returned none) (extended_nil s)
  forward_deposits_lem taken rest unsubscribed ds es s h nothing =
      ap (returned none) (extended_nil s)
  forward_deposits_lem taken rest (log_taken log) ds es s h nothing = elim h [ ]
  forward_deposits_lem taken rest (log_error x) ds es s h nothing = elim h [ ]
  forward_deposits_lem taken rest end ds es s h
        (deposit {log = log} {ts = ts} {d = d} {rest = more} {ds = ds'} t u r) =
      decoded_step log (more ++ end ∷ rest) s (ok d) (decodes_deposit log ts d t u)
      ∙ forward_deposits_lem more rest end ds' es (record s { deposits = s.deposits ++ d ∷ [] }) h r
      ∙ ap (returned none) (extended_deposit s d ds' es)
  forward_deposits_lem taken rest end ds es s h
        (malformed {log = log} {ts = ts} {x = x} {rest = more} {es = es'} t u r) =
      decoded_step log (more ++ end ∷ rest) s (err (unmarshal_failed x))
        (decodes_malformed log ts x t u)
      ∙ forward_deposits_lem more rest end ds es'
          (record s { errors = s.errors ++ (unmarshal_failed x) ∷ [] }) h r
      ∙ ap (returned none) (extended_error s (unmarshal_failed x) ds es')
  forward_deposits_lem taken rest end ds es s h
        (foreign {log = log} {t = k} {ts = ts} {rest = more} {es = es'} t n r) =
      decoded_step log (more ++ end ∷ rest) s (err not_a_deposit_event)
        (decodes_foreign log k ts t n)
      ∙ forward_deposits_lem more rest end ds es'
          (record s { errors = s.errors ++ not_a_deposit_event ∷ [] }) h r
      ∙ ap (returned none) (extended_error s not_a_deposit_event ds es')
  forward_deposits_lem taken rest end ds es s h
        (anonymous {log = log} {rest = more} {es = es'} t r) =
      decoded_step log (more ++ end ∷ rest) s (err not_a_deposit_event) (decodes_anonymous log t)
      ∙ forward_deposits_lem more rest end ds es'
          (record s { errors = s.errors ++ not_a_deposit_event ∷ [] }) h r
      ∙ ap (returned none) (extended_error s not_a_deposit_event ds es')
  forward_deposits_lem taken rest end ds es s h (broken {x = x} {rest = more} {es = es'} r) =
      forward_deposits_lem more rest end ds es'
        (record s { errors = s.errors ++ (subscription_failed x) ∷ [] }) h r
      ∙ ap (returned none) (extended_error s (subscription_failed x) ds es')
