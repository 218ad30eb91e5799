-- ===== src/Interop/Indexer/Life.antt =====
-- The life of one message as the indexer records it.
use supersim.Prelude.{
  ℕ, ◌≡◌, refl, sym, ◌∙◌, ap, List, [], ◌∷◌, Option, none, some, All, Result, ok, err, panic,
}
use supersim.Prelude.Tasks.{running}
use supersim.Interop.Types.{Log, Error, Ethlib}
use supersim.Interop.Store.{Store, Entry, Lifecycle}
use supersim.Interop.Store.Life.{
  Report, updater_of, keep_or, live, failures_before_relay, first_relay, IsTx, live-unrelayed,
}
use supersim.Interop.Indexer.{Indexer, ChainReader, index_logs}
use supersim.Interop.Indexer.Steps.{Role, starts, reports, nothing, view, renew, play}
use supersim.Interop.Indexer.History.{HasTopics, role_of, play_all, index_logs-refines}

abbrev report_of : Role → List Report → List Report
report_of (starts t) rs = rs
report_of (reports r) rs = r ∷ rs
report_of nothing rs = rs

abbrev pub IsStart : Role → Type 0
IsStart (starts t) = Unit
IsStart (reports r) = ⊥
IsStart nothing = ⊥

-- The lifecycle that the store has under a hash.
abbrev life_of : Option Entry → Option Lifecycle
life_of none = none
life_of (some e) = some e.lifecycle

abbrev pub lifecycle : ℕ → Store → Option Lifecycle
lifecycle k s = life_of (view k s)

renew-keep_or :
    (x : Entry) (r : Result Error Lifecycle) → (renew x r).lifecycle ≡ keep_or x.lifecycle r
renew-keep_or x (ok l) = refl
renew-keep_or x (err e) = refl
renew-keep_or x panic = refl

module _ (lib : Ethlib) (backends : ℕ → ChainReader) (k : ℕ) where
  -- The relays and failed relays that the logs report for the message.
  unfoldable pub reports_from : List (ℕ × Log) → List Report
  reports_from [] = []
  reports_from ((chain_id, log) ∷ rest) =
      report_of (role_of lib (backends chain_id) k chain_id log) (reports_from rest)

  -- No log is the sent event of the message.
  abbrev pub NotResent : List (ℕ × Log) → Type 0
  NotResent = All λ (l : ℕ × Log). ¬ IsStart (role_of lib (backends l.0) k l.0 l.1)

  play-report_of :
      (r : Role) (x : Entry) (rs : List Report)
      → ¬ IsStart r
      → (y : Entry) × (play r (some x) ≡ some y)
        × (live x.lifecycle (report_of r rs) ≡ live y.lifecycle rs)
  unfolding live
  play-report_of (starts e) x rs n = absurd (n tt)
  play-report_of (reports r) x rs n = (
    renew x (updater_of r x.lifecycle),
    refl,
    ap (λ (l : Lifecycle). live l rs) (sym (renew-keep_or x (updater_of r x.lifecycle))),
  )
  play-report_of nothing x rs n = (x, refl, refl)

  play_all-live :
      (logs : List (ℕ × Log)) (x : Entry)
      → NotResent logs
      → life_of (play_all lib backends k logs (some x))
        ≡ some (live x.lifecycle (reports_from logs))
  unfolding play_all reports_from live
  play_all-live [] x n = refl
  play_all-live ((chain_id, log) ∷ rest) x n =
      let r = role_of lib (backends chain_id) k chain_id log in
      let (y, played, lived) = play-report_of r x (reports_from rest) n.0 in
      ap (λ (o : Option Entry). life_of (play_all lib backends k rest o)) played
      ∙ play_all-live rest y n.1
      ∙ ap some (sym lived)

  played :
      (logs : List (ℕ × Log)) (o : Option Entry) (l : Lifecycle)
      → NotResent logs
      → life_of o ≡ some l
      → life_of (play_all lib backends k logs o) ≡ some (live l (reports_from logs))
  played logs none l n e = absurd (cc)
  played logs (some x) l n e =
      let same : x.lifecycle ≡ l = cc in
      play_all-live logs x n ∙ ap (λ (m : Lifecycle). some (live m (reports_from logs))) same

  -- A message whose sent event by transaction `t` was stored, and not seen again since, has after
  -- any logs of four topics that the goroutines take, by transactions whose hashes are not zero,
  -- exactly the failed relays before its first relay, in order, and that relay.
  pub index_logs-life :
      (logs : List (ℕ × Log)) (i : Indexer) (t : ℕ)
      → All (λ (l : ℕ × Log). HasTopics l.1) logs
      → NotResent logs
      → IsTx (reports_from logs)
      → lifecycle k i.store
        ≡ some (record { sent_tx_hash = t; failed_tx_hashes = []; relayed_tx_hash = 0 })
      → (i' : Indexer) × (index_logs lib backends logs i ≡ running i')
        × (lifecycle k i'.store
            ≡ some (record {
              sent_tx_hash = t;
              failed_tx_hashes = failures_before_relay (reports_from logs);
              relayed_tx_hash = first_relay (reports_from logs);
            }))
  index_logs-life logs i t h n tx fresh =
      let (i', ran, same) = index_logs-refines lib backends logs i h in
      (
        i',
        ran,
        ap life_of (same k)
            ∙ played logs (view k i.store) _ n fresh
            ∙ ap some (live-unrelayed t [] (reports_from logs) tx),
      )
