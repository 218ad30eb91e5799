-- ===== src/Interop/Indexer/Origins.antt =====
-- Which entries of the store still have the log that they were made from.
use mathlib.Core.Path.{subst}
use supersim.Prelude.{
  ℕ, ◌≡◌, ◌≢◌, ◌==◌, refl, sym, List, [], ◌∷◌, ◌++◌, none, some, panic, All, arith, length-append,
  ◌⊎◌, inl, inr, Bool-cases, Result-cases,
}
use supersim.Prelude.Dict.{lookup, insert, lookup-insert}
use supersim.Prelude.Tasks.{state_of}
use supersim.Interop.Types.{Log, Identifier, Ethlib}
use supersim.Interop.Store.{
  Store, Entry, Lifecycle, sent, status, new_entry, message_payload, relayed_updater,
  failed_updater,
}
use supersim.Interop.Indexer.{Indexer, ChainReader, process_event_log, index_logs}
use supersim.Interop.Indexer.Steps.{updated}
use supersim.Interop.Indexer.Changes.{
  Change, unchanged, entered, renewed, IsUpdate, process_event_log-Change,
}

IsUpdate-ne-sent : (tx : ℕ) (l l' : Lifecycle) → tx ≢ 0 → IsUpdate tx l l' → status l' ≢ sent
unfolding relayed_updater failed_updater status
IsUpdate-ne-sent tx l l' h (inl u) e = ground (arith, h)
IsUpdate-ne-sent tx l l' h (inr u) e =
    ground (arith, length-append ([] ++ l.failed_tx_hashes) (tx ∷ []))

module _ (lib : Ethlib) where
  -- An entry of a message only sent has its identifier and its log; one of a message that was
  -- relayed, or failed to be, has no identifier, and its payload is a nil dereference.
  abbrev pub HasOrigin : Entry → Type 0
  HasOrigin e =
      ((status e.lifecycle ≡ sent)
        × ((id : Identifier) × (log : Log) × (e.identifier ≡ some id) × (e.log ≡ some log)))
      ⊎ ((status e.lifecycle ≢ sent) × (e.identifier ≡ none) × (message_payload lib e ≡ panic))

  abbrev pub AllOrigins : Store → Type 0
  AllOrigins s = (k : ℕ) (e : Entry) → lookup k s.entry_by_hash ≡ some e → HasOrigin e

  insert-AllOrigins :
      (h : ℕ) (e : Entry) (s : Store)
      → HasOrigin e
      → AllOrigins s
      → AllOrigins (record { entry_by_hash = insert h e s.entry_by_hash })
  insert-AllOrigins h e s new all k x found = elim (Bool-cases (h == k)) [
    | inl t ↦
        let same : e ≡ x = ground (arith, lookup-insert h k e s.entry_by_hash, t) in rw (← same) new
    | inr f ↦ all k x (ground (arith, lookup-insert h k e s.entry_by_hash, f))
  ]

  Change-AllOrigins :
      {tx : ℕ} {s s' : Store} → tx ≢ 0 → Change lib tx s s' → AllOrigins s → AllOrigins s'
  unfolding message_payload status
  Change-AllOrigins t (unchanged p) all = rw p all
  Change-AllOrigins {s} t (entered h m log id q p) all =
      rw p (insert-AllOrigins h (new_entry lib m log id) s (inl (refl, (id, log, refl, refl))) all)
  Change-AllOrigins {tx} {s} t (renewed h e l q u p) all = rw p (
      insert-AllOrigins h (updated e l) s (inr (IsUpdate-ne-sent tx e.lifecycle l t u, refl, refl))
        all)

  -- Whatever logs the indexer's goroutines take, in whatever order, from a store of which this holds,
  -- as it does of the empty one, and by transactions whose hashes are not zero: an entry of a message that was only sent has
  -- its identifier and its log, and an entry of a message that was relayed, or that failed to be, has
  -- lost them, so that to ask for its payload panics.
  pub index_logs-AllOrigins :
      (backends : ℕ → ChainReader) (logs : List (ℕ × Log)) (i : Indexer)
      → All (λ (x : ℕ × Log). x.1.tx_hash ≢ 0) logs
      → AllOrigins i.store
      → AllOrigins (state_of (index_logs lib backends logs i)).store
  unfolding index_logs
  index_logs-AllOrigins backends [] i h all = all
  index_logs-AllOrigins backends ((chain_id, log) ∷ rest) i h all =
      let step = process_event_log lib (backends chain_id) chain_id log i in
      let kept : AllOrigins step.1.store =
        Change-AllOrigins h.0 (process_event_log-Change lib (backends chain_id) chain_id log i)
          all in
      let there = state_of (index_logs lib backends ((chain_id, log) ∷ rest) i) in
      let onward : AllOrigins (state_of (index_logs lib backends rest step.1)).store =
        index_logs-AllOrigins backends rest step.1 h.1 kept in
      elim (Result-cases step.0) [
        | inl (a, q) ↦
            let same : there ≡ state_of (index_logs lib backends rest step.1) = ground (arith, q) in
            subst (λ (j : Indexer). AllOrigins j.store) (sym same) onward
        | inr (inl (e, q)) ↦
            let same : there ≡ state_of (index_logs lib backends rest step.1) = ground (arith, q) in
            subst (λ (j : Indexer). AllOrigins j.store) (sym same) onward
        | inr (inr q) ↦
            let same : there ≡ step.1 = ground (arith, q) in
            subst (λ (j : Indexer). AllOrigins j.store) (sym same) kept
      ]
