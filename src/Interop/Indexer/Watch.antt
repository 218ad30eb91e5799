-- ===== src/Interop/Indexer/Watch.antt =====
-- The goroutine of one chain.
use supersim.Prelude.{ℕ, ◌≡◌, ◌≢◌, refl, List, [], ◌∷◌, Option, arith, Result-cases, inl, inr}
use supersim.Prelude.Tasks.{returned}
use supersim.Interop.Types.{Log, Error, Ethlib}
use supersim.Interop.Indexer.{
  Indexer, ChainReader, Select, incoming, done, process_event_log, watch, index_logs,
}

-- The logs that the selects took.
unfoldable pub logs_of : ℕ → List Select → List (ℕ × Log)
logs_of chain_id [] = []
logs_of chain_id (incoming log ∷ rest) = (chain_id, log) ∷ logs_of chain_id rest
logs_of chain_id (done ∷ rest) = logs_of chain_id rest

module _ (lib : Ethlib) (backend : ChainReader) (chain_id : ℕ) where
  -- Whatever the select takes, the goroutine never returns: after the context has ended it takes
  -- and stores logs as before, as if the end had not been signalled.
  pub watch-ignores_done :
      (selects : List Select) (i : Indexer)
      → (watch lib backend chain_id selects i
          ≡ index_logs lib (λ c. backend) (logs_of chain_id selects) i)
        × ((e : Option Error) (i' : Indexer) → watch lib backend chain_id selects i ≢ returned e i')
  unfolding watch index_logs logs_of
  watch-ignores_done [] i = (refl, λ e i' h. cc)
  watch-ignores_done (done ∷ rest) i = watch-ignores_done rest i
  watch-ignores_done (incoming log ∷ rest) i =
      let step = process_event_log lib backend chain_id log i in
      let (same, stays) = watch-ignores_done rest step.1 in
      elim (Result-cases step.0) [
        | inl (a, q) ↦ (ground (arith, same), λ e i' h. ground (arith, stays e i'))
        | inr (inl (a, q)) ↦ (ground (arith, same), λ e i' h. ground (arith, stays e i'))
        | inr (inr q) ↦ (ground arith, λ e i' h. ground arith)
      ]
