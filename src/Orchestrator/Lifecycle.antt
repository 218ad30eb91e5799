-- ===== src/Orchestrator/Lifecycle.antt =====
-- orchestrator/orchestrator.go: Start and kickOffMining. A start and the like are calls of another
-- part, recorded in their order, which come back as `outcome` says; a map is walked in the order of
-- its list. The goroutines that configure the chains are waited for, and what they do is recorded in
-- that order too; those that set the mining of the L2s are not, and only their launch is recorded.
pub mod Started
pub mod Order
pub mod Misconfigured
mod Tests
use supersim.Prelude.{
  ℕ, ltb, if◌then◌else◌, Bool, true, false, not, ◌&&◌, List, [], ◌∷◌, ◌++◌, map, Option, none, some,
  String, Result, ok, err, panic, External, returns, fails, from_external, length,
}
use supersim.Prelude.Dict.{Dict}
use supersim.Prelude.State.{Action, lift, modify, ◌>>=◌, ◌>>◌}
use supersim.Config.Types.{ChainConfig}
use supersim.Orchestrator.Network.{Orchestrator, OpSim}

-- A part of the network; those of a map go by their chain id.
pub data Part : Type 0 where
  l1 message_indexer message_relayer admin : Part
  l2_chain op_sim : ℕ → Part

pub data Deed : Type 0 where
  start_part set_interval_mining : Part → Deed
  configure_chain : ℕ → Deed
  -- The `go` of the goroutine that is to call `SetIntervalMining` of a proxy, at some later time.
  launch_mining : ℕ → Deed

-- What a deed failed with.
pub data StartError : Type 0 where
  failed : Deed → String → StartError
  mining_failed configuration_failed : List Deed → StartError

abbrev pub Run : Type 0
Run = Action (List Deed) StartError (Unit {0})

abbrev pub Outcome : Type 0
Outcome = Deed → External (Unit {0})

abbrev pub keys : {V : Type 0} → Dict V → List ℕ
keys [] = []
keys ((k, v) ∷ d) = k ∷ keys d

abbrev pub perform : Outcome → Deed → Run
perform outcome d made = (from_external (failed d) (outcome d), made ++ d ∷ [])

-- One after the other, up to the first error.
unfoldable pub perform_all : Outcome → List Deed → Run
perform_all outcome [] = lift (ok tt)
perform_all outcome (d ∷ ds) = perform outcome d >> perform_all outcome ds

abbrev pub is_failure : External (Unit {0}) → Bool
is_failure (returns a) = false
is_failure (fails e) = true

-- The deeds that fail.
unfoldable pub failures : Outcome → List Deed → List Deed
failures outcome [] = []
failures outcome (d ∷ ds) =
    let rest = failures outcome ds in if is_failure (outcome d) then d ∷ rest else rest

abbrev pub none_failed : (List Deed → StartError) → List Deed → Result StartError (Unit {0})
none_failed w [] = ok tt
none_failed w (d ∷ ds) = err (w (d ∷ ds))

-- `errs[i] = …` at the chain id `i`, in a slice as long as the map.
abbrev pub fits : ℕ → Deed → Bool
fits n (configure_chain id) = ltb id n
fits n d = true

abbrev pub all_fit : ℕ → List Deed → Bool
all_fit n [] = true
all_fit n (d ∷ ds) = let rest = all_fit n ds in if fits n d then rest else false

module _ (outcome : Outcome) (seen : Deed → Bool) where
  abbrev pub seen_of : List Deed → List Deed
  seen_of [] = []
  seen_of (d ∷ ds) = let rest = seen_of ds in if seen d then d ∷ rest else rest

  -- The errors are joined without `wg.Wait()`: nothing says which goroutines have made their call by
  -- then, if any has. `seen` says which of the errors were set.
  unfoldable pub kick_off_mining : Orchestrator → Run
  unfolding failures
  kick_off_mining o = do
    perform outcome (set_interval_mining l1)
    modify (λ made. made ++ map launch_mining (keys o.l2_op_sims))
    let calls : List Deed = map (λ (id : ℕ). set_interval_mining (op_sim id)) (keys o.l2_op_sims)
    lift (none_failed mining_failed (seen_of (failures outcome calls)))

  -- The chains are configured at once, and all of them are waited for.
  unfoldable pub configure_all : Orchestrator → Run
  unfolding failures
  configure_all o = do
    let deeds : List Deed = map configure_chain (keys o.l2_chains)
    modify (λ made. made ++ deeds)
    lift (
        if all_fit (length (keys o.l2_chains)) (failures outcome deeds)
        then none_failed configuration_failed (failures outcome deeds)
        else panic)

  abbrev pub start_relayer : Orchestrator → Run
  start_relayer o = elim o.relayer [
    | none ↦ lift (ok tt)
    | some r ↦ perform outcome (start_part message_relayer)
  ]

  abbrev pub start_interop : Orchestrator → Run
  start_interop o =
      configure_all o >> (perform outcome (start_part message_indexer) >> start_relayer o)

  unfoldable pub start : Orchestrator → Run
  unfolding perform_all
  start o = do
    perform outcome (start_part l1)
    perform_all outcome (map (λ (id : ℕ). start_part (l2_chain id)) (keys o.l2_chains))
    perform_all outcome (map (λ (id : ℕ). start_part (op_sim id)) (keys o.l2_op_sims))
    kick_off_mining o
    if o.config.interop_enabled then start_interop o else lift (ok tt)
    perform outcome (start_part admin)
