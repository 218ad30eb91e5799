-- ===== src/Interop/Applier.antt =====
-- interop/applier.go: the interop contracts of a chain and its dependency set. The addresses of the
-- predeploys, the genesis that the repository embeds and the ABI of L1BlockInterop are outside; the
-- calls made of the chain are recorded, and come back as `outcome` says.
pub mod Applied
mod Tests
use text.Mathlib.Text.{◌==◌ as str_eq}
use supersim.Prelude.{
  ℕ, ◌+◌, ◌%◌, ◌==◌, ltb, not, if◌then◌else◌, List, [], ◌∷◌, ◌++◌, Option, none, some, String,
  Result, ok, err, External, from_external, fail_if, or_err,
}
use supersim.Prelude.State.{Action, lift, wrap_err, ◌>>=◌, ◌>>◌}
use supersim.Config.Types.{ChainConfig, L2Config}

-- `genesis.Alloc`; the balance is the number that its hexadecimal text spells.
pub record Alloc : Type 0 where
  pub code : String
  pub storage : Option (List (String × String))
  pub balance : ℕ

-- What is called of a chain; a deposit transaction sets the configuration of L1Block.
pub data Call : Type 0 where
  set_code : ℕ → String → Call
  set_storage_at : ℕ → String → String → Call
  set_balance : ℕ → ℕ → Call
  send_set_config : List ℕ → Call

-- A constructor to each `fmt.Errorf`; a wrapped error is the argument.
pub data ApplyError : Type 0 where
  call_failed : Call → String → ApplyError
  alloc_not_found : ℕ → ApplyError
  apply_failed : ℕ → ApplyError → ApplyError
  predeploy_failed : ℕ → ApplyError
  genesis_failed calldata_failed receipt_failed : String → ApplyError
  set_config_failed : ApplyError
  dependency_failed : String → ApplyError → ApplyError

-- What a round of the wait for a receipt sees.
pub data Poll : Type 0 where
  receipt : ℕ → Poll
  not_mined : Poll

pub record Setup : Type 0 where
  pub cross_l2_inbox : ℕ
  pub l2_to_l2_cross_domain_messenger : ℕ
  pub l1_block : ℕ
  pub superchain_weth : ℕ
  pub eth_liquidity : ℕ
  pub superchain_token_bridge : ℕ
  -- The allocations of the embedded genesis, by address
  pub genesis : External (ℕ → Option Alloc)
  -- The packed call of `setConfig` that adds a chain
  pub pack_set_config : ℕ → External (List ℕ)
  -- The rounds of the wait after a transaction; the context ends after the last one
  pub polls : List ℕ → List Poll
  pub outcome : Call → External (Unit {0})

abbrev pub interop_predeploys : Setup → List ℕ
interop_predeploys s =
    s.cross_l2_inbox ∷ s.l2_to_l2_cross_domain_messenger ∷ s.l1_block ∷ s.superchain_weth
    ∷ s.eth_liquidity ∷ s.superchain_token_bridge ∷ []

-- The low 16 bits of the address, in a name space that has none of them set.
unfoldable pub predeploy_to_code_namespace : ℕ → ℕ
predeploy_to_code_namespace addr = addr % 0x10000 + 0xc0d3c0d3c0d3c0d3c0d3c0d3c0d3c0d3c0d30000

abbrev pub Calls : Type 0 → Type 0
Calls A = Action (List Call) ApplyError A

unfoldable pub wait_mined : List Poll → Result ApplyError ℕ
wait_mined [] = err (receipt_failed "context done")
wait_mined (receipt status ∷ polls) = ok status
wait_mined (not_mined ∷ polls) = wait_mined polls

abbrev pub perform : Setup → Call → Calls (Unit {0})
perform s c made = (from_external (call_failed c) (s.outcome c), made ++ c ∷ [])

unfoldable pub set_all_storage : Setup → ℕ → List (String × String) → Calls (Unit {0})
set_all_storage s address [] = lift (ok tt)
set_all_storage s address ((slot, value) ∷ rest) =
    perform s (set_storage_at address slot value) >> set_all_storage s address rest

abbrev pub set_storage : Setup → ℕ → Option (List (String × String)) → Calls (Unit {0})
set_storage s address none = lift (ok tt)
set_storage s address (some slots) = set_all_storage s address slots

unfoldable pub apply_alloc_to_address : Setup → Alloc → ℕ → Calls (Unit {0})
apply_alloc_to_address s alloc address = do
  if not (str_eq alloc.code "0x") then perform s (set_code address alloc.code) else lift (ok tt)
  set_storage s address alloc.storage
  if ltb 0 alloc.balance then perform s (set_balance address alloc.balance) else lift (ok tt)

abbrev pub apply_at : Setup → (ℕ → Option Alloc) → ℕ → Calls (Unit {0})
apply_at s genesis address = do
  alloc ← lift (or_err (genesis address) (alloc_not_found address))
  wrap_err (apply_failed address) (apply_alloc_to_address s alloc address)

unfoldable pub apply_alloc_for_predeploy : Setup → (ℕ → Option Alloc) → ℕ → Calls (Unit {0})
apply_alloc_for_predeploy s genesis proxy = do
  apply_at s genesis (predeploy_to_code_namespace proxy)
  apply_at s genesis proxy

unfoldable pub apply_predeploys : Setup → (ℕ → Option Alloc) → List ℕ → Calls (Unit {0})
apply_predeploys s genesis [] = lift (ok tt)
apply_predeploys s genesis (proxy ∷ rest) =
    wrap_err (λ e. predeploy_failed proxy) (apply_alloc_for_predeploy s genesis proxy)
    >> apply_predeploys s genesis rest

unfoldable pub add_chain_dependency : Setup → ℕ → Calls (Unit {0})
unfolding wait_mined
add_chain_dependency s chain_id = do
  payload ← lift (from_external calldata_failed (s.pack_set_config chain_id))
  perform s (send_set_config payload)
  status ← lift (wait_mined (s.polls payload))
  lift (fail_if (status == 0) set_config_failed)

unfoldable pub add_dependencies : Setup → String → List ℕ → Calls (Unit {0})
add_dependencies s name [] = lift (ok tt)
add_dependencies s name (id ∷ ids) =
    wrap_err (dependency_failed name) (add_chain_dependency s id) >> add_dependencies s name ids

-- The contracts are applied to a forked chain only, since a local genesis has them.
abbrev pub apply_to_fork : Setup → ChainConfig → Calls (Unit {0})
apply_to_fork s cfg = elim cfg.fork_config [
  | none ↦ lift (ok tt)
  | some f ↦ do
    genesis ← lift (from_external genesis_failed s.genesis)
    apply_predeploys s genesis (interop_predeploys s)
]

unfoldable pub configure : Setup → ChainConfig → Calls (Unit {0})
configure s cfg = elim cfg.l2_config [
  | none ↦ lift (ok tt)
  | some l2 ↦ do apply_to_fork s cfg; add_dependencies s cfg.name l2.dependency_set
]
