-- ===== src/Interop/Applier/Applied.antt =====
-- What has been called of a chain once it is configured.
use mathlib.Core.List.{append-nil}
use supersim.Prelude.{
  ℕ, ltb, not, if◌then◌else◌, ◌≡◌, refl, List, [], ◌∷◌, ◌++◌, All, Option, none, some, String, ok,
  returns, arith,
}
use text.Mathlib.Text.{◌==◌ as str_eq}
use supersim.Config.Types.{ChainConfig, L2Config, ForkConfig}
use supersim.Prelude.Calls.{Makes, Makes-nothing, Makes-then, Makes-wrapped, Makes-if}
use supersim.Interop.Applier.{
  predeploy_failed, dependency_failed, Alloc, Call, set_code, set_storage_at, set_balance,
  send_set_config, Setup, interop_predeploys, predeploy_to_code_namespace, wait_mined, perform,
  set_all_storage, set_storage, apply_alloc_to_address, apply_at, apply_alloc_for_predeploy,
  apply_predeploys, add_chain_dependency, add_dependencies, apply_to_fork, configure,
}

-- The calls that give an address its allocation: the code if there is some, the slots, the balance
-- if it is not zero.
abbrev pub storage_calls : ℕ → List (String × String) → List Call
storage_calls address [] = []
storage_calls address ((slot, value) ∷ rest) =
    set_storage_at address slot value ∷ storage_calls address rest

abbrev pub slots_of : Option (List (String × String)) → List (String × String)
slots_of none = []
slots_of (some slots) = slots

abbrev pub alloc_calls : Alloc → ℕ → List Call
alloc_calls a address =
    (if not (str_eq a.code "0x") then set_code address a.code ∷ [] else [])
    ++ (storage_calls address (slots_of a.storage)
        ++ (if ltb 0 a.balance then set_balance address a.balance ∷ [] else []))

-- The calls that a predeploy needs: those of its implementation and those of its proxy.
abbrev pub calls_at : (ℕ → Option Alloc) → ℕ → List Call
calls_at genesis address = elim (genesis address) [ none ↦ [] | some a ↦ alloc_calls a address ]

abbrev pub predeploys_calls : (ℕ → Option Alloc) → List ℕ → List Call
predeploys_calls genesis [] = []
predeploys_calls genesis (proxy ∷ rest) =
    (calls_at genesis (predeploy_to_code_namespace proxy) ++ calls_at genesis proxy)
    ++ predeploys_calls genesis rest

abbrev pub HasAllocs : (ℕ → Option Alloc) → ℕ → Type 0
HasAllocs genesis proxy =
    ((a : Alloc) × (genesis (predeploy_to_code_namespace proxy) ≡ some a))
    × ((b : Alloc) × (genesis proxy ≡ some b))

-- A chain that forks another one gets the predeploys.
abbrev pub fork_calls : Option ForkConfig → (ℕ → Option Alloc) → List ℕ → List Call
fork_calls none genesis proxies = []
fork_calls (some f) genesis proxies = predeploys_calls genesis proxies

abbrev pub dependency_calls : (ℕ → List ℕ) → List ℕ → List Call
dependency_calls payload [] = []
dependency_calls payload (id ∷ ids) =
    (send_set_config (payload id) ∷ []) ++ dependency_calls payload ids

module _ (s : Setup) (works : (c : Call) → s.outcome c ≡ returns tt) where
  perform-Makes : (c : Call) → Makes (perform s c) (c ∷ [])
  perform-Makes c made = ground (arith, works c)

  set_all_storage-Makes :
      (address : ℕ) (slots : List (String × String))
      → Makes (set_all_storage s address slots) (storage_calls address slots)
  unfolding set_all_storage
  set_all_storage-Makes address [] = Makes-nothing
  set_all_storage-Makes address ((slot, value) ∷ rest) =
      Makes-then (perform s (set_storage_at address slot value)) (set_all_storage s address rest)
        (set_storage_at address slot value ∷ []) (storage_calls address rest)
        (perform-Makes (set_storage_at address slot value)) (set_all_storage-Makes address rest)

  set_storage-Makes :
      (address : ℕ) (o : Option (List (String × String)))
      → Makes (set_storage s address o) (storage_calls address (slots_of o))
  set_storage-Makes address none = Makes-nothing
  set_storage-Makes address (some slots) = set_all_storage-Makes address slots

  apply_alloc_to_address-Makes :
      (a : Alloc) (address : ℕ) → Makes (apply_alloc_to_address s a address) (alloc_calls a address)
  unfolding apply_alloc_to_address
  apply_alloc_to_address-Makes a address =
      Makes-then _ _ _ _
        (Makes-if (not (str_eq a.code "0x")) _ _ (perform-Makes (set_code address a.code)))
        (Makes-then _ _ _ _ (set_storage-Makes address a.storage)
          (Makes-if (ltb 0 a.balance) _ _ (perform-Makes (set_balance address a.balance))))

  apply_at-Makes :
      (genesis : ℕ → Option Alloc) (address : ℕ)
      → (a : Alloc) × (genesis address ≡ some a)
      → Makes (apply_at s genesis address) (calls_at genesis address)
  apply_at-Makes genesis address (a, e) made =
      ground (arith, e, apply_alloc_to_address-Makes a address made)

  apply_predeploys-Makes :
      (genesis : ℕ → Option Alloc) (proxies : List ℕ)
      → All (HasAllocs genesis) proxies
      → Makes (apply_predeploys s genesis proxies) (predeploys_calls genesis proxies)
  unfolding apply_predeploys apply_alloc_for_predeploy
  apply_predeploys-Makes genesis [] h = Makes-nothing
  apply_predeploys-Makes genesis (proxy ∷ rest) h =
      Makes-then _ _ _ _
        (Makes-wrapped (λ e. predeploy_failed proxy) _ _
          (Makes-then _ _ _ _ (apply_at-Makes genesis (predeploy_to_code_namespace proxy) h.0.0)
            (apply_at-Makes genesis proxy h.0.1)))
        (apply_predeploys-Makes genesis rest h.1)

  module _ (payload : ℕ → List ℕ) (packs : (id : ℕ) → s.pack_set_config id ≡ returns (payload id))
      (mined : (p : List ℕ) → wait_mined (s.polls p) ≡ ok 1) where
    add_chain_dependency-Makes :
        (id : ℕ) → Makes (add_chain_dependency s id) (send_set_config (payload id) ∷ [])
    unfolding add_chain_dependency
    add_chain_dependency-Makes id made =
        ground (arith, packs id, works (send_set_config (payload id)), mined (payload id))

    add_dependencies-Makes :
        (name : String) (ids : List ℕ)
        → Makes (add_dependencies s name ids) (dependency_calls payload ids)
    unfolding add_dependencies
    add_dependencies-Makes name [] = Makes-nothing
    add_dependencies-Makes name (id ∷ ids) =
        Makes-then _ _ _ _
          (Makes-wrapped (dependency_failed name) _ _ (add_chain_dependency-Makes id))
          (add_dependencies-Makes name ids)

    apply_to_fork-Makes :
        (cfg : ChainConfig) (o : Option ForkConfig) (genesis : ℕ → Option Alloc)
        → cfg.fork_config ≡ o
        → s.genesis ≡ returns genesis
        → All (HasAllocs genesis) (interop_predeploys s)
        → Makes (apply_to_fork s cfg) (fork_calls o genesis (interop_predeploys s))
    apply_to_fork-Makes cfg none genesis e g h made = ground (arith, e, append-nil made)
    apply_to_fork-Makes cfg (some f) genesis e g h made =
        ground (arith, e, g, apply_predeploys-Makes genesis (interop_predeploys s) h made)

    -- Where the embedded genesis has an allocation for each predeploy and its implementation, the
    -- calls succeed and the transactions are mined, an L2 is configured by these calls, in order: if
    -- it is a fork, for each predeploy its implementation's code, slots and balance and then its
    -- own; and a transaction to each chain of the dependency set.
    pub configure_lem :
        (cfg : ChainConfig) (l2 : L2Config) (genesis : ℕ → Option Alloc) (made : List Call)
        → cfg.l2_config ≡ some l2
        → s.genesis ≡ returns genesis
        → All (HasAllocs genesis) (interop_predeploys s)
        → configure s cfg made ≡ (
          ok tt,
          made
              ++ (fork_calls cfg.fork_config genesis (interop_predeploys s)
                  ++ dependency_calls payload l2.dependency_set),
        )
    unfolding configure
    configure_lem cfg l2 genesis made e g h = ground (
      arith,
      e,
      Makes-then (apply_to_fork s cfg) (add_dependencies s cfg.name l2.dependency_set)
          (fork_calls cfg.fork_config genesis (interop_predeploys s))
          (dependency_calls payload l2.dependency_set)
          (apply_to_fork-Makes cfg cfg.fork_config genesis refl g h)
          (add_dependencies-Makes cfg.name l2.dependency_set) made,
    )
