-- ===== src/Orchestrator/Fork/Chains.antt =====
-- The network configuration made from a fork configuration that has passed the check.
use supersim.Prelude.{
  ℕ, ◌==◌, ==_iff, not, if◌then◌else◌, ◌≡◌, ◌≢◌, ◌⊎◌, inl, inr, refl, Bool, false, List, [], ◌∷◌,
  String, ok, err, panic, returns, All, arith, Bool-cases, Result-cases, External-cases,
}
use supersim.Prelude.Int.{ℤ, to_uint64}
use supersim.Interop.Types.{Header}
use supersim.Config.Types.{ChainConfig, NetworkConfig, ForkCliConfig}
use supersim.Config.Registry.{Registry, Superchain, OpChain}
use supersim.Config.Check.Accepts.{CanFork, Found}
use supersim.Orchestrator.Fork.{
  RpcClient, Outside, ForkError, dial_l1_failed, fetch_l1_chain_id_failed,
  retrieve_l1_header_failed, mismatched_l1_chain_id, dial_l2_failed, fetch_l2_chain_id_failed,
  mismatched_l2_chain_id, l2_height_failed, override_url, connect, latest_l2_height_from_l1_header,
  dependencies, dependency_set_of, l2_chain_config, l1_chain_config, fork_height, fork_l2, fork_l2s,
  network_config_from_fork_cli_config,
}

module _ (reg : Registry) (out : Outside) (logs : String) where
  -- The chains found for the names.
  unfoldable pub found_chains :
      (s : Superchain) (chains : List String) → All (Found reg ForkError s) chains → List OpChain
  found_chains s [] f = []
  found_chains s (chain ∷ chains) f = f.0.0 ∷ found_chains s chains f.1

  -- The ids of the chains other than one.
  abbrev pub others : ℕ → List OpChain → List ℕ
  others id [] = []
  others id (c ∷ cs) =
      let rest = others id cs in if not (c.chain_id == id) then c.chain_id ∷ rest else rest

  dependencies-Found :
      (s : Superchain) (id : ℕ) (chains : List String) (f : All (Found reg ForkError s) chains)
      → dependencies reg out logs s id chains ≡ ok (others id (found_chains s chains f))
  unfolding dependencies found_chains
  dependencies-Found s id [] f = refl
  dependencies-Found s id (chain ∷ chains) f =
      ground (arith, f.0.1, dependencies-Found s id chains f.1)

  abbrev pub dependency_ids : Bool → ℕ → List OpChain → List ℕ
  dependency_ids interop id cs = if interop then others id cs else []

  -- A chain's configuration: it forks the endpoint of the registry or of the environment, which
  -- serves this chain, at the height found for the L1 block, and depends on the other chains.
  pub record IsForked (interop : Bool) (s : Superchain) (l1 : Header) (cs : List OpChain)
      (c : OpChain) (cfg : ChainConfig) : Type 0 where
    pub client : RpcClient
    pub id : ℤ
    pub height : ℕ
    pub dials : out.dial (override_url (out.rpc_url c.chain) c.public_rpc) ≡ returns client
    pub serves : client.chain_id ≡ returns id
    pub is_chain : c.chain_id ≡ to_uint64 id
    pub has_height : latest_l2_height_from_l1_header c client l1 ≡ ok height
    pub is_config :
        cfg
        ≡ l2_chain_config reg out logs s c
            (override_url (out.rpc_url c.chain) c.public_rpc)
            height
            (dependency_ids interop c.chain_id cs)

  abbrev pub AllForked :
      Bool → Superchain → Header → List OpChain → List OpChain → List ChainConfig → Type 0
  AllForked interop s l1 cs [] [] = Unit
  AllForked interop s l1 cs [] (cfg ∷ cfgs) = ⊥
  AllForked interop s l1 cs (c ∷ rest) [] = ⊥
  AllForked interop s l1 cs (c ∷ rest) (cfg ∷ cfgs) =
      IsForked interop s l1 cs c cfg × AllForked interop s l1 cs rest cfgs

  latest_l2_height-ne-panic :
      (c : OpChain) (client : RpcClient) (l1 : Header)
      → latest_l2_height_from_l1_header c client l1 ≢ panic
  unfolding latest_l2_height_from_l1_header
  latest_l2_height-ne-panic c client l1 e = ground arith

  module _ (fork : ForkCliConfig) (s : Superchain) (l1 : Header)
      (f : All (Found reg ForkError s) fork.chains) where
    dependency_set_of-found :
        (id : ℕ)
        → dependency_set_of reg out logs fork s id
          ≡ ok (dependency_ids fork.interop_enabled id (found_chains s fork.chains f))
    unfolding dependency_set_of
    dependency_set_of-found id = ground (arith, dependencies-Found s id fork.chains f)

    fork_l2-Found :
        (chain : String) (found : Found reg ForkError s chain)
        → ((e : ForkError) × (fork_l2 reg out logs fork s l1 chain ≡ err e))
          ⊎ ((cfg : ChainConfig) × (fork_l2 reg out logs fork s l1 chain ≡ ok cfg)
              × IsForked fork.interop_enabled s l1 (found_chains s fork.chains f) found.0 cfg)
    unfolding fork_l2 connect
    fork_l2-Found chain (c, found, same) =
        elim (External-cases (out.dial (override_url (out.rpc_url c.chain) c.public_rpc))) [
          | inr (x, q) ↦ inl (dial_l2_failed x, ground arith)
          | inl (client, q) ↦ elim (External-cases client.chain_id) [
            | inr (x, q₂) ↦ inl (fetch_l2_chain_id_failed x, ground arith)
            | inl (id, q₂) ↦ elim (Bool-cases (c.chain_id == to_uint64 id)) [
              | inr q₃ ↦ inl (mismatched_l2_chain_id c.chain c.chain_id id, ground arith)
              | inl q₃ ↦ elim (Result-cases (latest_l2_height_from_l1_header c client l1)) [
                | inr (inl (x, q₄)) ↦ inl (l2_height_failed c.chain x, ground arith)
                | inr (inr q₄) ↦ absurd (latest_l2_height-ne-panic c client l1 q₄)
                | inl (height, q₄) ↦ inr (
                  l2_chain_config reg out logs s c (override_url (out.rpc_url c.chain) c.public_rpc)
                      height
                      (dependency_ids fork.interop_enabled c.chain_id
                        (found_chains s fork.chains f)),
                  ground (arith, dependency_set_of-found c.chain_id),
                  record {
                    client = client;
                    id = id;
                    height = height;
                    dials = q;
                    serves = q₂;
                    is_chain = (==_iff c.chain_id (to_uint64 id)).0 q₃;
                    has_height = q₄;
                    is_config = refl;
                  },
                )
              ]
            ]
          ]
        ]

    fork_l2s-Found :
        (chains : List String) (found : All (Found reg ForkError s) chains)
        → ((e : ForkError) × (fork_l2s reg out logs fork s l1 chains ≡ err e))
          ⊎ ((cfgs : List ChainConfig) × (fork_l2s reg out logs fork s l1 chains ≡ ok cfgs)
              × AllForked fork.interop_enabled s l1
                  (found_chains s fork.chains f)
                  (found_chains s chains found)
                  cfgs)
    unfolding fork_l2s found_chains
    fork_l2s-Found [] found = inr ([], refl, tt)
    fork_l2s-Found (chain ∷ chains) (found, founds) = elim (fork_l2-Found chain found) [
      | inl (e, q) ↦ inl (e, ground arith)
      | inr (cfg, q, is) ↦ elim (fork_l2s-Found chains founds) [
        | inl (e, q₂) ↦ inl (e, ground arith)
        | inr (cfgs, q₂, are) ↦ inr (cfg ∷ cfgs, ground arith, (is, are))
      ]
    ]

  pub network_config_from_fork_cli_config-CanFork :
      (fork : ForkCliConfig) (can : CanFork reg ForkError fork)
      → ((e : ForkError) × (network_config_from_fork_cli_config reg out logs fork ≡ err e))
        ⊎ ((n : NetworkConfig) × (l1 : Header) × (network_config_from_fork_cli_config reg out logs
                fork
              ≡ ok n)
            × (n.l1_config
                ≡ l1_chain_config reg out logs fork can.superchain
                    (override_url (out.rpc_url fork.network) can.superchain.l1_public_rpc)
                    l1)
            × (n.interop_enabled ≡ fork.interop_enabled)
            × AllForked fork.interop_enabled can.superchain l1
                (found_chains can.superchain fork.chains can.all_found)
                (found_chains can.superchain fork.chains can.all_found)
                n.l2_configs)
  unfolding network_config_from_fork_cli_config connect
  network_config_from_fork_cli_config-CanFork fork can =
      let s = can.superchain in
      let url = override_url (out.rpc_url fork.network) s.l1_public_rpc in
      elim (External-cases (out.dial url)) [
        | inr (x, q) ↦ inl (dial_l1_failed x, ground (arith, can.known))
        | inl (client, q) ↦ elim (External-cases client.chain_id) [
          | inr (x, q₂) ↦ inl (fetch_l1_chain_id_failed x, ground (arith, can.known))
          | inl (id, q₂) ↦ elim (Bool-cases (s.l1_chain_id == to_uint64 id)) [
            | inr q₃ ↦ inl (mismatched_l1_chain_id s.l1_chain_id id, ground (arith, can.known))
            | inl q₃ ↦
                elim (External-cases
                  (client.header_by_number (fork_height reg out logs fork.l1_fork_height))) [
                    | inr (x, q₄) ↦ inl (retrieve_l1_header_failed x, ground (arith, can.known))
                    | inl (l1, q₄) ↦
                        elim (fork_l2s-Found fork s l1 can.all_found fork.chains can.all_found) [
                          | inl (e, q₅) ↦ inl (e, ground (arith, can.known))
                          | inr (cfgs, q₅, are) ↦ inr (
                            record {
                              l1_config = l1_chain_config reg out logs fork s url l1;
                              l2_starting_port = 0;
                              l2_configs = cfgs;
                              interop_enabled = fork.interop_enabled;
                              interop_auto_relay = false;
                              interop_delay = 0;
                            },
                            l1,
                            ground (arith, can.known),
                            refl,
                            refl,
                            are,
                          )
                        ]
                  ]
          ]
        ]
      ]
