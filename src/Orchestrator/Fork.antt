-- ===== src/Orchestrator/Fork.antt =====
-- orchestrator/fork.go: the network configuration of a fork. The environment and the RPC endpoints
-- are outside; `rpc_url` is what `os.LookupEnv` gives for `<PREFIX>_RPC_URL_<NAME>`.
pub mod Height
pub mod Chains
use text.Mathlib.Text.{◌==◌ as str_eq}
use supersim.Prelude.{
  ℕ, ◌+◌, ◌-◌, ◌/◌, ◌%◌, ◌==◌, ltb, not, if◌then◌else◌, Bool, true, false, List, [], ◌∷◌, ◌++◌,
  Option, none, some, String, Result, ok, err, External, from_external, ◌>>=◌, ◌>>◌, fail_if,
  or_panic,
}
use supersim.Prelude.Int.{ℤ, pos, word, to_uint64}
use supersim.Interop.Types.{Header}
use supersim.Config.Types.{ChainConfig, NetworkConfig, ForkCliConfig, default_secrets_config}
use supersim.Config.Registry.{Registry, Superchain, OpChain, find_network, op_chain_by_name}

-- An `*ethclient.Client`: `ChainID`, and `HeaderByNumber` at a number or at the latest block.
pub record RpcClient : Type 0 where
  pub chain_id : External ℤ
  pub header_by_number : Option ℤ → External Header

pub record Outside : Type 0 where
  pub rpc_url : String → Option String
  pub dial : String → External RpcClient

-- A constructor to each `fmt.Errorf`.
pub data ForkError : Type 0 where
  dial_l1_failed fetch_l1_chain_id_failed retrieve_l1_header_failed : String → ForkError
  dial_l2_failed fetch_l2_chain_id_failed query_latest_failed : String → ForkError
  mismatched_l1_chain_id : ℕ → ℤ → ForkError
  mismatched_l2_chain_id : String → ℕ → ℤ → ForkError
  unrecognized_chain : String → String → ForkError
  l1_precedes_genesis : ForkError
  l2_height_failed : String → ForkError → ForkError

abbrev pub block_time : ℕ
block_time = 2

-- How many blocks back the L2 is wound for a difference in time.
unfoldable pub blocks_to_walk_back : ℕ → ℕ
blocks_to_walk_back time_diff = time_diff / block_time + (if not (time_diff % 2 == 0) then 1 else 0)

-- `blockNum - blocksToWalkBack` on uint64.
unfoldable pub wind_back : Header → Header → ℕ
wind_back latest l1 =
    let block_num = to_uint64 latest.number in
    if ltb l1.time latest.time
    then (block_num + word - blocks_to_walk_back (latest.time - l1.time)) % word
    else block_num

unfoldable pub latest_l2_height_from_l1_header : OpChain → RpcClient → Header → Result ForkError ℕ
latest_l2_height_from_l1_header l2 client l1 = do
  fail_if (ltb l1.time l2.genesis_l2_time) l1_precedes_genesis
  latest ← from_external query_latest_failed (client.header_by_number none)
  ok (wind_back latest l1)

-- `if url, ok := os.LookupEnv(…); ok && url != ""`
abbrev pub override_url : Option String → String → String
override_url none public_rpc = public_rpc
override_url (some url) public_rpc = if not (str_eq url "") then url else public_rpc

-- The client of an endpoint whose chain id is the expected one.
unfoldable pub connect :
    Outside
    → String
    → (String → ForkError)
    → (String → ForkError)
    → ℕ
    → (ℤ → ForkError)
    → Result ForkError RpcClient
connect out url dial_failed fetch_failed expected mismatched = do
  client ← from_external dial_failed (out.dial url)
  chain_id ← from_external fetch_failed client.chain_id
  fail_if (not (expected == to_uint64 chain_id)) (mismatched chain_id)
  ok client

module _ (reg : Registry) (out : Outside) (logs_directory : String) where
  -- The inner loop, which dereferences what `OPChainByName` finds.
  unfoldable pub dependencies : Superchain → ℕ → List String → Result ForkError (List ℕ)
  dependencies s chain_id [] = ok []
  dependencies s chain_id (chain ∷ chains) = do
    found ← op_chain_by_name reg s chain
    c ← or_panic found
    rest ← dependencies s chain_id chains
    ok (if not (c.chain_id == chain_id) then c.chain_id ∷ rest else rest)

  -- The dependency set is left empty without interop.
  unfoldable pub dependency_set_of : ForkCliConfig → Superchain → ℕ → Result ForkError (List ℕ)
  dependency_set_of fork s chain_id =
      if fork.interop_enabled then dependencies s chain_id fork.chains else ok []

  abbrev pub l2_chain_config : Superchain → OpChain → String → ℕ → List ℕ → ChainConfig
  l2_chain_config s c url height deps = record {
    name = c.chain;
    host = [];
    port = 0;
    chain_id = c.chain_id;
    genesis_json = [];
    secrets_config = default_secrets_config;
    fork_config = some (record { rpc_url = url; block_number = height });
    l2_config =
        some (record {
          l1_chain_id = s.l1_chain_id;
          l1_addresses = c.chain_id;
          dependency_set = deps;
        });
    starting_timestamp = 0;
    logs_directory = logs_directory;
  }

  -- `if chainCfg == nil`
  abbrev pub or_unrecognized : Option OpChain → ForkError → Result ForkError OpChain
  or_unrecognized none e = err e
  or_unrecognized (some c) e = ok c

  abbrev pub wrap_height : OpChain → Result ForkError ℕ → Result ForkError ℕ
  wrap_height c (ok h) = ok h
  wrap_height c (err e) = err (l2_height_failed c.chain e)
  wrap_height c Result.panic = Result.panic

  -- The body of the loop over the chains to fork.
  unfoldable pub fork_l2 :
      ForkCliConfig → Superchain → Header → String → Result ForkError ChainConfig
  fork_l2 fork s l1 chain = do
    found ← op_chain_by_name reg s chain
    c ← or_unrecognized found (unrecognized_chain chain s.superchain)
    let url : String = override_url (out.rpc_url c.chain) c.public_rpc
    client ←
        connect out url dial_l2_failed fetch_l2_chain_id_failed c.chain_id
          (mismatched_l2_chain_id c.chain c.chain_id)
    height ← wrap_height c (latest_l2_height_from_l1_header c client l1)
    deps ← dependency_set_of fork s c.chain_id
    ok (l2_chain_config s c url height deps)

  unfoldable pub fork_l2s :
      ForkCliConfig → Superchain → Header → List String → Result ForkError (List ChainConfig)
  fork_l2s fork s l1 [] = ok []
  fork_l2s fork s l1 (chain ∷ chains) = do
    cfg ← fork_l2 fork s l1 chain
    cfgs ← fork_l2s fork s l1 chains
    ok (cfg ∷ cfgs)

  abbrev pub l1_chain_config : ForkCliConfig → Superchain → String → Header → ChainConfig
  l1_chain_config fork s url l1 = record {
    name = fork.network;
    host = [];
    port = 0;
    chain_id = s.l1_chain_id;
    genesis_json = [];
    secrets_config = default_secrets_config;
    fork_config = some (record { rpc_url = url; block_number = to_uint64 l1.number });
    l2_config = none;
    starting_timestamp = 0;
    logs_directory = logs_directory;
  }

  -- The height to fork the L1 at; 0 asks for the latest block.
  abbrev pub fork_height : ℕ → Option ℤ
  fork_height h = if ltb 0 h then some (pos h) else none

  unfoldable pub network_config_from_fork_cli_config :
      ForkCliConfig → Result ForkError NetworkConfig
  network_config_from_fork_cli_config fork = do
    s ← or_panic (find_network fork.network reg.superchains)
    let url : String = override_url (out.rpc_url fork.network) s.l1_public_rpc
    client ←
        connect out url dial_l1_failed fetch_l1_chain_id_failed s.l1_chain_id
          (mismatched_l1_chain_id s.l1_chain_id)
    l1 ←
        from_external retrieve_l1_header_failed
          (client.header_by_number (fork_height fork.l1_fork_height))
    l2s ← fork_l2s fork s l1 fork.chains
    ok (record {
      l1_config = l1_chain_config fork s url l1;
      l2_starting_port = 0;
      l2_configs = l2s;
      interop_enabled = fork.interop_enabled;
      interop_auto_relay = false;
      interop_delay = 0;
    })
