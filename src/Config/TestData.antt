-- ===== src/Config/TestData.antt =====
-- A registry of one network of two chains, for the tests.
use supersim.Prelude.{ℕ, ◌≡◌, refl, true, [], ◌∷◌, ◌≢◌, All, Option, some, none, String}
use supersim.Prelude.Dict.{lookup}
use supersim.Prelude.Text.{codes}
use supersim.Config.Types.{
  ForkCliConfig, ChainConfig, NetworkConfig, L2Config, default_secrets_config,
}
use supersim.Config.Registry.{
  OpChain, Superchain, Registry, find_network, find_chain, op_chain_by_name, IsComplete,
}
use supersim.Config.Check.Accepts.{CanFork, Found}

abbrev pub chain_op : OpChain
chain_op = record {
  chain = "op";
  chain_id = 10;
  public_rpc = "https://op";
  genesis_l2_time = 1_000;
}

abbrev pub chain_base : OpChain
chain_base = record {
  chain = "base";
  chain_id = 8_453;
  public_rpc = "https://base";
  genesis_l2_time = 1_500;
}

abbrev pub mainnet : Superchain
mainnet = record {
  superchain = "mainnet";
  l1_chain_id = 1;
  l1_public_rpc = "https://l1";
  chain_ids = 10 ∷ 8_453 ∷ [];
}

abbrev pub two_chains : Registry
two_chains = record {
  superchains = ("mainnet", mainnet) ∷ [];
  op_chains = (10, chain_op) ∷ (8_453, chain_base) ∷ [];
}

abbrev pub fork_both : ForkCliConfig
fork_both = record {
  l1_fork_height = 0;
  network = "mainnet";
  chains = "base" ∷ "op" ∷ [];
  interop_enabled = true;
}

pub mainnet-IsComplete : IsComplete two_chains mainnet
unfolding lookup
mainnet-IsComplete = ((chain_op, refl), ((chain_base, refl), tt))

pub mainnet_only :
    (s : Superchain)
    → find_network fork_both.network two_chains.superchains ≡ some s
    → IsComplete two_chains s
unfolding find_network
mainnet_only s h = let same : mainnet ≡ s = cc in rw (← same) mainnet-IsComplete

pub names_chains : fork_both.chains ≢ []
names_chains e = cc

pub knows_mainnet : find_network fork_both.network two_chains.superchains ≡ some mainnet
unfolding find_network
knows_mainnet = refl

pub finds_both : (E : Type 0) → All (Found two_chains E mainnet) fork_both.chains
unfolding op_chain_by_name find_chain lookup
finds_both E = ((chain_base, refl, refl), ((chain_op, refl, refl), tt))

abbrev pub can_fork_both : (E : Type 0) → CanFork two_chains E fork_both
can_fork_both E = record {
  superchain = mainnet;
  known = knows_mainnet;
  some_chain = names_chains;
  all_found = finds_both E;
}

-- An L1 of id 900 and two L2s.
abbrev pub chain_of : String → ℕ → Option L2Config → ChainConfig
chain_of name id l2 = record {
  name = name;
  host = codes "127.0.0.1";
  port = 0;
  chain_id = id;
  genesis_json = [];
  secrets_config = default_secrets_config;
  fork_config = none;
  l2_config = l2;
  starting_timestamp = 0;
  logs_directory = "";
}

abbrev pub l2_of : ℕ → ℕ → L2Config
l2_of id other = record { l1_chain_id = 900; l1_addresses = id; dependency_set = other ∷ [] }

abbrev pub local_network : NetworkConfig
local_network = record {
  l1_config = chain_of "Local" 900 none;
  l2_starting_port = 9_545;
  l2_configs =
      chain_of "OPChainA" 901 (some (l2_of 901 902))
      ∷ chain_of "OPChainB" 902 (some (l2_of 902 901))
      ∷ [];
  interop_enabled = true;
  interop_auto_relay = true;
  interop_delay = 0;
}
