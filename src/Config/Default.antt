-- ===== src/Config/Default.antt =====
-- config/chain.go, GetDefaultNetworkConfig. The genesis that the repository embeds is an argument;
-- an L2 past its end panics.
use supersim.Prelude.{
  ℕ, true, false, List, [], ◌∷◌, Option, none, some, String, Result, ok, ◌>>=◌, or_panic, get_elem?,
}
use supersim.Config.Types.{ChainConfig, NetworkConfig, L2Config, default_secrets_config}

pub record L2Deployment : Type 0 where
  pub chain_id : ℕ
  pub genesis_json : List ℕ

pub record Deployment : Type 0 where
  pub l1_chain_id : ℕ
  pub l1_genesis_json : List ℕ
  pub l2s : List L2Deployment

module _ (d : Deployment) (starting_timestamp : ℕ) (logs_directory : String) where
  abbrev pub local_chain : String → ℕ → List ℕ → Option L2Config → ChainConfig
  local_chain name chain_id genesis_json l2 = record {
    name = name;
    host = [];
    port = 0;
    chain_id = chain_id;
    genesis_json = genesis_json;
    secrets_config = default_secrets_config;
    fork_config = none;
    l2_config = l2;
    starting_timestamp = starting_timestamp;
    logs_directory = logs_directory;
  }

  abbrev pub local_l2 : String → L2Deployment → L2Deployment → ChainConfig
  local_l2 name l2 other = local_chain name l2.chain_id l2.genesis_json (
      some (record {
        l1_chain_id = d.l1_chain_id;
        l1_addresses = l2.chain_id;
        dependency_set = other.chain_id ∷ [];
      }))

  abbrev pub default_network : L2Deployment → L2Deployment → NetworkConfig
  default_network a b = record {
    l1_config = local_chain "Local" d.l1_chain_id d.l1_genesis_json none;
    l2_starting_port = 0;
    l2_configs = local_l2 "OPChainA" a b ∷ local_l2 "OPChainB" b a ∷ [];
    interop_enabled = true;
    interop_auto_relay = false;
    interop_delay = 0;
  }

  unfoldable pub get_default_network_config : {E : Type 0} → Result E NetworkConfig
  get_default_network_config = do
    a ← or_panic (get_elem? d.l2s 0)
    b ← or_panic (get_elem? d.l2s 1)
    ok (default_network a b)
