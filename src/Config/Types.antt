-- ===== src/Config/Types.antt =====
-- config/chain.go and config/cli.go: the configuration of chains, of the network and of the command
-- line. A host is its bytes; a nil pointer is `none`.
use supersim.Prelude.{ℕ, Bool, List, Option, String}
use supersim.Prelude.Text.{Text}

pub record ForkConfig : Type 0 where
  pub rpc_url : String
  pub block_number : ℕ

pub record SecretsConfig : Type 0 where
  pub accounts : ℕ
  pub mnemonic : String
  pub derivation_path : String

-- `L1Addresses` is a pointer into the registry or the genesis deployment, named here by its chain.
pub record L2Config : Type 0 where
  pub l1_chain_id : ℕ
  pub l1_addresses : ℕ
  pub dependency_set : List ℕ

pub record ChainConfig : Type 0 where
  pub name : String
  pub host : Text
  pub port : ℕ
  pub chain_id : ℕ
  pub genesis_json : List ℕ
  pub secrets_config : SecretsConfig
  pub fork_config : Option ForkConfig
  pub l2_config : Option L2Config
  pub starting_timestamp : ℕ
  pub logs_directory : String

pub record NetworkConfig : Type 0 where
  pub l1_config : ChainConfig
  pub l2_starting_port : ℕ
  pub l2_configs : List ChainConfig
  pub interop_enabled : Bool
  pub interop_auto_relay : Bool
  pub interop_delay : ℕ

pub record ForkCliConfig : Type 0 where
  pub l1_fork_height : ℕ
  pub network : String
  pub chains : List String
  pub interop_enabled : Bool

pub record CliConfig : Type 0 where
  pub admin_port : ℕ
  pub l1_port : ℕ
  pub l2_starting_port : ℕ
  pub interop_auto_relay : Bool
  pub interop_delay : ℕ
  pub logs_directory : String
  pub fork_config : Option ForkCliConfig
  pub l1_host : Text
  pub l2_host : Text

-- `accounts.DefaultRootDerivationPath` is the path of go-ethereum.
abbrev pub default_secrets_config : SecretsConfig
default_secrets_config = record {
  accounts = 10;
  mnemonic = "test test test test test test test test test test test junk";
  derivation_path = "m/44'/60'/0'/0";
}
