-- ===== src/Anvil/Args/Read.antt =====
-- The arguments of an anvil, read back.
use supersim.Prelude.{
  ltb, if◌then◌else◌, ◌≡◌, refl, Bool, true, false, List, [], ◌∷◌, ◌++◌, Option, none, some,
}
use supersim.Prelude.Text.{Text, codes, decimal, text_eq}
use supersim.Config.Types.{ChainConfig, ForkConfig, L2Config}
use supersim.Anvil.Args.{base_args, optimism_args, init_args, fork_args, anvil_args}

-- The options of anvil that take no value.
abbrev pub is_switch : Text → Bool
is_switch t = text_eq t (codes "--optimism")

-- The value that follows an option, in a command line of options and their values.
unfoldable pub option_value : Text → List Text → Option Text
option_value name [] = none
option_value name (o ∷ []) = none
option_value name (o ∷ v ∷ rest) =
    let after = option_value name rest in
    let skipped = option_value name (v ∷ rest) in
    if is_switch o then skipped else if text_eq o name then some v else after

-- Whether a switch is on.
unfoldable pub has_switch : Text → List Text → Bool
has_switch name [] = false
has_switch name (o ∷ []) = text_eq o name
has_switch name (o ∷ v ∷ rest) =
    let after = has_switch name rest in
    let skipped = has_switch name (v ∷ rest) in
    if is_switch o then (if text_eq o name then true else skipped) else after

-- What a command line says of a chain.
pub record Settings : Type 0 where
  pub host : Option Text
  pub port : Option Text
  pub chain_id : Option Text
  pub accounts : Option Text
  pub mnemonic : Option Text
  pub derivation_path : Option Text
  pub timestamp : Option Text
  pub genesis : Option Text
  pub fork_url : Option Text
  pub fork_block_number : Option Text
  pub optimism : Bool

abbrev pub settings_of : List Text → Settings
settings_of args = record {
  host = option_value (codes "--host") args;
  port = option_value (codes "--port") args;
  chain_id = option_value (codes "--chain-id") args;
  accounts = option_value (codes "--accounts") args;
  mnemonic = option_value (codes "--mnemonic") args;
  derivation_path = option_value (codes "--derivation-path") args;
  timestamp = option_value (codes "--timestamp") args;
  genesis = option_value (codes "--init") args;
  fork_url = option_value (codes "--fork-url") args;
  fork_block_number = option_value (codes "--fork-block-number") args;
  optimism = has_switch (codes "--optimism") args;
}

abbrev pub is_l2 : Option L2Config → Bool
is_l2 none = false
is_l2 (some l2) = true

abbrev pub fork_url_of : Option ForkConfig → Option Text
fork_url_of none = none
fork_url_of (some f) = some (codes f.rpc_url)

abbrev pub fork_height_of : Option ForkConfig → Option Text
fork_height_of none = none
fork_height_of (some f) = some (decimal f.block_number)

-- What the configuration says, with the file of its genesis.
abbrev pub settings : ChainConfig → Option Text → Settings
settings cfg genesis = record {
  host = some cfg.host;
  port = some (decimal cfg.port);
  chain_id = some (decimal cfg.chain_id);
  accounts = some (decimal cfg.secrets_config.accounts);
  mnemonic = some (codes cfg.secrets_config.mnemonic);
  derivation_path = some (codes cfg.secrets_config.derivation_path);
  timestamp = if ltb 0 cfg.starting_timestamp then some (decimal cfg.starting_timestamp) else none;
  genesis = genesis;
  fork_url = fork_url_of cfg.fork_config;
  fork_block_number = fork_height_of cfg.fork_config;
  optimism = is_l2 cfg.l2_config;
}

-- The arguments after the first, for each shape that they can have.
read_tail :
    (cfg : ChainConfig) (l2 : Option L2Config) (genesis : Option Text) (fork : Option ForkConfig)
    (b : Bool) (t : Text)
    → settings_of (
        base_args cfg
        ++ (optimism_args l2
            ++ ((if b then codes "--timestamp" ∷ t ∷ [] else [])
                ++ (init_args genesis ++ fork_args fork))))
      ≡ record (settings cfg genesis) {
        timestamp = if b then some t else none;
        fork_url = fork_url_of fork;
        fork_block_number = fork_height_of fork;
        optimism = is_l2 l2;
      }
unfolding option_value has_switch text_eq
read_tail cfg none none none true t = refl
read_tail cfg none none none false t = refl
read_tail cfg none none (some f) true t = refl
read_tail cfg none none (some f) false t = refl
read_tail cfg none (some g) none true t = refl
read_tail cfg none (some g) none false t = refl
read_tail cfg none (some g) (some f) true t = refl
read_tail cfg none (some g) (some f) false t = refl
read_tail cfg (some l) none none true t = refl
read_tail cfg (some l) none none false t = refl
read_tail cfg (some l) none (some f) true t = refl
read_tail cfg (some l) none (some f) false t = refl
read_tail cfg (some l) (some g) none true t = refl
read_tail cfg (some l) (some g) none false t = refl
read_tail cfg (some l) (some g) (some f) true t = refl
read_tail cfg (some l) (some g) (some f) false t = refl

-- Reading the arguments of an anvil, as options each with its value, gives back the configuration:
-- the host, the port, the chain, the accounts, and the timestamp, the genesis, the fork and the
-- rollup's switch where the configuration has them, and only there.
pub settings_of-anvil_args :
    (cfg : ChainConfig) (genesis : Option Text)
    → settings_of (anvil_args cfg genesis) ≡ settings cfg genesis
unfolding anvil_args
settings_of-anvil_args cfg genesis =
    read_tail cfg cfg.l2_config genesis cfg.fork_config (ltb 0 cfg.starting_timestamp)
      (decimal cfg.starting_timestamp)
