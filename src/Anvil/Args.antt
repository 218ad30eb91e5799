-- ===== src/Anvil/Args.antt =====
-- anvil/anvil.go, Start: the arguments of the process.
pub mod Read
use supersim.Prelude.{
  ℕ, ltb, ◌==◌, if◌then◌else◌, ◌≡◌, refl, Bool, true, false, List, [], ◌∷◌, ◌++◌, Option, none,
  some, String, length, arith,
}
use supersim.Prelude.Text.{Text, codes, decimal, text_eq}
use supersim.Config.Types.{ChainConfig, ForkConfig, L2Config}

-- `if a.cfg.Host == ""`
unfoldable pub with_default_host : ChainConfig → ChainConfig
with_default_host cfg = if text_eq cfg.host [] then record cfg { host = codes "127.0.0.1" } else cfg

abbrev pub base_args : ChainConfig → List Text
base_args cfg =
    codes "--host"
    ∷ cfg.host
    ∷ codes "--accounts"
    ∷ decimal cfg.secrets_config.accounts
    ∷ codes "--mnemonic"
    ∷ codes cfg.secrets_config.mnemonic
    ∷ codes "--derivation-path"
    ∷ codes cfg.secrets_config.derivation_path
    ∷ codes "--chain-id"
    ∷ decimal cfg.chain_id
    ∷ codes "--port"
    ∷ decimal cfg.port
    ∷ codes "--max-persisted-states"
    ∷ codes "5"
    ∷ []

abbrev pub optimism_args : Option L2Config → List Text
optimism_args none = []
optimism_args (some l2) = codes "--optimism" ∷ []

abbrev pub timestamp_args : ℕ → List Text
timestamp_args t = if ltb 0 t then codes "--timestamp" ∷ decimal t ∷ [] else []

-- `len(a.cfg.GenesisJSON) > 0 && a.cfg.ForkConfig == nil`
abbrev pub needs_genesis : ChainConfig → Bool
needs_genesis cfg = elim cfg.fork_config [ none ↦ ltb 0 (length cfg.genesis_json) | some f ↦ false ]

abbrev pub init_args : Option Text → List Text
init_args none = []
init_args (some file) = codes "--init" ∷ file ∷ []

abbrev pub fork_args : Option ForkConfig → List Text
fork_args none = []
fork_args (some f) =
    codes "--fork-url" ∷ codes f.rpc_url ∷ codes "--fork-block-number" ∷ decimal f.block_number ∷ []

-- `genesis` is the temporary file of the genesis, where there is one.
unfoldable pub anvil_args : ChainConfig → Option Text → List Text
anvil_args cfg genesis =
    base_args cfg
    ++ (optimism_args cfg.l2_config
        ++ (timestamp_args cfg.starting_timestamp
            ++ (init_args genesis ++ fork_args cfg.fork_config)))
