-- ===== src/Anvil/Process/Settings.antt =====
-- anvil/anvil.go, Start: the file of the genesis and the arguments of the process.
use supersim.Prelude.{
  ℕ, ◌≡◌, String, List, [], ◌∷◌, Option, none, some, Result, ok, err, External, returns, fails, ◌⊎◌,
}
use supersim.Prelude.Text.{Text, codes}
use supersim.Config.Types.{ChainConfig, ForkConfig}
use supersim.Anvil.Args.{anvil_args, with_default_host}
use supersim.Anvil.Args.Read.{Settings, settings, settings_of}
use supersim.Anvil.Process.{Os, Anvil, AnvilError, temp_genesis_failed, genesis_write_failed}

abbrev pub genesis_pattern : Text
genesis_pattern = codes "genesis-*.json"

-- The genesis that a process is to be given: a chain that is no fork has one where its configuration
-- does, in the temporary file.
abbrev pub genesis_of : Option ForkConfig → List ℕ → External Text → Option Text
genesis_of none (b ∷ bs) (returns file) = some file
genesis_of none (b ∷ bs) (fails e) = none
genesis_of none [] created = none
genesis_of (some f) json created = none

-- What a process is told of its chain, with the file that `os.CreateTemp` gives.
abbrev pub told : Os → ChainConfig → Settings
told os cfg =
    settings cfg (genesis_of cfg.fork_config cfg.genesis_json (os.create_temp genesis_pattern))

-- Why there is no file.
pub data Refused (os : Os) (cfg : ChainConfig) : AnvilError → Type 0 where
  no_file :
      (e : String)
      → os.create_temp genesis_pattern ≡ fails e
      → Refused os cfg (temp_genesis_failed e)
  not_written :
      (file : Text) (e : String)
      → os.create_temp genesis_pattern ≡ returns file
      → os.write file cfg.genesis_json ≡ fails e
      → Refused os cfg (genesis_write_failed e)

module _ (os : Os) (cfg : ChainConfig) where
  -- A process that is started is told what the configuration says.
  abbrev IsTold : Option (List Text) → Result AnvilError (Option Text) × Anvil → Type 0
  IsTold before (r, a) =
      ((genesis : Option Text) × (r ≡ ok genesis)
        × (settings_of (anvil_args cfg genesis) ≡ told os cfg))
      ⊎ ((e : AnvilError) × (r ≡ err e)
          × (a.args ≡ before)
          × (cfg.fork_config ≡ none)
          × Refused os cfg e)

module _ (os : Os) (cfg : ChainConfig) where
  abbrev given : ChainConfig
  given = with_default_host cfg

  -- What the process was told, or why there is none.
  abbrev pub Told : Result AnvilError (Unit {0}) → Option (List Text) → Type 0
  Told r none = (e : AnvilError) × (r ≡ err e) × (given.fork_config ≡ none) × Refused os given e
  Told r (some args) = settings_of args ≡ told os given
