-- ===== src/Genesis/Command.antt =====
-- genesis/cmd/main.go: the generator of the genesis files. The downloads, the generation, the joining
-- of paths and the writing of a file are outside. What is done outside is recorded in its order, and
-- a map is walked in the order of its list.
pub mod CleanUp
mod Tests
use supersim.Prelude.{
  ℕ, List, [], ◌∷◌, ◌++◌, map, String, Result, ok, External, from_external, map_err,
}
use supersim.Prelude.State.{Action, lift, ◌>>=◌, ◌>>◌}
use supersim.Prelude.Text.{Text, codes, decimal}
use supersim.Genesis.CliConfig.{
  Artifacts, monorepo, periphery, Paths, ConfigError, parse_cli_config,
}

-- A constructor to each `fmt.Errorf`.
pub data CommandError : Type 0 where
  config_failed : ConfigError → CommandError
  download_failed : Artifacts → String → CommandError
  generation_failed : String → CommandError
  write_failed : Text → String → CommandError

-- What the generator does outside.
pub data Step (U : Type 0) : Type 0 where
  download : Artifacts → U → Step U
  clean_up : Artifacts → Step U
  generate : Step U
  write_file : Text → Step U

-- The world, as far as it is written: the L1's chain id, and the ids under which the deployments
-- and the outputs stand.
pub record World : Type 0 where
  pub l1_chain_id : ℕ
  pub deployments : List Text
  pub outputs : List Text

pub record Outcome (U : Type 0) : Type 0 where
  pub download : Artifacts → U → External (Unit {0})
  pub generate : External World
  pub write : Text → External (Unit {0})
  pub join : Text → Text → Text

abbrev pub Run : Type 0 → Type 0
Run U = Action (List (Step U)) CommandError (Unit {0})

module _ {U : Type 0} where
  abbrev pub did :
      {A : Type 0} → Step U → Result CommandError A → Action (List (Step U)) CommandError A
  did step r steps = (r, steps ++ step ∷ [])

  -- `defer`: whatever the rest of the function comes to, a panic included, `last` is done after it.
  abbrev pub deferred : Step U → Run U → Run U
  deferred last m steps = let (r, steps') = m steps in (r, steps' ++ last ∷ [])

  module _ (outcome : Outcome U) where
    unfoldable pub write_all : List Text → Run U
    write_all [] = lift (ok tt)
    write_all (f ∷ fs) =
        did (write_file f) (from_external (write_failed f) (outcome.write f)) >> write_all fs

    -- The files' names in the directory.
    abbrev pub l1_genesis_file : Text → ℕ → Text
    l1_genesis_file outdir id = outcome.join outdir (decimal id ++ codes "-l1-genesis.json")

    abbrev pub l2_addresses_file : Text → Text → Text
    l2_addresses_file outdir id = outcome.join outdir (id ++ codes "-l2-addresses.json")

    abbrev pub l2_genesis_file : Text → Text → Text
    l2_genesis_file outdir id = outcome.join outdir (id ++ codes "-l2-genesis.json")

    abbrev pub files_of : Text → World → List Text
    files_of outdir w =
        l1_genesis_file outdir w.l1_chain_id
        ∷ (map (l2_addresses_file outdir) w.deployments ++ map (l2_genesis_file outdir) w.outputs)

    -- Once both sets of artifacts are there.
    unfoldable pub write_world : Text → Run U
    unfolding write_all
    write_world outdir = do
      w ← did generate (from_external generation_failed outcome.generate)
      write_all (files_of outdir w)

    -- A download, and what follows with the clean-up deferred.
    unfoldable pub with_artifacts : Artifacts → U → Run U → Run U
    with_artifacts a url rest =
        did (download a url) (from_external (download_failed a) (outcome.download a url))
        >> deferred (clean_up a) rest

    unfoldable pub worldgen_main : Paths U → Text → Text → Text → Run U
    unfolding parse_cli_config with_artifacts write_world
    worldgen_main paths monorepo_artifacts periphery_artifacts outdir = do
      cfg ← lift (
          map_err config_failed
            (parse_cli_config paths monorepo_artifacts periphery_artifacts outdir))
      with_artifacts monorepo cfg.monorepo_artifacts_url
          (with_artifacts periphery cfg.periphery_artifacts_url (write_world cfg.outdir))
