-- ===== src/Genesis/Command/Tests.antt =====
-- Runs of the generator for one L2: all goes well, and the second download fails.
use supersim.Prelude.{◌≢◌, ◌⊎◌, ◌≡◌, refl, List, [], ◌∷◌, ◌++◌, ok, err, External, returns, fails}
use supersim.Prelude.Text.{Text, codes, text_eq, decimal}
use supersim.Genesis.CliConfig.{
  Artifacts, monorepo, periphery, Paths, CliConfig, parse_cli_config, parse_local_path_or_url,
}
use supersim.Genesis.Command.{
  Step, download, clean_up, generate, write_file, World, Outcome, download_failed, worldgen_main,
  with_artifacts, write_world, write_all,
}
use supersim.Genesis.Command.CleanUp.{plan, closing, worldgen_main_order}

-- A URL is its text; paths are taken from the root.
abbrev paths : Paths Text
paths = record { abs = λ path. returns (b'/' ∷ path); parse_url = λ url. returns url }

abbrev one_l2 : World
one_l2 = record { l1_chain_id = 900; deployments = codes "901" ∷ []; outputs = codes "901" ∷ [] }

abbrev all_well : Outcome Text
all_well = record {
  download = λ a url. returns tt;
  generate = returns one_l2;
  write = λ file. returns tt;
  join = λ dir file. dir ++ b'/' ∷ file;
}

abbrev downloads : Artifacts → Text → External (Unit {0})
downloads monorepo url = returns tt
downloads periphery url = fails "no such file"

abbrev no_periphery : Outcome Text
no_periphery = record all_well { download = downloads }

-- A path is read as the URL of a file.
local_path : parse_local_path_or_url paths (codes "out") ≡ ok (codes "file:///out")
unfolding parse_local_path_or_url text_eq
local_path = refl

abbrev config : CliConfig Text
config = record {
  monorepo_artifacts_url = codes "https://m";
  periphery_artifacts_url = codes "file:///out";
  outdir = codes "/tmp";
}

reads_config : parse_cli_config paths (codes "https://m") (codes "out") (codes "/tmp") ≡ ok config
unfolding parse_cli_config parse_local_path_or_url text_eq
reads_config = refl

worldgen_main_order_example :
    let (r, steps) =
      worldgen_main no_periphery paths (codes "https://m") (codes "out") (codes "/tmp") [] in
    ((r ≡ ok tt)
      × (steps ≡ plan no_periphery config ++ closing no_periphery (plan no_periphery config)))
    ⊎ ((r ≢ ok tt)
        × ((work : List (Step Text)) × (rest : List (Step Text)) × (plan no_periphery config
              ≡ work ++ rest)
            × (steps ≡ work ++ closing no_periphery work)))
worldgen_main_order_example =
    worldgen_main_order no_periphery paths (codes "https://m") (codes "out") (codes "/tmp") config
      reads_config

-- Where nothing fails, all three files are written.
all_goes_well : worldgen_main all_well paths (codes "https://m") (codes "out") (codes "/tmp") [] ≡ (
  ok tt,
  download monorepo (codes "https://m")
      ∷ download periphery (codes "file:///out")
      ∷ generate
      ∷ write_file (codes "/tmp/900-l1-genesis.json")
      ∷ write_file (codes "/tmp/901-l2-addresses.json")
      ∷ write_file (codes "/tmp/901-l2-genesis.json")
      ∷ clean_up periphery
      ∷ clean_up monorepo
      ∷ [],
)
unfolding worldgen_main with_artifacts parse_cli_config parse_local_path_or_url text_eq write_world
    write_all decimal
all_goes_well = refl

-- The set that was there is cleaned up after the second download has failed.
second_download_fails :
    worldgen_main no_periphery paths (codes "https://m") (codes "out") (codes "/tmp") [] ≡ (
      err (download_failed periphery "no such file"),
      download monorepo (codes "https://m")
          ∷ download periphery (codes "file:///out")
          ∷ clean_up monorepo
          ∷ [],
    )
unfolding worldgen_main with_artifacts parse_cli_config parse_local_path_or_url text_eq
second_download_fails = refl
