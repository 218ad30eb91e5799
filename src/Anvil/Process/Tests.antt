-- ===== src/Anvil/Process/Tests.antt =====
-- A process that prints its port, and one that cannot be started.
use supersim.Prelude.{
  ℕ, ◌≡◌, refl, true, false, List, [], ◌∷◌, ◌++◌, Option, none, some, Result, ok, err, panic,
  External, returns, fails, if◌then◌else◌, ◌⊎◌, arith,
}
use supersim.Prelude.Text.{Text, codes, decimal, text_eq}
use supersim.Prelude.Text.Parse.{parse_int}
use supersim.Config.Types.{ChainConfig, default_secrets_config}
use supersim.Anvil.Port.{
  listening_line, read_port, read_port-listening_line, read_port-panic, has_prefix,
}
use supersim.Anvil.Args.{with_default_host}
use supersim.Anvil.Process.{
  AnvilError, Os, new_anvil, start, stop, write_genesis, open_log_file, stops, waits,
}
use supersim.Anvil.Process.Life.{ran, IsWriteFailure, start-stop}

-- A local L1 with a genesis, on any port.
abbrev local_l1 : ChainConfig
local_l1 = record {
  name = "Local";
  host = [];
  port = 0;
  chain_id = 900;
  genesis_json = codes "{}";
  secrets_config = default_secrets_config;
  fork_config = none;
  l2_config = none;
  starting_timestamp = 1_700_000_000;
  logs_directory = "";
}

abbrev printed : List Text
printed = codes "  anvil" ∷ listening_line (codes "127.0.0.1") 41_234 ∷ codes "eth_chainId" ∷ []

-- Temporary files go by their pattern, and every call succeeds.
abbrev os : Os
os = record {
  create_temp = λ pattern. returns pattern;
  write = λ file bytes. returns tt;
  abs = λ path. returns path;
  create = λ path. returns path;
  stdout_pipe = returns tt;
  stderr_pipe = returns tt;
  run = λ args. returns printed;
  dial = λ url. returns tt;
}

-- The same, with no anvil installed.
abbrev without_anvil : Os
without_anvil = record os { run = λ args. fails "executable file not found" }

abbrev removed : Text → External (Unit {0})
removed file = returns tt

read_port-listening_line_example : read_port {E = AnvilError} printed ≡ ok (some 41_234)
unfolding has_prefix
read_port-listening_line_example =
    read_port-listening_line AnvilError (codes "  anvil" ∷ []) (codes "eth_chainId" ∷ [])
      (codes "127.0.0.1") 41_234 (refl, tt)
      (refl, (refl, (refl, (refl, (refl, (refl, (refl, (refl, (refl, tt))))))))) (omega arith)

read_port-panic_example :
    read_port {E = AnvilError} (listening_line (codes "[" ++ b':' ∷ b':' ∷ codes "1]") 8_545 ∷ [])
    ≡ panic
read_port-panic_example =
    read_port-panic AnvilError [] [] (codes "[") (codes "1]") 8_545 tt (refl, tt)

start-stop_example :
    let (r, a) = start without_anvil (new_anvil local_l1) in
    ((stop removed a).0 ≡ (if ran r then stops else waits))
    × (IsWriteFailure r ⊎ ((stop removed a).1.temp_files ≡ []))
start-stop_example = start-stop removed without_anvil local_l1 (λ file. refl)

-- The process runs, and a stop ends it; without anvil the stop waits.
outcomes :
    ((start os (new_anvil local_l1)).0 ≡ ok tt)
    × ((start os (new_anvil local_l1)).1.cfg.port ≡ 41_234)
    × ((stop removed (start os (new_anvil local_l1)).1).0 ≡ stops)
    × ((stop removed (start without_anvil (new_anvil local_l1)).1).0 ≡ waits)
unfolding start stop write_genesis open_log_file read_port with_default_host text_eq has_prefix
    parse_int decimal supersim.Prelude.Int.to_uint64
outcomes = (refl, refl, refl, refl)
