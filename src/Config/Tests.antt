-- ===== src/Config/Tests.antt =====
-- The package's theorems at a network of two chains.
use supersim.Prelude.{◌≡◌, ◌≢◌, ◌⊎◌, ◌↔◌, refl, true, false, Bool, [], some, ok}
use supersim.Prelude.Text.{Text, codes}
use supersim.Config.Types.{CliConfig}
use supersim.Config.Host.{IsHostName, validate_host, validate_host_iff}
use supersim.Config.Check.{ConfigError, check}
use supersim.Config.Check.Accepts.{CanFork, check_iff}
use supersim.Config.TestData.{two_chains, mainnet_only, fork_both}

abbrev no_ip : Text → Bool
no_ip host = false

validate_host_iff_example : (validate_host no_ip (codes "my-host.io") ≡ ok tt) ↔ (
    (codes "my-host.io" ≢ [])
    × ((no_ip (codes "my-host.io") ≡ true) ⊎ IsHostName (codes "my-host.io")))
validate_host_iff_example = validate_host_iff no_ip (codes "my-host.io")

abbrev cli : CliConfig
cli = record {
  admin_port = 8_420;
  l1_port = 8_545;
  l2_starting_port = 9_545;
  interop_auto_relay = false;
  interop_delay = 0;
  logs_directory = "";
  fork_config = some fork_both;
  l1_host = codes "127.0.0.1";
  l2_host = codes "localhost";
}

check_iff_example : (check two_chains no_ip cli ≡ ok tt) ↔ (
    (validate_host no_ip cli.l1_host ≡ ok tt)
    × (validate_host no_ip cli.l2_host ≡ ok tt)
    × CanFork two_chains ConfigError fork_both)
check_iff_example = check_iff two_chains ConfigError no_ip cli fork_both mainnet_only refl
