-- ===== src/Config/Flags/Tests.antt =====
-- Command lines without flags, and with a flag that the command does not have.
use text.Mathlib.Text.{◌==◌ as str_eq}
use supersim.Prelude.{ℕ, ◌≡◌, refl, Bool, false, [], ◌∷◌, ok, String, if◌then◌else◌}
use supersim.Prelude.Text.{Text}
use supersim.Config.TestData.{two_chains}
use supersim.Config.Flags.{Context, base_cli_flags, command_flags, read_cli_config}
use supersim.Config.Flags.Reads.{vanilla, read_cli_config-Agrees, read_cli_config-IsDefault}

abbrev no_ip : Text → Bool
no_ip host = false

abbrev ports : String → ℕ
ports name =
    if str_eq name "admin.port"
    then 8_420
    else if str_eq name "l1.port"
    then 8_545
    else if str_eq name "l2.starting.port"
    then 9_545
    else 0

abbrev texts : String → String
texts name = if str_eq name "logs.directory" then "" else "127.0.0.1"

abbrev plain : Context
plain = record {
  command_name = "supersim";
  uint64 = ports;
  bool = λ name. false;
  string = texts;
  string_slice = λ name. [];
}

-- The same, with chains, which only `fork` has.
abbrev with_chains : Context
with_chains = record plain { string_slice = λ name. "op" ∷ [] }

read_cli_config-Agrees_example :
    read_cli_config two_chains no_ip plain ≡ read_cli_config two_chains no_ip with_chains
unfolding command_flags base_cli_flags
read_cli_config-Agrees_example =
    read_cli_config-Agrees two_chains no_ip plain with_chains refl
      (refl, (refl, (refl, (refl, (refl, (refl, (refl, (refl, tt))))))))

reads_defaults : read_cli_config two_chains no_ip plain ≡ (vanilla, ok tt)
unfolding command_flags base_cli_flags
reads_defaults =
    read_cli_config-IsDefault two_chains no_ip plain refl
      (refl, (refl, (refl, (refl, (refl, (refl, (refl, (refl, tt))))))))
