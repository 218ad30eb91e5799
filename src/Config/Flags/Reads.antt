-- ===== src/Config/Flags/Reads.antt =====
-- The configuration is read of the flags that the command has, and of no others.
use supersim.Prelude.{
  ◌≡◌, refl, ap, ◌∙◌, Bool, true, false, if◌then◌else◌, ◌++◌, All, none, ok, arith,
}
use text.Mathlib.Text.{◌==◌ as str_eq}
use supersim.Prelude.Text.{Text, codes, text_eq}
use supersim.Config.Types.{CliConfig}
use supersim.Config.Registry.{Registry}
use supersim.Config.Host.{validate_host}
use supersim.Config.Check.{check}
use supersim.Config.Flags.{
  uint64_flag, bool_flag, string_flag, string_slice_flag, Flag, Context, base_cli_flags,
  fork_cli_flags, fork_command_name, command_flags, settings, read_cli_config,
}

-- Two command lines give a flag the same value, of the type that the flag has.
abbrev pub Agrees : Context → Context → Flag → Type 0
Agrees c d f = elim f.kind as (λ k. Type 0) [
  | uint64_flag v ↦ c.uint64 f.name ≡ d.uint64 f.name
  | bool_flag v ↦ c.bool f.name ≡ d.bool f.name
  | string_flag v ↦ c.string f.name ≡ d.string f.name
  | string_slice_flag ↦ c.string_slice f.name ≡ d.string_slice f.name
]

settings-Agrees :
    (c d : Context) (is_fork : Bool)
    → All (Agrees c d) (if is_fork then fork_cli_flags ++ base_cli_flags else base_cli_flags)
    → settings is_fork c ≡ settings is_fork d
unfolding base_cli_flags fork_cli_flags
settings-Agrees c d true
      (
        height,
        (
          chains,
          (network, (enabled, (admin, (l1, (l2, (relay, (logs, (host, (host₂, (delay, end)))))))))),
        ),
      ) =
    cc
settings-Agrees c d false (admin, (l1, (l2, (relay, (logs, (host, (host₂, (delay, end)))))))) = cc

-- Two command lines of one command that agree on each of its flags, by the flag's type, are read as
-- one configuration: nothing is read that the command does not declare, or with another type.
pub read_cli_config-Agrees :
    (reg : Registry) (parse_ip : Text → Bool) (c d : Context)
    → c.command_name ≡ d.command_name
    → All (Agrees c d) (command_flags c.command_name)
    → read_cli_config reg parse_ip c ≡ read_cli_config reg parse_ip d
unfolding read_cli_config command_flags
read_cli_config-Agrees reg parse_ip c d named agrees =
    let same : settings (str_eq c.command_name fork_command_name) c
        ≡ settings (str_eq d.command_name fork_command_name) d =
      settings-Agrees c d (str_eq c.command_name fork_command_name) agrees
      ∙ ap (λ name. settings (str_eq name fork_command_name) d) named in
    ap (λ s. (s, check reg parse_ip s)) same

-- A command line that leaves a flag at its default; a slice has none.
abbrev pub IsDefault : Context → Flag → Type 0
IsDefault c f = elim f.kind as (λ k. Type 0) [
  | uint64_flag v ↦ c.uint64 f.name ≡ v
  | bool_flag v ↦ c.bool f.name ≡ v
  | string_flag v ↦ c.string f.name ≡ v
  | string_slice_flag ↦ Unit {0}
]

-- The settings of the program without flags.
abbrev pub vanilla : CliConfig
vanilla = record {
  admin_port = 8_420;
  l1_port = 8_545;
  l2_starting_port = 9_545;
  interop_auto_relay = false;
  interop_delay = 0;
  logs_directory = "";
  fork_config = none;
  l1_host = codes "127.0.0.1";
  l2_host = codes "127.0.0.1";
}

settings-IsDefault : (c : Context) → All (IsDefault c) base_cli_flags → settings false c ≡ vanilla
unfolding base_cli_flags
settings-IsDefault c (admin, (l1, (l2, (relay, (logs, (host, (host₂, (delay, end)))))))) = cc

vanilla-check : (reg : Registry) (parse_ip : Text → Bool) → check reg parse_ip vanilla ≡ ok tt
unfolding check validate_host text_eq
vanilla-check reg parse_ip = refl

-- A command line of the program itself, or of `docs`, that leaves every flag at its default is read
-- as the settings without flags, which pass the check, whatever the registry.
pub read_cli_config-IsDefault :
    (reg : Registry) (parse_ip : Text → Bool) (c : Context)
    → str_eq c.command_name fork_command_name ≡ false
    → All (IsDefault c) (command_flags c.command_name)
    → read_cli_config reg parse_ip c ≡ (vanilla, ok tt)
unfolding read_cli_config command_flags
read_cli_config-IsDefault reg parse_ip c other defaults =
    let own : All (IsDefault c) base_cli_flags =
      branch (str_eq c.command_name fork_command_name) other defaults in
    let same : settings (str_eq c.command_name fork_command_name) c ≡ vanilla =
      ap (λ b. settings b c) other ∙ settings-IsDefault c own in
    ap (λ s. (s, check reg parse_ip s)) same ∙ ap (λ r. (vanilla, r)) (vanilla-check reg parse_ip)
  where
    branch :
        (b : Bool)
        → b ≡ false
        → All (IsDefault c) (if b then fork_cli_flags ++ base_cli_flags else base_cli_flags)
        → All (IsDefault c) base_cli_flags
    branch true e h = absurd (ground arith)
    branch false e h = h
