-- ===== src/Config/Flags.antt =====
-- config/cli.go: the flags of the commands, and ReadCLIConfig. The parser of the command line is
-- outside: `Context` is what it serves by the name of a flag. The usage texts are left out.
pub mod Reads
mod Tests
use supersim.Prelude.{
  ℕ, ◌≡◌, Bool, true, false, if◌then◌else◌, List, [], ◌∷◌, ◌++◌, All, Option, none, some, String,
  Result, ok, ◌>>=◌, ◌>>◌,
}
use text.Mathlib.Text.{◌==◌ as str_eq}
use supersim.Prelude.Text.{Text, codes}
use supersim.Config.Types.{CliConfig, ForkCliConfig}
use supersim.Config.Registry.{Registry}
use supersim.Config.Check.{ConfigError, check}

-- The type of a flag, with its `Value`; a slice has none.
pub data FlagKind : Type 0 where
  uint64_flag : ℕ → FlagKind
  bool_flag : Bool → FlagKind
  string_flag : String → FlagKind
  string_slice_flag : FlagKind

-- `env_var` is the name after the prefix.
pub record Flag : Type 0 where
  pub name : String
  pub kind : FlagKind
  pub required : Bool
  pub env_var : String

-- `*cli.Context`: the command's name, and the flags by type and name.
pub record Context : Type 0 where
  pub command_name : String
  pub uint64 : String → ℕ
  pub bool : String → Bool
  pub string : String → String
  pub string_slice : String → List String

abbrev optional : String → FlagKind → String → Flag
optional name kind env_var = record {
  name = name;
  kind = kind;
  required = false;
  env_var = env_var;
}

unfoldable pub base_cli_flags : List Flag
base_cli_flags =
    optional "admin.port" (uint64_flag 8_420) "ADMIN_PORT"
    ∷ optional "l1.port" (uint64_flag 8_545) "L1_PORT"
    ∷ optional "l2.starting.port" (uint64_flag 9_545) "L2_STARTING_PORT"
    ∷ optional "interop.autorelay" (bool_flag false) "INTEROP_AUTORELAY"
    ∷ optional "logs.directory" (string_flag "") "LOGS_DIRECTORY"
    ∷ optional "l1.host" (string_flag "127.0.0.1") "L1_HOST"
    ∷ optional "l2.host" (string_flag "127.0.0.1") "L2_HOST"
    ∷ optional "interop.delay" (uint64_flag 0) "INTEROP_DELAY"
    ∷ []

abbrev chains_flag : Flag
chains_flag = record {
  name = "chains";
  kind = string_slice_flag;
  required = true;
  env_var = "CHAINS";
}

unfoldable pub fork_cli_flags : List Flag
fork_cli_flags =
    optional "l1.fork.height" (uint64_flag 0) "L1_FORK_HEIGHT"
    ∷ chains_flag
    ∷ optional "network" (string_flag "mainnet") "NETWORK"
    ∷ optional "interop.enabled" (bool_flag true) "INTEROP_ENABLED"
    ∷ []

abbrev pub fork_command_name : String
fork_command_name = "fork"

abbrev pub docs_command_name : String
docs_command_name = "docs"

-- The flags that `app.Flags` and `app.Commands` of cmd/main.go give a command, those of the logger
-- aside. A command without flags of its own has those of the program.
unfoldable pub command_flags : String → List Flag
unfolding base_cli_flags fork_cli_flags
command_flags name =
    if str_eq name fork_command_name then fork_cli_flags ++ base_cli_flags else base_cli_flags

abbrev pub fork_settings : Context → ForkCliConfig
fork_settings ctx = record {
  l1_fork_height = ctx.uint64 "l1.fork.height";
  network = ctx.string "network";
  chains = ctx.string_slice "chains";
  interop_enabled = ctx.bool "interop.enabled";
}

abbrev pub settings : Bool → Context → CliConfig
settings is_fork ctx = record {
  admin_port = ctx.uint64 "admin.port";
  l1_port = ctx.uint64 "l1.port";
  l2_starting_port = ctx.uint64 "l2.starting.port";
  interop_auto_relay = ctx.bool "interop.autorelay";
  interop_delay = ctx.uint64 "interop.delay";
  logs_directory = ctx.string "logs.directory";
  fork_config = if is_fork then some (fork_settings ctx) else none;
  l1_host = codes (ctx.string "l1.host");
  l2_host = codes (ctx.string "l2.host");
}

-- The configuration comes back also where the check fails; its callers then drop it.
unfoldable pub read_cli_config :
    Registry → (Text → Bool) → Context → CliConfig × Result ConfigError (Unit {0})
read_cli_config reg parse_ip ctx =
    let cfg : CliConfig = settings (str_eq ctx.command_name fork_command_name) ctx in
    (cfg, check reg parse_ip cfg)
