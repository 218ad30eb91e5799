-- ===== src/Anvil/Process.antt =====
-- anvil/anvil.go: New, Start and Stop of an anvil. Files, pipes, the process and the RPC client are
-- outside. `run` gives the lines that the process prints until the context ends.
pub mod Contracts
pub mod Life
pub mod Kept
pub mod Settings
mod Tests
use supersim.Prelude.{
  ℕ, ◌≡◌, refl, Bool, true, false, if◌then◌else◌, List, [], ◌∷◌, ◌++◌, Option, none, some, String,
  Result, ok, err, panic, External, returns, fails, from_external, fail_if, or_err,
}
use supersim.Prelude.State.{Action, lift, gets, modify, ◌>>=◌, ◌>>◌}
use supersim.Prelude.Text.{Text, codes, decimal, text_eq}
use supersim.Config.Types.{ChainConfig}
use text.Mathlib.Text.{◌==◌ as str_eq}
use supersim.Anvil.Args.{with_default_host, needs_genesis, anvil_args}
use supersim.Anvil.Port.{read_port}

-- A constructor to each error of `Start`; `interrupted` is `ctx.Err()`.
pub data AnvilError : Type 0 where
  already_started interrupted : AnvilError
  temp_genesis_failed genesis_write_failed temp_log_failed log_path_failed log_create_failed
        stdout_failed stderr_failed process_failed client_failed :
      String → AnvilError

pub record Os : Type 0 where
  pub create_temp : Text → External Text
  pub write : Text → List ℕ → External (Unit {0})
  pub abs : Text → External Text
  pub create : Text → External Text
  pub stdout_pipe : External (Unit {0})
  pub stderr_pipe : External (Unit {0})
  pub run : List Text → External (List Text)
  pub dial : Text → External (Unit {0})

-- `args` is the command's, once there is one; `running` says that the goroutine that waits for the
-- process is there, which is what sends on `stoppedCh`; `temp_files` are the temporary files that
-- have been made and not been removed.
pub record Anvil : Type 0 where
  pub cfg : ChainConfig
  pub args : Option (List Text)
  pub log_file_path : Text
  pub cleanup_tasks : List Text
  pub running : Bool
  pub endpoint : Option Text
  pub stopped : Bool
  pub temp_files : List Text

abbrev pub new_anvil : ChainConfig → Anvil
new_anvil cfg = record {
  cfg = cfg;
  args = none;
  log_file_path = [];
  cleanup_tasks = [];
  running = false;
  endpoint = none;
  stopped = false;
  temp_files = [];
}

abbrev pub Run : Type 0 → Type 0
Run = Action Anvil AnvilError

-- `fmt.Sprintf("ws://%s:%d", a.cfg.Host, a.cfg.Port)`
abbrev pub ws_endpoint : ChainConfig → Text
ws_endpoint cfg = codes "ws://" ++ (cfg.host ++ b':' ∷ decimal cfg.port)

-- `fmt.Sprintf("anvil-chain-%d-", …)` and `fmt.Sprintf("%s/anvil-%d.log", …)`
abbrev pub temp_log_name : ChainConfig → Text
temp_log_name cfg = codes "anvil-chain-" ++ (decimal cfg.chain_id ++ codes "-")

abbrev pub log_path : ChainConfig → Text
log_path cfg =
    codes cfg.logs_directory ++ (codes "/anvil-" ++ (decimal cfg.chain_id ++ codes ".log"))

abbrev pub is_started : Anvil → Bool
is_started a = elim a.args [ none ↦ false | some args ↦ true ]

module _ (os : Os) where
  abbrev made_temp : Text → Run (Unit {0})
  made_temp file = modify (λ a. record a { temp_files = a.temp_files ++ file ∷ [] })

  -- `registerCleanupTask` with `removeFile`
  abbrev pub register_cleanup_task : Text → Run (Unit {0})
  register_cleanup_task file =
      modify (λ a. record a { cleanup_tasks = a.cleanup_tasks ++ file ∷ [] })

  unfoldable pub write_genesis : ChainConfig → Run (Option Text)
  write_genesis cfg =
      if needs_genesis cfg
      then (do
        file ← lift (from_external temp_genesis_failed (os.create_temp (codes "genesis-*.json")))
        made_temp file
        done ← lift (from_external genesis_write_failed (os.write file cfg.genesis_json))
        register_cleanup_task file
        lift (ok (some file)))
      else lift (ok none)

  unfoldable pub open_log_file : ChainConfig → Run Text
  open_log_file cfg =
      if str_eq cfg.logs_directory ""
      then (do
        file ← lift (from_external temp_log_failed (os.create_temp (temp_log_name cfg)))
        made_temp file
        register_cleanup_task file
        lift (ok file))
      else (do
        path ← lift (from_external log_path_failed (os.abs (log_path cfg)))
        lift (from_external log_create_failed (os.create path)))

  -- Up to the arguments: the guard and the host.
  abbrev pub set_up : Run ChainConfig
  set_up = do
    gets (λ a. fail_if (is_started a) already_started)
    modify (λ a. record a { cfg = with_default_host a.cfg })
    gets (λ a. ok a.cfg)

  -- `exec.CommandContext`
  abbrev pub make_command : List Text → Run (Unit {0})
  make_command args = modify (λ a. record a { args = some args })

  abbrev pub set_log_file : Text → Run (Unit {0})
  set_log_file file = modify (λ a. record a { log_file_path = file })

  -- The pipes, and `a.cmd.Start()` with the goroutine that waits for the process.
  abbrev pub launch : List Text → Run (List Text)
  launch args = do
    lift (from_external stdout_failed os.stdout_pipe)
    lift (from_external stderr_failed os.stderr_pipe)
    lines ← lift (from_external process_failed (os.run args))
    modify (λ a. record a { running = true })
    lift (ok lines)

  -- The wait for the port, and the client.
  abbrev pub connect : ChainConfig → List Text → Run (Unit {0})
  connect cfg lines = do
    port ← lift (read_port lines)
    bound ← lift (or_err port interrupted)
    modify (λ a. record a { cfg = record cfg { port = bound } })
    lift (from_external client_failed (os.dial (ws_endpoint (record cfg { port = bound }))))
    modify (λ a. record a { endpoint = some (ws_endpoint (record cfg { port = bound })) })

  -- The command, the log file and the process.
  abbrev pub run_command : ChainConfig → Option Text → Run (Unit {0})
  run_command cfg genesis = do
    make_command (anvil_args cfg genesis)
    log_file ← open_log_file cfg
    set_log_file log_file
    lines ← launch (anvil_args cfg genesis)
    connect cfg lines

  unfoldable pub start : Run (Unit {0})
  start = do cfg ← set_up; genesis ← write_genesis cfg; run_command cfg genesis

-- What `Stop` comes to; `waits` is the receive on `stoppedCh` with no one to send.
pub data StopOutcome : Type 0 where
  stopped_already stops waits : StopOutcome

abbrev pub is_in : Text → List Text → Bool
is_in file [] = false
is_in file (f ∷ fs) = let rest = is_in file fs in if text_eq file f then true else rest

abbrev pub removes : External (Unit {0}) → Bool
removes (returns a) = true
removes (fails e) = false

-- `executeCleanup`, `removed` of a file's `os.Remove`: the temporary files that are left.
unfoldable pub execute_cleanup : (Text → External (Unit {0})) → List Text → List Text → List Text
execute_cleanup removed tasks [] = []
execute_cleanup removed tasks (file ∷ files) =
    let rest = execute_cleanup removed tasks files in
    if is_in file tasks then (if removes (removed file) then rest else file ∷ rest) else file ∷ rest

unfoldable pub stop : (Text → External (Unit {0})) → Anvil → StopOutcome × Anvil
unfolding execute_cleanup
stop removed a = if a.stopped then (stopped_already, a) else (
  if a.running then stops else waits,
  record a {
    stopped = true;
    endpoint = none;
    temp_files = execute_cleanup removed a.cleanup_tasks a.temp_files;
  },
)
