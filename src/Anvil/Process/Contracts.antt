-- ===== src/Anvil/Process/Contracts.antt =====
-- What a start leaves behind, by the contracts of its parts.
use supersim.Prelude.{
  ◌≡◌, refl, ap, Bool, true, false, List, [], ◌∷◌, ◌++◌, Option, none, some, inl, inr, Bool-cases,
  External-cases, Result-cases,
}
use supersim.Prelude.State.{◌>>=◌, ◌>>◌}
use supersim.Prelude.Hoare.{After, Meets, Meets-then}
use supersim.Prelude.Text.{Text, codes}
use supersim.Config.Types.{ChainConfig}
use text.Mathlib.Text.{◌==◌ as str_eq}
use supersim.Anvil.Port.{read_port, read_port-ne-err}
use supersim.Anvil.Args.{needs_genesis, anvil_args, with_default_host}
use supersim.Anvil.Process.{
  AnvilError, Os, Anvil, new_anvil, start, write_genesis, open_log_file, launch, connect,
  run_command, set_log_file, ws_endpoint, temp_log_name, log_path, interrupted,
  genesis_write_failed, client_failed,
}

-- Each temporary file has a task that removes it.
abbrev pub IsTidy : Anvil → Type 0
IsTidy a = a.temp_files ≡ a.cleanup_tasks

-- The errors that `Start` gives once the process runs.
abbrev pub is_late : AnvilError → Bool
is_late interrupted = true
is_late (client_failed e) = true
is_late _ = false

abbrev pub is_write_failure : AnvilError → Bool
is_write_failure (genesis_write_failed e) = true
is_write_failure _ = false

abbrev pub IsAt : Bool → Anvil → Type 0
IsAt b a = (a.running ≡ b) × (a.stopped ≡ false)

abbrev pub Before : Anvil → Type 0
Before a = IsTidy a × IsAt false a

abbrev pub During : Anvil → Type 0
During a = IsTidy a × IsAt true a

abbrev pub Failed : AnvilError → Anvil → Type 0
Failed e a = (is_write_failure e ≡ false → IsTidy a) × IsAt (is_late e) a

module _ (os : Os) where
  write_genesis-Meets :
      (cfg : ChainConfig) → Meets Failed During Before (write_genesis os cfg) (λ a. Before)
  unfolding write_genesis
  write_genesis-Meets cfg s (tidy, idle) = elim (Bool-cases (needs_genesis cfg)) [
    | inr other ↦ rw other (tidy, idle)
    | inl needed ↦ elim (External-cases (os.create_temp (codes "genesis-*.json"))) [
      | inr (e, q) ↦ rw (needed, q) ((λ w. tidy), idle)
      | inl (file, q) ↦ elim (External-cases (os.write file cfg.genesis_json)) [
        | inr (e, r) ↦ rw (needed, q, r) ((λ w. cc), idle)
        | inl (u, r) ↦ rw (needed, q, r) (ap (λ fs. fs ++ file ∷ []) tidy, idle)
      ]
    ]
  ]

  open_log_file-Meets :
      (cfg : ChainConfig) → Meets Failed During Before (open_log_file os cfg) (λ a. Before)
  unfolding open_log_file
  open_log_file-Meets cfg s (tidy, idle) = elim (Bool-cases (str_eq cfg.logs_directory "")) [
    | inl temp ↦ elim (External-cases (os.create_temp (temp_log_name cfg))) [
      | inr (e, q) ↦ rw (temp, q) ((λ w. tidy), idle)
      | inl (file, q) ↦ rw (temp, q) (ap (λ fs. fs ++ file ∷ []) tidy, idle)
    ]
    | inr given ↦ elim (External-cases (os.abs (log_path cfg))) [
      | inr (e, q) ↦ rw (given, q) ((λ w. tidy), idle)
      | inl (path, q) ↦ elim (External-cases (os.create path)) [
        | inr (e, r) ↦ rw (given, q, r) ((λ w. tidy), idle)
        | inl (file, r) ↦ rw (given, q, r) (tidy, idle)
      ]
    ]
  ]

  launch-Meets : (args : List Text) → Meets Failed During Before (launch os args) (λ l. During)
  launch-Meets args s (tidy, idle) = elim (External-cases os.stdout_pipe) [
    | inr (e, q) ↦ rw q ((λ w. tidy), idle)
    | inl (u, q) ↦ elim (External-cases os.stderr_pipe) [
      | inr (e, r) ↦ rw (q, r) ((λ w. tidy), idle)
      | inl (u, r) ↦ elim (External-cases (os.run args)) [
        | inr (e, p) ↦ rw (q, r, p) ((λ w. tidy), idle)
        | inl (lines, p) ↦ rw (q, r, p) (tidy, (refl, idle.1))
      ]
    ]
  ]

  connect-Meets :
      (cfg : ChainConfig) (lines : List Text)
      → Meets Failed During During (connect os cfg lines) (λ u. During)
  connect-Meets cfg lines s (tidy, up) = elim (Result-cases (read_port {E = AnvilError} lines)) [
    | inr (inl (e, q)) ↦ absurd (read_port-ne-err AnvilError lines e q)
    | inr (inr q) ↦ rw q (tidy, up)
    | inl (none, q) ↦ rw q ((λ w. tidy), up)
    | inl (some bound, q) ↦
        elim (External-cases (os.dial (ws_endpoint (record cfg { port = bound })))) [
          | inr (e, r) ↦ rw (q, r) ((λ w. tidy), up)
          | inl (u, r) ↦ rw (q, r) (tidy, up)
        ]
  ]

  command-Meets :
      (cfg : ChainConfig) (genesis : Option Text)
      → Meets Failed During Before (run_command os cfg genesis) (λ u. During)
  command-Meets cfg genesis s h =
      let args : List Text = anvil_args cfg genesis in
      Meets-then Failed During Before (open_log_file os cfg) (λ f. Before)
        (λ file. set_log_file os file >> (launch os args >>= connect os cfg)) (λ u. During)
        (open_log_file-Meets cfg)
        (λ file s' h'.
          Meets-then Failed During Before (launch os args) (λ l. During) (connect os cfg)
            (λ u. During) (launch-Meets args) (connect-Meets cfg)
            (record s' { log_file_path = file }) h')
        (record s { args = some args }) h

  -- Whatever the first `Start` of an anvil ends with.
  pub start-After :
      (cfg : ChainConfig)
      → let (r, a) = start os (new_anvil cfg) in After (λ u. During) Failed During r a
  unfolding start
  start-After cfg =
      let given : ChainConfig = with_default_host cfg in
      Meets-then Failed During Before (write_genesis os given) (λ g. Before) (run_command os given)
        (λ u. During) (write_genesis-Meets given) (command-Meets given)
        (record (new_anvil cfg) { cfg = given }) (refl, (refl, refl))
