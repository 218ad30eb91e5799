-- ===== src/Anvil/Process/Kept.antt =====
-- anvil/anvil.go, Start: what comes after the command keeps its arguments.
use supersim.Prelude.{
  ◌≡◌, String, List, none, some, Result, ok, err, panic, from_external, Result-cases, External,
  returns, fails, inl, inr, External-cases,
}
use supersim.Prelude.State.{Action, lift, ◌>>=◌, ◌>>◌}
use supersim.Prelude.Hoare.{After, Meets, Meets-then, Meets-if}
use supersim.Prelude.Text.{Text}
use text.Mathlib.Text.{◌==◌ as str_eq}
use supersim.Anvil.Port.{read_port}
use supersim.Config.Types.{ChainConfig}
use supersim.Anvil.Process.{
  Os, Anvil, AnvilError, temp_log_failed, log_path_failed, log_create_failed, stdout_failed,
  stderr_failed, process_failed, temp_log_name, log_path, ws_endpoint, open_log_file, set_log_file,
  launch, connect,
}

-- Once there is a command, its arguments stay.
abbrev pub HasArgs : List Text → Anvil → Type 0
HasArgs args a = a.args ≡ some args

abbrev pub Kept : {A : Type 0} → List Text → Action Anvil AnvilError A → Type 0
Kept args m = Meets (λ e. HasArgs args) (HasArgs args) (HasArgs args) m (λ x. HasArgs args)

module _ (args : List Text) where
  Kept-then :
      {A B : Type 0} (m : Action Anvil AnvilError A) (f : A → Action Anvil AnvilError B)
      → Kept args m
      → ((x : A) → Kept args (f x))
      → Kept args (m >>= f)
  Kept-then m f =
      Meets-then (λ e. HasArgs args) (HasArgs args) (HasArgs args) m (λ x. HasArgs args) f
        (λ x. HasArgs args)

  Kept-external :
      {A : Type 0} (w : String → AnvilError) (x : External A) → Kept args (lift (from_external w x))
  Kept-external w (returns a) s h = h
  Kept-external w (fails e) s h = h

  Kept-lift : {A : Type 0} (r : Result AnvilError A) → Kept args (lift r)
  Kept-lift (ok x) s h = h
  Kept-lift (err e) s h = h
  Kept-lift panic s h = h

  module _ (os : Os) (cfg : ChainConfig) where
    open_log_file-Kept : Kept args (open_log_file os cfg)
    unfolding open_log_file
    open_log_file-Kept =
        Meets-if (λ e. HasArgs args) (HasArgs args) (HasArgs args) (str_eq cfg.logs_directory "") _
          _ (λ x. HasArgs args)
          (Kept-then _ _ (Kept-external temp_log_failed (os.create_temp (temp_log_name cfg)))
            (λ file s h. h))
          (Kept-then _ _ (Kept-external log_path_failed (os.abs (log_path cfg)))
            (λ path. Kept-external log_create_failed (os.create path)))

    launch-Kept : (given : List Text) → Kept args (launch os given)
    launch-Kept given = Kept-then _ _ (Kept-external stdout_failed os.stdout_pipe) (λ u.
        Kept-then _ _ (Kept-external stderr_failed os.stderr_pipe)
          (λ u'. Kept-then _ _ (Kept-external process_failed (os.run given)) (λ lines s h. h)))

    connect-Kept : (lines : List Text) → Kept args (connect os cfg lines)
    connect-Kept lines s h = elim (Result-cases (read_port {E = AnvilError} lines)) [
      | inr (inl (e, q)) ↦ rw q h
      | inr (inr q) ↦ rw q h
      | inl (none, q) ↦ rw q h
      | inl (some bound, q) ↦
          elim (External-cases (os.dial (ws_endpoint (record cfg { port = bound })))) [
            | inr (e, r) ↦ rw (q, r) h
            | inl (u, r) ↦ rw (q, r) h
          ]
    ]

    pub After-Kept :
        (x : Result AnvilError (Unit {0}) × Anvil)
        → After (λ u. HasArgs args) (λ e. HasArgs args) (HasArgs args) x.0 x.1
        → HasArgs args x.1
    After-Kept (ok u, a) h = h
    After-Kept (err e, a) h = h
    After-Kept (panic, a) h = h

    pub run_command-Kept :
        (given : List Text)
        → Kept args (
            open_log_file os cfg >>= λ file.
            (set_log_file os file >> (launch os given >>= connect os cfg)))
    run_command-Kept given =
        Kept-then (open_log_file os cfg)
          (λ file. set_log_file os file >> (launch os given >>= connect os cfg)) open_log_file-Kept
          (λ file s h.
            Kept-then (launch os given) (connect os cfg) (launch-Kept given) connect-Kept
              (record s { log_file_path = file }) h)
