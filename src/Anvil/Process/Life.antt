-- ===== src/Anvil/Process/Life.antt =====
-- What a stop does after a start.
use supersim.Prelude.{
  ◌≡◌, refl, Bool, true, false, if◌then◌else◌, List, [], ◌∷◌, String, Result, ok, err, panic,
  External, returns, arith, ◌⊎◌, inl, inr, All, Bool-cases,
}
use supersim.Prelude.Hoare.{After}
use supersim.Prelude.Text.{Text, text_eq_iff}
use supersim.Config.Types.{ChainConfig}
use supersim.Anvil.Process.{
  AnvilError, Os, Anvil, new_anvil, start, stop, execute_cleanup, is_in, waits, stops,
  genesis_write_failed,
}
use supersim.Anvil.Process.Contracts.{
  IsTidy, is_late, is_write_failure, IsAt, During, Failed, start-After,
}

-- Whether the process was running when `Start` ended so.
abbrev pub ran : Result AnvilError (Unit {0}) → Bool
ran (ok u) = true
ran (err e) = is_late e
ran panic = true

abbrev pub IsWriteFailure : Result AnvilError (Unit {0}) → Type 0
IsWriteFailure r = (e : String) × (r ≡ err (genesis_write_failed e))

is_write_failure_sound : (e : AnvilError) → is_write_failure e ≡ true → IsWriteFailure (err e)
is_write_failure_sound (genesis_write_failed e) h = (e, refl)
is_write_failure_sound _ h = absurd (ground arith)

is_in-cons :
    (g : Text) (tasks files : List Text)
    → All (λ file. is_in file tasks ≡ true) files
    → All (λ file. is_in file (g ∷ tasks) ≡ true) files
is_in-cons g tasks [] h = tt
is_in-cons g tasks (file ∷ files) h = (ground arith, is_in-cons g tasks files h.1)

is_in_self : (files : List Text) → All (λ file. is_in file files ≡ true) files
is_in_self [] = tt
is_in_self (file ∷ files) =
    (ground (arith, text_eq_iff file file), is_in-cons file files files (is_in_self files))

module _ (removed : Text → External (Unit {0})) where
  execute_cleanup-All :
      ((file : Text) → removed file ≡ returns tt)
      → (tasks files : List Text) → All (λ file. is_in file tasks ≡ true) files
      → execute_cleanup removed tasks files ≡ []
  unfolding execute_cleanup
  execute_cleanup-All works tasks [] h = refl
  execute_cleanup-All works tasks (file ∷ files) h =
      ground (arith, works file, execute_cleanup-All works tasks files h.1)

  stop-tidy :
      (a : Anvil)
      → ((file : Text) → removed file ≡ returns tt)
      → IsTidy a
      → a.stopped ≡ false
      → (stop removed a).1.temp_files ≡ []
  unfolding stop
  stop-tidy a works tidy up = ground (
    arith,
    up,
    tidy,
    execute_cleanup-All works a.cleanup_tasks a.cleanup_tasks (is_in_self a.cleanup_tasks),
  )

  stop-outcome :
      (a : Anvil) (b : Bool) → IsAt b a → (stop removed a).0 ≡ (if b then stops else waits)
  unfolding stop
  stop-outcome a b (up, going) = ground (arith, up, going)

  stop_outcome_of :
      (r : Result AnvilError (Unit {0})) (a : Anvil)
      → ((file : Text) → removed file ≡ returns tt)
      → After (λ u. During) Failed During r a
      → ((stop removed a).0 ≡ (if ran r then stops else waits))
        × (IsWriteFailure r ⊎ ((stop removed a).1.temp_files ≡ []))
  stop_outcome_of (ok u) a works (tidy, at) =
      (stop-outcome a true at, inr (stop-tidy a works tidy at.1))
  stop_outcome_of panic a works (tidy, at) =
      (stop-outcome a true at, inr (stop-tidy a works tidy at.1))
  stop_outcome_of (err e) a works (tidy, at) = (
    stop-outcome a (is_late e) at,
    elim (Bool-cases (is_write_failure e)) [
      | inr other ↦ inr (stop-tidy a works (tidy other) at.1)
      | inl leaky ↦ inl (is_write_failure_sound e leaky)
    ],
  )

  -- The first `Stop` after the first `Start`, whatever that ended with, ends where the process ran,
  -- and waits for ever where `Start` gave an error before that. The temporary files are then all
  -- removed, if they can be, but where the genesis could not be written to its file.
  pub start-stop :
      (os : Os) (cfg : ChainConfig)
      → ((file : Text) → removed file ≡ returns tt)
      → let (r, a) = start os (new_anvil cfg) in
        ((stop removed a).0 ≡ (if ran r then stops else waits))
        × (IsWriteFailure r ⊎ ((stop removed a).1.temp_files ≡ []))
  start-stop os cfg works =
      let (r, a) = start os (new_anvil cfg) in stop_outcome_of r a works (start-After os cfg)
