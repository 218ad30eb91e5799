-- ===== src/App/Lifecycle.antt =====
-- supersim.go: Start and Stop of the program, by those of the orchestrator, and ConfigAsString without
-- the secrets, which only print.
use supersim.Prelude.{
  Bool, ◌≡◌, ◌↔◌, refl, if◌then◌else◌, List, [], ◌∷◌, ◌++◌, All, String, Result, ok, err, External,
  ◌>>=◌, arith,
}
use supersim.Prelude.State.{Action, wrap_err}
use supersim.Prelude.Text.{Text, codes}
use supersim.Orchestrator.Lifecycle.{Part, Deed, StartError, Outcome, start}
use supersim.Orchestrator.Shutdown.{stop, parts, Stops, stop_lem}
use supersim.Orchestrator.Describe.{Printed, config_as_string}
use supersim.App.{Supersim}

-- A constructor to each `fmt.Errorf`; the second has the errors that were joined.
pub data LifecycleError : Type 0 where
  start_failed : StartError → LifecycleError
  stop_failed : List (Part × String) → LifecycleError

-- `seen` says which errors of the mining are set by the time they are joined.
unfoldable pub start_supersim :
    Outcome → (Deed → Bool) → Supersim → Action (List Deed) LifecycleError (Unit {0})
start_supersim outcome seen s = wrap_err start_failed (start outcome seen s.orchestrator)

-- `errors.Join`, which is nil where no error is.
abbrev pub join : List (Part × String) → Result LifecycleError (Unit {0})
join [] = ok tt
join (e ∷ es) = err (stop_failed (e ∷ es))

unfoldable pub stop_supersim :
    (Part → External (Unit {0})) → Supersim → List Part × Result LifecycleError (Unit {0})
stop_supersim outcome s =
    let (stopped, errors) = stop outcome s.orchestrator in (stopped, join errors)

-- The predeploys are printed with interop only; `predeploys` are their lines.
unfoldable pub supersim_config_as_string : Printed → Text → Text → Supersim → Result String Text
supersim_config_as_string out secrets predeploys s = do
  network ← config_as_string out s.orchestrator
  ok (
      secrets
      ++ (codes "\nSupersim Config\n-----------------------\n"
          ++ (network
              ++ (codes "\n" ++ (if s.network_config.interop_enabled then predeploys else [])))))

join_iff : (es : List (Part × String)) → (join es ≡ ok tt) ↔ (es ≡ [])
join_iff [] = (λ h. refl, λ h. refl)
join_iff (e ∷ es) = (λ h. cc, λ h. absurd (ground arith))

-- A stop of the program stops every part of the network, and gives no error exactly where none of
-- them does.
pub stop_supersim_lem :
    (outcome : Part → External (Unit {0})) (s : Supersim)
    → ((stop_supersim outcome s).0 ≡ parts s.orchestrator)
      × (((stop_supersim outcome s).1 ≡ ok tt) ↔ All (Stops outcome) (parts s.orchestrator))
unfolding stop_supersim
stop_supersim_lem outcome s =
    let (all, errors) = stop_lem outcome s.orchestrator in
    let joined = join_iff (stop outcome s.orchestrator).1 in
    (all, (λ h. errors.0 (joined.0 h), λ h. joined.1 (errors.1 h)))
