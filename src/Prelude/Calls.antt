-- ===== src/Prelude/Calls.antt =====
-- Actions that record the calls they make, and the calls that a successful one has made.
pub mod Follows
use mathlib.Core.Path.{◌≡◌}
use mathlib.Core.List.{List, [], ◌++◌, append-nil, append_assoc}
use mathlib.Core.Bool.{Bool, true, false}
use native.Mathlib.Omega.{arith}
use supersim.Prelude.Tests.{if◌then◌else◌}
use supersim.Prelude.Results.{ok}
use supersim.Prelude.State.{Action, lift, wrap_err, ◌>>◌}

module _ {C E : Type 0} where
  -- An action succeeds, after just these calls.
  abbrev pub Makes : Action (List C) E (Unit {0}) → List C → Type 0
  Makes m cs = (made : List C) → m made ≡ (ok tt, made ++ cs)

  pub Makes-nothing : Makes (lift (ok tt)) []
  Makes-nothing made = ground (arith, append-nil made)

  pub Makes-then :
      (m k : Action (List C) E (Unit {0})) (cs ds : List C)
      → Makes m cs
      → Makes k ds
      → Makes (m >> k) (cs ++ ds)
  Makes-then m k cs ds first next made =
      ground (arith, first made, next (made ++ cs), append_assoc made cs ds)

  pub Makes-wrapped :
      (w : E → E) (m : Action (List C) E (Unit {0})) (cs : List C)
      → Makes m cs
      → Makes (wrap_err w m) cs
  Makes-wrapped w m cs h made = ground (arith, h made)

  pub Makes-if :
      (b : Bool) (m : Action (List C) E (Unit {0})) (cs : List C)
      → Makes m cs
      → Makes (if b then m else lift (ok tt)) (if b then cs else [])
  Makes-if true m cs h = h
  Makes-if false m cs h = Makes-nothing
