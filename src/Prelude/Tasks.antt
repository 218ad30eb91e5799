-- ===== src/Prelude/Tasks.antt =====
-- How far a goroutine's loop has come on a schedule of its `select`: still in the loop, returned
-- (with an error or nil), or ended by a panic, each with the state then.
use mathlib.Core.Path.{◌≡◌, refl}
use mathlib.Core.Logic.{◌⊎◌, inl, inr}
use mathlib.Core.Option.{Option}

pub data Loop (S E : Type 0) : Type 0 where
  running : S → Loop S E
  returned : Option E → S → Loop S E
  crashed : S → Loop S E

-- The state that the loop has left.
abbrev pub state_of : {S E : Type 0} → Loop S E → S
state_of (Loop.running s) = s
state_of (Loop.returned e s) = s
state_of (Loop.crashed s) = s

pub Loop-cases :
    {S E : Type 0} (l : Loop S E)
    → ((s : S) × (l ≡ Loop.running s))
      ⊎ ((e : Option E) × (s : S) × (l ≡ Loop.returned e s))
      ⊎ ((s : S) × (l ≡ Loop.crashed s))
Loop-cases (Loop.running s) = inl (s, refl)
Loop-cases (Loop.returned e s) = inr (inl (e, s, refl))
Loop-cases (Loop.crashed s) = inr (inr (s, refl))
