-- ===== src/Prelude/Hoare.antt =====
-- Contracts of methods: what holds after one that succeeds, fails or panics.
use Prim.Native.String.{String}
use mathlib.Core.Bool.{Bool, true, false}
use supersim.Prelude.Tests.{if◌then◌else◌}
use supersim.Prelude.Results.{Result, ok, err, panic, External, returns, fails, from_external}
use supersim.Prelude.State.{Action, lift, modify, ◌>>=◌}

abbrev pub After :
    {S E A : Type 0} → (A → S → Type 0) → (E → S → Type 0) → (S → Type 0) → Result E A → S → Type 0
After R F N (ok x) s = R x s
After R F N (err e) s = F e s
After R F N panic s = N s

module _ {S E : Type 0} (F : E → S → Type 0) (N : S → Type 0) where
  -- From a state in which `P` holds, a method that succeeds ends where `R` holds of its value, one
  -- that fails where `F` holds of the error, and one that panics where `N` holds.
  abbrev pub Meets : {A : Type 0} → (S → Type 0) → Action S E A → (A → S → Type 0) → Type 0
  Meets P m R = (s : S) → P s → After R F N (m s).0 (m s).1

  pub Meets-then :
      {A B : Type 0} (P : S → Type 0) (m : Action S E A) (R : A → S → Type 0) (f : A → Action S E B)
      (Q : B → S → Type 0)
      → Meets P m R
      → ((x : A) → Meets (R x) (f x) Q)
      → Meets P (m >>= f) Q
  Meets-then {A = A} {B = B} P m R f Q first next s h = go (m s) (first s h)
    where
      go :
          (after : Result E A × S)
          → After R F N after.0 after.1
          → let end : Result E B × S =
              (let (r, s') = after in
                elim r [ ok a ↦ f a s' | err e ↦ (err e, s') | panic ↦ (panic, s') ]) in
            After Q F N end.0 end.1
      go (ok x, s') h = next x s' h
      go (err e, s') h = h
      go (panic, s') h = h

  pub Meets-external :
      {A : Type 0} (P : S → Type 0) (w : String → E) (x : External A)
      → ((e : String) (s : S) → P s → F (w e) s)
      → Meets P (lift (from_external w x)) (λ a. P)
  Meets-external P w (returns a) fault s h = h
  Meets-external P w (fails e) fault s h = fault e s h

  pub Meets-modify :
      (P Q : S → Type 0) (f : S → S) → ((s : S) → P s → Q (f s)) → Meets P (modify f) (λ u. Q)
  Meets-modify P Q f step s h = step s h

  pub Meets-if :
      {A : Type 0} (P : S → Type 0) (b : Bool) (m k : Action S E A) (R : A → S → Type 0)
      → Meets P m R
      → Meets P k R
      → Meets P (if b then m else k) R
  Meets-if P true m k R hm hk = hm
  Meets-if P false m k R hm hk = hk
