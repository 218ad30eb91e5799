-- ===== src/Prelude/State.antt =====
-- A method that changes an object and may fail: the state comes back also after an error, since
-- what was written stays written.
use supersim.Prelude.Results.{Result, ok, err, panic, map_err}

abbrev pub Action : Type 0 → Type 0 → Type 0 → Type 0
Action S E A = S → Result E A × S

module _ {S E : Type 0} where
  abbrev pub lift : {A : Type 0} → Result E A → Action S E A
  lift r s = (r, s)

  abbrev pub gets : {A : Type 0} → (S → Result E A) → Action S E A
  gets f s = (f s, s)

  abbrev pub modify : (S → S) → Action S E (Unit {0})
  modify f s = (ok tt, f s)

  infixl 5 ◌>>=◌ ◌>>◌
  abbrev pub ◌>>=◌ : {A B : Type 0} → Action S E A → (A → Action S E B) → Action S E B
  ◌>>=◌ m f s =
      let (r, s') = m s in elim r [ ok a ↦ f a s' | err e ↦ (err e, s') | panic ↦ (panic, s') ]

  abbrev pub ◌>>◌ : {B : Type 0} → Action S E (Unit {0}) → Action S E B → Action S E B
  m >> k = m >>= λ _. k

-- `fmt.Errorf("…: %w", err)` around what a method returns.
abbrev pub wrap_err : {S E F A : Type 0} → (E → F) → Action S E A → Action S F A
wrap_err w m s = let (r, s') = m s in (map_err w r, s')
