-- ===== src/Prelude/Results.antt =====
-- What a Go function hands back: a value, an error value, or a run-time panic (a nil dereference,
-- an index out of range). A panic is no error value: `map_err`, which is `fmt.Errorf("…: %w", err)`,
-- does not see it.
use Prim.Native.String.{String}
use mathlib.Core.Path.{◌≡◌, refl}
use mathlib.Core.Logic.{◌⊎◌, inl, inr}
use mathlib.Core.Option.{Option, none, some}
use mathlib.Core.Bool.{Bool, true, false}

pub data Result {ℓ κ} (E : Type ℓ) (A : Type κ) : Type (ℓ ⊔ κ) where
  ok : A → Result E A
  err : E → Result E A
  panic : Result E A

infixl 5 ◌>>=◌ ◌>>◌
abbrev pub ◌>>=◌ {ℓ κ ι} :
    {E : Type ℓ} {A : Type κ} {B : Type ι} → Result E A → (A → Result E B) → Result E B
ok a >>= f = f a
err e >>= f = err e
panic >>= f = panic

abbrev pub ◌>>◌ {ℓ κ} : {E : Type ℓ} {B : Type κ} → Result E (Unit {0}) → Result E B → Result E B
m >> k = m >>= λ _. k

abbrev pub map_err {ℓ κ ι} :
    {E : Type ℓ} {F : Type κ} {A : Type ι} → (E → F) → Result E A → Result F A
map_err w (ok a) = ok a
map_err w (err e) = err (w e)
map_err w panic = panic

-- What a call of code outside the repository hands back: a value, or an error by its text.
pub data External {κ} (A : Type κ) : Type κ where
  returns : A → External A
  fails : String → External A

abbrev pub from_external {ℓ κ} : {E : Type ℓ} {A : Type κ} → (String → E) → External A → Result E A
from_external w (returns a) = ok a
from_external w (fails e) = err (w e)

-- An early `return err` under a test.
abbrev pub fail_if {ℓ} : {E : Type ℓ} → Bool → E → Result E (Unit {0})
fail_if true e = err e
fail_if false e = ok tt

-- A nil pointer that is dereferenced, or an index past the end of a slice.
abbrev pub or_panic {ℓ κ} : {E : Type ℓ} {A : Type κ} → Option A → Result E A
or_panic none = panic
or_panic (some a) = ok a

-- A map read with `, ok` whose miss returns an error.
abbrev pub or_err {ℓ κ} : {E : Type ℓ} {A : Type κ} → Option A → E → Result E A
or_err none e = err e
or_err (some a) e = ok a

-- What a chain that succeeded went through.
pub >>=-eq-ok {ℓ κ ι} :
    {E : Type ℓ} {A : Type κ} {B : Type ι} (first : Result E A) (rest : A → Result E B) {y : B}
    → (first >>= rest) ≡ ok y
    → (x : A) × (first ≡ ok x) × (rest x ≡ ok y)
>>=-eq-ok panic rest succeeds = cc
>>=-eq-ok (err e) rest succeeds = cc
>>=-eq-ok (ok x) rest succeeds = (x, refl, succeeds)

pub map_err-eq-ok {ℓ κ ι} :
    {E : Type ℓ} {F : Type κ} {A : Type ι} (w : E → F) (m : Result E A) {a : A}
    → map_err w m ≡ ok a
    → m ≡ ok a
map_err-eq-ok w (ok a) h = cc
map_err-eq-ok w (err e) h = cc
map_err-eq-ok w panic h = cc

pub Result-cases {ℓ κ} :
    {E : Type ℓ} {A : Type κ} (r : Result E A)
    → ((a : A) × (r ≡ ok a)) ⊎ ((e : E) × (r ≡ err e)) ⊎ (r ≡ panic)
Result-cases (ok a) = inl (a, refl)
Result-cases (err e) = inr (inl (e, refl))
Result-cases panic = inr (inr refl)

pub fail_if-eq-ok {ℓ} : {E : Type ℓ} (b : Bool) (e : E) → fail_if b e ≡ ok tt → b ≡ false
fail_if-eq-ok true e h = cc
fail_if-eq-ok false e h = refl

pub or_err-eq-ok {ℓ κ} :
    {E : Type ℓ} {A : Type κ} (o : Option A) (e : E) {a : A} → or_err o e ≡ ok a → o ≡ some a
or_err-eq-ok none e h = cc
or_err-eq-ok (some a) e h = cc

pub or_panic-eq-ok {ℓ κ} :
    (E : Type ℓ) {A : Type κ} (o : Option A) {a : A} → or_panic {E = E} o ≡ ok a → o ≡ some a
or_panic-eq-ok E none h = cc
or_panic-eq-ok E (some a) h = cc

pub from_external-eq-ok {ℓ κ} :
    {E : Type ℓ} {A : Type κ} (w : String → E) (x : External A) {a : A}
    → from_external w x ≡ ok a
    → x ≡ returns a
from_external-eq-ok w (returns a) h = cc
from_external-eq-ok w (fails e) h = cc

pub External-cases {κ} :
    {A : Type κ} (x : External A) → ((a : A) × (x ≡ returns a)) ⊎ ((e : String) × (x ≡ fails e))
External-cases (returns a) = inl (a, refl)
External-cases (fails e) = inr (e, refl)
