-- ===== src/Prelude/Text/Parse.antt =====
-- `strings.Split` by one byte, and `strconv.ParseInt` in base 10 with 64 bits.
use supersim.Prelude.{
  ℕ, zero, suc, ◌+◌, ◌-◌, ◌*◌, ◌/◌, ◌%◌, ◌^◌, ◌<◌, ◌≤◌, ◌≡◌, ◌≢◌, refl, Bool, true, false, ◌&&◌,
  List, [], ◌∷◌, ◌++◌, Option, none, some, if◌then◌else◌, ltb, leb, ◌==◌, arith, All, All-append,
  Bool-cases, inl, inr,
}
use supersim.Prelude.Int.{ℤ, pos, negsuc}
use supersim.Prelude.Text.{Text, decimal, decimal_from}

-- The text before the first separator, and the fields after it.
unfoldable pub split : ℕ → Text → Text × List Text
split sep [] = ([], [])
split sep (c ∷ s) =
    let (first, others) = split sep s in
    if c == sep then ([], first ∷ others) else (c ∷ first, others)

abbrev pub is_digit : ℕ → Bool
is_digit c = leb b'0' c && leb c b'9'

unfoldable pub digits_value : ℕ → Text → Option ℕ
digits_value acc [] = some acc
digits_value acc (c ∷ s) =
    let rest = digits_value (acc * 10 + (c - b'0')) s in if is_digit c then rest else none

-- The digits after the sign; a value of 2^63 or more, or below -2^63, is out of range.
unfoldable positive : Text → Option ℤ
unfolding digits_value
positive [] = none
positive (c ∷ s) = elim (digits_value 0 (c ∷ s)) [
  | none ↦ none
  | some n ↦ if ltb n (2 ^ 63) then some (pos n) else none
]

unfoldable negative : Text → Option ℤ
unfolding digits_value
negative [] = none
negative (c ∷ s) = elim (digits_value 0 (c ∷ s)) [
  | none ↦ none
  | some zero ↦ some (pos 0)
  | some (suc n) ↦ if ltb n (2 ^ 63) then some (negsuc n) else none
]

unfoldable pub parse_int : Text → Option ℤ
unfolding positive negative
parse_int [] = none
parse_int (c ∷ s) =
    if c == b'-' then negative s else if c == b'+' then positive s else positive (c ∷ s)

-- `strconv.ParseUint` in base 10 with 64 bits, which takes no sign.
unfoldable pub parse_uint : Text → Option ℕ
unfolding digits_value
parse_uint [] = none
parse_uint (c ∷ s) = elim (digits_value 0 (c ∷ s)) [
  | none ↦ none
  | some n ↦ if ltb n (2 ^ 64) then some n else none
]

-- No byte of the text is the separator.
abbrev pub IsFree : ℕ → Text → Type 0
IsFree sep s = All (λ c. (c == sep) ≡ false) s

pub split-free : (sep : ℕ) (s : Text) → IsFree sep s → split sep s ≡ (s, [])
unfolding split
split-free sep [] h = refl
split-free sep (c ∷ s) h = ground (arith, split-free sep s h.1)

pub split-append :
    (sep : ℕ) (s t : Text)
    → IsFree sep s
    → split sep (s ++ sep ∷ t) ≡ (s, (split sep t).0 ∷ (split sep t).1)
unfolding split
split-append sep [] t h = ground arith
split-append sep (c ∷ s) t h = ground (arith, split-append sep s t h.1)

digits_value-append :
    (acc a : ℕ) (s t : Text)
    → digits_value acc s ≡ some a
    → digits_value acc (s ++ t) ≡ digits_value a t
unfolding digits_value
digits_value-append acc a [] t h = cc
digits_value-append acc a (c ∷ s) t h = elim (Bool-cases (is_digit c)) [
  | inl d ↦ ground (arith, digits_value-append (acc * 10 + (c - b'0')) a s t)
  | inr d ↦ absurd (ground arith)
]

digits_value-decimal_from : (f n : ℕ) → n < f → digits_value 0 (decimal_from f n) ≡ some n
unfolding decimal_from digits_value
digits_value-decimal_from zero n h = elim h [ ]
digits_value-decimal_from (suc f) n h = ground (
  arith,
  digits_value-decimal_from f (n / 10),
  digits_value-append 0 (n / 10) (decimal_from f (n / 10)) ((b'0' + n % 10) ∷ []),
)

All-if : (P : ℕ → Type 0) (b : Bool) (s t : Text) → All P s → All P t → All P (if b then s else t)
All-if P true s t hs ht = hs
All-if P false s t hs ht = ht

abbrev AllDigits : Text → Type 0
AllDigits s = All (λ c. (b'0' ≤ c) × (c ≤ b'9')) s

-- A decimal is made of digits, at least one of them.
decimal_from-AllDigits : (f n : ℕ) → AllDigits (decimal_from f n)
unfolding decimal_from
decimal_from-AllDigits zero n = tt
decimal_from-AllDigits (suc f) n = elim (Bool-cases (ltb n 10)) [
  | inl small ↦ rw small ((omega arith, omega (arith, small_digit n small)), tt)
  | inr large ↦ rw large (
      All-append (λ c. (b'0' ≤ c) × (c ≤ b'9')) (decimal_from f (n / 10)) ((b'0' + n % 10) ∷ [])
        (decimal_from-AllDigits f (n / 10)) ((omega arith, omega arith), tt))
]
  where
    small_digit : (n : ℕ) → ltb n 10 ≡ true → n < 10
    small_digit n h = ground arith

snoc-cons : (s : Text) (d : ℕ) → (c : ℕ) × (t : Text) × (s ++ d ∷ [] ≡ c ∷ t)
snoc-cons [] d = (d, [], refl)
snoc-cons (c ∷ s) d = (c, s ++ d ∷ [], refl)

decimal_from-cons : (f n : ℕ) → (c : ℕ) × (s : Text) × (decimal_from (suc f) n ≡ c ∷ s)
unfolding decimal_from
decimal_from-cons f n = elim (Bool-cases (ltb n 10)) [
  | inl small ↦ (b'0' + n, [], ground arith)
  | inr large ↦ rw large (snoc-cons (decimal_from f (n / 10)) (b'0' + n % 10))
]

decimal_from-full : (f n : ℕ) → n < f → decimal_from f n ≢ []
decimal_from-full zero n h e = absurd (omega arith)
decimal_from-full (suc f) n h e = let (c, s, q) = decimal_from-cons f n in cc

parse_int-digits :
    (s : Text) (n : ℕ)
    → AllDigits s
    → s ≢ []
    → digits_value 0 s ≡ some n
    → n < 2 ^ 63
    → parse_int s ≡ some (pos n)
unfolding parse_int positive
parse_int-digits [] n digits full value fits = absurd (full refl)
parse_int-digits (c ∷ s) n digits full value fits = ground (arith, digits.0)

-- `strconv.ParseInt` reads back what `%d` prints.
pub parse_int-decimal : (n : ℕ) → n < 2 ^ 63 → parse_int (decimal n) ≡ some (pos n)
unfolding decimal
parse_int-decimal n fits =
    parse_int-digits (decimal_from (n + 1) n) n (decimal_from-AllDigits (n + 1) n)
      (decimal_from-full (n + 1) n (omega arith))
      (digits_value-decimal_from (n + 1) n (omega arith)) fits

parse_uint-digits :
    (s : Text) (n : ℕ) → s ≢ [] → digits_value 0 s ≡ some n → n < 2 ^ 64 → parse_uint s ≡ some n
unfolding parse_uint
parse_uint-digits [] n full value fits = absurd (full refl)
parse_uint-digits (c ∷ s) n full value fits = ground arith

-- `strconv.ParseUint` reads back what `%d` prints.
pub parse_uint-decimal : (n : ℕ) → n < 2 ^ 64 → parse_uint (decimal n) ≡ some n
unfolding decimal
parse_uint-decimal n fits =
    parse_uint-digits (decimal_from (n + 1) n) n (decimal_from-full (n + 1) n (omega arith))
      (digits_value-decimal_from (n + 1) n (omega arith)) fits

digits-IsFree : (sep : ℕ) (s : Text) → is_digit sep ≡ false → AllDigits s → IsFree sep s
digits-IsFree sep [] n h = tt
digits-IsFree sep (c ∷ s) n h = (ground (arith, h.0), digits-IsFree sep s n h.1)

pub decimal-IsFree : (sep n : ℕ) → is_digit sep ≡ false → IsFree sep (decimal n)
unfolding decimal
decimal-IsFree sep n h =
    digits-IsFree sep (decimal_from (n + 1) n) h (decimal_from-AllDigits (n + 1) n)
