-- ===== src/Prelude/Int.antt =====
-- Signed integers over the native numbers, under the library's names: Go's `*big.Int`, with the
-- conversions from and to the machine's 64-bit words that the program makes.
use Prim.Native.Nat.{ℕ, suc, ◌+◌, ◌*◌, ◌-◌, ◌%◌, ◌^◌, ◌<◌}
use mathlib.Core.Path.{◌≡◌}
use mathlib.Core.Bool.{Bool, true, false}
use mathlib.Core.Logic.{◌↔◌}
use native.Mathlib.Omega.{arith}
use supersim.Prelude.Tests.{ltb, ◌==◌, if◌then◌else◌}

-- `negsuc n` is -(n + 1).
pub data ℤ : Type 0 where
  pos : ℕ → ℤ
  negsuc : ℕ → ℤ

-- The number of values of a `uint64`.
abbrev pub word : ℕ
word = 2 ^ 64

-- `big.NewInt(int64(x))`: the upper half of the words turns negative.
unfoldable pub of_int64 : ℕ → ℤ
of_int64 x = if ltb x (2 ^ 63) then pos x else negsuc (word - 1 - x)

-- `(*big.Int).Uint64`: the low word of the absolute value.
unfoldable pub to_uint64 : ℤ → ℕ
to_uint64 (pos n) = n % word
to_uint64 (negsuc n) = suc n % word

-- `x.Cmp(y) == 0`
abbrev pub eq_ℤ : ℤ → ℤ → Bool
eq_ℤ (pos a) (pos b) = a == b
eq_ℤ (negsuc a) (negsuc b) = a == b
eq_ℤ (pos a) (negsuc b) = false
eq_ℤ (negsuc a) (pos b) = false

pub eq_ℤ_iff : (a b : ℤ) → (eq_ℤ a b ≡ true) ↔ (a ≡ b)
eq_ℤ_iff (pos a) (pos b) = ground arith
eq_ℤ_iff (negsuc a) (negsuc b) = ground arith
eq_ℤ_iff (pos a) (negsuc b) = (λ h. cc, λ h. cc)
eq_ℤ_iff (negsuc a) (pos b) = (λ h. cc, λ h. cc)

pub of_int64-pos : (x : ℕ) → x < 2 ^ 63 → of_int64 x ≡ pos x
unfolding of_int64
of_int64-pos x h = ground arith

pub to_uint64-of_int64 : (x : ℕ) → x < 2 ^ 63 → to_uint64 (of_int64 x) ≡ x
unfolding of_int64 to_uint64
to_uint64-of_int64 x h = ground arith

pub to_uint64-wraps : (n j : ℕ) → to_uint64 (pos (n + j * word)) ≡ to_uint64 (pos n)
unfolding to_uint64
to_uint64-wraps n j = omega arith
