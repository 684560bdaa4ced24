-- ===== src/Prelude/Word.antt =====
-- Machine integers. An int64 or uint64 is its bit pattern, a number below 2 ^ 64; the two differ
-- in the order alone. `uint64(x)` and `int64(x)` keep the pattern.
use t.Prelude.Tests.{ltb, leb}
use Prim.Native.Nat.{ℕ, ◌+◌, ◌-◌, ◌%◌, ◌^◌, ◌<◌}
use mathlib.Core.Path.{◌≡◌, refl}
use mathlib.Core.Bool.{Bool, true}
use native.Mathlib.Omega.{arith}

abbrev pub u32_mod : ℕ
u32_mod = 2 ^ 32

abbrev pub u64_mod : ℕ
u64_mod = 2 ^ 64

-- math.MaxInt64 + 1
abbrev pub sign_bit : ℕ
sign_bit = 2 ^ 63

-- An int64 that is not negative.
abbrev pub IsNonneg : ℕ → Type 0
IsNonneg x = x < sign_bit

abbrev pub add64 : ℕ → ℕ → ℕ
add64 a b = (a + b) % u64_mod

abbrev pub sub64 : ℕ → ℕ → ℕ
sub64 a b = (a + u64_mod - b) % u64_mod

-- `a < b` and `a <= b` for int64: the sign bit flipped, then the order of the patterns.
abbrev pub lt64 : ℕ → ℕ → Bool
lt64 a b = ltb ((a + sign_bit) % u64_mod) ((b + sign_bit) % u64_mod)

abbrev pub le64 : ℕ → ℕ → Bool
le64 a b = leb ((a + sign_bit) % u64_mod) ((b + sign_bit) % u64_mod)

pub lt64_nonneg : (a b : ℕ) → IsNonneg a → IsNonneg b → lt64 a b ≡ ltb a b
lt64_nonneg a b ha hb = ground arith

minus_one_lt_zero : lt64 (u64_mod - 1) 0 ≡ true
minus_one_lt_zero = refl
