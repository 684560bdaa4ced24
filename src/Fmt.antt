-- ===== src/Fmt.antt =====
-- The verbs of fmt that print the numbers in keys, for a uint64 or the pattern of an int64.
use t.Prelude.{ℕ, zero, suc, ◌+◌, ◌-◌, ◌/◌, ◌%◌, [], ◌∷◌, Bytes, ltb, if◌then◌else◌}
use t.Prelude.Word.{sign_bit, u64_mod}
use t.Wal.ObjectKey.{trim_zeros}

-- A number in decimal, `w` digits at least, put before what follows
unfoldable pub digits : ℕ → ℕ → Bytes → Bytes
digits zero n rest = rest
digits (suc w) n rest = digits w (n / 10) ((48 + n % 10) ∷ rest)

-- `%010d` of a uint64: ten digits, or as many as it has
unfoldable pub pad_ten : ℕ → Bytes
unfolding digits
pad_ten n = if ltb n 10000000000 then digits 10 n [] else trim_zeros (digits 20 n [])

-- `%020d` of an int64
unfoldable pub pad_twenty : ℕ → Bytes
unfolding digits
pad_twenty n = if ltb n sign_bit then digits 20 n [] else 45 ∷ digits 19 (u64_mod - n) []
