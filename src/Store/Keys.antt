-- ===== src/Store/Keys.antt =====
-- internal/store/keys.go: the keys of the log and of the index, and the bounds of an iteration;
-- idxBounds of internal/store/store.go. A revision is the bit pattern of its int64.
pub mod Bounds
use t.Prelude.{
  ℕ, ◌+◌, ◌%◌, ◌^◌, Bool, true, false, Option, none, some, [], ◌∷◌, ◌++◌, Bytes, slice, ◌==◌, not,
  ◌&&◌, bytes_eq, bytes_lt, if◌then◌else◌,
}
use t.Prelude.BigEndian.{put_be, from_be}

abbrev pub prefix_log : ℕ
prefix_log = b'l'

abbrev pub prefix_idx : ℕ
prefix_idx = b'i'

abbrev pub idx_upper : Bytes
idx_upper = (prefix_idx + 1) ∷ []

unfoldable pub log_key : ℕ → Bytes
log_key rev = prefix_log ∷ put_be 8 rev

unfoldable pub log_key_with_sub : ℕ → ℕ → Bytes
log_key_with_sub rev sub = prefix_log ∷ (put_be 8 rev ++ put_be 2 sub)

unfoldable pub decode_log_key : Bytes → ℕ
decode_log_key k = from_be (slice k 1 8)

unfoldable pub idx_key : Bytes → Bytes
idx_key key = prefix_idx ∷ key

-- One round: a byte that wraps to 0 is dropped, the first that does not ends the bound.
abbrev pub round_up : ℕ → Option Bytes → Option Bytes
round_up b (some ub) = some (b ∷ ub)
round_up b none = if (b + 1) % 256 == 0 then none else some ((b + 1) % 256 ∷ [])

-- The loop from the last byte to the first.
unfoldable pub upper_bound : Bytes → Option Bytes
upper_bound [] = none
upper_bound (b ∷ bs) = round_up b (upper_bound bs)

-- The bound of the index keys, of the bound of the prefix.
abbrev pub idx_bound_of : Option Bytes → Bytes
idx_bound_of none = idx_upper
idx_bound_of (some ub) = prefix_idx ∷ ub

unfoldable pub idx_key_upper : Bytes → Bytes
unfolding upper_bound
idx_key_upper prefix = idx_bound_of (upper_bound prefix)

-- Lower and upper bound of an iteration over the index.
unfoldable pub idx_bounds : Bytes → Bytes → Bytes × Bytes
unfolding idx_key idx_key_upper
idx_bounds prefix from_key =
    let lower = idx_key prefix in
    let from_lower = idx_key from_key in
    (
      if not (bytes_eq from_key []) && bytes_lt lower from_lower then from_lower else lower,
      idx_key_upper prefix,
    )

-- What an iterator with these bounds visits: the lower bound is included, the upper is not.
abbrev pub visits : Bytes × Bytes → Bytes → Bool
visits (lower, upper) k = not (bytes_lt k lower) && bytes_lt k upper

unfoldable pub encode_rev : ℕ → Bytes
encode_rev rev = put_be 8 rev

unfoldable pub decode_rev : Bytes → ℕ
decode_rev b = from_be (slice b 0 8)
