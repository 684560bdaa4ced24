-- ===== src/Wal/ObjectKey.antt =====
-- The names of the WAL objects: parseFirstRev of internal/wal/gc.go, parseWALKey of wal_replay.go,
-- and what they use of strings and strconv. The codes are those of '0', '9', '/', '+' and '-'.
use t.Prelude.{
  ℕ, ◌+◌, ◌-◌, ◌*◌, Bool, true, false, List, [], ◌∷◌, Bytes, ltb, leb, not, ◌&&◌, ◌==◌,
  if◌then◌else◌,
}
use t.Prelude.Word.{u64_mod, sign_bit, sub64}

-- strings.TrimLeft(s, "0")
unfoldable pub trim_zeros : Bytes → Bytes
trim_zeros [] = []
trim_zeros (c ∷ s) = let rest = trim_zeros s in if c == 48 then rest else c ∷ s

-- The loop of strconv.ParseUint in base 10: 0 at a byte that is no digit, the greatest uint64 at
-- the first overflow.
unfoldable pub parse_digits : ℕ → Bytes → ℕ
parse_digits n [] = n
parse_digits n (c ∷ s) =
    let n' = n * 10 + (c - 48) in
    let rest = parse_digits n' s in
    if not (leb 48 c && leb c 57) then 0 else if leb u64_mod n' then u64_mod - 1 else rest

-- The value that strconv.ParseUint returns, its error ignored.
abbrev pub parse_uint : Bytes → ℕ
parse_uint s = parse_digits 0 s

-- The range of an int64
abbrev pub signed : Bool → ℕ → ℕ
signed true un = if ltb sign_bit un then sign_bit else sub64 0 un
signed false un = if leb sign_bit un then sign_bit - 1 else un

-- The value that strconv.ParseInt returns, its error ignored.
unfoldable pub parse_int : Bytes → ℕ
unfolding parse_digits
parse_int [] = 0
parse_int (c ∷ s) =
    if c == 45
    then signed true (parse_uint s)
    else if c == 43
    then signed false (parse_uint s)
    else signed false (parse_uint (c ∷ s))

-- A byte put before the first part
abbrev pub extend : ℕ → List Bytes → List Bytes
extend c [] = (c ∷ []) ∷ []
extend c (p ∷ ps) = (c ∷ p) ∷ ps

-- strings.Split(s, "/")
unfoldable pub split : Bytes → List Bytes
split [] = [] ∷ []
split (c ∷ s) = let rest = split s in if c == 47 then [] ∷ rest else extend c rest

-- The part before the first slash and the part after it
unfoldable pub cut : Bytes → List Bytes
cut [] = [] ∷ []
cut (c ∷ s) = let rest = cut s in if c == 47 then [] ∷ s ∷ [] else extend c rest

abbrev cut_rest : List Bytes → List Bytes
cut_rest (p ∷ s ∷ []) = p ∷ cut s
cut_rest ps = ps

-- strings.SplitN(s, "/", 3)
unfoldable pub split_three : Bytes → List Bytes
unfolding cut
split_three s = cut_rest (cut s)

abbrev third_number : List Bytes → ℕ
third_number (p ∷ q ∷ r ∷ ps) = parse_int (trim_zeros r)
third_number ps = 0

-- parseFirstRev
unfoldable pub parse_first_rev : Bytes → ℕ
unfolding split parse_int trim_zeros
parse_first_rev key = third_number (split key)

abbrev two_numbers : List Bytes → ℕ × ℕ
two_numbers (p ∷ q ∷ r ∷ []) = (parse_uint (trim_zeros q), parse_int (trim_zeros r))
two_numbers ps = (0, 0)

-- parseWALKey
unfoldable pub parse_wal_key : Bytes → ℕ × ℕ
unfolding split_three parse_int trim_zeros
parse_wal_key key = two_numbers (split_three key)
