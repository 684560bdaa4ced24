-- ===== src/Store/Mvcc/Keys.antt =====
-- The keys of Pebble are told apart by their first byte, and those of the log by the revision.
use t.Prelude.{
  ℕ, ◌<◌, ◌^◌, ◌≡◌, refl, sym, ap, ◌∙◌, true, false, [], ◌∷◌, Bytes, bytes_eq, bytes_lt, slice,
  take_of_length-le, arith,
}
use t.Prelude.BigEndian.{put_be, from_be-put_be, length-put_be}
use t.Store.Keys.{log_key, idx_key, encode_rev, decode_rev, decode_log_key, visits}

take_all : (x : ℕ) → slice (put_be 8 x) 0 8 ≡ put_be 8 x
take_all x = take_of_length-le 8 (put_be 8 x) (omega (arith, length-put_be 8 x))

pub decode_rev-encode_rev : (rev : ℕ) → rev < 2 ^ 64 → decode_rev (encode_rev rev) ≡ rev
unfolding decode_rev encode_rev
decode_rev-encode_rev rev h = rw (take_all rev) (from_be-put_be 8 rev h)

pub decode_log_key-log_key : (rev : ℕ) → rev < 2 ^ 64 → decode_log_key (log_key rev) ≡ rev
unfolding decode_log_key log_key
decode_log_key-log_key rev h = rw (take_all rev) (from_be-put_be 8 rev h)

pub log_key_inj : (a b : ℕ) → a < 2 ^ 64 → b < 2 ^ 64 → log_key a ≡ log_key b → a ≡ b
log_key_inj a b ha hb e =
    sym (decode_log_key-log_key a ha) ∙ ap decode_log_key e ∙ decode_log_key-log_key b hb

pub log_key-idx_key : (rev : ℕ) (key : Bytes) → bytes_eq (log_key rev) (idx_key key) ≡ false
unfolding log_key idx_key bytes_eq
log_key-idx_key rev key = refl

pub idx_key-log : (key k : Bytes) → bytes_eq (idx_key key) (108 ∷ k) ≡ false
unfolding idx_key bytes_eq
idx_key-log key k = refl

pub idx_key-idx_key : (j k : Bytes) → bytes_eq (idx_key j) (idx_key k) ≡ bytes_eq j k
unfolding idx_key bytes_eq
idx_key-idx_key j k = refl

pub log_key-cons : (rev : ℕ) → log_key rev ≡ 108 ∷ put_be 8 rev
unfolding log_key
log_key-cons rev = refl

pub visits-head :
    (lo hi : ℕ) (k : Bytes)
    → visits (log_key lo, log_key hi) k ≡ true
    → (rest : Bytes) × (k ≡ 108 ∷ rest)
unfolding log_key bytes_lt
visits-head lo hi [] h = absurd (ground arith)
visits-head lo hi (x ∷ rest) h = (rest, ap (λ (y : ℕ). y ∷ rest) (ground (arith, h)))
