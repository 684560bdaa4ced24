-- ===== src/Store/Keys/Bounds.antt =====
-- The bounds select what the callers mean: a range of revisions, the keys under a prefix.
use mathlib.Core.List.{append-nil}
use t.Prelude.{
  ℕ, ◌+◌, ◌%◌, ◌^◌, ◌<◌, ◌≡◌, refl, ◌∙◌, Bool, true, false, Option, none, some, [], ◌∷◌, ◌++◌,
  Bytes, AreBytes, ◌==◌, ltb, leb, not, ◌&&◌, bytes_eq, bytes_lt, has_prefix, if◌then◌else◌, arith,
  bytes_eq_iff, Bool-cases, inl, inr, not_lt_nil, bytes_lt_trans, bytes_lt_of_lt_of_le,
}
use t.Prelude.BigEndian.{put_be, bytes_lt-put_be}
use t.Store.Keys.{
  log_key, log_key_with_sub, idx_key, upper_bound, idx_bounds, visits, round_up, idx_bound_of,
}

abbrev pub below : Option Bytes → Bytes → Bool
below none k = true
below (some u) k = bytes_lt k u

log_bytes :
    (a b : ℕ) (us vs : Bytes)
    → a < 2 ^ 64
    → b < 2 ^ 64
    → bytes_lt (108 ∷ (put_be 8 a ++ us)) (108 ∷ (put_be 8 b ++ vs))
      ≡ (if ltb a b then true else if a == b then bytes_lt us vs else false)
unfolding bytes_lt
log_bytes a b us vs ha hb = bytes_lt-put_be 8 a b us vs ha hb

-- The keys of the log have the order of the revisions.
pub bytes_lt-log_key :
    (a b : ℕ) → a < 2 ^ 64 → b < 2 ^ 64 → bytes_lt (log_key a) (log_key b) ≡ ltb a b
unfolding log_key
bytes_lt-log_key a b ha hb =
    rw (← append-nil (put_be 8 a), ← append-nil (put_be 8 b))
      (log_bytes a b [] [] ha hb ∙ rw (not_lt_nil []) (ground arith))

visits_bytes :
    (lo hi rev : ℕ) (us : Bytes)
    → lo < 2 ^ 64
    → hi + 1 < 2 ^ 64
    → rev < 2 ^ 64
    → visits
        (108 ∷ (put_be 8 lo ++ []), 108 ∷ (put_be 8 (hi + 1) ++ []))
        (108 ∷ (put_be 8 rev ++ us))
      ≡ (leb lo rev && leb rev hi)
visits_bytes lo hi rev us hl hh hr =
    rw (log_bytes rev lo us [] hr hl, log_bytes rev (hi + 1) us [] hr hh) (cases us)
  where
    cases :
        (xs : Bytes)
        → (not (if ltb rev lo then true else if rev == lo then bytes_lt xs [] else false)
            && (if ltb rev (hi + 1) then true else if rev == hi + 1 then bytes_lt xs [] else false))
          ≡ (leb lo rev && leb rev hi)
    cases xs = rw (not_lt_nil xs) (ground arith)

-- For revisions of 64 bits, an iteration of the log from logKey(lo) to logKey(hi + 1) visits the
-- entry of a revision, or the entry of an operation of a transaction at that revision, exactly when
-- lo ≤ rev ≤ hi.
pub visits-log_key :
    (lo hi rev sub : ℕ)
    → lo < 2 ^ 64
    → hi + 1 < 2 ^ 64
    → rev < 2 ^ 64
    → (visits (log_key lo, log_key (hi + 1)) (log_key rev) ≡ (leb lo rev && leb rev hi))
      × (visits (log_key lo, log_key (hi + 1)) (log_key_with_sub rev sub)
          ≡ (leb lo rev && leb rev hi))
unfolding log_key log_key_with_sub
visits-log_key lo hi rev sub hl hh hr =
    let nil = λ (n : ℕ). append-nil (put_be 8 n) in
    rw (← nil lo, ← nil (hi + 1))
      (
        rw (← nil rev) (visits_bytes lo hi rev [] hl hh hr),
        visits_bytes lo hi rev (put_be 2 sub) hl hh hr,
      )

bound_step :
    (b x : ℕ) (p k : Bytes) (u : Option Bytes)
    → b < 256
    → x < 256
    → has_prefix k p ≡ (not (bytes_lt k p) && below u k)
    → has_prefix (x ∷ k) (b ∷ p) ≡ (not (bytes_lt (x ∷ k) (b ∷ p)) && below (round_up b u) (x ∷ k))
unfolding has_prefix bytes_lt
bound_step b x p k (some u) hb hx h = rw h (ground arith)
bound_step b x p k none hb hx h = elim (Bool-cases ((b + 1) % 256 == 0)) [
  | inl wraps ↦ rw (h, wraps) (ground arith)
  | inr fits ↦ rw (h, fits, not_lt_nil k) (ground arith)
]

-- The keys with a prefix are those from the prefix up to its upper bound.
pub has_prefix-upper_bound :
    (p k : Bytes)
    → AreBytes p
    → AreBytes k
    → has_prefix k p ≡ (not (bytes_lt k p) && below (upper_bound p) k)
unfolding has_prefix bytes_lt upper_bound
has_prefix-upper_bound [] [] hp hk = refl
has_prefix-upper_bound [] (x ∷ k) hp hk = refl
has_prefix-upper_bound (b ∷ p) [] hp hk = ground arith
has_prefix-upper_bound (b ∷ p) (x ∷ k) hp hk =
    bound_step b x p k (upper_bound p) hp.0 hk.0 (has_prefix-upper_bound p k hp.1 hk.1)

idx_lt : (j k : Bytes) → bytes_lt (105 ∷ j) (105 ∷ k) ≡ bytes_lt j k
unfolding bytes_lt
idx_lt j k = refl

below_idx : (u : Option Bytes) (k : Bytes) → bytes_lt (105 ∷ k) (idx_bound_of u) ≡ below u k
unfolding bytes_lt
below_idx none k = refl
below_idx (some u) k = refl

-- An iteration of the index under a prefix, from a key on where one is given, visits the key of
-- the index exactly if it has the prefix and is not below the start.
pub visits-idx_bounds :
    (prefix from_key k : Bytes)
    → AreBytes prefix
    → AreBytes k
    → visits (idx_bounds prefix from_key) (idx_key k)
      ≡ (has_prefix k prefix && not (bytes_lt k from_key))
unfolding idx_bounds
visits-idx_bounds prefix from_key k hp hk =
    rw
      (
        idx_lt prefix from_key,
        below_idx (upper_bound prefix) k,
        has_prefix-upper_bound prefix k hp hk,
      )
      (elim (Bool-cases (bytes_lt prefix from_key)) [
        | inl above ↦ elim (Bool-cases (bytes_eq from_key [])) [
          | inl unset ↦ absurd (ground (arith, bytes_eq_iff from_key [], not_lt_nil prefix))
          | inr given ↦
              rw (above, given, idx_lt k from_key)
                (ground (
                  arith,
                  λ (h : bytes_lt k prefix ≡ true). bytes_lt_trans k prefix from_key h above,
                ))
        ]
        | inr at_prefix ↦
            rw (at_prefix, from_unused (bytes_eq from_key []), idx_lt k prefix)
              (ground (
                arith,
                λ (h : bytes_lt k from_key ≡ true).
                    bytes_lt_of_lt_of_le k from_key prefix h at_prefix,
              ))
      ])
  where
    from_unused : (b : Bool) → (not b && false) ≡ false
    from_unused b = ground arith
