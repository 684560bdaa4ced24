-- ===== src/Kv/Matches.antt =====
-- Range of etcd/kv.go over more than one key, against the list of all values at the revision read.
use t.Prelude.{
  ℕ, ◌+◌, ◌%◌, ◌≡◌, inl, inr, refl, sym, ap, ◌∙◌, Bool, true, false, not, ◌&&◌, ◌||◌, Option, none,
  some, List, [], ◌∷◌, take, All, Bytes, AreBytes, bytes_eq, bytes_eq→eq, Option-cases, bytes_lt,
  has_prefix, ◌==◌, if◌then◌else◌, arith, Bool-cases,
}
use t.Prelude.Word.{lt64}
use t.Store.Keys.{round_up, upper_bound}
use t.Store.Keys.Bounds.{has_prefix-upper_bound}
use t.Store.KeyValue.{KeyValue}
use t.Lease.{is_internal_key}
use t.Kv.{
  end_of, RangeRequest, prefix_range_end, is_prefix_range_end, is_exact_prefix_range,
  range_scan_prefix, match_range,
}

-- The values that a test keeps
abbrev pub keep : (KeyValue → Bool) → List KeyValue → List KeyValue
keep f [] = []
keep f (kv ∷ kvs) = let rest = keep f kvs in if f kv then kv ∷ rest else rest

-- A limit that is not positive cuts nothing.
abbrev pub cut {ℓ} : {A : Type ℓ} → ℕ → List A → List A
cut limit xs = if lt64 0 limit then take limit xs else xs

unfoldable pub under : Bytes → List KeyValue → List KeyValue
unfolding has_prefix
under prefix kvs = keep (λ kv. has_prefix kv.key prefix) kvs

-- A key of a user that is not below `key`, and below the end where that is not "\x00"
unfoldable pub is_wanted : Bytes → Bytes → Bytes → Bool
unfolding has_prefix bytes_eq bytes_lt
is_wanted key range_end k =
    not (is_internal_key k)
    && (not (bytes_lt k key) && (bytes_eq range_end (0 ∷ []) || bytes_lt k range_end))

unfoldable pub wanted : RangeRequest → List KeyValue → List KeyValue
unfolding is_wanted
wanted r kvs = keep (λ kv. is_wanted r.key r.range_end kv.key) kvs

abbrev pub HaveBytes : List KeyValue → Type 0
HaveBytes = All (λ kv. AreBytes kv.key)

under_nil : (kvs : List KeyValue) → under [] kvs ≡ kvs
unfolding has_prefix under
under_nil [] = refl
under_nil (kv ∷ kvs) = simp (under_nil kvs) refl

keep_agree :
    (f g : KeyValue → Bool) (kvs : List KeyValue)
    → HaveBytes kvs
    → ((kv : KeyValue) → AreBytes kv.key → f kv ≡ g kv)
    → keep f kvs ≡ keep g kvs
keep_agree f g [] bs h = refl
keep_agree f g (kv ∷ kvs) (b, bs) h = simp (h kv b, keep_agree f g kvs bs h) refl

keep_twice :
    (f g : KeyValue → Bool) (kvs : List KeyValue)
    → HaveBytes kvs
    → ((kv : KeyValue) → AreBytes kv.key → f kv ≡ true → g kv ≡ true)
    → keep f (keep g kvs) ≡ keep f kvs
keep_twice f g [] bs h = refl
keep_twice f g (kv ∷ kvs) (b, bs) h = elim (Bool-cases (g kv)) [
  | inl e ↦ simp (e, keep_twice f g kvs bs h) refl
  | inr e ↦ elim (Bool-cases (f kv)) [
    | inl t ↦ ground (arith, h kv b t)
    | inr t ↦ simp (e, t, keep_twice f g kvs bs h) refl
  ]
]

-- The first byte of a bound that is alone is not zero.
abbrev IsBound : Bytes → Type 0
unfolding bytes_eq
IsBound u = (bytes_eq u [] ≡ false) × (bytes_eq u (0 ∷ []) ≡ false)

round_up-IsBound :
    (b : ℕ) (o : Option Bytes) (u : Bytes)
    → ((v : Bytes) → o ≡ some v → IsBound v)
    → round_up b o ≡ some u
    → IsBound u
unfolding IsBound bytes_eq
round_up-IsBound b (some v) u h e =
    let bound = h v refl in
    let same : b ∷ v ≡ u = cc e in simp (← same, bound.0) (refl, ground arith)
round_up-IsBound b none u h e = elim (Bool-cases ((b + 1) % 256 == 0)) [
  | inl z ↦ ground (arith, e)
  | inr z ↦
      let same : ((b + 1) % 256) ∷ [] ≡ u = ground (arith, e) in simp (← same) (refl, ground arith)
]

upper_bound-IsBound : (p u : Bytes) → upper_bound p ≡ some u → IsBound u
unfolding upper_bound
upper_bound-IsBound [] u h = ground arith
upper_bound-IsBound (b ∷ bs) u h = round_up-IsBound b (upper_bound bs) u (upper_bound-IsBound bs) h

and_right : (a b : Bool) → (a && b) ≡ true → b ≡ true
and_right true b h = h
and_right false b h = ground arith

and_false : (a b : Bool) → b ≡ false → (a && b) ≡ false
and_false true b h = h
and_false false b h = refl

match_range-is_wanted :
    (kv : KeyValue) (key range_end : Bytes)
    → match_range kv key range_end ≡ is_wanted key range_end kv.key
unfolding match_range is_wanted
match_range-is_wanted kv key range_end = ground arith

-- The bound of the prefix tells the keys under it, with the exception for "\x00".
prefix_test :
    (key range_end k : Bytes)
    → AreBytes key
    → AreBytes k
    → is_prefix_range_end key range_end ≡ true
    → has_prefix k key
      ≡ (not (bytes_lt k key) && (bytes_eq range_end (0 ∷ []) || bytes_lt k range_end))
unfolding is_prefix_range_end prefix_range_end
prefix_test key range_end k bk b h =
    let same = bytes_eq→eq (prefix_range_end key) range_end h in
    let prefixed = has_prefix-upper_bound key k bk b in
    elim (Option-cases (upper_bound key)) [
      | inl e ↦
          let end : range_end ≡ 0 ∷ [] = sym same ∙ ap end_of e in simp (prefixed, e, end) refl
      | inr (u, e) ↦
          let end : range_end ≡ u = sym same ∙ ap end_of e in
          simp (prefixed, e, end, (upper_bound-IsBound key u e).1) refl
    ]

wanted_has_prefix :
    (key range_end k : Bytes)
    → AreBytes key
    → AreBytes k
    → is_prefix_range_end key range_end ≡ true
    → is_wanted key range_end k ≡ true
    → has_prefix k key ≡ true
unfolding is_wanted
wanted_has_prefix key range_end k bk b h w =
    prefix_test key range_end k bk b h ∙ and_right (not (is_internal_key k)) _ w

exact_wanted :
    (key range_end k : Bytes)
    → has_prefix k key
      ≡ (not (bytes_lt k key) && (bytes_eq range_end (0 ∷ []) || bytes_lt k range_end))
    → (has_prefix k key ≡ true → is_internal_key k ≡ false)
    → has_prefix k key ≡ is_wanted key range_end k
unfolding has_prefix is_wanted
exact_wanted key range_end k same no_internal = elim (Bool-cases (has_prefix k key)) [
  | inl t ↦ simp (no_internal t) same
  | inr t ↦ t ∙ sym (and_false (not (is_internal_key k)) _ (sym same ∙ t))
]

not_internal :
    (b : ℕ) (bs k : Bytes)
    → (b == 0) ≡ false
    → has_prefix k (b ∷ bs) ≡ true
    → is_internal_key k ≡ false
unfolding has_prefix
not_internal b bs [] h p = refl
not_internal b bs (x ∷ k) h p = ground arith

exact_is_prefix :
    (key range_end : Bytes)
    → is_exact_prefix_range key range_end ≡ true
    → (is_prefix_range_end key range_end ≡ true)
      × ((k : Bytes) → has_prefix k key ≡ true → is_internal_key k ≡ false)
unfolding is_exact_prefix_range
exact_is_prefix [] range_end h = ground arith
exact_is_prefix (b ∷ bs) range_end h = elim (Bool-cases (b == 0)) [
  | inl z ↦ ground (arith, h, z)
  | inr z ↦ (ground (arith, h, z), λ k. not_internal b bs k z)
]

module _ (r : RangeRequest) (contents : List KeyValue) (key_bytes : AreBytes r.key)
    (bytes : HaveBytes contents) where
  pub scanned :
      keep
        (λ kv. match_range kv r.key r.range_end)
        (under (range_scan_prefix r.key r.range_end) contents)
      ≡ wanted r contents
  unfolding range_scan_prefix under wanted
  scanned =
      let agree =
        keep_agree (λ kv. match_range kv r.key r.range_end) _ contents bytes
          (λ kv b. match_range-is_wanted kv r.key r.range_end) in
      elim (Bool-cases (is_prefix_range_end r.key r.range_end)) [
        | inl h ↦
            let under_key =
              keep_twice (λ kv. match_range kv r.key r.range_end) (λ kv. has_prefix kv.key r.key)
                contents bytes
                (λ kv b t.
                  wanted_has_prefix r.key r.range_end kv.key key_bytes b h
                    (sym (match_range-is_wanted kv r.key r.range_end) ∙ t)) in
            simp h (under_key ∙ agree)
        | inr h ↦
            simp h (ap (keep (λ kv. match_range kv r.key r.range_end)) (under_nil contents) ∙ agree)
      ]

  pub exact_under :
      is_exact_prefix_range r.key r.range_end ≡ true
      → under (range_scan_prefix r.key r.range_end) contents ≡ wanted r contents
  unfolding range_scan_prefix under wanted
  exact_under h =
      let (is_end, no_internal) = exact_is_prefix r.key r.range_end h in
      simp is_end (
        keep_agree _ _ contents bytes (λ kv b.
          exact_wanted r.key r.range_end kv.key
            (prefix_test r.key r.range_end kv.key key_bytes b is_end) (no_internal kv.key)))
