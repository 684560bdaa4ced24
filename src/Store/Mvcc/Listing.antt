-- ===== src/Store/Mvcc/Listing.antt =====
-- listCurrent against the map that the store stands for: the values under a prefix, and a limit.
use mathlib.Core.List.{Memᴰ}
use mathlib.Core.List.Memᴰ
use mathlib.Core.Option.{some-injective}
use mathlib.Core.Path.{subst}
use t.Prelude.{
  ℕ, suc, ◌≡◌, refl, sym, ap, ◌∙◌, Bool, true, false, Option, none, some, List, [], ◌∷◌, Bytes,
  AreBytes, not_lt_nil, bytes_lt, has_prefix, not, ◌&&◌, if◌then◌else◌, arith, length, drop,
  bytes_eq, zero, ◌-◌, ◌≤◌, ◌<◌, take, Bool-cases, inl, inr,
}
use t.Prelude.Word.{sign_bit}
use t.Result.{ok}
use t.Store.Keys.{
  idx_key, idx_bounds, idx_key_upper, idx_bound_of, upper_bound, visits, encode_rev, decode_rev,
}
use t.Store.Keys.Bounds.{visits-idx_bounds}
use t.Store.KeyValue.{KeyValue}
use t.Store.Pebble.{Pebble, Lawful}
use t.Store.Apply.{Store}
use t.Store.Read.{get_log_entry}
use t.Store.Scan.{list_live, list_current, count_current, reached}
use t.Store.Mvcc.{Current, IsCurrent}
use t.Store.Mvcc.Keys.{decode_rev-encode_rev}
use t.Store.Mvcc.Past.{History}
use t.Store.Mvcc.Stored.{IsStored}
use t.Store.Mvcc.Refinement.{get_log_entry-Holds}

-- What an iteration of the index visits are keys of the index.
first_byte :
    (c : Bool) (from_key prefix : Bytes) (u : Option Bytes) (k : Bytes)
    → visits (if c then idx_key from_key else idx_key prefix, idx_bound_of u) k ≡ true
    → (key : Bytes) × (k ≡ idx_key key)
unfolding idx_key bytes_lt
first_byte true f q u [] h = absurd (ground (arith, h))
first_byte false f q u [] h = absurd (ground (arith, h))
first_byte true f q none (x ∷ key) h = (key, ap (λ y. y ∷ key) (ground (arith, h, not_lt_nil key)))
first_byte false f q none (x ∷ key) h = (key, ap (λ y. y ∷ key) (ground (arith, h, not_lt_nil key)))
first_byte true f q (some ub) (x ∷ key) h = (key, ap (λ y. y ∷ key) (ground (arith, h)))
first_byte false f q (some ub) (x ∷ key) h = (key, ap (λ y. y ∷ key) (ground (arith, h)))

visits-idx_key :
    (prefix from_key k : Bytes)
    → visits (idx_bounds prefix from_key) k ≡ true
    → (key : Bytes) × (k ≡ idx_key key)
unfolding idx_bounds idx_key_upper
visits-idx_key prefix from_key k h =
    first_byte (not (bytes_eq from_key []) && bytes_lt (idx_key prefix) (idx_key from_key)) from_key
      prefix (upper_bound prefix) k h

take_nil {ℓ} : {A : Type ℓ} (n : ℕ) → take {A = A} n [] ≡ []
take_nil zero = refl
take_nil (suc n) = refl

module _ (p : Pebble) (lawful : Lawful p) (s : Store p) (m : Current) (low : ℕ) (hist : History)
    (stored : IsStored p s m low hist) where
  -- A pair of the index and the value that the map has for its key
  record IsListed (k v : Bytes) : Type 0 where
    key : Bytes
    kv : KeyValue
    key_eq : k ≡ idx_key key
    live : m key ≡ some kv
    found : get_log_entry p s.db key (decode_rev v) ≡ ok (some kv)

  is_listed :
      (key v : Bytes) (o : Option KeyValue)
      → m key ≡ o
      → IsCurrent (p.get s.db) (p.get s.db) s.current_rev key o
      → p.get s.db (idx_key key) ≡ some v
      → IsListed (idx_key key) v
  unfolding IsCurrent
  is_listed key v none e current got = absurd (cc (current, got))
  is_listed key v (some kv) e live got = record {
    key = key;
    kv = kv;
    key_eq = refl;
    live = e;
    found =
        let same = some-injective _ _ (sym got ∙ live.index) in
        rw (same, decode_rev-encode_rev live.rev (omega (arith, live.bounded, stored.fits)))
          (get_log_entry-Holds p lawful s.db key live.rev live.r live.holds ∙ rw live.kv_eq refl);
  }

  -- The list of the values for the pairs of the index
  record Lists (kvs : List (Bytes × Bytes)) : Type 0 where
    out : List KeyValue
    done : (n : ℕ) → list_live p s.db 0 n kvs ≡ ok out
    cut :
        (limit n : ℕ)
        → 0 < limit
        → limit < sign_bit
        → n ≤ limit
        → list_live p s.db limit n kvs ≡ ok (take (limit - n) out)
    same_length : length out ≡ length kvs
    sound :
        (kv : KeyValue)
        → Memᴰ kv out
        → (key : Bytes) × (v : Bytes) × (m key ≡ some kv) × Memᴰ (idx_key key, v) kvs
    complete :
        (key v : Bytes) (kv : KeyValue) → m key ≡ some kv → Memᴰ (idx_key key, v) kvs → Memᴰ kv out

  idx_key_inj : (j k : Bytes) → idx_key j ≡ idx_key k → j ≡ k
  unfolding idx_key
  idx_key_inj j k e = ap (drop 1) e

  list_one :
      (k v : Bytes) (kvs : List (Bytes × Bytes)) → IsListed k v → Lists kvs → Lists ((k, v) ∷ kvs)
  unfolding list_live idx_key
  list_one k v kvs x rest = record {
    out = x.kv ∷ rest.out;
    done = λ n. rw (x.key_eq, x.found, rest.done (suc n)) refl;
    cut = λ limit n positive fits le. elim (Bool-cases (reached limit n)) [
      | inl full ↦
          let none_left : limit - n ≡ 0 = ground (arith, full, fits, le) in
          rw (full, none_left) refl
      | inr room ↦
          let one_more : limit - n ≡ suc (limit - suc n) =
            ground (arith, room, positive, fits, le) in
          let below : suc n ≤ limit = omega (arith, one_more) in
          rw (room, x.key_eq, x.found, rest.cut limit (suc n) positive fits below, one_more) refl
    ];
    same_length = ap suc rest.same_length;
    sound = λ kv i. elim i [
      | Memᴰ.head e ↦ (
        x.key,
        v,
        x.live ∙ ap some (sym e),
        Memᴰ.head (ap (λ (j : Bytes). (j, v)) (sym x.key_eq)),
      )
      | Memᴰ.tail i ↦ let (key, v', e, j) = rest.sound kv i in (key, v', e, Memᴰ.tail j)
    ];
    complete = λ key v' kv e i. elim i [
      | Memᴰ.head e' ↦
          let same = idx_key_inj key x.key (ap (λ (y : Bytes × Bytes). y.0) e' ∙ x.key_eq) in
          Memᴰ.head (some-injective _ _ (sym e ∙ ap m same ∙ x.live))
      | Memᴰ.tail i ↦ Memᴰ.tail (rest.complete key v' kv e i)
    ];
  }

  list_live-total :
      (kvs : List (Bytes × Bytes)) → ((k v : Bytes) → Memᴰ (k, v) kvs → IsListed k v) → Lists kvs
  unfolding list_live
  list_live-total [] all = record {
    out = [];
    done = λ n. refl;
    cut = λ limit n positive fits le. ap ok (sym (take_nil (limit - n)));
    same_length = refl;
    sound = λ kv i. absurd (Memᴰ.not-nil i);
    complete = λ key v kv e i. absurd (Memᴰ.not-nil i);
  }
  list_live-total ((k, v) ∷ kvs) all =
      list_one k v kvs (all k v (Memᴰ.head refl))
        (list_live-total kvs (λ k v i. all k v (Memᴰ.tail i)))

  listing : (prefix from_key : Bytes) → Lists (p.iter s.db (idx_bounds prefix from_key))
  unfolding IsCurrent
  listing prefix from_key = list_live-total (p.iter s.db (idx_bounds prefix from_key)) (λ k v i.
      let (got, seen) = lawful.iter-get s.db (idx_bounds prefix from_key) k v i in
      let (key, e) = visits-idx_key prefix from_key k seen in
      subst (λ j. IsListed j v) (sym e)
        (is_listed key v (m key) refl (stored.represents.current key)
          (ap (p.get s.db) (sym e) ∙ got)))

  -- On a store that stands for a map, listing the keys under a prefix, from a key on where one is
  -- given, gives no error for a positive limit below 2 ^ 63, and its result is the list without a
  -- limit, cut after as many values as the limit says.
  pub list_current-take :
      (prefix from_key : Bytes) (limit : ℕ)
      → 0 < limit
      → limit < sign_bit
      → (out : List KeyValue) × (list_current p s.db prefix from_key 0 ≡ ok out)
        × (list_current p s.db prefix from_key limit ≡ ok (take limit out))
  unfolding list_current
  list_current-take prefix from_key limit positive fits =
      let lists = listing prefix from_key in
      let whole : limit - 0 ≡ limit = omega arith in
      (
        lists.out,
        lists.done 0,
        lists.cut limit 0 positive fits (omega arith) ∙ ap (λ n. ok (take n lists.out)) whole,
      )

  -- On a store that stands for a map, listing the keys under a prefix, from a key on where one is
  -- given and without a limit, gives no error and as many values as the count; every value is the
  -- map's for a key, which has the prefix and is not below the start, and every such key's value is
  -- in the list; prefix and key are made of bytes.
  pub list_current_iff :
      (prefix from_key : Bytes)
      → AreBytes prefix
      → (out : List KeyValue) × (list_current p s.db prefix from_key 0 ≡ ok out)
        × (length out ≡ count_current p s.db prefix from_key)
        × ((kv : KeyValue)
            → Memᴰ kv out
            → (key : Bytes) × (m key ≡ some kv)
              × (AreBytes key → (has_prefix key prefix && not (bytes_lt key from_key)) ≡ true))
        × ((key : Bytes) (kv : KeyValue)
            → AreBytes key
            → m key ≡ some kv
            → (has_prefix key prefix && not (bytes_lt key from_key)) ≡ true
            → Memᴰ kv out)
  unfolding list_current count_current IsCurrent
  list_current_iff prefix from_key bytes =
      let lists = listing prefix from_key in
      (
        lists.out,
        lists.done 0,
        lists.same_length,
        (λ kv i.
            let (key, v, e, j) = lists.sound kv i in
            let (got, seen) = lawful.iter-get s.db (idx_bounds prefix from_key) (idx_key key) v j in
            (
              key,
              e,
              λ key_bytes. sym (visits-idx_bounds prefix from_key key bytes key_bytes) ∙ seen,
            )),
        λ key kv key_bytes e under.
            let (v, got) = indexed key kv (m key) (stored.represents.current key) e in
            lists.complete key v kv e (
              lawful.get-iter s.db (idx_bounds prefix from_key) (idx_key key) v got
                (visits-idx_bounds prefix from_key key bytes key_bytes ∙ under)),
      )
    where
      indexed :
          (key : Bytes) (kv : KeyValue) (o : Option KeyValue)
          → IsCurrent (p.get s.db) (p.get s.db) s.current_rev key o
          → o ≡ some kv
          → (v : Bytes) × (p.get s.db (idx_key key) ≡ some v)
      indexed key kv none current e = absurd (cc e)
      indexed key kv (some kv') live e = (encode_rev live.rev, live.index)
