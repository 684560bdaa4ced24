-- ===== src/Kv/Listed.antt =====
-- Range of etcd/kv.go over more than one key, against the list of all values at the revision read.
use t.Prelude.{
  ℕ, zero, suc, ◌+◌, ◌-◌, ◌≡◌, refl, Bool, true, false, not, ◌&&◌, none, some, List, [], ◌∷◌, take,
  map, length, Bytes, AreBytes, bytes_eq, ltb, if◌then◌else◌, Bool-cases, inl, inr, ap, ◌∙◌, arith,
}
use t.Prelude.Word.{lt64}
use t.Result.{ok}
use t.Store.KeyValue.{KeyValue}
use t.Kv.{
  RangeNode, RangeRequest, RangeResponse, to_etcd_revision, from_etcd_revision, of_read,
  kv_to_proto_for_range, range_header, range_guard, range_of_keys, range_count_only, range_page,
  range_scan, range, is_linearizable, is_exact_prefix_range, range_scan_prefix,
}
use t.Kv.Matches.{cut, under, wanted, HaveBytes, scanned, exact_under}
use t.Kv.Collected.{count_matches-keep, collect_all, collect_page}

-- What the node promises of a revision: its lists are those of the values it holds then, under the
-- prefix and up to the limit, and its counts are their lengths.
abbrev pub Lists : (n : RangeNode) → n.State → ℕ → List KeyValue → Type 0
Lists n s rev contents =
    (lin : Bool) (prefix : Bytes)
    → ((limit : ℕ) → n.list lin s prefix limit rev ≡ ok (cut limit (under prefix contents)))
      × (n.count lin s prefix rev ≡ ok (length (under prefix contents)))

-- The answer to a request, of the values that it wants
unfoldable pub answer : RangeRequest → ℕ → List KeyValue → RangeResponse
unfolding kv_to_proto_for_range
answer r header kvs = record {
  revision = to_etcd_revision header;
  kvs = if r.count_only then [] else cut r.limit (map (kv_to_proto_for_range r.keys_only) kvs);
  count = length kvs;
  more = not r.count_only && (lt64 0 r.limit && ltb r.limit (length kvs));
}

map-take {ℓ κ} :
    {A : Type ℓ} {B : Type κ} (f : A → B) (n : ℕ) (xs : List A)
    → map f (take n xs) ≡ take n (map f xs)
map-take f zero xs = refl
map-take f (suc n) [] = refl
map-take f (suc n) (x ∷ xs) = ap (◌∷◌ (f x)) (map-take f n xs)

zero_add : (a : ℕ) → 0 + a ≡ a
zero_add a = omega arith

less_zero : (a : ℕ) → a - 0 ≡ a
less_zero a = omega arith

module _ (n : RangeNode) (s : n.State) (r : RangeRequest) (contents : List KeyValue) where
  abbrev rev : ℕ
  rev = from_etcd_revision r.revision

  module _ (lists : Lists n s rev contents) (key_bytes : AreBytes r.key)
      (bytes : HaveBytes contents) where
    counted :
        r.count_only ≡ true
        → range_count_only n s r ≡ ok (answer r (range_header n s rev) (wanted r contents))
    unfolding range_count_only of_read answer
    counted only =
        let prefix = range_scan_prefix r.key r.range_end in
        let (listed, tally) = lists (is_linearizable n s r) prefix in
        let total =
          count_matches-keep r (under prefix contents) 0
          ∙ ap (λ ms. 0 + length ms) (scanned r contents key_bytes bytes) in
        elim (Bool-cases (is_exact_prefix_range r.key r.range_end)) [
          | inl e ↦ simp (only, e, tally, exact_under r contents key_bytes bytes e) refl
          | inr e ↦ simp (only, e, listed 0, total, zero_add (length (wanted r contents))) refl
        ]

    paged :
        r.count_only ≡ false
        → is_exact_prefix_range r.key r.range_end ≡ true
        → lt64 0 r.limit ≡ true
        → range_page n s r ≡ ok (answer r (range_header n s rev) (wanted r contents))
    unfolding range_page of_read answer
    paged only exact positive =
        let (listed, tally) = lists (is_linearizable n s r) (range_scan_prefix r.key r.range_end) in
        simp
          (
            only,
            positive,
            listed r.limit,
            tally,
            exact_under r contents key_bytes bytes exact,
            map-take (kv_to_proto_for_range r.keys_only) r.limit (wanted r contents),
          )
          refl

    scanned_all :
        r.count_only ≡ false
        → range_scan n s r ≡ ok (answer r (range_header n s rev) (wanted r contents))
    unfolding range_scan of_read answer
    scanned_all only =
        let prefix = range_scan_prefix r.key r.range_end in
        let (listed, tally) = lists (is_linearizable n s r) prefix in
        let found = scanned r contents key_bytes bytes in
        elim (Bool-cases (lt64 0 r.limit)) [
          | inl e ↦
              simp
                (
                  only,
                  e,
                  listed 0,
                  collect_page r (under prefix contents) 0 [] e (omega arith),
                  found,
                  less_zero r.limit,
                  zero_add (length (wanted r contents)),
                )
                refl
          | inr e ↦
              simp
                (
                  only,
                  e,
                  listed 0,
                  collect_all r (under prefix contents) 0 [] e,
                  found,
                  zero_add (length (wanted r contents)),
                )
                refl
        ]

  of_keys : range_guard n s r ≡ none → range n s r ≡ range_of_keys n s r
  unfolding range
  of_keys admitted = ap (λ g. elim g [ some a ↦ a | none ↦ range_of_keys n s r ]) admitted

  -- A range of keys is answered by the values at the revision read whose keys are in the range and
  -- are not internal, in the order of the node: their number, whether the limit cuts them, and, unless
  -- only the count is asked for, as many of them as a positive limit lets through. The counts and the
  -- pages that the node makes of a prefix are no exception. This is for a request whose revision is
  -- not refused, keys made of bytes, and a node that lists and counts its values by prefix and does
  -- not change between the reads of the request.
  pub range-answer :
      bytes_eq r.range_end [] ≡ false
      → range_guard n s r ≡ none
      → Lists n s rev contents
      → AreBytes r.key
      → HaveBytes contents
      → range n s r ≡ ok (answer r (range_header n s rev) (wanted r contents))
  unfolding range_of_keys
  range-answer several admitted lists key_bytes bytes =
      of_keys admitted ∙ elim (Bool-cases r.count_only) [
        | inl c ↦ simp (several, c) (counted lists key_bytes bytes c)
        | inr c ↦ elim (Bool-cases (is_exact_prefix_range r.key r.range_end && lt64 0 r.limit)) [
          | inl e ↦
              simp (several, c, e)
                (paged lists key_bytes bytes c (ground (arith, e)) (ground (arith, e)))
          | inr e ↦ simp (several, c, e) (scanned_all lists key_bytes bytes c)
        ]
      ]
