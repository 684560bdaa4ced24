-- ===== src/Store/Mvcc/Backwards.antt =====
-- The iteration of getAtRevision from the end of a sorted log finds the newest record of the key.
use mathlib.Core.List.{Memᴰ, append_assoc}
use mathlib.Core.List.Memᴰ
use t.Prelude.{
  ℕ, ◌≤◌, ◌<◌, ◌≡◌, refl, ap, ◌∙◌, ◌⊎◌, inl, inr, Bool, true, false, Option, none, some, List, ◌∷◌,
  ◌++◌, Bytes, bytes_eq, bytes_eq_iff, bytes_eq_refl, if◌then◌else◌, arith, Bool-cases, ◌≢◌,
}
use t.Prelude.Word.{sign_bit}
use t.Result.{Result, ok}
use t.Store.Keys.{log_key}
use t.Store.Record.{Record, marshal_record}
use t.Store.KeyValue.{KeyValue, record_to_kv}
use t.Store.Apply.{StoreError}
use t.Store.Read.{backwards, newest_of_key}
use t.Store.Mvcc.{IsReadable}
use t.Store.Mvcc.Keys.{decode_log_key-log_key}
use t.Store.Mvcc.Search.{decode_record-marshal_record}
use t.Store.Mvcc.Past.{value_of}
use t.Store.Mvcc.Visits.{IsSorted, empty, entry, Among, head_or_tail}

newest_of_key-cons :
    (key : Bytes) (rev : ℕ) (r : Record) (kvs : List (Bytes × Bytes))
    → rev < sign_bit
    → IsReadable r
    → newest_of_key key ((log_key rev, marshal_record r) ∷ kvs)
      ≡ (if bytes_eq r.key key then ok (value_of key rev r) else newest_of_key key kvs)
unfolding newest_of_key
newest_of_key-cons key rev r kvs small readable =
    rw (decode_record-marshal_record r readable, decode_log_key-log_key rev (omega (arith, small)))
      (elim (Bool-cases (bytes_eq r.key key)) [
        | inl same ↦
            rw same
              (under r.delete (ap (λ k. record_to_kv k rev r) ((bytes_eq_iff r.key key).0 same)))
        | inr differ ↦ rw differ refl
      ])
  where
    under :
        {x y : KeyValue}
        → (d : Bool) → x ≡ y
        → Path
            (Result StoreError (Option KeyValue))
            (if d then ok none else ok (some x))
            (ok (if d then none else some y))
    under true e = refl
    under false e = ap (λ x. ok (some x)) e

-- What the scan from the end finds before it comes to `tail`: nothing, or the newest of the key
unfoldable pub Missed : Bytes → List (Bytes × Bytes) → List (Bytes × Bytes) → Type 0
unfolding Among
Missed key kvs tail =
    ((rev : ℕ) (s : Record) → Among kvs rev s → s.key ≢ key)
    × (newest_of_key key (backwards kvs ++ tail) ≡ newest_of_key key tail)

pub record Found (key : Bytes) (kvs tail : List (Bytes × Bytes)) : Type 0 where
  pub rev : ℕ
  pub r : Record
  pub among : Among kvs rev r
  pub key_eq : r.key ≡ key
  pub newest : (rev' : ℕ) (s : Record) → Among kvs rev' s → s.key ≡ key → rev' ≤ rev
  pub result : newest_of_key key (backwards kvs ++ tail) ≡ ok (value_of key rev r)

scan-cons :
    (key : Bytes) (rev : ℕ) (r : Record) (kvs tail : List (Bytes × Bytes))
    → rev < sign_bit
    → IsReadable r
    → ((rev' : ℕ) (s : Record)
        → rev' < sign_bit
        → Memᴰ (log_key rev', marshal_record s) kvs
        → rev < rev')
    → Missed key kvs ((log_key rev, marshal_record r) ∷ tail)
      ⊎ Found key kvs ((log_key rev, marshal_record r) ∷ tail)
    → Missed key ((log_key rev, marshal_record r) ∷ kvs) tail
      ⊎ Found key ((log_key rev, marshal_record r) ∷ kvs) tail
unfolding Missed Among backwards
scan-cons key rev r kvs tail small readable first (inr f) = inr (record {
  rev = f.rev;
  r = f.r;
  among = (f.among.0, f.among.1, Memᴰ.tail f.among.2);
  key_eq = f.key_eq;
  newest = λ rev' s i same. elim (head_or_tail rev rev' r s kvs small readable i) [
    | inl (e, e') ↦ omega (arith, e, first f.rev f.r f.among.0 f.among.2)
    | inr later ↦ f.newest rev' s later same
  ];
  result = ap (newest_of_key key) (append_assoc (backwards kvs) _ tail) ∙ f.result;
})
scan-cons key rev r kvs tail small readable first (inl (none_of, passed)) =
    elim (Bool-cases (bytes_eq r.key key)) [
      | inl same ↦ inr (record {
        rev = rev;
        r = r;
        among = (small, readable, Memᴰ.head refl);
        key_eq = (bytes_eq_iff r.key key).0 same;
        newest = λ rev' s i e. elim (head_or_tail rev rev' r s kvs small readable i) [
          | inl (at, e') ↦ omega (arith, at)
          | inr later ↦ absurd (none_of rev' s later e)
        ];
        result =
            ap (newest_of_key key) (append_assoc (backwards kvs) _ tail)
            ∙ passed
            ∙ newest_of_key-cons key rev r tail small readable
            ∙ rw same refl;
      })
      | inr differ ↦ inl (
        (λ rev' s i e. elim (head_or_tail rev rev' r s kvs small readable i) [
          | inl (at, e') ↦ absurd (cc (differ, bytes_eq_refl key, e, e'))
          | inr later ↦ absurd (none_of rev' s later e)
        ]),
        ap (newest_of_key key) (append_assoc (backwards kvs) _ tail)
            ∙ passed
            ∙ newest_of_key-cons key rev r tail small readable
            ∙ rw differ refl,
      )
    ]

pub scan-total :
    (key : Bytes) (kvs tail : List (Bytes × Bytes))
    → IsSorted kvs
    → Missed key kvs tail ⊎ Found key kvs tail
unfolding Missed Among backwards
scan-total key _ tail empty = inl ((λ rev s (small, readable, i). absurd (Memᴰ.not-nil i)), refl)
scan-total key _ tail (entry rev r kvs small readable first sorted) =
    scan-cons key rev r kvs tail small readable first
      (scan-total key kvs ((log_key rev, marshal_record r) ∷ tail) sorted)
