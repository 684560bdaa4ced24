-- ===== src/Store/Mvcc/Visits.antt =====
-- An iteration of the log from one revision to another visits the records between them, in order.
use mathlib.Core.List.{Memᴰ}
use mathlib.Core.Path.{subst}
use t.Prelude.{
  ℕ, ◌+◌, ◌≤◌, ◌<◌, ◌≡◌, refl, sym, ap, ◌∙◌, ◌⊎◌, inl, inr, true, List, [], ◌∷◌, Bytes, bytes_lt,
  arith,
}
use t.Prelude.Word.{sign_bit}
use t.Store.Keys.{log_key, decode_log_key}
use t.Store.Keys.Bounds.{visits-log_key, bytes_lt-log_key}
use t.Store.Record.{Record, marshal_record}
use t.Store.Pebble.{Pebble, Lawful, IsAscending}
use t.Store.Apply.{Store}
use t.Store.Mvcc.{Holds, IsLogEntry, IsLog, IsReadable}
use t.Store.Mvcc.Keys.{log_key_inj, decode_log_key-log_key}
use t.Store.Mvcc.Search.{iter-IsLogEntry, between, marshal_record_inj}

-- The pairs are records of the log, in ascending order of their revisions.
pub data IsSorted : List (Bytes × Bytes) → Type 0 where
  empty : IsSorted []
  entry :
      (rev : ℕ) (r : Record) (kvs : List (Bytes × Bytes))
      → rev < sign_bit
      → IsReadable r
      → ((rev' : ℕ) (s : Record)
          → rev' < sign_bit
          → Memᴰ (log_key rev', marshal_record s) kvs
          → rev < rev')
      → IsSorted kvs
      → IsSorted ((log_key rev, marshal_record r) ∷ kvs)

-- The record stands among the pairs.
unfoldable pub Among : List (Bytes × Bytes) → ℕ → Record → Type 0
Among kvs rev r = (rev < sign_bit) × IsReadable r × Memᴰ (log_key rev, marshal_record r) kvs

-- A member of a list is its head or a member of the rest.
pub head_or_tail :
    (rev rev' : ℕ) (r s : Record) (kvs : List (Bytes × Bytes))
    → rev < sign_bit
    → IsReadable r
    → Among ((log_key rev, marshal_record r) ∷ kvs) rev' s
    → ((rev' ≡ rev) × (s ≡ r)) ⊎ Among kvs rev' s
unfolding Among
head_or_tail rev rev' r s kvs small readable (small', readable', Memᴰ.head same) = inl (
  sym (decode_log_key-log_key rev' (omega (arith, small')))
      ∙ ap decode_log_key (ap (λ (x : Bytes × Bytes). x.0) same)
      ∙ decode_log_key-log_key rev (omega (arith, small)),
  marshal_record_inj s r readable' readable (ap (λ (x : Bytes × Bytes). x.1) same),
)
head_or_tail rev rev' r s kvs small readable (small', readable', Memᴰ.tail i) =
    inr (small', readable', i)

pair_eq : {a b c d : Bytes} → a ≡ b → c ≡ d → Path (Bytes × Bytes) (a, c) (b, d)
pair_eq e f = cc (e, f)

ascending-IsSorted :
    (cur : ℕ) (kvs : List (Bytes × Bytes))
    → cur < sign_bit
    → ((k v : Bytes) → Memᴰ (k, v) kvs → IsLogEntry cur k v)
    → IsAscending kvs
    → IsSorted kvs
ascending-IsSorted cur [] fits entries asc = empty
ascending-IsSorted cur ((k, v) ∷ kvs) fits entries (first, asc) =
    let e = entries k v (Memᴰ.head refl) in
    let small : e.rev < sign_bit = omega (arith, e.bounded, fits) in
    subst (λ (x : Bytes × Bytes). IsSorted (x ∷ kvs)) (sym (pair_eq e.key e.value))
      (entry e.rev e.r kvs small e.readable
        (λ rev' s small' i.
          let below : bytes_lt (log_key e.rev) (log_key rev') ≡ true =
            subst (λ j. bytes_lt j (log_key rev') ≡ true) e.key
              (first (log_key rev', marshal_record s) i) in
          ground (
            arith,
            sym (bytes_lt-log_key e.rev rev' (omega (arith, small)) (omega (arith, small')))
                ∙ below,
          ))
        (ascending-IsSorted cur kvs fits (λ k v i. entries k v (Memᴰ.tail i)) asc))

module _ (p : Pebble) (lawful : Lawful p) (s : Store p) (fits : s.current_rev < sign_bit)
    (log : IsLog s.current_rev (p.get s.db)) (lo top : ℕ) (low : lo < sign_bit)
    (small : top < sign_bit) where
  unfoldable pub visited : List (Bytes × Bytes)
  visited = p.iter s.db (log_key lo, log_key (top + 1))

  pub visited-IsSorted : IsSorted visited
  unfolding visited
  visited-IsSorted =
      ascending-IsSorted s.current_rev visited fits
        (λ k v i. (iter-IsLogEntry p lawful s.db s.current_rev fits log lo (top + 1) k v i).0)
        (lawful.iter-IsAscending s.db (log_key lo, log_key (top + 1)))

  -- What is visited is in the log, and what is in the log up to the revision is visited.
  pub Among→Holds :
      (rev : ℕ) (r : Record)
      → Among visited rev r
      → Holds (p.get s.db) rev r × (0 < rev) × (lo ≤ rev) × (rev ≤ top)
  unfolding visited Among
  Among→Holds rev r (fits', readable, i) =
      let (e, got, seen) =
        iter-IsLogEntry p lawful s.db s.current_rev fits log lo (top + 1) (log_key rev)
          (marshal_record r) i in
      let same =
        log_key_inj rev e.rev (omega (arith, fits')) (omega (arith, e.bounded, fits)) e.key in
      let (above, bounded) =
        between p lawful s.db s.current_rev fits log lo top rev (log_key rev) (omega (arith, low))
          (omega (arith, small)) (omega (arith, fits')) refl seen in
      (record { at = got; readable = readable }, omega (arith, same, e.positive), above, bounded)

  pub Holds→Among :
      (rev : ℕ) (r : Record) → lo ≤ rev → rev ≤ top → Holds (p.get s.db) rev r → Among visited rev r
  unfolding visited Among
  Holds→Among rev r ge le h = (
    omega (arith, le, small),
    h.readable,
    lawful.get-iter s.db (log_key lo, log_key (top + 1)) (log_key rev) (marshal_record r) h.at
        ((visits-log_key lo top rev 0 (omega (arith, low)) (omega (arith, small))
            (omega (arith, le, small))).0
          ∙ ground (arith, ge, le)),
  )
