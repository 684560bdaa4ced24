-- ===== src/Store/Mvcc/Search.antt =====
-- The search of a compaction for a newer record of a key: it finds one exactly where it says so, and
-- does not fail on a log that can be read.
use mathlib.Core.List.{Memᴰ}
use mathlib.Core.Path.{subst}
use t.Prelude.{
  ℕ, ◌+◌, ◌≤◌, ◌<◌, ◌^◌, ◌≡◌, refl, sym, ap, ◌∙◌, inl, inr, Bool, true, false, some, List, [], ◌∷◌,
  Bytes, bytes_eq, bytes_eq_iff, arith, Bool-cases,
}
use t.Prelude.Word.{sign_bit, le64}
use t.Result.{Result, ok}
use t.Store.Keys.{log_key, visits}
use t.Store.Keys.Bounds.{visits-log_key}
use t.Store.Record.{Record, marshal_record}
use t.Store.Record.RoundTrip.{unmarshal_record-marshal_record}
use t.Store.Pebble.{Pebble, Lawful}
use t.Store.Apply.{StoreError, any_of_key, has_later_revision_at_or_before, decode_record}
use t.Store.Mvcc.{IsReadable, Holds, IsLogEntry, IsLog}
use t.Store.Mvcc.Keys.{visits-head}

pub decode_record-marshal_record :
    (r : Record) → IsReadable r → decode_record (marshal_record r) ≡ ok r
decode_record-marshal_record r h =
    rw (decode_record, unmarshal_record-marshal_record r h.fits h.valid) refl

pub marshal_record_inj :
    (r s : Record) → IsReadable r → IsReadable s → marshal_record r ≡ marshal_record s → r ≡ s
marshal_record_inj r s hr hs e = ok_inj (
    sym (decode_record-marshal_record r hr)
    ∙ ap decode_record e
    ∙ decode_record-marshal_record s hs)
  where
    ok_inj : {a b : Record} → Path (Result StoreError Record) (ok a) (ok b) → a ≡ b
    ok_inj h = cc h

module _ (p : Pebble) (lawful : Lawful p) (db : p.Db) (cur : ℕ) (fits : cur < sign_bit)
    (log : IsLog cur (p.get db)) where
  -- What an iteration of the log visits are entries of the log.
  pub iter-IsLogEntry :
      (lo hi : ℕ) (k v : Bytes)
      → Memᴰ (k, v) (p.iter db (log_key lo, log_key hi))
      → IsLogEntry cur k v × (p.get db k ≡ some v) × (visits (log_key lo, log_key hi) k ≡ true)
  unfolding IsLog
  iter-IsLogEntry lo hi k v i =
      let (found, visited) = lawful.iter-get db (log_key lo, log_key hi) k v i in
      let (rest, e) = visits-head lo hi k visited in
      (
        subst (λ j. IsLogEntry cur j v) (sym e) (log rest v (ap (p.get db) (sym e) ∙ found)),
        found,
        visited,
      )

  unfoldable pub Among : List (Bytes × Bytes) → List (Bytes × Bytes) → Type 0
  Among xs ys = (x : Bytes × Bytes) → Memᴰ x xs → Memᴰ x ys

  -- What a positive answer of the loop has found
  HasKey : Bytes → List (Bytes × Bytes) → Bool → Type 0
  HasKey key kvs true =
      (k v : Bytes) × Memᴰ (k, v) kvs
      × ((r : Record) → v ≡ marshal_record r → IsReadable r → r.key ≡ key)
  HasKey key kvs false = Unit

  Answers : Bytes → List (Bytes × Bytes) → Type 0
  unfolding HasKey
  Answers key kvs = (found : Bool) × (any_of_key key kvs ≡ ok found) × HasKey key kvs found

  later :
      (key : Bytes) (x : Bytes × Bytes) (kvs : List (Bytes × Bytes)) (found : Bool)
      → HasKey key kvs found
      → HasKey key (x ∷ kvs) found
  unfolding HasKey
  later key x kvs true (k, v, i, is) = (k, v, Memᴰ.tail i, is)
  later key x kvs false h = tt

  any_of_key_step :
      (key k : Bytes) (r : Record) (kvs : List (Bytes × Bytes))
      → IsReadable r
      → Answers key kvs
      → Answers key ((k, marshal_record r) ∷ kvs)
  unfolding any_of_key Answers HasKey
  any_of_key_step key k r kvs h (found, rest, has) =
      rw (decode_record-marshal_record r h) (elim (Bool-cases (bytes_eq r.key key)) [
        | inl same ↦ rw same (
          true,
          refl,
          (
            k,
            marshal_record r,
            Memᴰ.head refl,
            λ s e hs.
                sym (ap (λ (x : Record). x.key) (marshal_record_inj r s h hs e))
                ∙ (bytes_eq_iff r.key key).0 same,
          ),
        )
        | inr differ ↦ rw differ (found, rest, later key (k, marshal_record r) kvs found has)
      ])

  any_of_key-total :
      (lo hi : ℕ) (key : Bytes) (kvs : List (Bytes × Bytes))
      → Among kvs (p.iter db (log_key lo, log_key hi))
      → Answers key kvs
  unfolding any_of_key Among Answers HasKey
  any_of_key-total lo hi key [] among = (false, refl, tt)
  any_of_key-total lo hi key ((k, v) ∷ kvs) among =
      let entry = (iter-IsLogEntry lo hi k v (among (k, v) (Memᴰ.head refl))).0 in
      subst (λ (w : Bytes). Answers key ((k, w) ∷ kvs)) (sym entry.value)
        (any_of_key_step key k entry.r kvs entry.readable
          (any_of_key-total lo hi key kvs (λ x i. among x (Memᴰ.tail i))))

  -- The answer to a search for a newer record
  AnswersLater : Bytes → ℕ → ℕ → Type 0
  AnswersLater key after top =
      (found : Bool) × (has_later_revision_at_or_before p db key after top ≡ ok found)
      × (found ≡ true
          → (newer : ℕ) × (s : Record) × (after < newer)
            × (newer ≤ top)
            × Holds (p.get db) newer s
            × (s.key ≡ key))

  -- An entry that an iteration from lo to hi visits stands between them.
  pub between :
      (lo hi rev : ℕ) (k : Bytes)
      → lo < 2 ^ 64
      → hi + 1 < 2 ^ 64
      → rev < 2 ^ 64
      → k ≡ log_key rev
      → visits (log_key lo, log_key (hi + 1)) k ≡ true
      → (lo ≤ rev) × (rev ≤ hi)
  between lo hi rev k hl hh hr e visited =
      let bounds =
        sym ((visits-log_key lo hi rev 0 hl hh hr).0)
        ∙ ap (visits (log_key lo, log_key (hi + 1))) (sym e)
        ∙ visited in
      ground (arith, bounds)

  unfoldable pub Newer : Bytes → ℕ → ℕ → Type 0
  Newer key after top =
      (newer : ℕ) × (s : Record) × (after < newer)
      × (newer ≤ top)
      × Holds (p.get db) newer s
      × (s.key ≡ key)

  HasKey→Newer :
      (key : Bytes) (after top : ℕ) (found : Bool)
      → after < sign_bit
      → top < sign_bit
      → HasKey key (p.iter db (log_key (after + 1), log_key (top + 1))) found
      → found ≡ true
      → Newer key after top
  unfolding HasKey Newer
  HasKey→Newer key after top true ha ht (k, v, i, is) e =
      let (entry, got, visited) = iter-IsLogEntry (after + 1) (top + 1) k v i in
      let (above, bounded) =
        between (after + 1) top entry.rev k (omega (arith, ha)) (omega (arith, ht))
          (omega (arith, entry.bounded, fits)) entry.key visited in
      (
        entry.rev,
        entry.r,
        omega (arith, above),
        bounded,
        record {
          at = ap (p.get db) (sym entry.key) ∙ got ∙ ap some entry.value;
          readable = entry.readable;
        },
        is entry.r entry.value entry.readable,
      )
  HasKey→Newer key after top false ha ht h e = absurd (ground arith)

  pub has_later-total :
      (key : Bytes) (after top : ℕ)
      → after < sign_bit
      → top < sign_bit
      → (found : Bool) × (has_later_revision_at_or_before p db key after top ≡ ok found)
        × (found ≡ true → Newer key after top)
  unfolding has_later_revision_at_or_before Answers Among
  has_later-total key after top ha ht = elim (Bool-cases (le64 top after)) [
    | inl nothing ↦ rw nothing (false, refl, λ e. absurd (ground arith))
    | inr something ↦ rw something (
        let (found, e, has) =
          any_of_key-total (after + 1) (top + 1) key
            (p.iter db (log_key (after + 1), log_key (top + 1))) (λ x i. i) in
        (found, e, HasKey→Newer key after top found ha ht has))
  ]
