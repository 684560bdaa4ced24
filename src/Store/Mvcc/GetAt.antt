-- ===== src/Store/Mvcc/GetAt.antt =====
-- GetAt against the maps at earlier revisions.
use mathlib.Core.List.{append-nil}
use mathlib.Core.Option.{some-injective}
use t.Prelude.{
  ℕ, ◌≤◌, ◌<◌, ◌≡◌, sym, ap, ◌∙◌, inl, inr, false, Option, none, List, [], ◌++◌, Bytes, arith,
  Bool-cases, ◌==◌, ltb,
}
use t.Prelude.Word.{sign_bit, lt64}
use t.Result.{Result, ok}
use t.Wal.{Entry}
use t.Store.Keys.{log_key}
use t.Store.Record.{Record}
use t.Store.KeyValue.{KeyValue}
use t.Store.Pebble.{Pebble, Lawful}
use t.Store.Apply.{Store, StoreError, apply}
use t.Store.Read.{backwards, newest_of_key, get_at_revision, get_at, resolve_read_revision}
use t.Store.Mvcc.{Holds, NoneWithin, IsLog, Current, AreNext, spec, revision_after_all, max_rev}
use t.Store.Mvcc.Search.{marshal_record_inj}
use t.Store.Mvcc.Past.{History, IsPast, Remembers, value_of, spec_past, low_after_all}
use t.Store.Mvcc.Stored.{IsStored}
use t.Store.Mvcc.Refinement.{apply-IsStored}
use t.Store.Mvcc.Visits.{visited, visited-IsSorted, Among→Holds, Holds→Among}
use t.Store.Mvcc.Backwards.{Missed, Found, scan-total}

module _ (p : Pebble) (lawful : Lawful p) (s : Store p) (fits : s.current_rev < sign_bit)
    (log : IsLog s.current_rev (p.get s.db)) (key : Bytes) (top : ℕ) (small : top < sign_bit) where
  seen : List (Bytes × Bytes)
  unfolding visited
  seen = visited p lawful s fits log 0 top (omega arith) small

  Scans : Option KeyValue → Type 0
  unfolding seen
  Scans o = newest_of_key key (backwards seen ++ []) ≡ ok o

  Missed-Scans :
      (o : Option KeyValue)
      → IsPast (p.get s.db) (p.get s.db) key top o
      → Missed key seen []
      → Scans o
  unfolding seen Scans Missed newest_of_key NoneWithin
  Missed-Scans o (inl (nothing, nothing', e)) (none_of, result) =
      result ∙ ap (λ (x : Option KeyValue). ok x) (sym e)
  Missed-Scans o (inr x) (none_of, result) = absurd (
      none_of x.rev x.r
        (Holds→Among p lawful s fits log 0 top (omega arith) small x.rev x.r (omega arith) x.bounded
          x.holds)
        x.key_eq)

  Found-Scans :
      (o : Option KeyValue)
      → IsPast (p.get s.db) (p.get s.db) key top o
      → Found key seen []
      → Scans o
  unfolding seen Scans NoneWithin
  Found-Scans o (inl (nothing, nothing', e)) f =
      let (holds, positive, above, bounded) =
        Among→Holds p lawful s fits log 0 top (omega arith) small f.rev f.r f.among in
      absurd (nothing f.rev f.r positive bounded holds f.key_eq)
  Found-Scans o (inr x) f =
      let (holds, positive, above, bounded) =
        Among→Holds p lawful s fits log 0 top (omega arith) small f.rev f.r f.among in
      let le =
        f.newest x.rev x.r
          (Holds→Among p lawful s fits log 0 top (omega arith) small x.rev x.r (omega arith)
            x.bounded x.holds)
          x.key_eq in
      elim (Bool-cases (ltb x.rev f.rev)) [
        | inl above ↦ absurd (x.newest f.rev f.r (ground (arith, above)) bounded holds f.key_eq)
        | inr same ↦
            f.result
            ∙ same_value f.rev x.rev f.r x.r (ground (arith, same, le)) holds x.holds x.value_eq
      ]
    where
      same_value :
          (rev rev' : ℕ) (r r' : Record)
          → rev ≡ rev'
          → Holds (p.get s.db) rev r
          → Holds (p.get s.db) rev' r'
          → o ≡ value_of key rev' r'
          → Path (Result StoreError (Option KeyValue)) (ok (value_of key rev r)) (ok o)
      same_value rev rev' r r' e h h' v =
          let same_record =
            marshal_record_inj r r' h.readable h'.readable
              (some-injective _ _ (sym h.at ∙ ap (λ n. p.get s.db (log_key n)) e ∙ h'.at)) in
          cc (e, same_record, v)

  get_at_revision-IsPast :
      (o : Option KeyValue)
      → IsPast (p.get s.db) (p.get s.db) key top o
      → get_at_revision p s key top ≡ ok o
  unfolding get_at_revision Scans seen visited
  get_at_revision-IsPast o past =
      ap (newest_of_key key) (sym (append-nil (backwards seen)))
      ∙ elim (scan-total key seen []
          (visited-IsSorted p lawful s fits log 0 top (omega arith) small)) [
            | inl missed ↦ Missed-Scans o past missed
            | inr found ↦ Found-Scans o past found
          ]

module _ (p : Pebble) (lawful : Lawful p) where
  resolve_in_reach :
      (s : Store p) (low revision : ℕ)
      → s.compact_rev ≤ low
      → s.current_rev < sign_bit
      → 0 < revision
      → low ≤ revision
      → revision ≤ s.current_rev
      → resolve_read_revision p s revision ≡ ok revision
  unfolding resolve_read_revision
  resolve_in_reach s low revision compacted fits positive kept known =
      let not_zero : (revision == 0) ≡ false = ground (arith, positive) in
      let in_reach : lt64 revision s.compact_rev ≡ false =
        ground (arith, compacted, kept, known, fits) in
      let not_future : lt64 s.current_rev revision ≡ false = ground (arith, known, fits) in
      rw (not_zero, in_reach, not_future) (ground arith)

  -- GetAt at a revision that is not 0 and not above the current one, and not below the highest
  -- compaction, gives the map at that revision.
  get_at-IsStored :
      (s : Store p) (m : Current) (low : ℕ) (hist : History) (key : Bytes) (revision : ℕ)
      → IsStored p s m low hist
      → 0 < revision
      → low ≤ revision
      → revision ≤ s.current_rev
      → get_at p s key revision ≡ ok (hist revision key)
  unfolding get_at Remembers
  get_at-IsStored s m low hist key revision stored positive kept known =
      let not_zero : (revision == 0) ≡ false = ground (arith, positive) in
      let small : revision ≤ max_rev = omega (arith, known, stored.fits) in
      rw (resolves, not_zero)
        (get_at_revision-IsPast p lawful s stored.fits stored.represents.log key revision
          (omega (arith, small)) (hist revision key) (stored.remembers key revision kept small))
    where
      resolves : resolve_read_revision p s revision ≡ ok revision
      resolves = resolve_in_reach s low revision stored.compacted stored.fits positive kept known

  -- On a store that stands for a map and for the maps at earlier revisions, after an Apply of
  -- entries that may follow the store's revision, each a write of one key whose record is read back
  -- as written or a compaction, GetAt at a revision from 1 to the current one, and not below the
  -- highest compaction, gives for every key what the fold of the entries over the maps has there.
  pub get_at-apply :
      (s : Store p) (m : Current) (low : ℕ) (hist : History) (es : List Entry) (key : Bytes)
      (revision : ℕ)
      → IsStored p s m low hist
      → AreNext s.current_rev es
      → 0 < revision
      → low_after_all low es ≤ revision
      → revision ≤ revision_after_all s.current_rev es
      → ((apply p s es).1 ≡ none)
        × (get_at p (apply p s es).0 key revision ≡ ok (spec_past es hist revision key))
  get_at-apply s m low hist es key revision stored next positive kept known =
      let (done, stored', rev) = apply-IsStored p lawful s m low hist es stored next in
      (
        done,
        get_at-IsStored (apply p s es).0 (spec es m) (low_after_all low es) (spec_past es hist) key
            revision stored' positive kept (omega (arith, rev, known)),
      )
