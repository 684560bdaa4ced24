-- ===== src/Store/Mvcc/Past.antt =====
-- The maps at earlier revisions: what the newest record up to a revision says of a key, and how
-- the entries of a batch keep it.
use mathlib.Core.Path.{subst}
use t.Prelude.{
  ℕ, ◌≤◌, ◌<◌, ◌≡◌, refl, ◌⊎◌, inl, inr, false, Option, none, some, List, [], ◌∷◌, Bytes, bytes_eq,
  bytes_eq_iff, bytes_eq_refl, if◌then◌else◌, arith, Bool-cases, ◌==◌, leb, ltb,
}
use t.Prelude.Word.{sign_bit}
use t.Wal.{Entry, op_compact}
use t.Store.Keys.{idx_key}
use t.Store.Record.{Record}
use t.Store.KeyValue.{KeyValue, record_to_kv}
use t.Store.Pebble.{Batch}
use t.Store.Mvcc.{Contents, IsReadable, Holds, NoneWithin, Current, Represents, max_rev, spec_one}
use t.Store.Mvcc.Compaction.{OnlyDeletes}
use t.Store.Mvcc.Deletions.{after, before-Holds, still}
use t.Store.Mvcc.Writes.{
  g_after, written, new-NoneWithin, Holds-cases, keeps-Holds, above-Holds, at_new,
}

-- The map at each revision
abbrev pub History : Type 0
History = ℕ → Current

abbrev pub value_of : Bytes → ℕ → Record → Option KeyValue
value_of key rev r = if r.delete then none else some (record_to_kv key rev r)

-- The newest record of the key up to the revision `top`
pub record IsNewest (old g : Contents) (key : Bytes) (top : ℕ) (o : Option KeyValue) : Type 0 where
  pub rev : ℕ
  pub r : Record
  pub holds : Holds g rev r
  pub key_eq : r.key ≡ key
  pub positive : 0 < rev
  pub bounded : rev ≤ top
  pub newest : NoneWithin g key rev top
  pub newest_old : NoneWithin old key rev top
  pub value_eq : o ≡ value_of key rev r

-- What the log says of the key at the revision `top`
abbrev pub IsPast : Contents → Contents → Bytes → ℕ → Option KeyValue → Type 0
IsPast old g key top o =
    (NoneWithin g key 0 top × NoneWithin old key 0 top × (o ≡ none)) ⊎ IsNewest old g key top o

-- The log has the maps from the revision `low` on.
unfoldable pub Remembers : Contents → Contents → ℕ → History → Type 0
Remembers old g low hist =
    (key : Bytes) (top : ℕ) → low ≤ top → top ≤ max_rev → IsPast old g key top (hist top key)

-- What an entry does to the maps: those from its revision on get the write.
unfoldable pub spec_past_one : Entry → History → History
unfolding spec_one
spec_past_one e hist top key =
    if e.op == op_compact
    then hist top key
    else if leb e.revision top
    then spec_one e (hist top) key
    else hist top key

unfoldable pub spec_past : List Entry → History → History
unfolding spec_past_one
spec_past [] hist = hist
spec_past (e ∷ es) hist = spec_past es (spec_past_one e hist)

-- The revision from which the maps are kept
abbrev pub low_after : ℕ → Entry → ℕ
low_after low e =
    if e.op == op_compact then (if ltb low e.prev_revision then e.prev_revision else low) else low

unfoldable pub low_after_all : ℕ → List Entry → ℕ
low_after_all low [] = low
low_after_all low (e ∷ es) = low_after_all (low_after low e) es

module _ (old g : Contents) (cur : ℕ) (m : Current) (fits : cur < sign_bit)
    (rep : Represents old g cur m) where
  -- A compaction keeps the maps from its target on.
  pub deletes-Remembers :
      (top : ℕ) (b : Batch) (ht : top < sign_bit)
      (logs : (k : Bytes) → OnlyDeletes old top b (108 ∷ k))
      (index : (k : Bytes) → OnlyDeletes old top b (idx_key k)) (low : ℕ) (hist : History)
      → Remembers old g low hist
      → Remembers old (after b g) (if ltb low top then top else low) hist
  unfolding Remembers NoneWithin
  deletes-Remembers top b ht logs index low hist past key at from to =
      elim (past key at (ground (arith, from)) to) [
        | inl (nothing, nothing_old, e) ↦ inl (
          (λ rev' s above le h.
              nothing rev' s above le
                (before-Holds old g cur m fits rep top b ht logs index rev' s h)),
          nothing_old,
          e,
        )
        | inr x ↦ inr (record {
          rev = x.rev;
          r = x.r;
          holds =
              still old g cur m fits rep top b ht logs index x.rev x.r key at
                (omega (arith, x.bounded, to)) (ground (arith, from)) x.holds x.key_eq x.newest_old;
          key_eq = x.key_eq;
          positive = x.positive;
          bounded = x.bounded;
          newest = λ rev' s above le h.
              x.newest rev' s above le
                (before-Holds old g cur m fits rep top b ht logs index rev' s h);
          newest_old = x.newest_old;
          value_eq = x.value_eq;
        })
      ]

module _ (old g : Contents) (cur : ℕ) (m : Current) (rep : Represents old g cur m) (rev : ℕ)
    (r : Record) (hc : cur < rev) (hr : rev < sign_bit) (readable : IsReadable r) where
  abbrev written_contents : Contents
  written_contents = g_after old g cur m rep rev r hc hr readable

  -- Before the revision of a write, or of another key, nothing is new.
  old-IsPast :
      (key : Bytes) (top : ℕ) (o : Option KeyValue)
      → top ≤ max_rev
      → (top < rev) ⊎ (bytes_eq r.key key ≡ false)
      → IsPast old g key top o
      → IsPast old written_contents key top o
  unfolding NoneWithin
  old-IsPast key top o to apart past = elim past [
    | inl (nothing, nothing_old, e) ↦
        inl ((λ rev' s above le h. nowhere 0 nothing rev' s above le h), nothing_old, e)
    | inr x ↦ inr (record {
      rev = x.rev;
      r = x.r;
      holds = elim (Bool-cases (ltb cur x.rev)) [
        | inl above ↦
            above-Holds cur g x.rev x.r rep.log (ground (arith, above))
              (omega (arith, x.bounded, to)) x.holds
        | inr at ↦
            keeps-Holds old g cur m rep rev r hc hr readable x.rev x.r (ground (arith, at)) x.holds
      ];
      key_eq = x.key_eq;
      positive = x.positive;
      bounded = x.bounded;
      newest = nowhere x.rev x.newest;
      newest_old = x.newest_old;
      value_eq = x.value_eq;
    })
  ]
    where
      nowhere : (from : ℕ) → NoneWithin g key from top → NoneWithin written_contents key from top
      nowhere from nothing rev' s above le h same =
          elim (Holds-cases old g cur m rep rev r hc hr readable rev' s (omega (arith, le, to)) h) [
            | inl (e, f) ↦ elim apart [
              | inl before ↦ absurd (omega (arith, before, e, le))
              | inr differ ↦ absurd (cc (differ, bytes_eq_refl key, same, f))
            ]
            | inr found ↦ nothing rev' s above le found same
          ]

  new-IsPast :
      (top : ℕ)
      → rev ≤ top
      → top ≤ max_rev
      → IsPast old written_contents r.key top (value_of r.key rev r)
  unfolding NoneWithin
  new-IsPast top le to = inr (record {
    rev = rev;
    r = r;
    holds = record { at = at_new old g cur m rep rev r hc hr readable; readable = readable };
    key_eq = refl;
    positive = omega (arith, hc);
    bounded = le;
    newest = (new-NoneWithin old g cur m rep rev r hc hr readable r.key top to).0;
    newest_old = (new-NoneWithin old g cur m rep rev r hc hr readable r.key top to).1;
    value_eq = refl;
  })

  -- The maps from the revision of a write on get it, the others stay.
  pub write_record-Remembers :
      (low : ℕ) (hist : History)
      → Remembers old g low hist
      → Remembers old written_contents low
          (λ top. if leb rev top then written (hist top) rev r else hist top)
  unfolding Remembers
  write_record-Remembers low hist past key top from to = elim (Bool-cases (leb rev top)) [
    | inl from_write ↦ rw from_write (elim (Bool-cases (bytes_eq r.key key)) [
      | inl same ↦ rw same (
          subst (λ k. IsPast old written_contents k top (value_of k rev r))
            ((bytes_eq_iff r.key key).0 same) (new-IsPast top (ground (arith, from_write)) to))
      | inr differ ↦
          rw differ (old-IsPast key top (hist top key) to (inr differ) (past key top from to))
    ])
    | inr before ↦
        rw before (
          old-IsPast key top (hist top key) to (inl (ground (arith, before)))
            (past key top from to))
  ]
