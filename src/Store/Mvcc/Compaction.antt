-- ===== src/Store/Mvcc/Compaction.antt =====
-- applyCompact deletes records of the log that a newer one of the same key supersedes, and it does
-- not fail on a log that can be read.
use mathlib.Core.List.{Memᴰ}
use mathlib.Core.Path.{subst}
use t.Prelude.{
  ℕ, ◌≤◌, ◌<◌, ◌≡◌, refl, sym, ap, ◌∙◌, ◌⊎◌, inl, inr, Bool, true, false, Option, none, some, List,
  [], ◌∷◌, Bytes, bytes_eq, bytes_eq_iff, if◌then◌else◌, arith, Bool-cases,
}
use t.Prelude.Word.{sign_bit}
use t.Result.{Result, ok}
use t.Store.Keys.{log_key, idx_key, encode_rev}
use t.Store.Record.{Record, marshal_record}
use t.Store.Pebble.{Pebble, Lawful, Batch, set, delete, effects}
use t.Store.Apply.{StoreError, delete_superseded, apply_compact, meta_compact_key}
use t.Store.Mvcc.{Contents, Holds, IsLog}
use t.Store.Mvcc.Keys.{decode_log_key-log_key}
use t.Store.Mvcc.Search.{
  decode_record-marshal_record, iter-IsLogEntry, Among, Newer, has_later-total,
}

-- A newer record of the same key, at a revision that is not above `top`
pub record IsSuperseded (g : Contents) (top : ℕ) (k : Bytes) : Type 0 where
  pub rev : ℕ
  pub newer : ℕ
  pub r : Record
  pub s : Record
  pub key : k ≡ log_key rev
  pub fits : rev < sign_bit
  pub holds : Holds g rev r
  pub holds_newer : Holds g newer s
  pub key_eq : s.key ≡ r.key
  pub above : rev < newer
  pub bounded : newer ≤ top

-- A batch that changes the key alone by deleting what is superseded
abbrev pub OnlyDeletes : Contents → ℕ → Batch → Bytes → Type 0
OnlyDeletes g top b k =
    (old : Option Bytes)
    → (effects b k old ≡ old) ⊎ ((effects b k old ≡ none) × IsSuperseded g top k)

module _ (p : Pebble) (lawful : Lawful p) (db : p.Db) (cur : ℕ) (fits : cur < sign_bit)
    (log : IsLog cur (p.get db)) where
  -- The batch of a compaction, and what it may delete
  Compacts : ℕ → List (Bytes × Bytes) → Type 0
  Compacts top kvs =
      (b : Batch) × (delete_superseded p db top kvs ≡ ok b)
      × ((k : Bytes) → OnlyDeletes (p.get db) top b k)

  delete-OnlyDeletes :
      (top : ℕ) (j : Bytes) (b : Batch)
      → IsSuperseded (p.get db) top j
      → ((k : Bytes) → OnlyDeletes (p.get db) top b k)
      → (k : Bytes) → OnlyDeletes (p.get db) top (delete j ∷ b) k
  delete-OnlyDeletes top j b old_version only k old = elim (Bool-cases (bytes_eq j k)) [
    | inl same ↦ rw same (
        inr (
          from_none (only k none),
          subst (IsSuperseded (p.get db) top) ((bytes_eq_iff j k).0 same) old_version,
        ))
    | inr differ ↦ rw differ (only k old)
  ]
    where
      from_none :
          (effects b k none ≡ none) ⊎ ((effects b k none ≡ none) × IsSuperseded (p.get db) top k)
          → effects b k none ≡ none
      from_none (inl e) = e
      from_none (inr (e, s)) = e

  delete_superseded_step :
      (top rev : ℕ) (r : Record) (kvs : List (Bytes × Bytes))
      → rev < sign_bit
      → top < sign_bit
      → Holds (p.get db) rev r
      → Compacts top kvs
      → Compacts top ((log_key rev, marshal_record r) ∷ kvs)
  unfolding Compacts delete_superseded Newer
  delete_superseded_step top rev r kvs hr ht holds (b, e, only) =
      let (found, answer, newer) = has_later-total p lawful db cur fits log r.key rev top hr ht in
      rw
        (
          decode_record-marshal_record r holds.readable,
          decode_log_key-log_key rev (omega (arith, hr)),
          answer,
          e,
        )
        (cases found newer)
    where
      cases :
          (found : Bool)
          → (found ≡ true → Newer p lawful db cur fits log r.key rev top)
          → (x : Batch) × (Path
              (Result StoreError Batch)
              (ok (if found then delete (log_key rev) ∷ b else b))
              (ok x))
            × ((k : Bytes) → OnlyDeletes (p.get db) top x k)
      cases false newer = (b, refl, only)
      cases true newer =
          let (above_rev, s, above, bounded, newer_holds, same) = newer refl in
          (
            delete (log_key rev) ∷ b,
            refl,
            delete-OnlyDeletes top (log_key rev) b
                (record {
                  rev = rev;
                  newer = above_rev;
                  r = r;
                  s = s;
                  key = refl;
                  fits = hr;
                  holds = holds;
                  holds_newer = newer_holds;
                  key_eq = same;
                  above = above;
                  bounded = bounded;
                })
                only,
          )

  delete_superseded-total :
      (lo hi top : ℕ) (kvs : List (Bytes × Bytes))
      → top < sign_bit
      → Among p lawful db cur fits log kvs (p.iter db (log_key lo, log_key hi))
      → Compacts top kvs
  unfolding Compacts delete_superseded Among
  delete_superseded-total lo hi top [] ht among = ([], refl, λ k old. inl refl)
  delete_superseded-total lo hi top ((k, v) ∷ kvs) ht among =
      let (entry, got, visited) =
        iter-IsLogEntry p lawful db cur fits log lo hi k v (among (k, v) (Memᴰ.head refl)) in
      let holds : Holds (p.get db) entry.rev entry.r = record {
        at = ap (p.get db) (sym entry.key) ∙ got ∙ ap some entry.value;
        readable = entry.readable;
      } in
      subst (λ (x : Bytes × Bytes). Compacts top (x ∷ kvs)) (sym (pair_eq entry.key entry.value))
        (delete_superseded_step top entry.rev entry.r kvs (omega (arith, entry.bounded, fits)) ht
          holds (delete_superseded-total lo hi top kvs ht (λ x i. among x (Memᴰ.tail i))))
    where
      pair_eq : {a b c d : Bytes} → a ≡ b → c ≡ d → Path (Bytes × Bytes) (a, c) (b, d)
      pair_eq e f = cc (e, f)

  -- A compaction of a log that can be read does not fail, and changes nothing of the log and the
  -- index but for records that are superseded at a revision up to its target.
  pub apply_compact-total :
      (old top : ℕ)
      → top < sign_bit
      → (b : Batch) × (apply_compact p db old top ≡ ok b)
        × ((k : Bytes) → OnlyDeletes (p.get db) top b (108 ∷ k))
        × ((k : Bytes) → OnlyDeletes (p.get db) top b (idx_key k))
  unfolding apply_compact Among Compacts idx_key bytes_eq
  apply_compact-total old top ht =
      let (b, e, only) =
        delete_superseded-total old top top (p.iter db (log_key old, log_key top)) ht (λ x i. i) in
      (
        set meta_compact_key (encode_rev top) ∷ b,
        rw e refl,
        (λ k. only (108 ∷ k)),
        λ k. only (idx_key k),
      )
