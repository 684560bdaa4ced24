-- ===== src/Store/Mvcc/Replayed.antt =====
-- Recover against Apply, on entries that the store has not seen.
use t.Prelude.{
  ℕ, ◌<◌, ◌≤◌, ◌≡◌, refl, ap, inl, inr, false, some, Option, Option-cases, List, [], ◌∷◌, arith,
  ◌==◌,
}
use t.Prelude.BigEndian.{put_be}
use t.Prelude.Word.{sign_bit}
use t.Result.{Result, ok, err}
use t.Wal.{Entry, op_compact, op_txn}
use t.Store.Keys.{log_key}
use t.Store.Pebble.{Pebble}
use t.Store.Apply.{Store, StoreError, Pending, apply, apply_loop, apply_one, start, finish}
use t.Store.Recover.{cleanup, purge_one, recover, recover_loop, recover_one}
use t.Store.Mvcc.{Current, IsLog, IsNext, compaction, write, AreNext, revision_after}
use t.Store.Mvcc.Deletions.{above-IsLog}
use t.Store.Mvcc.Past.{History}
use t.Store.Mvcc.Stored.{IsStored}

module _ (p : Pebble) (db : p.Db) (first : ℕ) (log : IsLog first (p.get db)) where
  -- There is nothing to clean up at a revision that the log does not have.
  cleanup-none :
      (e : Entry)
      → (e.op == op_txn) ≡ false
      → first < e.revision
      → e.revision < sign_bit
      → cleanup p db e ≡ []
  unfolding log_key cleanup
  cleanup-none e no_txn above fits = elim (Option-cases (p.get db (log_key e.revision))) [
    | inl absent ↦ rw (cleanup, no_txn, absent, purge_one) refl
    | inr (v, found) ↦
        above-IsLog first (p.get db) e.revision (put_be 8 e.revision) v log above fits refl found
  ]

  one_same :
      (cur : ℕ) (q : Pending) (e : Entry)
      → first ≤ cur
      → IsNext cur e
      → (recover_one p db q e ≡ apply_one p db q e) × (first ≤ revision_after cur e)
  unfolding recover_one apply_one
  one_same cur q e le (compaction op fits) = simp op (refl, le)
  one_same cur q e le (write op above fits readable) =
      let no_txn : (e.op == op_txn) ≡ false = ground (arith, op) in
      let no_compaction : (e.op == op_compact) ≡ false = ground (arith, op) in
      let clean = cleanup-none e no_txn (omega (arith, le, above)) fits in
      (
        rw (recover_one, apply_one, no_compaction, clean) refl,
        ground (arith, no_compaction, le, above),
      )

  loop_same :
      (cur : ℕ) (q : Pending) (es : List Entry)
      → first ≤ cur
      → AreNext cur es
      → recover_loop p db q es ≡ apply_loop p db q es
  unfolding recover_loop apply_loop AreNext
  loop_same cur q [] le next = refl
  loop_same cur q (e ∷ es) le (next, nexts) =
      let (same, le') = one_same cur q e le next in
      rw (recover_loop, apply_loop, same)
        (rest (apply_one p db q e) (λ q'. loop_same (revision_after cur e) q' es le' nexts))
    where
      rest :
          (r : Result StoreError Pending)
          → ((q' : Pending) → recover_loop p db q' es ≡ apply_loop p db q' es)
          → Path
              (Pending × Option StoreError)
              (elim r [ err x ↦ (q, some x) | ok q' ↦ recover_loop p db q' es ])
              (elim r [ err x ↦ (q, some x) | ok q' ↦ apply_loop p db q' es ])
      rest (err x) h = refl
      rest (ok q') h = h q'

-- On a store that stands for a map, Recover of entries that may follow the store's revision, each a
-- write of one key whose record is read back as written or a compaction, does what Apply does: the
-- same store and the same error.
pub recover-apply :
    (p : Pebble) (s : Store p) (m : Current) (low : ℕ) (hist : History) (es : List Entry)
    → IsStored p s m low hist
    → AreNext s.current_rev es
    → recover p s es ≡ apply p s es
unfolding recover apply
recover-apply p s m low hist [] stored next = refl
recover-apply p s m low hist (e ∷ es) stored next = ap (finish p s) (
    loop_same p s.db s.current_rev stored.represents.log s.current_rev (start p s) (e ∷ es)
      (omega arith) next)
