-- ===== src/Store/Mvcc/Lowered.antt =====
-- A compaction below an earlier one, and the compact revision of the store.
use t.Prelude.{ℕ, ◌≤◌, ◌<◌, ◌≡◌, refl, false, true, none, [], ◌∷◌, ◌++◌, arith, ◌==◌}
use t.Prelude.Word.{sign_bit, lt64}
use t.Result.{ok, err}
use t.Wal.{Entry, sequence, op_compact}
use t.Store.Pebble.{Pebble, Lawful, Batch}
use t.Store.Apply.{
  Store, Pending, apply_compact, compacted, apply, apply_loop, apply_one, commit_batch, max64,
}
use t.Store.Read.{resolve_read_revision}
use t.Store.Mvcc.{Current}
use t.Store.Mvcc.Compaction.{apply_compact-total}
use t.Store.Mvcc.Past.{History}
use t.Store.Mvcc.Stored.{IsStored}

module _ (p : Pebble) (lawful : Lawful p) where
  compacted_pending : Pending → Entry → Batch → Pending
  compacted_pending q e b = record {
    batch = q.batch ++ b;
    max_rev = q.max_rev;
    max_seq = max64 q.max_seq (sequence e);
    compact_rev = e.prev_revision;
  }

  one_compaction :
      (db : p.Db) (q : Pending) (e : Entry) (b : Batch)
      → e.op ≡ op_compact
      → apply_compact p db q.compact_rev e.prev_revision ≡ ok b
      → apply_loop p db q (e ∷ []) ≡ (compacted_pending q e b, none)
  unfolding apply_loop apply_one compacted_pending
  one_compaction db q e b op done = rw (apply_loop, apply_one, op, done) refl

  apply_compaction :
      (s : Store p) (m : Current) (low : ℕ) (hist : History) (e : Entry)
      → IsStored p s m low hist
      → e.op ≡ op_compact
      → e.prev_revision < sign_bit
      → ((apply p s (e ∷ [])).0.compact_rev ≡ e.prev_revision)
        × ((apply p s (e ∷ [])).0.current_rev ≡ s.current_rev)
  unfolding apply commit_batch compacted_pending
  apply_compaction s m low hist e stored op fits =
      let (b, done, logs, index) =
        apply_compact-total p lawful s.db s.current_rev stored.fits stored.represents.log
          s.compact_rev e.prev_revision fits in
      rw (one_compaction s.db (start s) e b op done) (refl, ground (arith, stored.fits))
    where
      start : Store p → Pending
      start s = record { batch = []; max_rev = 0; max_seq = 0; compact_rev = s.compact_rev }

  resolves :
      (s : Store p) (revision : ℕ)
      → 0 < revision
      → s.compact_rev ≤ revision
      → revision ≤ s.current_rev
      → s.current_rev < sign_bit
      → resolve_read_revision p s revision ≡ ok revision
  unfolding resolve_read_revision
  resolves s revision positive kept known fits =
      let not_zero : (revision == 0) ≡ false = ground (arith, positive) in
      let in_reach : lt64 revision s.compact_rev ≡ false = ground (arith, kept, known, fits) in
      let not_future : lt64 s.current_rev revision ≡ false = ground (arith, known, fits) in
      rw (not_zero, in_reach, not_future) (ground arith)

  refused :
      (s : Store p) (revision : ℕ)
      → 0 < revision
      → revision < s.compact_rev
      → s.compact_rev < sign_bit
      → resolve_read_revision p s revision ≡ err compacted
  unfolding resolve_read_revision
  refused s revision positive below fits =
      let not_zero : (revision == 0) ≡ false = ground (arith, positive) in
      let is_compacted : lt64 0 s.compact_rev ≡ true = ground (arith, positive, below, fits) in
      let out_of_reach : lt64 revision s.compact_rev ≡ true = ground (arith, below, fits) in
      rw (not_zero, is_compacted, out_of_reach) refl

  -- On a store that stands for a map, a revision from 1 to the current one that is refused as
  -- compacted is accepted again after a compaction entry whose target is not above it.
  pub resolve_read_revision-lowered :
      (s : Store p) (m : Current) (low : ℕ) (hist : History) (e : Entry) (revision : ℕ)
      → IsStored p s m low hist
      → e.op ≡ op_compact
      → 0 < revision
      → e.prev_revision ≤ revision
      → revision < s.compact_rev
      → revision ≤ s.current_rev
      → (resolve_read_revision p s revision ≡ err compacted)
        × (resolve_read_revision p (apply p s (e ∷ [])).0 revision ≡ ok revision)
  resolve_read_revision-lowered s m low hist e revision stored op positive target below known =
      let (lowered, same) =
        apply_compaction s m low hist e stored op (omega (arith, target, known, stored.fits)) in
      (
        refused s revision positive below (omega (arith, stored.compacted, stored.low_fits)),
        resolves (apply p s (e ∷ [])).0 revision positive (omega (arith, lowered, target))
            (omega (arith, same, known)) (omega (arith, same, stored.fits)),
      )
