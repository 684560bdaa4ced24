-- ===== src/Store/Mvcc/Loop.antt =====
-- The loop of Apply comes through, and its batch stands for the fold of the entries over the map.
use mathlib.Core.Path.{subst}
use t.Prelude.{
  ℕ, ◌≤◌, ◌<◌, ◌≡◌, refl, sym, ◌⊎◌, inl, inr, true, false, none, List, [], ◌∷◌, ◌++◌, Bytes,
  if◌then◌else◌, arith, Bool-cases, leb, ltb, ◌==◌,
}
use t.Prelude.Word.{sign_bit}
use t.Result.{ok}
use t.Wal.{Entry, sequence, op_compact, op_txn, op_create, op_update, op_delete}
use t.Store.Keys.{log_key}
use t.Store.Pebble.{Pebble, Lawful, Batch, effects-append}
use t.Store.Apply.{Pending, max64, record_of, write_record, apply_entry, apply_one, apply_loop}
use t.Store.Mvcc.{
  Contents, IsLog, Current, Represents, IsNext, compaction, write, AreNext, revision_after,
  revision_after_all, spec_one, spec, IsReadable,
}
use t.Store.Mvcc.Compaction.{apply_compact-total}
use t.Store.Mvcc.Deletions.{after, deletes-Represents}
use t.Store.Mvcc.Past.{
  History, Remembers, spec_past_one, spec_past, low_after, low_after_all, deletes-Remembers,
  write_record-Remembers,
}
use t.Store.Mvcc.Writes.{written, write_record-Represents}

after-append : (b c : Batch) (g : Contents) → after (b ++ c) g ≡ after c (after b g)
after-append b c g i k = effects-append b c k (g k) i

-- What the loop knows of the newest revision
abbrev pub Tracks : ℕ → ℕ → ℕ → Type 0
Tracks first cur newest = ((newest ≡ 0) × (cur ≡ first)) ⊎ ((newest ≡ cur) × (first ≤ cur))

module _ (p : Pebble) (lawful : Lawful p) (db : p.Db) (first : ℕ) (log : IsLog first (p.get db))
    (small : first < sign_bit) where
  -- The loop of Apply has come to the revision and the map.
  pub record Reaches (cur : ℕ) (m : Current) (low : ℕ) (hist : History) (q : Pending) : Type 0 where
    pub represents : Represents (p.get db) (after q.batch (p.get db)) cur m
    pub fits : cur < sign_bit
    pub tracks : Tracks first cur q.max_rev
    pub remembers : Remembers (p.get db) (after q.batch (p.get db)) low hist
    pub compacted : q.compact_rev ≤ low
    pub low_fits : low < sign_bit

  Steps : ℕ → Current → ℕ → History → Pending → Entry → Type 0
  Steps cur m low hist q e =
      (q' : Pending) × (apply_one p db q e ≡ ok q')
      × Reaches (revision_after cur e) (spec_one e m) (low_after low e) (spec_past_one e hist) q'

  -- An equal batch and an equal map
  Represents-cong :
      {cur : ℕ} {g h : Contents} {m n : Current}
      → g ≡ h
      → n ≡ m
      → Represents (p.get db) h cur m
      → Represents (p.get db) g cur n
  Represents-cong {cur} {g} {h} {m} {n} e f rep =
      subst (λ x. Represents (p.get db) x cur n) (sym e)
        (subst (λ x. Represents (p.get db) h cur x) (sym f) rep)

  spec_compaction : (e : Entry) (m : Current) → e.op ≡ op_compact → spec_one e m ≡ m
  unfolding spec_one
  spec_compaction e m op =
      let at : (key : Bytes) → spec_one e m key ≡ m key = λ key. simp op refl in λ i key. at key i

  -- A write leaves the map that a record leaves.
  spec_write :
      (e : Entry) (m : Current)
      → (e.op == op_compact) ≡ false
      → spec_one e m ≡ written m e.revision (record_of e)
  unfolding spec_one record_of
  spec_write e m op =
      let at : (key : Bytes) → spec_one e m key ≡ written m e.revision (record_of e) key =
        λ key. simp op refl in
      λ i key. at key i

  Remembers-cong :
      (low : ℕ)
      → {g h : Contents} {m n : History} → g ≡ h
      → n ≡ m
      → Remembers (p.get db) h low m
      → Remembers (p.get db) g low n
  Remembers-cong low {g} {h} {m} {n} e f rep =
      subst (λ x. Remembers (p.get db) x low n) (sym e)
        (subst (λ x. Remembers (p.get db) h low x) (sym f) rep)

  past_compaction : (e : Entry) (hist : History) → e.op ≡ op_compact → spec_past_one e hist ≡ hist
  unfolding spec_past_one
  past_compaction e hist op =
      let at : (top : ℕ) (key : Bytes) → spec_past_one e hist top key ≡ hist top key =
        λ top key. simp op refl in
      λ i top key. at top key i

  past_write :
      (e : Entry) (hist : History)
      → (e.op == op_compact) ≡ false
      → spec_past_one e hist ≡ (λ top.
        if leb e.revision top then written (hist top) e.revision (record_of e) else hist top)
  unfolding spec_past_one record_of
  past_write e hist op i top key = at top key (Bool-cases (leb e.revision top)) i
    where
      at :
          (top : ℕ) (key : Bytes)
          → (leb e.revision top ≡ true) ⊎ (leb e.revision top ≡ false)
          → spec_past_one e hist top key
            ≡ (if leb e.revision top then written (hist top) e.revision (record_of e) else hist top)
                key
      at top key (inl c) = rw (op, c) refl
      at top key (inr c) = rw (op, c) refl

  compact_step :
      (cur : ℕ) (m : Current) (low : ℕ) (hist : History) (q : Pending) (e : Entry)
      → e.op ≡ op_compact
      → e.prev_revision < sign_bit
      → Reaches cur m low hist q
      → Steps cur m low hist q e
  unfolding Steps apply_one spec_one
  compact_step cur m low hist q e op fits reach =
      let (b, done, logs, index) =
        apply_compact-total p lawful db first small log q.compact_rev e.prev_revision fits in
      simp (op, done)
        (
          record {
            batch = q.batch ++ b;
            max_rev = q.max_rev;
            max_seq = max64 q.max_seq (sequence e);
            compact_rev = e.prev_revision;
          },
          refl,
          record {
            represents =
                Represents-cong (after-append q.batch b (p.get db)) (spec_compaction e m op) (
                  deletes-Represents (p.get db) (after q.batch (p.get db)) cur m reach.fits
                    reach.represents e.prev_revision b fits logs index);
            fits = reach.fits;
            tracks = reach.tracks;
            remembers =
                Remembers-cong (if ltb low e.prev_revision then e.prev_revision else low)
                  (after-append q.batch b (p.get db)) (past_compaction e hist op)
                  (deletes-Remembers (p.get db) (after q.batch (p.get db)) cur m reach.fits
                    reach.represents e.prev_revision b fits logs index low hist reach.remembers);
            compacted = ground arith;
            low_fits = ground (arith, fits, reach.low_fits);
          },
        )

  newest :
      {cur : ℕ} (rev max_rev : ℕ)
      → Tracks first cur max_rev
      → cur < rev
      → rev < sign_bit
      → (max64 max_rev rev ≡ rev) × (first ≤ rev)
  newest rev max_rev t above fits = (ground (arith, t), ground (arith, t))

  IsWrite : Entry → Type 0
  IsWrite e = (e.op ≡ op_create) ⊎ (e.op ≡ op_update) ⊎ (e.op ≡ op_delete)

  not_compaction :
      (e : Entry) → IsWrite e → ((e.op == op_compact) ≡ false) × ((e.op == op_txn) ≡ false)
  unfolding IsWrite
  not_compaction e w = ground (arith, w)

  write_step :
      (cur : ℕ) (m : Current) (low : ℕ) (hist : History) (q : Pending) (e : Entry)
      → IsWrite e
      → cur < e.revision
      → e.revision < sign_bit
      → IsReadable (record_of e)
      → Reaches cur m low hist q
      → Steps cur m low hist q e
  unfolding Steps apply_one apply_entry spec_one record_of
  write_step cur m low hist q e w above fits readable reach =
      let (no_compaction, no_txn) = not_compaction e w in
      let b = write_record (log_key e.revision) e.revision (record_of e) in
      simp (no_compaction, no_txn)
        (
          record {
            batch = q.batch ++ b;
            max_rev = max64 q.max_rev e.revision;
            max_seq = max64 q.max_seq (sequence e);
            compact_rev = q.compact_rev;
          },
          refl,
          record {
            represents =
                Represents-cong (after-append q.batch b (p.get db)) (spec_write e m no_compaction) (
                  write_record-Represents (p.get db) (after q.batch (p.get db)) cur m
                    reach.represents e.revision (record_of e) above fits readable);
            fits = fits;
            tracks = inr (newest e.revision q.max_rev reach.tracks above fits);
            remembers =
                Remembers-cong low (after-append q.batch b (p.get db))
                  (past_write e hist no_compaction)
                  (write_record-Remembers (p.get db) (after q.batch (p.get db)) cur m
                    reach.represents e.revision (record_of e) above fits readable low hist
                    reach.remembers);
            compacted = reach.compacted;
            low_fits = reach.low_fits;
          },
        )

  one_step :
      (cur : ℕ) (m : Current) (low : ℕ) (hist : History) (q : Pending) (e : Entry)
      → IsNext cur e
      → Reaches cur m low hist q
      → Steps cur m low hist q e
  unfolding IsWrite
  one_step cur m low hist q e (compaction op fits) reach =
      compact_step cur m low hist q e op fits reach
  one_step cur m low hist q e (write op above fits readable) reach =
      write_step cur m low hist q e op above fits readable reach

  pub apply_loop-total :
      (cur : ℕ) (m : Current) (low : ℕ) (hist : History) (q : Pending) (es : List Entry)
      → AreNext cur es
      → Reaches cur m low hist q
      → (q' : Pending) × (apply_loop p db q es ≡ (q', none))
        × Reaches
            (revision_after_all cur es)
            (spec es m)
            (low_after_all low es)
            (spec_past es hist)
            q'
  unfolding apply_loop spec spec_past low_after_all AreNext revision_after_all Steps
  apply_loop-total cur m low hist q [] next reach = (q, refl, reach)
  apply_loop-total cur m low hist q (e ∷ es) (next, nexts) reach =
      let (q', done, reach') = one_step cur m low hist q e next reach in
      rw (apply_loop, done)
        (apply_loop-total (revision_after cur e) (spec_one e m) (low_after low e)
          (spec_past_one e hist) q' es nexts reach')
