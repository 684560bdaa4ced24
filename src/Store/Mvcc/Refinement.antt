-- ===== src/Store/Mvcc/Refinement.antt =====
-- Apply and Get refine a map from keys to values: a batch of entries is the fold of the entries
-- over the map, and a lookup is its value.
use mathlib.Core.Path.{subst}
use t.Prelude.{
  ℕ, ◌<◌, ◌≡◌, refl, sym, ◌∙◌, inl, inr, Bool, true, false, Option, none, some, List, [], ◌∷◌, ◌++◌,
  Bytes, bytes_eq, if◌then◌else◌, arith, ◌==◌,
}
use t.Prelude.BigEndian.{put_be}
use t.Prelude.Word.{sign_bit, lt64}
use t.Result.{ok}
use t.Wal.{Entry}
use t.Store.Keys.{log_key, idx_key, encode_rev}
use t.Store.Record.{Record, marshal_record}
use t.Store.KeyValue.{KeyValue, record_to_kv}
use t.Store.Pebble.{Pebble, Lawful, set, effects, effects-append}
use t.Store.Apply.{Store, Pending, apply, commit_batch, meta_current_rev_key, meta_last_seq_key}
use t.Store.Read.{get, get_idx_rev, get_log_entry}
use t.Store.Mvcc.{
  Contents, Holds, NoneWithin, IsLog, IsLive, IsCurrent, Current, Represents, AreNext,
  revision_after_all, spec,
}
use t.Store.Mvcc.Keys.{decode_rev-encode_rev}
use t.Store.Mvcc.Search.{decode_record-marshal_record}
use t.Store.Mvcc.Deletions.{after}
use t.Store.Mvcc.Past.{History, Remembers, spec_past, low_after_all}
use t.Store.Mvcc.Stored.{IsStored}
use t.Store.Mvcc.Loop.{Reaches, apply_loop-total}

settled-Remembers :
    (old g h : Contents) (low : ℕ) (hist : History)
    → ((k : Bytes) → h (108 ∷ k) ≡ g (108 ∷ k))
    → Remembers old g low hist
    → Remembers h h low hist
unfolding Remembers NoneWithin log_key
settled-Remembers old g h low hist logs past key top from to = elim (past key top from to) [
  | inl (nothing, nothing_old, e) ↦ inl (nowhere 0 nothing, nowhere 0 nothing, e)
  | inr x ↦ inr (record {
    rev = x.rev;
    r = x.r;
    holds = record { at = logs (put_be 8 x.rev) ∙ x.holds.at; readable = x.holds.readable };
    key_eq = x.key_eq;
    positive = x.positive;
    bounded = x.bounded;
    newest = nowhere x.rev x.newest;
    newest_old = nowhere x.rev x.newest;
    value_eq = x.value_eq;
  })
]
  where
    nowhere : (from' : ℕ) → NoneWithin g key from' top → NoneWithin h key from' top
    nowhere from' nothing rev' s above le x =
        nothing rev' s above le
          (record { at = sym (logs (put_be 8 rev')) ∙ holds_at x; readable = x.readable })
      where
        holds_at : Holds h rev' s → h (108 ∷ put_be 8 rev') ≡ some (marshal_record s)
        holds_at x = x.at

-- The same log and the same index stand for the same map, as the contents before a batch as well.
module _ (old g h : Contents) (cur : ℕ) (m : Current) (rep : Represents old g cur m)
    (logs : (k : Bytes) → h (108 ∷ k) ≡ g (108 ∷ k))
    (index : (key : Bytes) → h (idx_key key) ≡ g (idx_key key)) where
  before : (rev' : ℕ) (s : Record) → Holds h rev' s → Holds g rev' s
  unfolding log_key
  before rev' s x = record { at = sym (logs (put_be 8 rev')) ∙ x.at; readable = x.readable }

  settled-IsCurrent :
      (key : Bytes) (o : Option KeyValue) → IsCurrent old g cur key o → IsCurrent h h cur key o
  unfolding IsCurrent NoneWithin log_key
  settled-IsCurrent key none e = index key ∙ e
  settled-IsCurrent key (some kv) live = record {
    rev = live.rev;
    r = live.r;
    index = index key ∙ live.index;
    holds = record {
      at = logs (put_be 8 live.rev) ∙ live.holds.at;
      readable = live.holds.readable;
    };
    key_eq = live.key_eq;
    positive = live.positive;
    bounded = live.bounded;
    newest = λ rev' s above le x. live.newest rev' s above le (before rev' s x);
    newest_old = λ rev' s above le x. live.newest rev' s above le (before rev' s x);
    kv_eq = live.kv_eq;
  }

  settled-Represents : Represents h h cur m
  unfolding IsLog
  settled-Represents = record {
    log = λ k v e. rep.log k v (sym (logs k) ∙ e);
    log_old = λ k v e. rep.log k v (sym (logs k) ∙ e);
    current = λ key. settled-IsCurrent key (m key) (rep.current key);
    kept = λ k v e. inl e;
  }

module _ (p : Pebble) (lawful : Lawful p) where
  -- The counters are kept apart from the log and the index.
  meta_keeps :
      (c d : Bool) (rev seq k : Bytes) (old : Option Bytes)
      → ((bytes_eq meta_current_rev_key k ≡ false) × (bytes_eq meta_last_seq_key k ≡ false))
      → effects
          ((if c then set meta_current_rev_key rev ∷ [] else [])
            ++ (if d then set meta_last_seq_key seq ∷ [] else []))
          k
          old
        ≡ old
  meta_keeps true true rev seq k old (e, f) = rw (e, f) refl
  meta_keeps true false rev seq k old (e, f) = rw e refl
  meta_keeps false true rev seq k old (e, f) = rw f refl
  meta_keeps false false rev seq k old h = refl

  commit_batch-get :
      (s : Store p) (q : Pending) (k : Bytes)
      → bytes_eq meta_current_rev_key k ≡ false
      → bytes_eq meta_last_seq_key k ≡ false
      → p.get (commit_batch p s q).db k ≡ after q.batch (p.get s.db) k
  unfolding commit_batch
  commit_batch-get s q k e f =
      lawful.get-commit _ s.db k
      ∙ effects-append q.batch _ k (p.get s.db k)
      ∙ meta_keeps (lt64 0 q.max_rev) (lt64 0 q.max_seq) (encode_rev q.max_rev)
          (encode_rev q.max_seq) k _ (e, f)

  commit_batch-IsStored :
      (s : Store p) (q : Pending) (cur : ℕ) (m : Current) (low : ℕ) (hist : History)
      (small : s.current_rev < sign_bit) (log : IsLog s.current_rev (p.get s.db))
      → Reaches p lawful s.db s.current_rev log small cur m low hist q
      → IsStored p (commit_batch p s q) m low hist × ((commit_batch p s q).current_rev ≡ cur)
  unfolding commit_batch idx_key bytes_eq
  commit_batch-IsStored s q cur m low hist small log reach =
      let at = commit_batch-get s q in
      let same : (commit_batch p s q).current_rev ≡ cur =
        ground (arith, reach.tracks, small, reach.fits) in
      let g = p.get (commit_batch p s q).db in
      let logs = λ (k : Bytes). at (108 ∷ k) refl refl in
      (
        record {
          represents =
              subst (λ c. Represents g g c m) (sym same)
                (settled-Represents (p.get s.db) (after q.batch (p.get s.db)) g cur m
                  reach.represents logs (λ key. at (idx_key key) refl refl));
          remembers =
              settled-Remembers (p.get s.db) (after q.batch (p.get s.db)) g low hist logs
                reach.remembers;
          fits = omega (arith, same, reach.fits);
          compacted = reach.compacted;
          low_fits = reach.low_fits;
        },
        same,
      )

  pub live_rev :
      (s : Store p) (key : Bytes) (kv : KeyValue)
      (live : IsLive (p.get s.db) (p.get s.db) s.current_rev key kv)
      → s.current_rev < sign_bit
      → (get_idx_rev p s.db key ≡ live.rev) × ((live.rev == 0) ≡ false)
  unfolding get_idx_rev
  live_rev s key kv live fits = (
    rw live.index (decode_rev-encode_rev live.rev (omega (arith, live.bounded, fits))),
    ground (arith, live.positive),
  )

  pub get_log_entry-Holds :
      (db : p.Db) (key : Bytes) (rev : ℕ) (r : Record)
      → Holds (p.get db) rev r
      → get_log_entry p db key rev ≡ ok (some (record_to_kv key rev r))
  unfolding get_log_entry
  get_log_entry-Holds db key rev r holds =
      rw (get_log_entry, holds.at, decode_record-marshal_record r holds.readable) refl

  -- Get on a store that stands for a map gives the value of the map.
  pub get-IsStored :
      (s : Store p) (m : Current) (low : ℕ) (hist : History) (key : Bytes)
      → IsStored p s m low hist
      → get p s key ≡ ok (m key)
  unfolding get IsCurrent
  get-IsStored s m low hist key stored = go (m key) (stored.represents.current key)
    where
      go :
          (o : Option KeyValue)
          → IsCurrent (p.get s.db) (p.get s.db) s.current_rev key o
          → get p s key ≡ ok o
      go none e = rw (get_idx_rev, e) refl
      go (some kv) live =
          let (rev, positive) = live_rev s key kv live stored.fits in
          rw (rev, positive)
            (get_log_entry-Holds s.db key live.rev live.r live.holds ∙ rw live.kv_eq refl)

  -- Apply of entries that may follow the store's revision, each a write of one key whose record is
  -- read back as written or a compaction, gives no error; a store that stands for a map and for the
  -- maps at the revisions from `low` on then stands for the folds of the entries over them, at the
  -- revision of the last write and from the highest compaction on.
  pub apply-IsStored :
      (s : Store p) (m : Current) (low : ℕ) (hist : History) (es : List Entry)
      → IsStored p s m low hist
      → AreNext s.current_rev es
      → ((apply p s es).1 ≡ none)
        × IsStored p (apply p s es).0 (spec es m) (low_after_all low es) (spec_past es hist)
        × ((apply p s es).0.current_rev ≡ revision_after_all s.current_rev es)
  unfolding apply spec spec_past low_after_all revision_after_all
  apply-IsStored s m low hist [] stored next = (refl, stored, refl)
  apply-IsStored s m low hist (e ∷ es) stored next =
      let log = stored.represents.log in
      let all = e ∷ es in
      let (q, done, reach) =
        apply_loop-total p lawful s.db s.current_rev log stored.fits s.current_rev m low hist start
          all next began in
      let (settled, rev) =
        commit_batch-IsStored s q (revision_after_all s.current_rev all) (spec all m)
          (low_after_all low all) (spec_past all hist) stored.fits log reach in
      rw done (refl, settled, rev)
    where
      start : Pending
      start = record { batch = []; max_rev = 0; max_seq = 0; compact_rev = s.compact_rev }

      began :
          Reaches p lawful s.db s.current_rev stored.represents.log stored.fits s.current_rev m low
            hist start
      began = record {
        represents = stored.represents;
        fits = stored.fits;
        tracks = inl (refl, refl);
        remembers = stored.remembers;
        compacted = stored.compacted;
        low_fits = stored.low_fits;
      }

  -- On a store that stands for a map, Apply of entries that may follow the store's revision, each a
  -- write of one key whose record is read back as written or a compaction, gives no error, and Get
  -- then gives for every key what the fold of the entries over the map has.
  pub get-apply :
      (s : Store p) (m : Current) (low : ℕ) (hist : History) (es : List Entry) (key : Bytes)
      → IsStored p s m low hist
      → AreNext s.current_rev es
      → ((apply p s es).1 ≡ none) × (get p (apply p s es).0 key ≡ ok (spec es m key))
  get-apply s m low hist es key stored next =
      let (done, stored', rev) = apply-IsStored s m low hist es stored next in
      (
        done,
        get-IsStored (apply p s es).0 (spec es m) (low_after_all low es) (spec_past es hist) key
            stored',
      )
