-- ===== src/Store/Recover.antt =====
-- internal/store/store.go: Recover, the replay of the log before the node serves, and loadMeta, the
-- counters of a store that is opened.
use t.Prelude.{
  ℕ, ◌+◌, Option, none, some, List, [], ◌∷◌, ◌++◌, Bytes, bytes_eq, ◌==◌, if◌then◌else◌,
}
use t.Result.{Result, ok, err, ◌>>=◌}
use t.Wal.{Entry, sequence, op_compact, op_txn}
use t.Store.Keys.{log_key, idx_key, decode_rev, decode_log_key}
use t.Store.Record.{Record, unmarshal_record}
use t.Store.Pebble.{Pebble, Batch, delete}
use t.Store.Apply.{
  start, finish, Store, StoreError, Pending, max64, apply_entry, apply_compact, meta_compact_key,
  meta_current_rev_key, meta_last_seq_key,
}
use t.Store.Read.{log_lower, log_upper, backwards}

-- The record of an earlier term that was at a revision: its pointer in the index goes.
abbrev unless_delete : Record → Batch
unless_delete r = if r.delete then [] else delete (idx_key r.key) ∷ []

-- The loop of the cleanup before a transaction
unfoldable pub purge : List (Bytes × Bytes) → Batch
purge [] = []
purge ((k, v) ∷ kvs) =
    let rest = delete k ∷ purge kvs in
    elim (unmarshal_record v) [ err e ↦ rest | ok r ↦ unless_delete r ++ rest ]

-- The cleanup before a single entry
unfoldable pub purge_one : Bytes → Option Bytes → Batch
purge_one key none = []
purge_one key (some v) = elim (unmarshal_record v) [
  | err e ↦ []
  | ok r ↦ if bytes_eq r.key key then [] else unless_delete r
]

abbrev rev_or : ℕ → Option Bytes → ℕ
rev_or n none = n
rev_or n (some v) = decode_rev v

-- The revision of the last record of the log
abbrev last_rev : List (Bytes × Bytes) → ℕ
last_rev [] = 0
last_rev ((k, v) ∷ kvs) = decode_log_key k

abbrev current_or_last : List (Bytes × Bytes) → Option Bytes → ℕ
current_or_last kvs none = last_rev kvs
current_or_last kvs (some v) = decode_rev v

module _ (p : Pebble) where
  unfoldable pub cleanup : p.Db → Entry → Batch
  unfolding purge purge_one
  cleanup db e =
      if e.op == op_txn
      then purge (p.iter db (log_key e.revision, log_key (e.revision + 1)))
      else purge_one e.key (p.get db (log_key e.revision))

  unfoldable pub recover_one : p.Db → Pending → Entry → Result StoreError Pending
  unfolding apply_compact apply_entry cleanup sequence
  recover_one db q e =
      let max_seq = max64 q.max_seq (sequence e) in
      if e.op == op_compact
      then (apply_compact p db q.compact_rev e.prev_revision >>= λ b. ok record {
        batch = q.batch ++ b;
        max_rev = q.max_rev;
        max_seq = max_seq;
        compact_rev = e.prev_revision;
      })
      else apply_entry e >>= λ b. ok record {
        batch = q.batch ++ (cleanup db e ++ b);
        max_rev = max64 q.max_rev e.revision;
        max_seq = max_seq;
        compact_rev = q.compact_rev;
      }

  unfoldable pub recover_loop : p.Db → Pending → List Entry → Pending × Option StoreError
  unfolding recover_one
  recover_loop db q [] = (q, none)
  recover_loop db q (e ∷ es) = elim (recover_one db q e) [
    | err x ↦ (q, some x)
    | ok q' ↦ recover_loop db q' es
  ]

  -- As Apply does, but durably and without waking the watchers
  unfoldable pub recover : Store p → List Entry → Store p × Option StoreError
  unfolding recover_loop
  recover s [] = (s, none)
  recover s (e ∷ es) = finish p s (recover_loop s.db (start p s) (e ∷ es))

  -- The counters of a store on `db` that were all 0
  unfoldable pub load_meta : p.Db → Store p
  unfolding decode_rev decode_log_key backwards
  load_meta db =
      let current =
        current_or_last (backwards (p.iter db (log_lower, log_upper)))
          (p.get db meta_current_rev_key) in
      record {
        db = db;
        current_rev = current;
        compact_rev = rev_or 0 (p.get db meta_compact_key);
        last_seq = max64 (rev_or 0 (p.get db meta_last_seq_key)) current;
      }
