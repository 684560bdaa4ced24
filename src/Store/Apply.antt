-- ===== src/Store/Apply.antt =====
-- The write path of internal/store/store.go: Apply and what it calls. A revision is the bit
-- pattern of its int64; logKey(rev + 1) wraps as put_be cuts its number. Pebble's own errors are
-- left out, an error of a record or of a transaction is a value. On an error the batch is dropped,
-- but the compact revision that applyCompact has already stored stays.
use t.Prelude.{
  ℕ, ◌+◌, ◌%◌, ◌^◌, Bool, true, false, Option, none, some, List, [], ◌∷◌, ◌++◌, Bytes, ascii,
  bytes_eq, ◌==◌, if◌then◌else◌,
}
use t.Prelude.Word.{lt64, le64}
use t.Result.{Result, ok, err, ◌>>=◌}
use t.Wal.{Entry, sequence, op_create, op_delete, op_compact, op_txn}
use t.Wal.Errors.{WalError}
use t.Wal.TxnOps.{TxnSubOp, decode_txn_ops}
use t.Store.Keys.{log_key, log_key_with_sub, idx_key, encode_rev, decode_log_key}
use t.Store.Record.{Record, RecordError, marshal_record, unmarshal_record, entry_version}
use t.Store.Pebble.{Pebble, Batch, set, delete}

abbrev pub meta_compact_key : Bytes
meta_compact_key = ascii "mcompact"

abbrev pub meta_current_rev_key : Bytes
meta_current_rev_key = ascii "mrev"

abbrev pub meta_last_seq_key : Bytes
meta_last_seq_key = ascii "mseq"

pub data StoreError : Type 0 where
  compacted future_revision empty_history_key bad_from_revision bad_to_revision : StoreError
  bad_record : RecordError → StoreError
  bad_txn : WalError → StoreError
  -- key, revision
  not_in_txn : Bytes → ℕ → StoreError

abbrev pub decode_record : Bytes → Result StoreError Record
decode_record v = elim (unmarshal_record v) [ err e ↦ err (bad_record e) | ok r ↦ ok r ]

unfoldable pub record_of : Entry → Record
unfolding entry_version
record_of e = record {
  key = e.key;
  value = e.value;
  create_revision = e.create_revision;
  prev_revision = e.prev_revision;
  version = entry_version e.version;
  lease = e.lease;
  create = e.op == op_create;
  delete = e.op == op_delete;
}

unfoldable pub record_of_sub_op : TxnSubOp → Record
unfolding entry_version
record_of_sub_op o = record {
  key = o.key;
  value = o.value;
  create_revision = o.create_revision;
  prev_revision = o.prev_revision;
  version = entry_version o.version;
  lease = o.lease;
  create = o.op == op_create;
  delete = o.op == op_delete;
}

-- The two writes of a record: the log under `lk`, and the index.
abbrev pub write_record : Bytes → ℕ → Record → Batch
write_record lk rev r =
    set lk (marshal_record r)
    ∷ (if r.delete then delete (idx_key r.key) else set (idx_key r.key) (encode_rev rev))
    ∷ []

-- The loop over the operations from the i-th on; `i` is converted to a uint16.
unfoldable pub write_sub_ops : ℕ → ℕ → List TxnSubOp → Batch
unfolding record_of_sub_op
write_sub_ops rev i [] = []
write_sub_ops rev i (o ∷ ops) =
    write_record (log_key_with_sub rev (i % 2 ^ 16)) rev (record_of_sub_op o)
    ++ write_sub_ops rev (i + 1) ops

-- What applyTxnEntry adds to the batch
unfoldable pub apply_txn_entry : Entry → Result StoreError Batch
unfolding write_sub_ops
apply_txn_entry e = elim (decode_txn_ops e.value) [
  | err x ↦ err (bad_txn x)
  | ok ops ↦ ok (write_sub_ops e.revision 0 ops)
]

-- What applyEntry adds to the batch
unfoldable pub apply_entry : Entry → Result StoreError Batch
unfolding apply_txn_entry record_of
apply_entry e =
    if e.op == op_txn
    then apply_txn_entry e
    else ok (write_record (log_key e.revision) e.revision (record_of e))

-- The loop of hasLaterRevisionAtOrBefore over what the iterator visits
unfoldable pub any_of_key : Bytes → List (Bytes × Bytes) → Result StoreError Bool
any_of_key key [] = ok false
any_of_key key ((k, v) ∷ kvs) =
    let rest = any_of_key key kvs in
    decode_record v >>= λ r. if bytes_eq r.key key then ok true else rest

pub record Store (p : Pebble) : Type 0 where
  pub db : p.Db
  pub current_rev : ℕ
  pub compact_rev : ℕ
  pub last_seq : ℕ

-- The variables of the loop of Apply, and the field of the store that it changes
pub record Pending : Type 0 where
  pub batch : Batch
  pub max_rev : ℕ
  pub max_seq : ℕ
  pub compact_rev : ℕ

abbrev pub max64 : ℕ → ℕ → ℕ
max64 m x = if lt64 m x then x else m

module _ (p : Pebble) where
  unfoldable pub has_later_revision_at_or_before : p.Db → Bytes → ℕ → ℕ → Result StoreError Bool
  unfolding any_of_key
  has_later_revision_at_or_before db key after_rev before_or_equal_rev =
      if le64 before_or_equal_rev after_rev
      then ok false
      else any_of_key key (p.iter db (log_key (after_rev + 1), log_key (before_or_equal_rev + 1)))

  -- The loop of applyCompact over what the iterator visits
  unfoldable pub delete_superseded : p.Db → ℕ → List (Bytes × Bytes) → Result StoreError Batch
  unfolding has_later_revision_at_or_before decode_log_key
  delete_superseded db compact_rev [] = ok []
  delete_superseded db compact_rev ((k, v) ∷ kvs) =
      let rest = delete_superseded db compact_rev kvs in
      decode_record v >>= λ r.
      has_later_revision_at_or_before db r.key (decode_log_key k) compact_rev >>= λ later.
      rest >>= λ b. ok (if later then delete k ∷ b else b)

  -- What applyCompact adds to the batch, from the compact revision before
  unfoldable pub apply_compact : p.Db → ℕ → ℕ → Result StoreError Batch
  unfolding delete_superseded
  apply_compact db old compact_rev =
      delete_superseded db compact_rev (p.iter db (log_key old, log_key compact_rev)) >>= λ b.
      ok (set meta_compact_key (encode_rev compact_rev) ∷ b)

  -- One round of the loop of Apply
  unfoldable pub apply_one : p.Db → Pending → Entry → Result StoreError Pending
  unfolding apply_compact apply_entry sequence
  apply_one db q e =
      let max_seq = max64 q.max_seq (sequence e) in
      if e.op == op_compact
      then (apply_compact db q.compact_rev e.prev_revision >>= λ b. ok record {
        batch = q.batch ++ b;
        max_rev = q.max_rev;
        max_seq = max_seq;
        compact_rev = e.prev_revision;
      })
      else apply_entry e >>= λ b. ok record {
        batch = q.batch ++ b;
        max_rev = max64 q.max_rev e.revision;
        max_seq = max_seq;
        compact_rev = q.compact_rev;
      }

  -- The loop of Apply: where it ends, and the error that ends it
  unfoldable pub apply_loop : p.Db → Pending → List Entry → Pending × Option StoreError
  unfolding apply_one
  apply_loop db q [] = (q, none)
  apply_loop db q (e ∷ es) = elim (apply_one db q e) [
    | err x ↦ (q, some x)
    | ok q' ↦ apply_loop db q' es
  ]

  unfoldable pub commit_batch : Store p → Pending → Store p
  commit_batch s q =
      let rev_op =
        if lt64 0 q.max_rev then set meta_current_rev_key (encode_rev q.max_rev) ∷ [] else [] in
      let seq_op =
        if lt64 0 q.max_seq then set meta_last_seq_key (encode_rev q.max_seq) ∷ [] else [] in
      record {
        db = p.commit (q.batch ++ (rev_op ++ seq_op)) s.db;
        current_rev = max64 s.current_rev q.max_rev;
        compact_rev = q.compact_rev;
        last_seq = max64 s.last_seq q.max_seq;
      }

  abbrev pub start : Store p → Pending
  start s = record { batch = []; max_rev = 0; max_seq = 0; compact_rev = s.compact_rev }

  abbrev pub finish : Store p → Pending × Option StoreError → Store p × Option StoreError
  finish s (q, some x) = (record s { compact_rev = q.compact_rev }, some x)
  finish s (q, none) = (commit_batch s q, none)

  unfoldable pub apply : Store p → List Entry → Store p × Option StoreError
  unfolding apply_loop commit_batch
  apply s [] = (s, none)
  apply s (e ∷ es) = finish s (apply_loop s.db (start s) (e ∷ es))
