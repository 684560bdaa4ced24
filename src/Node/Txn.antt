-- ===== src/Node/Txn.antt =====
-- node.go and writes.go: transactions. The enumerations are uint8 values and may be out of range.
pub mod Conditions
pub mod Forwarding
pub mod Effects
use t.Prelude.{
  ℕ, zero, suc, ◌+◌, Bool, true, false, Option, none, some, List, [], ◌∷◌, ◌++◌, map, Bytes, length,
  ltb, not, ◌==◌, bytes_eq, if◌then◌else◌,
}
use t.Prelude.Word.{add64}
use t.Prelude.Dict.{Dict, insert}
use t.Result.{Result, ok, err, ◌>>=◌}
use t.Wal.{Entry, Op, op_create, op_update, op_delete, op_txn}
use t.Wal.TxnOps.{TxnSubOp, encode_txn_ops}
use t.Store.KeyValue.{KeyValue}
use t.Node.{
  Database, Node, NodeError, closed, too_many_ops, duplicate_key, PendingKv, Outcome, forward,
  return, await, is_follower, send, read_key, kv_version,
}
use t.Node.Writes.{zero_entry, empty_request}
use Conditions.{TxnCondition, txn_cond_matches}
use Forwarding.{TxnOp, TxnRequest, txn_put, txn_delete, txn_to_forward_request}

pub record TxnResponse : Type 0 where
  pub succeeded : Bool
  pub revision : ℕ
  pub deleted_keys : List Bytes

-- `resolvedOp`
pub record Resolved : Type 0 where
  pub wal_op : Op
  pub key : Bytes
  pub value : Bytes
  pub lease : ℕ
  pub create_revision : ℕ
  pub prev_revision : ℕ
  pub version : ℕ
  pub skip : Bool

abbrev skipped : Resolved
skipped = record {
  wal_op = 0;
  key = [];
  value = [];
  lease = 0;
  create_revision = 0;
  prev_revision = 0;
  version = 0;
  skip = true;
}

unfoldable pub resolve_put : TxnOp → Option KeyValue → Resolved
unfolding kv_version
resolve_put op none = record skipped {
  wal_op = op_create;
  key = op.key;
  value = op.value;
  lease = op.lease;
  version = 1;
  skip = false;
}
resolve_put op (some existing) = record {
  wal_op = op_update;
  key = op.key;
  value = op.value;
  lease = op.lease;
  create_revision = existing.create_revision;
  prev_revision = existing.revision;
  version = add64 (kv_version (some existing)) 1;
  skip = false;
}

unfoldable pub resolve_delete : TxnOp → Option KeyValue → Resolved
unfolding kv_version
resolve_delete op none = skipped
resolve_delete op (some existing) = record skipped {
  wal_op = op_delete;
  key = op.key;
  create_revision = existing.create_revision;
  prev_revision = existing.revision;
  version = kv_version (some existing);
  skip = false;
}

-- The switch on the type; an unknown type adds nothing.
unfoldable pub resolve_op : TxnOp → Option KeyValue → List Resolved
unfolding resolve_put resolve_delete
resolve_op op existing =
    if op.type == txn_put
    then resolve_put op existing ∷ []
    else if op.type == txn_delete
    then resolve_delete op existing ∷ []
    else []

unfoldable pub drop_skipped : List Resolved → List Resolved
drop_skipped [] = []
drop_skipped (r ∷ rs) = let rest = drop_skipped rs in if r.skip then rest else r ∷ rest

unfoldable pub contains : List Bytes → Bytes → Bool
contains [] k = false
contains (s ∷ seen) k = if bytes_eq s k then true else contains seen k

-- The first key that was seen before.
unfoldable pub find_duplicate : List Bytes → List Resolved → Option Bytes
unfolding contains
find_duplicate seen [] = none
find_duplicate seen (r ∷ rs) =
    let rest = find_duplicate (r.key ∷ seen) rs in if contains seen r.key then some r.key else rest

-- The creation revision that is known once the revision is.
abbrev pub create_rev_of : ℕ → Resolved → ℕ
create_rev_of new_rev r = if r.wal_op == op_create then new_rev else r.create_revision

unfoldable pub sub_op_of : ℕ → Resolved → TxnSubOp
sub_op_of new_rev r = record {
  op = r.wal_op;
  key = r.key;
  value = r.value;
  lease = r.lease;
  create_revision = create_rev_of new_rev r;
  prev_revision = r.prev_revision;
  version = r.version;
}

-- The value that is written, `none` for a delete.
unfoldable pub written : ℕ → Resolved → Option KeyValue
written new_rev r =
    if r.wal_op == op_delete
    then none
    else some (record {
      key = r.key;
      value = r.value;
      revision = new_rev;
      create_revision = create_rev_of new_rev r;
      prev_revision = r.prev_revision;
      version = r.version;
      lease = r.lease;
    })

abbrev pub is_none : Option KeyValue → Bool
is_none none = true
is_none (some kv) = false

-- What the last loop leaves in `n.pending`.
unfoldable pub stage : ℕ → List Resolved → Dict PendingKv → Dict PendingKv
unfolding written
stage new_rev [] pending = pending
stage new_rev (r ∷ rs) pending =
    let kv = written new_rev r in
    stage new_rev rs
      (insert r.key (record { rev = new_rev; deleted = is_none kv; kv = kv }) pending)

-- What it leaves in `deletedKeys`.
unfoldable pub deleted_keys_of : List Resolved → List Bytes
deleted_keys_of [] = []
deleted_keys_of (r ∷ rs) =
    let rest = deleted_keys_of rs in if r.wal_op == op_delete then r.key ∷ rest else rest

-- What prepareTxn returns without an error: the zero entry, or an entry and the new state.
pub data Plan (Db : Type 0) : Type 0 where
  no_write : Bool → Plan Db
  write : Entry → Bool → List Bytes → Node Db → Plan Db

-- The end of prepareTxn, for operations of which none repeats a key.
unfoldable pub commit_unique :
    {Db : Type 0} → Node Db → Bool → List Resolved → Option Bytes → Result NodeError (Plan Db)
unfolding sub_op_of stage deleted_keys_of
commit_unique n succeeded active (some key) = err (duplicate_key key)
commit_unique n succeeded active none =
    let new_rev = add64 n.next_rev 1 in
    let seq = add64 n.next_seq 1 in
    ok (
      write
        (record zero_entry {
          id = seq;
          revision = new_rev;
          term = n.term;
          op = op_txn;
          value = encode_txn_ops (map (sub_op_of new_rev) active);
        })
        succeeded (deleted_keys_of active)
        (record n { next_rev = new_rev; next_seq = seq; pending = stage new_rev active n.pending }))

-- prepareTxn, once the operations are resolved
unfoldable pub commit_active :
    {Db : Type 0} → Node Db → Bool → List Resolved → Result NodeError (Plan Db)
unfolding find_duplicate commit_unique
commit_active n succeeded [] = ok (no_write succeeded)
commit_active n succeeded (r ∷ rs) =
    if ltb 65535 (length (r ∷ rs))
    then err too_many_ops
    else commit_unique n succeeded (r ∷ rs) (find_duplicate [] (r ∷ rs))

module _ (b : Database) where
  open b use {Db, current_revision}

  -- The first condition that does not match ends the loop.
  unfoldable pub eval_conditions : Node Db → List TxnCondition → Result NodeError Bool
  unfolding txn_cond_matches
  eval_conditions n [] = ok true
  eval_conditions n (cond ∷ conds) =
      let rest = eval_conditions n conds in
      do existing ← read_key b n cond.key; if txn_cond_matches cond existing then rest else ok false

  unfoldable pub resolve_ops : Node Db → List TxnOp → Result NodeError (List Resolved)
  unfolding resolve_op
  resolve_ops n [] = ok []
  resolve_ops n (op ∷ ops) =
      let more = resolve_ops n ops in
      do existing ← read_key b n op.key; rest ← more; ok (resolve_op op existing ++ rest)

  unfoldable pub prepare_txn : Node Db → TxnRequest → Result NodeError (Plan Db)
  unfolding eval_conditions resolve_ops drop_skipped commit_active
  prepare_txn n req = do
    succeeded ← eval_conditions n req.conditions
    resolved ← resolve_ops n (if succeeded then req.success else req.failure)
    commit_active n succeeded (drop_skipped resolved)

  -- Txn, once the entry is prepared
  unfoldable pub txn_prepared : Node Db → Result NodeError (Plan Db) → Outcome TxnResponse × Node Db
  txn_prepared n (err e) = (return (err e), n)
  txn_prepared n (ok (no_write s)) = (
    return (ok (record { succeeded = s; revision = current_revision n.db; deleted_keys = [] })),
    n,
  )
  txn_prepared n (ok (write e s deleted n')) =
      (await e (record { succeeded = s; revision = e.revision; deleted_keys = deleted }), send e n')

  unfoldable pub txn : Node Db → TxnRequest → Outcome TxnResponse × Node Db
  unfolding prepare_txn txn_prepared
  txn n req =
      if n.is_closed
      then (return (err closed), n)
      else if is_follower n.role
      then (forward (txn_to_forward_request req), n)
      else if n.is_closed
      then (return (err closed), n)
      else txn_prepared n (prepare_txn n req)
