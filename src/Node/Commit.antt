-- ===== src/Node/Commit.antt =====
-- leader.go and writes.go: one round of the commit loop, and the pending values that it clears.
-- `apply` is Apply of the store, none for an error.
pub mod Clearing
pub mod Holes
use t.Prelude.{
  ℕ, Bool, true, false, Option, none, some, List, [], ◌∷◌, ◌++◌, Bytes, ◌==◌, bytes_eq,
  if◌then◌else◌,
}
use t.Prelude.Dict.{Dict, lookup, remove}
use t.Result.{Result, ok, err}
use t.Wal.{Entry, op_txn}
use t.Wal.Errors.{WalError}
use t.Wal.TxnOps.{TxnSubOp, decode_txn_ops}
use t.Node.{Node, PendingKv}

-- `if p, ok := n.pending[key]; ok && p.rev == rev`
abbrev pub clear_found : Bytes → ℕ → Dict PendingKv → Option PendingKv → Dict PendingKv
clear_found key rev m none = m
clear_found key rev m (some p) = if p.rev == rev then remove key m else m

unfoldable pub clear_key : Bytes → ℕ → Dict PendingKv → Dict PendingKv
clear_key key rev m = clear_found key rev m (lookup key m)

unfoldable pub clear_ops : List TxnSubOp → ℕ → Dict PendingKv → Dict PendingKv
unfolding clear_key
clear_ops [] rev m = m
clear_ops (op ∷ ops) rev m = clear_ops ops rev (clear_key op.key rev m)

-- The operations that were decoded; with an error nothing is cleared.
abbrev pub decoded_ops : Result WalError (List TxnSubOp) → List TxnSubOp
decoded_ops (ok ops) = ops
decoded_ops (err e) = []

unfoldable pub clear_entry : Entry → Dict PendingKv → Dict PendingKv
unfolding clear_ops
clear_entry e m =
    if e.op == op_txn
    then clear_ops (decoded_ops (decode_txn_ops e.value)) e.revision m
    else if bytes_eq e.key []
    then m
    else clear_key e.key e.revision m

-- clearPendingBatch
unfoldable pub clear_pending_batch : List Entry → Dict PendingKv → Dict PendingKv
unfolding clear_entry
clear_pending_batch [] m = m
clear_pending_batch (e ∷ es) m = clear_pending_batch es (clear_entry e m)

-- How the log and the followers took a batch: it is in the log and acknowledged; a caller gave up
-- before it was appended; the append failed, with what the log is then; or it is in the log and
-- the wait for the followers ended with the context of the loop, its only error.
pub data BatchEnd : Type 0 where
  logged abandoned not_acked : BatchEnd
  not_logged : List Entry → BatchEnd

-- The node and the log.
pub record Leader (Db : Type 0) : Type 0 where
  pub node : Node Db
  pub log : List Entry

module _ {Db : Type 0} (apply : Db → List Entry → Option Db) where
  -- The batch taken and its pending values cleared.
  abbrev pub taken : Node Db → Node Db
  taken n = record n { write_c = []; pending = clear_pending_batch n.write_c n.pending }

  -- After an error of the log or of the store no write is accepted any more.
  abbrev fatal : Node Db → Node Db
  fatal n = record n { is_closed = true }

  abbrev applied : Node Db → Option Db → Node Db
  applied n none = fatal n
  applied n (some db) = record n { db = db }

  -- One round, over everything that was sent. A cancelled context is no fatal error: the loop goes
  -- on, after `not_acked` to find its own context done.
  unfoldable pub commit_batch : Leader Db → BatchEnd → Leader Db
  unfolding clear_pending_batch
  commit_batch l logged = record {
    node = applied (taken l.node) (apply l.node.db l.node.write_c);
    log = l.log ++ l.node.write_c;
  }
  commit_batch l abandoned = record l { node = taken l.node }
  commit_batch l not_acked = record { node = taken l.node; log = l.log ++ l.node.write_c }
  commit_batch l (not_logged log) = record { node = fatal (taken l.node); log = log }
