-- ===== src/Node/Commands.antt =====
-- The writes of writes.go as commands, and what a sequence of them does to the node before the
-- commit loop takes anything.
pub mod Step
pub mod Sequence
use t.Prelude.{ℕ, List, [], ◌∷◌, Bytes}
use t.Node.{Database, Node}
use t.Node.Writes.{put, create, update}
use t.Node.Deletes.{delete, delete_if_revision, compact}
use t.Node.Txn.{txn}
use t.Node.Txn.Forwarding.{TxnRequest}

pub data Command : Type 0 where
  put_key : Bytes → Bytes → ℕ → Command
  create_key : Bytes → Bytes → ℕ → Command
  update_key : Bytes → Bytes → ℕ → ℕ → Command
  delete_key : Bytes → Command
  delete_key_if : Bytes → ℕ → Command
  compact_to : ℕ → Command
  transact : TxnRequest → Command

module _ (b : Database) where
  open b use {Db}

  -- The state after the critical section of the call.
  unfoldable pub exec : Node Db → Command → Node Db
  exec n (put_key k v lease) = (put b n k v lease).1
  exec n (create_key k v lease) = (create b n k v lease).1
  exec n (update_key k v rev lease) = (update b n k v rev lease).1
  exec n (delete_key k) = (delete b n k).1
  exec n (delete_key_if k rev) = (delete_if_revision b n k rev).1
  exec n (compact_to rev) = (compact b n rev).1
  exec n (transact req) = (txn b n req).1

  unfoldable pub run : Node Db → List Command → Node Db
  unfolding exec
  run n [] = n
  run n (c ∷ cs) = run (exec n c) cs
