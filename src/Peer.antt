-- ===== src/Peer.antt =====
-- internal/peer/peer.go: the messages of a forwarded write. `TxnCondMsg` and `TxnOpMsg` carry the
-- uint8 enumerations as numbers. The stream of the log is below.
pub mod Stream
pub mod Server
pub mod Follower
pub mod Runs
use t.Prelude.{ℕ, Option, List, Bytes}

pub data ForwardOp : Type 0 where
  forward_put forward_create forward_update forward_delete_if_revision : ForwardOp
  forward_compact forward_get_revision forward_txn : ForwardOp

pub record TxnCondMsg : Type 0 where
  pub key : Bytes
  pub target : ℕ
  pub result : ℕ
  pub mod_revision : ℕ
  pub create_revision : ℕ
  pub version : ℕ
  pub value : Bytes
  pub lease : ℕ

pub record TxnOpMsg : Type 0 where
  pub type : ℕ
  pub key : Bytes
  pub value : Bytes
  pub lease : ℕ

pub record TxnReqMsg : Type 0 where
  pub conditions : List TxnCondMsg
  pub success : List TxnOpMsg
  pub failure : List TxnOpMsg

pub record ForwardRequest : Type 0 where
  pub op : ForwardOp
  pub key : Bytes
  pub value : Bytes
  pub revision : ℕ
  pub lease : ℕ
  pub txn_req : Option TxnReqMsg
