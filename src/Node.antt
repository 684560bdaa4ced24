-- ===== src/Node.antt =====
-- node.go and writes.go: the state of the write path, and the reads that it makes. A write holds
-- the mutex from its checks until the entry is sent to the commit loop, so each one is a function
-- from the state before to the state after. Numbers are the bit patterns of int64 values.
pub mod Writes
pub mod Deletes
pub mod Txn
pub mod Commands
pub mod Commit
use t.Prelude.{
  ℕ, zero, suc, ◌+◌, ◌%◌, Bool, true, false, Option, none, some, List, [], ◌∷◌, ◌++◌, Bytes, ◌==◌,
  if◌then◌else◌, bytes_eq,
}
use t.Prelude.Word.{add64, lt64}
use t.Prelude.Dict.{Dict, lookup}
use t.Result.{Result, ok, err}
use t.Wal.{Entry}
use t.Store.KeyValue.{KeyValue}
use t.Peer.{ForwardRequest}

pub data Role : Type 0 where
  single leader follower : Role

-- The errors of the write path; `read_failed` is an error of the database.
pub data NodeError : Type 0 where
  closed key_exists read_failed too_many_ops : NodeError
  duplicate_key : Bytes → NodeError

-- What the write path calls of the database that it holds.
pub record Database : Type 1 where
  pub Db : Type 0
  pub get : Db → Bytes → Result NodeError (Option KeyValue)
  pub current_revision : Db → ℕ

-- `kv` is set unless `deleted` is.
pub record PendingKv : Type 0 where
  pub rev : ℕ
  pub deleted : Bool
  pub kv : Option KeyValue

-- The fields that the write path reads and writes; `write_c` is what was sent to the commit loop
-- and not yet taken, oldest first.
pub record Node (Db : Type 0) : Type 0 where
  pub is_closed : Bool
  pub role : Role
  pub term : ℕ
  pub next_rev : ℕ
  pub next_seq : ℕ
  pub pending : Dict PendingKv
  pub write_c : List Entry
  pub db : Db

-- How a call leaves the critical section: with a request for the leader, with a result, or with
-- an entry for the commit loop and the result to return once that is committed.
pub data Outcome (A : Type 0) : Type 0 where
  forward : ForwardRequest → Outcome A
  return : Result NodeError A → Outcome A
  await : Entry → A → Outcome A

abbrev pub is_follower : Role → Bool
is_follower follower = true
is_follower _ = false

-- `n.writeC <- req`
abbrev pub send : {Db : Type 0} → Entry → Node Db → Node Db
send e n = record n { write_c = n.write_c ++ e ∷ [] }

-- A write in flight hides the database.
unfoldable pub pending_or :
    Option PendingKv → Result NodeError (Option KeyValue) → Result NodeError (Option KeyValue)
pending_or none r = r
pending_or (some p) r = ok (if p.deleted then none else p.kv)

module _ (b : Database) where
  open b use {Db, get}

  unfoldable pub read_key : Node Db → Bytes → Result NodeError (Option KeyValue)
  unfolding pending_or
  read_key n key = pending_or (lookup key n.pending) (get n.db key)

unfoldable pub kv_version : Option KeyValue → ℕ
kv_version none = 0
kv_version (some kv) = if lt64 0 kv.version then kv.version else 1

unfoldable pub next_put_version : Option KeyValue → ℕ
unfolding kv_version
next_put_version none = 1
next_put_version (some kv) = add64 (kv_version (some kv)) 1
