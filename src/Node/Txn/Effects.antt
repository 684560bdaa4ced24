-- ===== src/Node/Txn/Effects.antt =====
-- What a transaction leaves to be read, and what its entry carries.
use t.Prelude.{ℕ, ◌≡◌, Bool, Option, none, some, List, [], ◌∷◌, map, Bytes, bytes_eq, if◌then◌else◌}
use t.Prelude.Word.{add64}
use t.Prelude.Dict.{Dict}
use t.Result.{Result, ok}
use t.Wal.{Entry}
use t.Wal.TxnOps.{encode_txn_ops}
use t.Store.KeyValue.{KeyValue}
use t.Node.{Database, Node, NodeError, PendingKv, read_key}
use t.Node.Txn.{Resolved, Plan, write, written, sub_op_of, deleted_keys_of, is_none}

-- The operation of the key.
unfoldable pub find_write : List Resolved → Bytes → Option Resolved
find_write [] key = none
find_write (r ∷ rs) key = if bytes_eq r.key key then some r else find_write rs key

abbrev staged : ℕ → Resolved → PendingKv
staged rev r = record { rev = rev; deleted = is_none (written rev r); kv = written rev r }

-- What is pending for a key, by what the transaction writes to it.
abbrev after_write : ℕ → Option Resolved → Option PendingKv → Option PendingKv
after_write rev none p = p
after_write rev (some r) p = some (staged rev r)

-- What a key reads as, by what the transaction writes to it.
abbrev pub reads_after :
    ℕ → Option Resolved → Result NodeError (Option KeyValue) → Result NodeError (Option KeyValue)
reads_after rev none before = before
reads_after rev (some r) before = ok (written rev r)

abbrev found_as : Option KeyValue → Result NodeError (Option KeyValue)
found_as v = ok v

module _ (b : Database) where
  open b use {Db}

  -- The operations are all that the entry carries and all that the keys read.
  pub record Commits (n : Node Db) (active : List Resolved) (e : Entry) (deleted : List Bytes)
      (n' : Node Db) : Type 0 where
    pub revision : e.revision ≡ add64 n.next_rev 1
    pub logged : e.value ≡ encode_txn_ops (map (sub_op_of e.revision) active)
    pub deletes : deleted ≡ deleted_keys_of active
    pub reads :
        (key : Bytes)
        → read_key b n' key ≡ reads_after e.revision (find_write active key) (read_key b n key)

  abbrev PlanCommits : Node Db → List Resolved → Bool → Result NodeError (Plan Db) → Type 0
  PlanCommits n active s (ok (write e s' deleted n')) = (s ≡ s') × Commits n active e deleted n'
  PlanCommits n active s _ = Unit
