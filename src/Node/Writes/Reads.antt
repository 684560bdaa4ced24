-- ===== src/Node/Writes/Reads.antt =====
-- What a write leaves to be read.
use t.Prelude.{◌≡◌, none, Bytes, bytes_eq, if◌then◌else◌, arith}
use t.Prelude.Dict.{lookup-insert}
use t.Result.{ok}
use t.Node.{Database, Node, PendingKv, read_key}
use t.Node.Writes.{reserve}

module _ (b : Database) where
  open b use {Db}

  -- A write in flight is what is read of its key, and nothing of the other keys changes.
  pub read_key-reserve :
      (n : Node Db) (k j : Bytes) (p : PendingKv)
      → read_key b (reserve n k p) j
        ≡ (if bytes_eq k j then ok (if p.deleted then none else p.kv) else read_key b n j)
  unfolding read_key reserve
  read_key-reserve n k j p = rw (lookup-insert k j p n.pending) (ground arith)
