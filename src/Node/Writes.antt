-- ===== src/Node/Writes.antt =====
-- writes.go: Put, Create and Update. The critical section of each is one function; the
-- wait for the commit and its result are `await`.
pub mod Reads
pub mod Effects
use t.Prelude.{
  ℕ, ◌+◌, Bool, true, false, Option, none, some, [], ◌∷◌, Bytes, not, ◌&&◌, ◌==◌, bytes_eq,
  if◌then◌else◌,
}
use t.Prelude.Word.{add64}
use t.Prelude.Dict.{insert}
use t.Result.{Result, ok, err, ◌>>=◌}
use t.Wal.{Entry, Op, op_create, op_update, op_delete, op_compact}
use t.Store.KeyValue.{KeyValue}
use t.Peer.{
  ForwardRequest, forward_put, forward_create, forward_update, forward_delete_if_revision,
  forward_compact,
}
use t.Node.{
  Database, Node, NodeError, closed, key_exists, PendingKv, Outcome, forward, return, await,
  is_follower, send, read_key, kv_version, next_put_version,
}

-- `wal.Entry{}`
abbrev pub zero_entry : Entry
zero_entry = record {
  id = 0;
  revision = 0;
  term = 0;
  op = 0;
  key = [];
  value = [];
  lease = 0;
  create_revision = 0;
  prev_revision = 0;
  version = 0;
}

abbrev pub empty_request : ForwardRequest
empty_request = record {
  op = forward_put;
  key = [];
  value = [];
  revision = 0;
  lease = 0;
  txn_req = none;
}

-- The revision, the value before and whether the write was made.
abbrev pub Cas : Type 0
Cas = ℕ × Option KeyValue × Bool

-- The operation, the creation revision and the previous revision of a put.
abbrev put_meta : ℕ → Option KeyValue → Op × ℕ × ℕ
put_meta new_rev none = (op_create, new_rev, 0)
put_meta new_rev (some existing) = (op_update, existing.create_revision, existing.revision)

module _ {Db : Type 0} where
  -- The new counters, and the write in flight.
  unfoldable pub reserve : Node Db → Bytes → PendingKv → Node Db
  reserve n key p = record n {
    next_rev = add64 n.next_rev 1;
    next_seq = add64 n.next_seq 1;
    pending = insert key p n.pending;
  }

  -- The entry and the pending value that one write of `kv` makes.
  unfoldable pub put_kv : Node Db → Op → KeyValue → Entry × Node Db
  unfolding reserve
  put_kv n op kv = (
    record {
      id = add64 n.next_seq 1;
      revision = kv.revision;
      term = n.term;
      op = op;
      key = kv.key;
      value = kv.value;
      lease = kv.lease;
      create_revision = kv.create_revision;
      prev_revision = kv.prev_revision;
      version = kv.version;
    },
    reserve n kv.key (record { rev = kv.revision; deleted = false; kv = some kv }),
  )

  -- preparePut, once the key is read
  unfoldable pub put_entry : Node Db → Bytes → Bytes → ℕ → Option KeyValue → Entry × Node Db
  unfolding put_kv next_put_version
  put_entry n key value lease existing =
      let new_rev = add64 n.next_rev 1 in
      let (op, create_rev, prev_rev) = put_meta new_rev existing in
      put_kv n op (record {
        key = key;
        value = value;
        revision = new_rev;
        create_revision = create_rev;
        prev_revision = prev_rev;
        version = next_put_version existing;
        lease = lease;
      })

  -- prepareDelete, once the key is read
  unfoldable pub delete_entry : Node Db → Bytes → Option KeyValue → Entry × Node Db
  unfolding reserve kv_version
  delete_entry n key none = (zero_entry, n)
  delete_entry n key (some existing) =
      let new_rev = add64 n.next_rev 1 in
      (
        record zero_entry {
          id = add64 n.next_seq 1;
          revision = new_rev;
          term = n.term;
          op = op_delete;
          key = key;
          create_revision = existing.create_revision;
          prev_revision = existing.revision;
          version = kv_version (some existing);
        },
        reserve n key (record { rev = new_rev; deleted = true; kv = none }),
      )

module _ (b : Database) where
  open b use {Db, current_revision}

  unfoldable pub prepare_put : Node Db → Bytes → Bytes → ℕ → Result NodeError (Entry × Node Db)
  unfolding put_entry
  prepare_put n key value lease = do
    existing ← read_key b n key
    ok (put_entry n key value lease existing)

  unfoldable pub prepare_delete : Node Db → Bytes → Result NodeError (Entry × Node Db)
  unfolding delete_entry
  prepare_delete n key = do existing ← read_key b n key; ok (delete_entry n key existing)

  -- The entry is sent, and its revision returned when it is committed.
  abbrev pub send_put : Node Db → Result NodeError (Entry × Node Db) → Outcome ℕ × Node Db
  send_put n (err e) = (return (err e), n)
  send_put n (ok (e, n')) = (await e e.revision, send e n')

  unfoldable pub put : Node Db → Bytes → Bytes → ℕ → Outcome ℕ × Node Db
  unfolding prepare_put
  put n key value lease =
      if n.is_closed
      then (return (err closed), n)
      else if is_follower n.role
      then (forward (record empty_request { key = key; value = value; lease = lease }), n)
      else if n.is_closed
      then (return (err closed), n)
      else send_put n (prepare_put n key value lease)

  -- Create, once the key is read
  unfoldable pub create_read :
      Node Db → Bytes → Bytes → ℕ → Result NodeError (Option KeyValue) → Outcome ℕ × Node Db
  unfolding put_kv
  create_read n key value lease (err e) = (return (err e), n)
  create_read n key value lease (ok (some existing)) = (return (err key_exists), n)
  create_read n key value lease (ok none) =
      let new_rev = add64 n.next_rev 1 in
      let (e, n') = put_kv n op_create (record {
        key = key;
        value = value;
        revision = new_rev;
        create_revision = new_rev;
        prev_revision = 0;
        version = 1;
        lease = lease;
      }) in
      (await e new_rev, send e n')

  unfoldable pub create : Node Db → Bytes → Bytes → ℕ → Outcome ℕ × Node Db
  unfolding create_read
  create n key value lease =
      if is_follower n.role
      then (
        forward
            (record empty_request { op = forward_create; key = key; value = value; lease = lease }),
        n,
      )
      else if n.is_closed
      then (return (err closed), n)
      else create_read n key value lease (read_key b n key)

  unfoldable pub update_kv : Node Db → Bytes → Bytes → ℕ → KeyValue → Outcome Cas × Node Db
  unfolding put_kv kv_version
  update_kv n key value lease existing =
      let new_rev = add64 n.next_rev 1 in
      let (e, n') = put_kv n op_update (record {
        key = key;
        value = value;
        revision = new_rev;
        create_revision = existing.create_revision;
        prev_revision = existing.revision;
        version = add64 (kv_version (some existing)) 1;
        lease = lease;
      }) in
      (await e (new_rev, some existing, true), send e n')

  -- Update, once the key is read
  unfoldable pub update_read :
      Node Db → Bytes → Bytes → ℕ → ℕ → Result NodeError (Option KeyValue) → Outcome Cas × Node Db
  unfolding update_kv
  update_read n key value revision lease (err e) = (return (err e), n)
  update_read n key value revision lease (ok none) =
      (return (ok (current_revision n.db, none, false)), n)
  update_read n key value revision lease (ok (some existing)) =
      if existing.revision == revision
      then update_kv n key value lease existing
      else (return (ok (current_revision n.db, some existing, false)), n)

  unfoldable pub update : Node Db → Bytes → Bytes → ℕ → ℕ → Outcome Cas × Node Db
  unfolding update_read
  update n key value revision lease =
      if is_follower n.role
      then (
        forward (record empty_request {
          op = forward_update;
          key = key;
          value = value;
          revision = revision;
          lease = lease;
        }),
        n,
      )
      else if n.is_closed
      then (return (err closed), n)
      else update_read n key value revision lease (read_key b n key)
