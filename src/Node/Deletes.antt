-- ===== src/Node/Deletes.antt =====
-- writes.go: Delete, DeleteIfRevision and Compact.
pub mod EmptyKey
use t.Prelude.{
  ℕ, true, false, Option, none, some, [], Bytes, not, ◌&&◌, ◌==◌, bytes_eq, if◌then◌else◌,
}
use t.Prelude.Word.{add64}
use t.Result.{Result, ok, err}
use t.Wal.{Entry, op_compact}
use t.Store.KeyValue.{KeyValue}
use t.Peer.{forward_delete_if_revision, forward_compact}
use t.Node.{
  Database, Node, NodeError, closed, Outcome, forward, return, await, is_follower, send, read_key,
}
use t.Node.Writes.{zero_entry, empty_request, prepare_delete, Cas}

-- The entry takes a sequence and no revision; `prev_revision` carries the target.
unfoldable pub compact_entry : {Db : Type 0} → Node Db → ℕ → Entry
compact_entry n revision = record zero_entry {
  id = add64 n.next_seq 1;
  revision = n.next_rev;
  term = n.term;
  op = op_compact;
  prev_revision = revision;
}

module _ (b : Database) where
  open b use {Db, current_revision}

  -- `e.Key == ""` stands for a key that was not found. The state is that of prepareDelete.
  unfoldable pub delete_prepared :
      Node Db → Result NodeError (Entry × Node Db) → Outcome ℕ × Node Db
  delete_prepared n (err e) = (return (err e), n)
  delete_prepared n (ok (e, n')) =
      if bytes_eq e.key [] then (return (ok 0), n') else (await e e.revision, send e n')

  unfoldable pub delete : Node Db → Bytes → Outcome ℕ × Node Db
  unfolding delete_prepared
  delete n key =
      if is_follower n.role
      then (forward (record empty_request { op = forward_delete_if_revision; key = key }), n)
      else if n.is_closed
      then (return (err closed), n)
      else delete_prepared n (prepare_delete b n key)

  unfoldable pub delete_kv :
      Node Db → KeyValue → Result NodeError (Entry × Node Db) → Outcome Cas × Node Db
  delete_kv n existing (err e) = (return (err e), n)
  delete_kv n existing (ok (e, n')) =
      if bytes_eq e.key []
      then (return (ok (0, none, false)), n')
      else (await e (e.revision, some existing, true), send e n')

  -- DeleteIfRevision, once the key is read
  unfoldable pub delete_read :
      Node Db → Bytes → ℕ → Result NodeError (Option KeyValue) → Outcome Cas × Node Db
  unfolding delete_kv
  delete_read n key revision (err e) = (return (err e), n)
  delete_read n key revision (ok none) = (return (ok (current_revision n.db, none, false)), n)
  delete_read n key revision (ok (some existing)) =
      if not (revision == 0) && not (existing.revision == revision)
      then (return (ok (current_revision n.db, some existing, false)), n)
      else delete_kv n existing (prepare_delete b n key)

  unfoldable pub delete_if_revision : Node Db → Bytes → ℕ → Outcome Cas × Node Db
  unfolding delete_read
  delete_if_revision n key revision =
      if is_follower n.role
      then (
        forward (record empty_request {
          op = forward_delete_if_revision;
          key = key;
          revision = revision;
        }),
        n,
      )
      else if n.is_closed
      then (return (err closed), n)
      else delete_read n key revision (read_key b n key)

  unfoldable pub compact : Node Db → ℕ → Outcome (Unit {0}) × Node Db
  unfolding compact_entry
  compact n revision =
      let e = compact_entry n revision in
      if is_follower n.role
      then (forward (record empty_request { op = forward_compact; revision = revision }), n)
      else if n.is_closed
      then (return (err closed), n)
      else (await e tt, send e (record n { next_seq = add64 n.next_seq 1 }))
