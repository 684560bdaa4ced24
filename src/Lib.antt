-- ===== src/Lib.antt =====
-- T4, a key-value store with the etcd API that keeps its log and its checkpoints in an object
-- store: a model of its core and what is proved of it.
--
-- A write is checked and numbered by the node (writes.go), becomes an entry of the write-ahead log
-- (internal/wal), is appended to a segment, and is applied to the store (internal/store) as a
-- record under a key of the log and a key of the index. A follower sends its writes to the leader
-- (internal/peer). Segments are uploaded, collected behind a checkpoint (internal/wal/gc.go) and
-- replayed by a node that starts (wal_replay.go). The etcd API is guarded by users, roles and
-- permissions (etcd/auth).
--
-- Files and the code that they model:
--   Wal: the entry of internal/wal/entry.go; Wal/EntryCodec: marshalEntry, unmarshalEntryVersion;
--     Wal/Frame: AppendEntry, ReadEntryVersion, and ReadAll of segment.go; Wal/Frame/Crc: the
--     Castagnoli checksum; Wal/Segment: writeHeader and newSegmentReader of segment.go;
--     Wal/TxnOps: EncodeTxnOps, DecodeTxnOps; Wal/ObjectKey: the names of the objects; Wal/Gc:
--     GCSegments of internal/wal/gc.go
--   Store/Keys, Store/Record: internal/store/keys.go; Store/KeyValue: recordToKV of store.go;
--     Store/Pebble: what the store uses of Pebble; Store/Apply: Apply, commitBatch, applyEntry,
--     applyTxnEntry, applyCompact; Store/Recover: Recover, loadMeta; Store/Read: Get, GetAt,
--     Exists, ExistsAt; Store/Scan: scanLog, watchLoop, ListRange, CountRange, History, Changes;
--     Store/Mvcc: what the contents of Pebble mean, a map from keys to values at each revision
--   Object: the interface of pkg/object with conditional writes; Object/Mem: mem.go
--   Election: the leader lock of internal/election/election.go; Election/Runs: nodes that contend
--   Peer: the messages of a forwarded write of internal/peer/peer.go; Peer/Stream: those of the
--     stream of the log, and the ring buffer; Peer/Server: server.go; Peer/Follower: Follow and
--     followOnce of client.go with the functions of followLoop of follower.go
--   Checkpoint: the manifest and the index of internal/checkpoint/checkpoint.go; Checkpoint/Branch:
--     branch.go; Checkpoint/Write: Write and WriteWithRegistry; Checkpoint/Restore: Restore,
--     RestoreBranch, RestoreVersioned; Checkpoint/Gc: ListRemote, GCCheckpoints, GCOrphanSSTs
--   Lease: etcd/lease_state.go and etcd/lease.go
--   Kv: Range of etcd/kv.go, toEtcdRevision, fromEtcdRevision and kvToProto of etcd/server.go,
--     prefixRangeEnd of etcd/watch.go; Kv/Writes: Put and DeleteRange of etcd/kv.go
--   Node: readKey, kvVersion, nextPutVersion and the state of node.go; Node/Writes: Put, Create,
--     Update; Node/Deletes: Delete, DeleteIfRevision, Compact; Node/Txn: Txn and prepareTxn, all
--     of writes.go; Node/Commands: the writes as commands; Node/Commit: a round of
--     commitLoop of leader.go, and clearPendingBatch
--   Replay: replayRemote, walTermCutoffs of wal_replay.go
--   Auth: etcd/auth/types.go; Auth/RateLimit: ratelimit.go; Auth/Store: store.go; Auth/Tokens:
--     tokens.go; Auth/Interceptor: interceptor.go
--   Prelude, Result, Fmt: what the other files share; Tests: runs at concrete inputs
-- A file below one of these states what holds of it. A Go name someName is some_name here; a
-- function that is cut in two at a call has the parts f and f_read, f_prepared or f_found.
--
-- Representation: a string and a []byte are lists of bytes, an int64 is the bit pattern that it
-- has as a uint64, with its order and its wrap-around written out, a Go map is an association
-- list, an error a value. A critical section of the node is one function from the state before
-- to the state after, so the order of the writes is the order of the calls; what is sent to the
-- commit loop is the list `write_c`. A slice that is filtered in place is written back to the
-- value that shares its array. The reads of one Range see one state of the node.
--
-- Fuel: the scan of a segment takes a round for each frame, and a frame has eight bytes, so a
-- round more than there are bytes is enough.
--
-- Parameters: Pebble (`Pebble`, with its documented behaviour `Lawful`), sort.Strings of the
-- listings, the database below the node (`Database`), the object store of the collection
-- (`Objects`), sort.Slice of the replay, the node, the JSON encoding and bcrypt of the auth
-- store (`KvNode`), Apply of the store in the commit loop, MD5 of the store in memory, the JSON
-- encodings of the leader lock (`LockJson`), of checkpoints (`Json`) and of leases
-- (`LeaseJson`), the object store of checkpoints (`ObjectStore`), the node below the leases
-- (`LeaseNode`) and below Range (`RangeNode`) and below Put and DeleteRange (`WriteNode`), and
-- the ceiling of the seconds of a duration.
--
-- Not modelled: Pebble, gRPC and S3 themselves and their failures but for the error that a call
-- returns; the channels of the commit loop and the wait for its result; the files of the
-- segments; the waits and the channels of a watch, the fallback of the election for a store
-- without conditional writes, the connection of a follower and the life of a node, the etcd
-- service but for leases, Range, Put and DeleteRange; logging and metrics. The Auth files are
-- below etcd/auth.
pub mod Prelude
pub mod Result
pub mod Wal
pub mod Store
pub mod Peer
pub mod Checkpoint
pub mod Fmt
pub mod Lease
pub mod Kv
pub mod Node
pub mod Auth
pub mod Replay
pub mod Object
pub mod Election
pub mod Tests
