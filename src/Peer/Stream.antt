-- ===== src/Peer/Stream.antt =====
-- internal/peer/peer.go: the messages of the stream of the log, and the ring buffer of server.go.
use t.Prelude.{
  ℕ, ◌-◌, Bool, true, false, Option, none, some, List, [], ◌∷◌, ◌++◌, Bytes, ltb, length, drop, map,
  if◌then◌else◌,
}
use t.Prelude.Word.{lt64, le64}
use t.Wal.{Op, Entry, sequence}

pub record FollowRequest : Type 0 where
  pub from_revision : ℕ
  pub node_id : Bytes

pub record WalEntryMsg : Type 0 where
  pub id : ℕ
  pub revision : ℕ
  pub term : ℕ
  pub op : Op
  pub key : Bytes
  pub value : Bytes
  pub lease : ℕ
  pub create_revision : ℕ
  pub prev_revision : ℕ
  pub version : ℕ
  pub commit_revision : ℕ
  pub commit_start_revision : ℕ
  pub commit : Bool
  pub shutdown : Bool

-- `&WalEntryMsg{}`
abbrev pub empty_msg : WalEntryMsg
empty_msg = record {
  id = 0;
  revision = 0;
  term = 0;
  op = 0;
  key = [];
  value = [];
  lease = 0;
  create_revision = 0;
  prev_revision = 0;
  version = 0;
  commit_revision = 0;
  commit_start_revision = 0;
  commit = false;
  shutdown = false;
}

unfoldable pub entry_to_msg : Entry → WalEntryMsg
entry_to_msg e = record empty_msg {
  id = sequence e;
  revision = e.revision;
  term = e.term;
  op = e.op;
  key = e.key;
  value = e.value;
  lease = e.lease;
  create_revision = e.create_revision;
  prev_revision = e.prev_revision;
  version = e.version;
}

unfoldable pub msg_to_entry : WalEntryMsg → Entry
msg_to_entry m = record {
  id = m.id;
  revision = m.revision;
  term = m.term;
  op = m.op;
  key = m.key;
  value = m.value;
  lease = m.lease;
  create_revision = m.create_revision;
  prev_revision = m.prev_revision;
  version = m.version;
}

-- The message of BroadcastCommit, and of Follow after a snapshot
abbrev pub commit_msg : ℕ → ℕ → WalEntryMsg
commit_msg start rev = record empty_msg {
  commit = true;
  commit_start_revision = start;
  commit_revision = rev;
}

pub record EntryBuffer : Type 0 where
  pub entries : List Entry
  pub cap : ℕ

unfoldable pub push : Entry → EntryBuffer → EntryBuffer
push e b =
    let entries = b.entries ++ e ∷ [] in
    record b {
      entries =
          if ltb b.cap (length entries) then drop (length entries - b.cap) entries else entries;
    }

-- The loop of `since`: the entries from the first one on that is not below the start
unfoldable pub from_first : ℕ → List Entry → List Entry
from_first from_rev [] = []
from_first from_rev (e ∷ es) =
    let rest = from_first from_rev es in if le64 from_rev (sequence e) then e ∷ es else rest

-- `none` where the buffer does not reach back to the start
unfoldable pub since : ℕ → List Entry → Option (List Entry)
unfolding from_first
since from_rev [] = some []
since from_rev (e ∷ es) =
    if lt64 from_rev (sequence e) then none else some (from_first from_rev (e ∷ es))

-- The sequence of the last entry of a list, or the number given
abbrev pub last_sequence : ℕ → List Entry → ℕ
last_sequence d [] = d
last_sequence d (e ∷ es) = last_sequence (sequence e) es

-- What Follow sends of its snapshot: the entries, then their commit
unfoldable pub snapshot_msgs : List Entry → List WalEntryMsg
unfolding entry_to_msg
snapshot_msgs [] = []
snapshot_msgs (e ∷ es) =
    map entry_to_msg (e ∷ es) ++ commit_msg (sequence e) (last_sequence (sequence e) es) ∷ []
