-- ===== src/Wal.antt =====
-- internal/wal/entry.go: the entry of the write-ahead log.
pub mod Errors
pub mod EntryCodec
pub mod Frame
pub mod Segment
pub mod TxnOps
pub mod ObjectKey
pub mod Gc
use t.Prelude.{ℕ, ◌<◌, ◌^◌, ◌==◌, if◌then◌else◌, length}
use t.Prelude.{Bytes}

-- `Op`, a uint8: a decoded entry may carry any byte.
abbrev pub Op : Type 0
Op = ℕ

abbrev pub op_create : Op
op_create = 1

abbrev pub op_update : Op
op_update = 2

abbrev pub op_delete : Op
op_delete = 3

abbrev pub op_compact : Op
op_compact = 4

abbrev pub op_txn : Op
op_txn = 5

pub record Entry : Type 0 where
  pub id : ℕ
  pub revision : ℕ
  pub term : ℕ
  pub op : Op
  pub key : Bytes
  pub value : Bytes
  pub lease : ℕ
  pub create_revision : ℕ
  pub prev_revision : ℕ
  pub version : ℕ

-- The identity used for ordering and acknowledgements.
unfoldable pub sequence : Entry → ℕ
sequence e = if e.id == 0 then e.revision else e.id

-- The ranges of the Go types, and lengths that fit the uint32 length fields.
pub record Fits (e : Entry) : Type 0 where
  pub id_fits : e.id < 2 ^ 64
  pub revision_fits : e.revision < 2 ^ 64
  pub term_fits : e.term < 2 ^ 64
  pub lease_fits : e.lease < 2 ^ 64
  pub create_fits : e.create_revision < 2 ^ 64
  pub prev_fits : e.prev_revision < 2 ^ 64
  pub version_fits : e.version < 2 ^ 64
  pub key_fits : length e.key < 2 ^ 32
  pub value_fits : length e.value < 2 ^ 32
