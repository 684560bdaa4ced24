-- ===== src/Wal/Errors.antt =====
-- The errors of internal/wal/entry.go and segment.go, and reads at an offset.
use t.Prelude.{ℕ, slice, Bytes}
use t.Prelude.BigEndian.{from_be}

pub data WalError : Type 0 where
  txn_too_short txn_header_truncated txn_payload_truncated : WalError
  entry_too_short v2_entry_too_short entry_truncated crc_mismatch : WalError
  short_header bad_magic unsupported_version : WalError

-- `binary.BigEndian.Uint64(b[off:])` and `Uint32`, where the callers have checked the length
abbrev pub u64_at : Bytes → ℕ → ℕ
u64_at b off = from_be (slice b off 8)

abbrev pub u32_at : Bytes → ℕ → ℕ
u32_at b off = from_be (slice b off 4)

-- `b[off]`
abbrev pub byte_at : Bytes → ℕ → ℕ
byte_at b off = from_be (slice b off 1)
