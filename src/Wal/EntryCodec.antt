-- ===== src/Wal/EntryCodec.antt =====
-- internal/wal/entry.go: the payload of one entry.
pub mod RoundTrip
use t.Prelude.{ℕ, ◌+◌, ◌-◌, [], ◌∷◌, ◌++◌, Bytes, length, take, drop, ltb, leb, if◌then◌else◌}
use t.Prelude.BigEndian.{put_be}
use t.Result.{Result, ok, err}
use t.Wal.{Entry, sequence}
use t.Wal.Errors.{
  WalError, entry_too_short, v2_entry_too_short, entry_truncated, u64_at, u32_at, byte_at,
}

abbrev pub entry_fixed_size_v1 : ℕ
entry_fixed_size_v1 = 49

abbrev pub entry_fixed_size_v3 : ℕ
entry_fixed_size_v3 = 65

unfoldable pub marshal_entry : Entry → Bytes
unfolding sequence
marshal_entry e =
    e.op
    ∷ (put_be 8 e.revision
        ++ (put_be 8 e.term
            ++ (put_be 8 e.lease
                ++ (put_be 8 e.create_revision
                    ++ (put_be 8 e.prev_revision
                        ++ (put_be 8 (sequence e)
                            ++ (put_be 8 e.version
                                ++ (put_be 4 (length e.key)
                                    ++ (put_be 4 (length e.value) ++ (e.key ++ e.value))))))))))

-- The lengths, the key and the value, behind a header of `fixed_size` bytes.
unfoldable pub read_tail : Bytes → ℕ → Entry → Result WalError Entry
read_tail b fixed_size e =
    let key_len = u32_at b (fixed_size - 8) in
    let val_len = u32_at b (fixed_size - 4) in
    let tail = drop fixed_size b in
    if ltb (length tail) (key_len + val_len)
    then err entry_truncated
    else ok (record e { key = take key_len tail; value = take val_len (drop key_len tail) })

-- The fields that every format has.
abbrev pub read_fixed : Bytes → Entry
read_fixed b = record {
  id = 0;
  revision = u64_at b 1;
  term = u64_at b 9;
  op = byte_at b 0;
  key = [];
  value = [];
  lease = u64_at b 17;
  create_revision = u64_at b 25;
  prev_revision = u64_at b 33;
  version = 0;
}

unfoldable pub unmarshal_entry_version : Bytes → ℕ → Result WalError Entry
unfolding read_tail
unmarshal_entry_version b version =
    if ltb (length b) entry_fixed_size_v1
    then err entry_too_short
    else if leb 2 version
    then (if ltb (length b) entry_fixed_size_v3
        then err v2_entry_too_short
        else read_tail b entry_fixed_size_v3
            (record (read_fixed b) { id = u64_at b 41; version = u64_at b 49 }))
    else read_tail b entry_fixed_size_v1 (read_fixed b)
