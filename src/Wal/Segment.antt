-- ===== src/Wal/Segment.antt =====
-- internal/wal/segment.go: the header of a segment, and a reader behind it.
pub mod Reading
use t.Prelude.{
  ℕ, Option, none, some, List, [], ◌∷◌, ◌++◌, ◌||◌, not, ◌==◌, Bytes, ascii, bytes_eq, slice, ltb,
  if◌then◌else◌,
}
use t.Prelude.BigEndian.{put_be}
use t.Result.{Result, ok, err}
use t.Wal.{Entry}
use t.Wal.Errors.{WalError, short_header, bad_magic, unsupported_version, u64_at, byte_at}
use t.Wal.Frame.{End, read_full, read_all}

-- WALFormatVersion
abbrev pub format_version : ℕ
format_version = 2

abbrev pub header_len : ℕ
header_len = 20

-- What writeHeader writes: the magic "T4", the version and a newline, then the term and the first
-- sequence.
unfoldable pub segment_header : ℕ → ℕ → Bytes
segment_header term first_rev =
    84 ∷ 52 ∷ format_version ∷ 10 ∷ (put_be 8 term ++ put_be 8 first_rev)

-- `r` is what the reader still holds.
pub record SegmentReader : Type 0 where
  pub r : Bytes
  pub term : ℕ
  pub first_rev : ℕ
  pub version : ℕ

-- newSegmentReader, once the header is read
unfoldable pub check_header : Option (Bytes × Bytes) → Result WalError SegmentReader
check_header none = err short_header
check_header (some (hdr, rest)) =
    let version = byte_at hdr 2 in
    if not (bytes_eq (slice hdr 0 2) (ascii "T4")) || not (byte_at hdr 3 == 10)
    then err bad_magic
    else if ltb version 1 || ltb format_version version
    then err unsupported_version
    else ok (record { r = rest; term = u64_at hdr 4; first_rev = u64_at hdr 12; version = version })

unfoldable pub new_segment_reader : Bytes → Result WalError SegmentReader
unfolding check_header
new_segment_reader r = check_header (read_full header_len r)

-- ReadAll of the reader
unfoldable pub read_segment : SegmentReader → List Entry × End
read_segment sr = read_all sr.r sr.version
