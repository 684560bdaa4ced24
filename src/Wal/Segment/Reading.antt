-- ===== src/Wal/Segment/Reading.antt =====
-- A segment is read back from its first byte on.
use t.Prelude.{
  true, ascii, slice, bytes_eq, ℕ, ◌<◌, ◌^◌, ◌≡◌, refl, List, ◌++◌, map, Bytes, length, take, All,
}
use t.Prelude.BigEndian.{put_be, from_be, from_be-put_be}
use t.Result.{ok}
use t.Wal.{Entry}
use t.Wal.Errors.{u64_at, byte_at}
use t.Wal.Frame.{append_entry, clean}
use t.Wal.Frame.RoundTrip.{IsFramed, with_id, frames, read_full-append, read_all-crashed}
use t.Wal.Segment.{
  SegmentReader, segment_header, new_segment_reader, check_header, read_segment, header_len,
}

module _ (term first_rev : ℕ) where
  length-segment_header : length (segment_header term first_rev) ≡ header_len
  unfolding segment_header put_be
  length-segment_header = refl

  magic : bytes_eq (slice (segment_header term first_rev) 0 2) (ascii "T4") ≡ true
  unfolding segment_header bytes_eq
  magic = refl

  at_version : byte_at (segment_header term first_rev) 2 ≡ 2
  unfolding segment_header from_be
  at_version = refl

  at_newline : byte_at (segment_header term first_rev) 3 ≡ 10
  unfolding segment_header from_be
  at_newline = refl

  at_term : term < 2 ^ 64 → u64_at (segment_header term first_rev) 4 ≡ term
  unfolding segment_header put_be
  at_term h = from_be-put_be 8 term h

  at_first_rev : first_rev < 2 ^ 64 → u64_at (segment_header term first_rev) 12 ≡ first_rev
  unfolding segment_header put_be
  at_first_rev h = from_be-put_be 8 first_rev h

  new_segment_reader-header :
      (rest : Bytes)
      → term < 2 ^ 64
      → first_rev < 2 ^ 64
      → new_segment_reader (segment_header term first_rev ++ rest)
        ≡ ok (record { r = rest; term = term; first_rev = first_rev; version = 2 })
  unfolding new_segment_reader check_header
  new_segment_reader-header rest ht hr =
      rw
        (
          read_full-append header_len (segment_header term first_rev) rest length-segment_header,
          magic,
          at_newline,
          at_version,
          at_term ht,
          at_first_rev hr,
        )
        refl

-- For entries whose fields fit their frames: a segment that was created for a term and a first
-- sequence, and that a crash left with any part of one more frame, opens as a segment of that term
-- and that first sequence and gives every entry that was written whole, in order.
pub segment-crashed :
    (term first_rev : ℕ) (es : List Entry) (last : Entry) (n : ℕ)
    → term < 2 ^ 64
    → first_rev < 2 ^ 64
    → All IsFramed es
    → IsFramed last
    → n < length (append_entry last)
    → (sr : SegmentReader) × (new_segment_reader
          (segment_header term first_rev ++ (frames es ++ take n (append_entry last)))
        ≡ ok sr)
      × (sr.term ≡ term)
      × (sr.first_rev ≡ first_rev)
      × (read_segment sr ≡ (map with_id es, clean))
unfolding read_segment
segment-crashed term first_rev es last n ht hr f fl h = (
  _,
  new_segment_reader-header term first_rev (frames es ++ take n (append_entry last)) ht hr,
  refl,
  refl,
  read_all-crashed es f last fl n h,
)
