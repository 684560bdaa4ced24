-- ===== src/Tests/WalTests.antt =====
-- Runs of the write-ahead log's codecs and of its collection.
use t.Prelude.BigEndian.{put_be}
use t.Prelude.{◌≤◌, ◌≡◌, refl, ℕ, List, [], ◌∷◌, ◌++◌, Bytes, ascii, take, All, arith, map}
use t.Result.{ok}
use t.Wal.{Entry, Fits, op_create, sequence}
use t.Wal.EntryCodec.{marshal_entry, unmarshal_entry_version}
use t.Wal.EntryCodec.RoundTrip.{unmarshal_entry-marshal_entry}
use t.Wal.Frame.{append_entry, read_all, clean}
use t.Wal.Frame.RoundTrip.{IsFramed, frames, with_id, read_all-crashed}
use t.Wal.Segment.{SegmentReader, segment_header, new_segment_reader, read_segment}
use t.Wal.Segment.Reading.{segment-crashed}
use t.Wal.TxnOps.{TxnSubOp, encode_txn_ops, decode_txn_ops}
use t.Wal.TxnOps.RoundTrip.{decode-encode, Fits as SubFits}
use t.Wal.ObjectKey.{parse_first_rev, parse_wal_key}
use t.Wal.Gc.{to_delete}
use t.Wal.Gc.Covered.{IsChained, to_delete-covered}
use mathlib.Core.List.{Memᴰ}

abbrev first : Entry
first = record {
  id = 10;
  revision = 8;
  term = 2;
  op = op_create;
  key = ascii "a";
  value = ascii "1";
  lease = 0;
  create_revision = 8;
  prev_revision = 0;
  version = 1;
}

abbrev second : Entry
second = record first { id = 11; revision = 9; key = ascii "b" }

first-Fits : Fits first
first-Fits = record {
  id_fits = omega arith;
  revision_fits = omega arith;
  term_fits = omega arith;
  lease_fits = omega arith;
  create_fits = omega arith;
  prev_fits = omega arith;
  version_fits = omega arith;
  key_fits = omega arith;
  value_fits = omega arith;
}

second-Fits : Fits second
second-Fits = record {
  id_fits = omega arith;
  revision_fits = omega arith;
  term_fits = omega arith;
  lease_fits = omega arith;
  create_fits = omega arith;
  prev_fits = omega arith;
  version_fits = omega arith;
  key_fits = omega arith;
  value_fits = omega arith;
}

unmarshal_entry-marshal_entry_example :
    unmarshal_entry_version (marshal_entry first) 2 ≡ ok (record first { id = sequence first })
unmarshal_entry-marshal_entry_example = unmarshal_entry-marshal_entry first first-Fits

first-IsFramed : IsFramed first
first-IsFramed = record { fits = first-Fits; payload_fits = omega arith }

second-IsFramed : IsFramed second
second-IsFramed = record { fits = second-Fits; payload_fits = omega arith }

read_all-crashed_example :
    read_all (frames (first ∷ []) ++ take 70 (append_entry second)) 2
    ≡ (map with_id (first ∷ []), clean)
unfolding append_entry marshal_entry put_be
read_all-crashed_example =
    read_all-crashed (first ∷ []) (first-IsFramed, tt) second second-IsFramed 70 (omega arith)

abbrev sub_op : TxnSubOp
sub_op = record {
  op = 1;
  key = ascii "a";
  value = ascii "1";
  lease = 0;
  create_revision = 8;
  prev_revision = 0;
  version = 1;
}

decode-encode_example :
    decode_txn_ops (encode_txn_ops (sub_op ∷ sub_op ∷ [])) ≡ ok (sub_op ∷ sub_op ∷ [])
decode-encode_example =
    decode-encode (sub_op ∷ sub_op ∷ []) (omega arith) (sub_op_fits, (sub_op_fits, tt))
  where
    sub_op_fits : SubFits sub_op
    sub_op_fits = record {
      lease_fits = omega arith;
      create_fits = omega arith;
      prev_fits = omega arith;
      version_fits = omega arith;
      key_fits = omega arith;
      value_fits = omega arith;
    }

abbrev key_one : Bytes
key_one = ascii "wal/0000000001/00000000000000000001"

abbrev key_ten : Bytes
key_ten = ascii "wal/0000000002/00000000000000000010"

parses_key : parse_wal_key key_ten ≡ (2, 10)
unfolding parse_wal_key
parses_key = refl

abbrev content : Bytes → List ℕ
content key = parse_first_rev key ∷ []

to_delete-covered_example : All (λ s. s ≤ 12) (content key_one)
unfolding parse_first_rev to_delete
to_delete-covered_example =
    to_delete-covered content (key_one ∷ key_ten ∷ []) 12 key_one (omega arith) chained chosen
  where
    chained : IsChained content (key_one ∷ key_ten ∷ [])
    chained = (omega arith, omega arith, (omega arith, tt), tt)

    chosen : Memᴰ key_one (to_delete (key_one ∷ key_ten ∷ []) 12)
    chosen = Memᴰ.head refl

segment-crashed_example :
    (sr : SegmentReader) × (new_segment_reader
        (segment_header 2 10 ++ (frames (first ∷ []) ++ take 70 (append_entry second)))
      ≡ ok sr)
    × (sr.term ≡ 2)
    × (sr.first_rev ≡ 10)
    × (read_segment sr ≡ (map with_id (first ∷ []), clean))
unfolding append_entry marshal_entry put_be
segment-crashed_example =
    segment-crashed 2 10 (first ∷ []) second 70 (omega arith) (omega arith) (first-IsFramed, tt)
      second-IsFramed (omega arith)
