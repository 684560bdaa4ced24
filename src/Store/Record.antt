-- ===== src/Store/Record.antt =====
-- internal/store/keys.go and store.go: the records of the change log.
pub mod RoundTrip
use t.Prelude.{
  ℕ, ◌+◌, ◌-◌, ◌/◌, ◌%◌, Bool, true, false, [], ◌∷◌, ◌++◌, Bytes, length, take, drop, ltb, leb,
  ◌==◌, not, ◌&&◌, if◌then◌else◌,
}
use t.Prelude.BigEndian.{put_be, from_be}
use t.Prelude.Word.{add64, sub64, lt64, le64}
use t.Result.{Result, ok, err}
use t.Wal.Errors.{u64_at, u32_at, byte_at}

pub record Record : Type 0 where
  pub key : Bytes
  pub value : Bytes
  pub create_revision : ℕ
  pub prev_revision : ℕ
  pub version : ℕ
  pub lease : ℕ
  pub create : Bool
  pub delete : Bool

pub data RecordError : Type 0 where
  record_too_short record_key_truncated : RecordError

abbrev pub record_header_size_v1 : ℕ
record_header_size_v1 = 29

abbrev pub record_header_size : ℕ
record_header_size = 37

-- flagCreate is bit 0 and flagDelete is bit 1
abbrev pub flags_of : Record → ℕ
flags_of r = (if r.create then 1 else 0) + (if r.delete then 2 else 0)

unfoldable pub marshal_record : Record → Bytes
marshal_record r =
    flags_of r
    ∷ (put_be 8 r.create_revision
        ++ (put_be 8 r.prev_revision
            ++ (put_be 8 r.lease
                ++ (put_be 8 r.version ++ (put_be 4 (length r.key) ++ (r.key ++ r.value))))))

-- versionRecordHeaderLooksValid, of int64 values
unfoldable pub looks_valid : ℕ → ℕ → ℕ → Bool → Bool
looks_valid version create_rev prev_rev deleted =
    let base = add64 (sub64 prev_rev create_rev) 1 in
    let max_version = if deleted then base else add64 base 1 in
    if le64 version 0
    then false
    else if prev_rev == 0
    then version == 1
    else lt64 0 max_version && le64 version max_version

-- The key and the value behind a header of `header_size` bytes.
unfoldable pub read_body : Bytes → ℕ → Record → Result RecordError Record
read_body b header_size r =
    let klen = u32_at b (header_size - 4) in
    let body = drop header_size b in
    if ltb (length b) (header_size + klen)
    then err record_key_truncated
    else ok (record r { key = take klen body; value = drop klen body })

-- Without a version that looks valid the record is read in the layout that has none.
unfoldable pub unmarshal_record : Bytes → Result RecordError Record
unfolding read_body looks_valid
unmarshal_record b =
    let r : Record = record {
      key = [];
      value = [];
      create_revision = u64_at b 1;
      prev_revision = u64_at b 9;
      version = 0;
      lease = u64_at b 17;
      create = byte_at b 0 % 2 == 1;
      delete = byte_at b 0 / 2 % 2 == 1;
    } in
    let version = u64_at b 25 in
    if ltb (length b) record_header_size_v1
    then err record_too_short
    else if leb record_header_size (length b)
        && (looks_valid version r.create_revision r.prev_revision r.delete
            && leb (record_header_size + u32_at b 33) (length b))
    then read_body b record_header_size (record r { version = version })
    else read_body b record_header_size_v1 r

-- recordVersion and entryVersion
unfoldable pub record_version : Record → ℕ
record_version r = if lt64 0 r.version then r.version else if r.delete then 0 else 1

unfoldable pub entry_version : ℕ → ℕ
entry_version version = if lt64 0 version then version else 1
