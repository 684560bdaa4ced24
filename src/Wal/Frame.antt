-- ===== src/Wal/Frame.antt =====
-- internal/wal/entry.go and segment.go: the framed records of a segment. A reader is the list of
-- the bytes that it still holds; it ends, and has no other fault.
pub mod Crc
pub mod RoundTrip
use t.Prelude.{
  ℕ, zero, suc, Option, none, some, List, [], ◌∷◌, ◌++◌, Bytes, length, take, drop, ltb, ◌==◌,
  if◌then◌else◌,
}
use t.Prelude.BigEndian.{put_be}
use t.Result.{Result, ok, err}
use t.Wal.{Entry}
use t.Wal.EntryCodec.{marshal_entry, unmarshal_entry_version}
use t.Wal.Errors.{WalError, crc_mismatch, u32_at}
use Crc.{checksum}

unfoldable pub append_entry : Entry → Bytes
append_entry e =
    let payload = marshal_entry e in
    put_be 4 (length payload) ++ (put_be 4 (checksum payload) ++ payload)

-- `(*Entry, error)`, io.EOF apart from the other errors, and the reader after it.
pub data Read : Type 0 where
  eof : Read
  failed : WalError → Read
  entry : Entry → Bytes → Read

-- io.ReadFull for n bytes; `none` is io.EOF or io.ErrUnexpectedEOF
unfoldable pub read_full : ℕ → Bytes → Option (Bytes × Bytes)
read_full n r = if ltb (length r) n then none else some (take n r, drop n r)

abbrev decoded : Result WalError Entry → Bytes → Read
decoded (ok e) r = entry e r
decoded (err e) r = failed e

-- The payload and its checksum, once the header is read.
unfoldable pub read_payload : ℕ → ℕ → Option (Bytes × Bytes) → Read
read_payload version want_crc none = eof
read_payload version want_crc (some (payload, r)) =
    if checksum payload == want_crc
    then decoded (unmarshal_entry_version payload version) r
    else failed crc_mismatch

unfoldable pub read_header : ℕ → Option (Bytes × Bytes) → Read
unfolding read_payload
read_header version none = eof
read_header version (some (hdr, r)) =
    read_payload version (u32_at hdr 4) (read_full (u32_at hdr 0) r)

unfoldable pub read_entry_version : Bytes → ℕ → Read
unfolding read_header
read_entry_version r version = read_header version (read_full 8 r)

-- How a scan of a segment ended.
pub data End : Type 0 where
  clean : End
  stopped : WalError → End
  out_of_fuel : End

abbrev read_next : Read → List Entry → (Bytes → List Entry → List Entry × End) → List Entry × End
read_next eof entries more = (entries, clean)
read_next (failed e) entries more = (entries, stopped e)
read_next (entry e rest) entries more = more rest (entries ++ e ∷ [])

unfoldable pub read_all_loop : ℕ → Bytes → ℕ → List Entry → List Entry × End
read_all_loop zero r version entries = (entries, out_of_fuel)
read_all_loop (suc fuel) r version entries =
    read_next (read_entry_version r version) entries (λ rest. read_all_loop fuel rest version)

-- Each entry takes eight bytes at least, so a round for each byte is enough.
unfoldable pub read_all : Bytes → ℕ → List Entry × End
unfolding read_all_loop
read_all r version = read_all_loop (suc (length r)) r version []
