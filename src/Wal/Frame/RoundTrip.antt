-- ===== src/Wal/Frame/RoundTrip.antt =====
-- What is appended to a segment is read back, also when the last record was cut by a crash.
use mathlib.Core.List.{append_assoc, append-nil}
use t.Prelude.{
  ℕ, zero, suc, ◌+◌, ◌-◌, ◌≤◌, ◌<◌, ◌^◌, ◌≡◌, refl, ap, ◌∙◌, some, none, List, [], ◌∷◌, ◌++◌, map,
  Bytes, length, take, arith, All, take-append_self, drop-append_self, length-append, length-take,
  ltb, lt→ltb, le→ltb_false, ltb_false→le, Bool-cases, inl, inr, ==_refl,
}
use t.Prelude.BigEndian.{put_be, from_be-put_be}
use t.Wal.{Entry, sequence, Fits}
use t.Wal.Errors.{u32_at}
use t.Wal.EntryCodec.{marshal_entry}
use t.Wal.EntryCodec.RoundTrip.{unmarshal_entry-marshal_entry, length-marshal_entry}
use t.Wal.Frame.Crc.{checksum, checksum_lt}
use t.Wal.Frame.{
  append_entry, read_full, read_entry_version, entry, eof, clean, read_all_loop, read_all,
}

-- The payload's length fits its uint32.
pub record IsFramed (e : Entry) : Type 0 where
  pub fits : Fits e
  pub payload_fits : 65 + (length e.key + length e.value) < 2 ^ 32

-- The entry as it is read back.
abbrev pub with_id : Entry → Entry
with_id e = record e { id = sequence e }

pub read_full-append :
    (n : ℕ) (xs ys : Bytes) → length xs ≡ n → read_full n (xs ++ ys) ≡ some (xs, ys)
unfolding read_full
read_full-append n xs ys h = rw (
  ← h,
  le→ltb_false (length (xs ++ ys)) (length xs) (omega (arith, length-append xs ys)),
  take-append_self xs ys,
  drop-append_self xs ys,
)

read_full_short : (n : ℕ) (r : Bytes) → length r < n → read_full n r ≡ none
unfolding read_full
read_full_short n r h = rw (lt→ltb (length r) n h)

take-append_ge :
    (n : ℕ) (xs ys : Bytes) → length xs ≤ n → take n (xs ++ ys) ≡ xs ++ take (n - length xs) ys
take-append_ge n [] ys h = ap (λ (m : ℕ). take m ys) (omega arith)
take-append_ge zero (x ∷ xs) ys h = elim h [ ]
take-append_ge (suc n) (x ∷ xs) ys h =
    ap (◌∷◌ x)
      (take-append_ge n xs ys (omega arith) ∙ ap (λ (m : ℕ). xs ++ take m ys) (omega arith))

abbrev header : Entry → Bytes
header e = put_be 4 (length (marshal_entry e)) ++ put_be 4 (checksum (marshal_entry e))

append_entry-split :
    (e : Entry) (rest : Bytes) → append_entry e ++ rest ≡ header e ++ (marshal_entry e ++ rest)
unfolding append_entry put_be
append_entry-split e rest = refl

append_entry-eq : (e : Entry) → append_entry e ≡ header e ++ marshal_entry e
unfolding append_entry put_be
append_entry-eq e = refl

length-append_entry : (e : Entry) → length (append_entry e) ≡ 8 + length (marshal_entry e)
unfolding append_entry put_be
length-append_entry e = omega arith

length-header : (e : Entry) → length (header e) ≡ 8
unfolding put_be
length-header e = refl

module _ (e : Entry) (f : IsFramed e) where
  header_len : u32_at (header e) 0 ≡ length (marshal_entry e)
  unfolding put_be
  header_len =
      from_be-put_be 4 (length (marshal_entry e))
        (omega (arith, length-marshal_entry e, f.payload_fits))

  header_crc : u32_at (header e) 4 ≡ checksum (marshal_entry e)
  unfolding put_be
  header_crc = from_be-put_be 4 (checksum (marshal_entry e)) (checksum_lt (marshal_entry e))

  -- A framed entry is read back whatever follows it, and the reader stands behind it.
  pub read-append :
      (rest : Bytes) → read_entry_version (append_entry e ++ rest) 2 ≡ entry (with_id e) rest
  unfolding read_entry_version
  read-append rest = rw (
    append_entry-split e rest,
    read_full-append 8 (header e) (marshal_entry e ++ rest) (length-header e),
    header_len,
    read_full-append (length (marshal_entry e)) (marshal_entry e) rest refl,
    header_crc,
    ==_refl (checksum (marshal_entry e)),
    unmarshal_entry-marshal_entry e f.fits,
  )

  -- A frame that is cut anywhere, at its very start too, reads as the end of the segment.
  pub read-take :
      (n : ℕ) → n < length (append_entry e) → read_entry_version (take n (append_entry e)) 2 ≡ eof
  unfolding read_entry_version
  read-take n h = elim (Bool-cases (ltb n 8)) [
    | inl short ↦ rw (
        read_full_short 8 (take n (append_entry e))
          (ground (arith, length-take n (append_entry e))))
    | inr ge ↦ rw (
      append_entry-eq e,
      take-append_ge n (header e) (marshal_entry e)
          (omega (arith, length-header e, ltb_false→le n 8 ge)),
      length-header e,
      read_full-append 8 (header e) (take (n - 8) (marshal_entry e)) (length-header e),
      header_len,
      read_full_short (length (marshal_entry e)) (take (n - 8) (marshal_entry e)) (
          omega (
            arith,
            length-take (n - 8) (marshal_entry e),
            length-append_entry e,
            ltb_false→le n 8 ge,
          )),
    )
  ]

-- The bytes of a segment behind its header.
abbrev pub frames : List Entry → Bytes
frames [] = []
frames (e ∷ es) = append_entry e ++ frames es

length-frames : (es : List Entry) (tail : Bytes) → length es < suc (length (frames es ++ tail))
length-frames [] tail = omega arith
length-frames (e ∷ es) tail = rw (append_assoc (append_entry e) (frames es) tail) (
    omega (
      arith,
      length-append (append_entry e) (frames es ++ tail),
      length-append_entry e,
      length-frames es tail,
    ))

loop-frames :
    (fuel : ℕ) (es acc : List Entry) (tail : Bytes)
    → length es < fuel
    → All IsFramed es
    → read_entry_version tail 2 ≡ eof
    → read_all_loop fuel (frames es ++ tail) 2 acc ≡ (acc ++ map with_id es, clean)
unfolding read_all_loop
loop-frames zero es acc tail lt f end = absurd (omega arith)
loop-frames (suc fuel) [] acc tail lt f end = rw (end, append-nil)
loop-frames (suc fuel) (e ∷ es) acc tail lt f end =
    rw (append_assoc (append_entry e) (frames es) tail, read-append e f.0 (frames es ++ tail))
      (loop-frames fuel es (acc ++ with_id e ∷ []) tail (omega arith) f.1 end
        ∙ rw (append_assoc acc (with_id e ∷ []) (map with_id es)))

module _ (es : List Entry) (f : All IsFramed es) where
  read_all-frames :
      (tail : Bytes)
      → read_entry_version tail 2 ≡ eof
      → read_all (frames es ++ tail) 2 ≡ (map with_id es, clean)
  unfolding read_all
  read_all-frames tail end =
      loop-frames (suc (length (frames es ++ tail))) es [] tail (length-frames es tail) f end

  -- For entries whose fields fit their frames: after a crash that left any part of one more frame,
  -- none of it included, a scan of the segment gives every entry that was written whole, in order,
  -- and ends cleanly.
  pub read_all-crashed :
      (last : Entry)
      → IsFramed last
      → (n : ℕ) → n < length (append_entry last)
      → read_all (frames es ++ take n (append_entry last)) 2 ≡ (map with_id es, clean)
  read_all-crashed last fl n h =
      read_all-frames (take n (append_entry last)) (read-take last fl n h)
