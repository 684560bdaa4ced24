-- ===== src/Wal/EntryCodec/RoundTrip.antt =====
-- What is written for an entry is read back, and a cut payload is refused.
use t.Prelude.{
  ℕ, ◌+◌, ◌-◌, ◌≤◌, ◌<◌, ◌^◌, ◌≡◌, refl, ap, ◌∙◌, [], ◌++◌, Bytes, length, take, drop, ltb,
  if◌then◌else◌, arith, take-append_self, drop-append_self, take_of_length-le, length-append,
  length-take, length-drop, take-drop-take, Bool-cases, inl, inr, lt→ltb, le→ltb_false,
}
use t.Prelude.BigEndian.{put_be, from_be, from_be-put_be}
use t.Result.{ok, err}
use t.Wal.{Entry, sequence, Fits}
use t.Wal.EntryCodec.{marshal_entry, read_tail, read_fixed, unmarshal_entry_version}
use t.Wal.Errors.{entry_too_short, v2_entry_too_short, entry_truncated, u64_at, u32_at, byte_at}

pub sequence-Fits : (e : Entry) → Fits e → sequence e < 2 ^ 64
unfolding sequence
sequence-Fits e f = ground arith

read_tail_lem :
    (b : Bytes) (n : ℕ) (e : Entry) (key value : Bytes)
    → u32_at b (n - 8) ≡ length key
    → u32_at b (n - 4) ≡ length value
    → drop n b ≡ key ++ value
    → read_tail b n e ≡ ok (record e { key = key; value = value })
unfolding read_tail
read_tail_lem b n e key value hk hv ht = rw (
  hk,
  hv,
  ht,
  le→ltb_false (length (key ++ value)) (length key + length value)
      (omega (arith, length-append key value)),
  take-append_self key value,
  drop-append_self key value,
  take_of_length-le (length value) value (omega arith),
)

read_tail_short :
    (b : Bytes) (n : ℕ) (e : Entry) (k v : ℕ)
    → u32_at b (n - 8) ≡ k
    → u32_at b (n - 4) ≡ v
    → n ≤ length b
    → length b < n + (k + v)
    → read_tail b n e ≡ err entry_truncated
unfolding read_tail
read_tail_short b n e k v hk hv le lt =
    rw (hk, hv, lt→ltb (length (drop n b)) (k + v) (omega (arith, length-drop n b)))

module _ (e : Entry) where
  pub length-marshal_entry : length (marshal_entry e) ≡ 65 + (length e.key + length e.value)
  unfolding marshal_entry put_be
  length-marshal_entry = omega (arith, length-append e.key e.value)

  at_tail : drop 65 (marshal_entry e) ≡ e.key ++ e.value
  unfolding marshal_entry put_be
  at_tail = refl

  at_op : byte_at (marshal_entry e) 0 ≡ e.op
  unfolding marshal_entry from_be
  at_op = omega arith

module _ (e : Entry) (f : Fits e) where
  at_revision : u64_at (marshal_entry e) 1 ≡ e.revision
  unfolding marshal_entry put_be
  at_revision = from_be-put_be 8 e.revision f.revision_fits

  at_term : u64_at (marshal_entry e) 9 ≡ e.term
  unfolding marshal_entry put_be
  at_term = from_be-put_be 8 e.term f.term_fits

  at_lease : u64_at (marshal_entry e) 17 ≡ e.lease
  unfolding marshal_entry put_be
  at_lease = from_be-put_be 8 e.lease f.lease_fits

  at_create : u64_at (marshal_entry e) 25 ≡ e.create_revision
  unfolding marshal_entry put_be
  at_create = from_be-put_be 8 e.create_revision f.create_fits

  at_prev : u64_at (marshal_entry e) 33 ≡ e.prev_revision
  unfolding marshal_entry put_be
  at_prev = from_be-put_be 8 e.prev_revision f.prev_fits

  at_id : u64_at (marshal_entry e) 41 ≡ sequence e
  unfolding marshal_entry put_be
  at_id = from_be-put_be 8 (sequence e) (sequence-Fits e f)

  at_version : u64_at (marshal_entry e) 49 ≡ e.version
  unfolding marshal_entry put_be
  at_version = from_be-put_be 8 e.version f.version_fits

  at_key_len : u32_at (marshal_entry e) 57 ≡ length e.key
  unfolding marshal_entry put_be
  at_key_len = from_be-put_be 4 (length e.key) f.key_fits

  at_val_len : u32_at (marshal_entry e) 61 ≡ length e.value
  unfolding marshal_entry put_be
  at_val_len = from_be-put_be 4 (length e.value) f.value_fits

  -- Reading back the payload of an entry whose fields fit gives the entry, its id made explicit: an
  -- entry of the old format, whose id is 0, comes back with its revision as the id.
  pub unmarshal_entry-marshal_entry :
      unmarshal_entry_version (marshal_entry e) 2 ≡ ok (record e { id = sequence e })
  unfolding unmarshal_entry_version
  unmarshal_entry-marshal_entry =
      rw
        (
          le→ltb_false (length (marshal_entry e)) 49 (omega (arith, length-marshal_entry e)),
          le→ltb_false (length (marshal_entry e)) 65 (omega (arith, length-marshal_entry e)),
          at_revision,
          at_term,
          at_lease,
          at_create,
          at_prev,
          at_id,
          at_version,
          at_op,
        )
        (read_tail_lem (marshal_entry e) 65 (record e { id = sequence e; key = []; value = [] })
          e.key e.value at_key_len at_val_len (at_tail e))

  -- Of the payload of an entry whose fields fit that is cut anywhere the decoder makes no entry: it
  -- names the part that is short.
  pub unmarshal-take :
      (n : ℕ)
      → n < length (marshal_entry e)
      → unmarshal_entry_version (take n (marshal_entry e)) 2 ≡ (
          if ltb n 49
          then err entry_too_short
          else if ltb n 65
          then err v2_entry_too_short
          else err entry_truncated)
  unfolding unmarshal_entry_version
  unmarshal-take n h =
      let p : Bytes = marshal_entry e in
      let len : length (take n p) ≡ n = omega (arith, length-take n p) in
      rw len (elim (Bool-cases (ltb n 49)) [
        | inl short ↦ rw short
        | inr ge49 ↦ rw ge49 (elim (Bool-cases (ltb n 65)) [
          | inl short ↦ rw short
          | inr ge65 ↦ rw ge65 (
              read_tail_short (take n p) 65
                (record (read_fixed (take n p)) {
                  id = u64_at (take n p) 41;
                  version = u64_at (take n p) 49;
                })
                (length e.key) (length e.value)
                (ap from_be (take-drop-take n 57 4 p (ground arith)) ∙ at_key_len)
                (ap from_be (take-drop-take n 61 4 p (ground arith)) ∙ at_val_len) (ground arith)
                (omega (arith, length-marshal_entry e)))
        ])
      ])
