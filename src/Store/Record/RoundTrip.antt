-- ===== src/Store/Record/RoundTrip.antt =====
-- A record of the log is read back as it was written, if its version looks valid.
use t.Prelude.{
  ◌+◌, ◌*◌, ◌/◌, ◌%◌, ◌≤◌, ◌<◌, ◌^◌, ◌≡◌, refl, true, false, Bool, ◌++◌, length, drop, ◌==◌, arith,
  take-append_self, drop-append_self, length-append, le→ltb_false, le→leb, if◌then◌else◌,
}
use t.Prelude.BigEndian.{put_be, from_be, from_be-put_be}
use t.Result.{ok}
use t.Wal.Errors.{u64_at, u32_at, byte_at}
use t.Store.Record.{Record, marshal_record, looks_valid, unmarshal_record}

pub record Fits (r : Record) : Type 0 where
  pub create_fits : r.create_revision < 2 ^ 64
  pub prev_fits : r.prev_revision < 2 ^ 64
  pub version_fits : r.version < 2 ^ 64
  pub lease_fits : r.lease < 2 ^ 64
  pub key_fits : length r.key < 2 ^ 32

module _ (r : Record) where
  length-marshal_record : length (marshal_record r) ≡ 37 + length (r.key ++ r.value)
  unfolding marshal_record put_be
  length-marshal_record = omega arith

  at_body : drop 37 (marshal_record r) ≡ r.key ++ r.value
  unfolding marshal_record put_be
  at_body = refl

  at_create_flag : (byte_at (marshal_record r) 0 % 2 == 1) ≡ r.create
  unfolding marshal_record from_be
  at_create_flag = flag r.create r.delete
    where
      flag : (c d : Bool) → ((0 * 256 + ((if c then 1 else 0) + (if d then 2 else 0))) % 2 == 1) ≡ c
      flag true true = refl
      flag true false = refl
      flag false true = refl
      flag false false = refl

  at_delete_flag : (byte_at (marshal_record r) 0 / 2 % 2 == 1) ≡ r.delete
  unfolding marshal_record from_be
  at_delete_flag = flag r.create r.delete
    where
      flag :
          (c d : Bool)
          → ((0 * 256 + ((if c then 1 else 0) + (if d then 2 else 0))) / 2 % 2 == 1) ≡ d
      flag true true = refl
      flag true false = refl
      flag false true = refl
      flag false false = refl

module _ (r : Record) (f : Fits r) where
  at_create : u64_at (marshal_record r) 1 ≡ r.create_revision
  unfolding marshal_record put_be
  at_create = from_be-put_be 8 r.create_revision f.create_fits

  at_prev : u64_at (marshal_record r) 9 ≡ r.prev_revision
  unfolding marshal_record put_be
  at_prev = from_be-put_be 8 r.prev_revision f.prev_fits

  at_lease : u64_at (marshal_record r) 17 ≡ r.lease
  unfolding marshal_record put_be
  at_lease = from_be-put_be 8 r.lease f.lease_fits

  at_version : u64_at (marshal_record r) 25 ≡ r.version
  unfolding marshal_record put_be
  at_version = from_be-put_be 8 r.version f.version_fits

  at_key_len : u32_at (marshal_record r) 33 ≡ length r.key
  unfolding marshal_record put_be
  at_key_len = from_be-put_be 4 (length r.key) f.key_fits

  -- A record whose fields fit and whose version looks valid is read back as it was written.
  pub unmarshal_record-marshal_record :
      looks_valid r.version r.create_revision r.prev_revision r.delete ≡ true
      → unmarshal_record (marshal_record r) ≡ ok r
  unfolding unmarshal_record
  unmarshal_record-marshal_record valid = rw (
    le→ltb_false (length (marshal_record r)) 29 (omega (arith, length-marshal_record r)),
    le→leb 37 (length (marshal_record r)) (omega (arith, length-marshal_record r)),
    at_create,
    at_prev,
    at_lease,
    at_version,
    at_key_len,
    at_create_flag r,
    at_delete_flag r,
    valid,
    at_body r,
    le→leb (37 + length r.key) (length (marshal_record r)) fits,
    le→ltb_false (length (marshal_record r)) (37 + length r.key) fits,
    take-append_self r.key r.value,
    drop-append_self r.key r.value,
  )
    where
      fits : 37 + length r.key ≤ length (marshal_record r)
      fits = omega (arith, length-marshal_record r, length-append r.key r.value)
