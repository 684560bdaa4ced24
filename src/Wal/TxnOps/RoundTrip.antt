-- ===== src/Wal/TxnOps/RoundTrip.antt =====
-- What is encoded for a transaction is decoded again.
use mathlib.Core.List.{append_assoc, append-nil}
use t.Prelude.{
  ℕ, suc, ◌+◌, ◌%◌, ◌^◌, ◌<◌, ◌≡◌, refl, sym, ◌∙◌, ap, true, List, [], ◌∷◌, ◌++◌, Bytes, length,
  drop, arith, All, take-append_self, drop-append_self, length-append, ltb, le→ltb_false, le→leb,
  if◌then◌else◌, ◌≤◌,
}
use t.Prelude.BigEndian.{put_be, from_be, from_be-put_be, length-put_be}
use t.Result.{ok}
use t.Wal.Errors.{u64_at, u32_at, byte_at}
use t.Wal.TxnOps.{
  TxnSubOp, encode_op, encode_ops, encode_txn_ops, decode_ops, decode_txn_ops, versioned_flag,
}

pub record Fits (o : TxnSubOp) : Type 0 where
  pub lease_fits : o.lease < 2 ^ 64
  pub create_fits : o.create_revision < 2 ^ 64
  pub prev_fits : o.prev_revision < 2 ^ 64
  pub version_fits : o.version < 2 ^ 64
  pub key_fits : length o.key < 2 ^ 32
  pub value_fits : length o.value < 2 ^ 32

module _ (o : TxnSubOp) (rest : Bytes) where
  at_payload : drop 41 (encode_op o ++ rest) ≡ o.key ++ (o.value ++ rest)
  unfolding encode_op put_be
  at_payload = append_assoc o.key o.value rest

  at_op : byte_at (encode_op o ++ rest) 0 ≡ o.op
  unfolding encode_op from_be
  at_op = omega arith

  length-encoded : length (encode_op o ++ rest) ≡ 41 + length (o.key ++ (o.value ++ rest))
  unfolding encode_op put_be
  length-encoded = omega (arith, ap (λ (b : Bytes). length b) (append_assoc o.key o.value rest))

module _ (o : TxnSubOp) (rest : Bytes) (f : Fits o) where
  at_lease : u64_at (encode_op o ++ rest) 1 ≡ o.lease
  unfolding encode_op put_be
  at_lease = from_be-put_be 8 o.lease f.lease_fits

  at_create : u64_at (encode_op o ++ rest) 9 ≡ o.create_revision
  unfolding encode_op put_be
  at_create = from_be-put_be 8 o.create_revision f.create_fits

  at_prev : u64_at (encode_op o ++ rest) 17 ≡ o.prev_revision
  unfolding encode_op put_be
  at_prev = from_be-put_be 8 o.prev_revision f.prev_fits

  at_version : u64_at (encode_op o ++ rest) 25 ≡ o.version
  unfolding encode_op put_be
  at_version = from_be-put_be 8 o.version f.version_fits

  at_key_len : u32_at (encode_op o ++ rest) 33 ≡ length o.key
  unfolding encode_op put_be
  at_key_len = from_be-put_be 4 (length o.key) f.key_fits

  at_val_len : u32_at (encode_op o ++ rest) 37 ≡ length o.value
  unfolding encode_op put_be
  at_val_len = from_be-put_be 4 (length o.value) f.value_fits

  decode-op :
      (count : ℕ) (ops : List TxnSubOp)
      → decode_ops (suc count) true (encode_op o ++ rest) ops
        ≡ decode_ops count true rest (ops ++ o ∷ [])
  unfolding decode_ops
  decode-op count ops = rw (
    at_key_len,
    at_val_len,
    at_lease,
    at_create,
    at_prev,
    at_version,
    at_op o rest,
    at_payload o rest,
    take-append_self o.key (o.value ++ rest),
    drop-append_self o.key (o.value ++ rest),
    take-append_self o.value rest,
    drop-append_self o.value rest,
    length-encoded o rest,
    le→ltb_false (41 + length (o.key ++ (o.value ++ rest))) 41 (omega arith),
    le→ltb_false (length (o.key ++ (o.value ++ rest))) (length o.key + length o.value)
        (omega (arith, length-append o.key (o.value ++ rest), length-append o.value rest)),
  )

decode-encode_ops :
    (ops acc : List TxnSubOp)
    → All Fits ops
    → decode_ops (length ops) true (encode_ops ops) acc ≡ ok (acc ++ ops)
unfolding decode_ops encode_ops
decode-encode_ops [] acc f = ap ok (sym (append-nil acc))
decode-encode_ops (o ∷ ops) acc f =
    decode-op o (encode_ops ops) f.0 (length ops) acc
    ∙ decode-encode_ops ops (acc ++ o ∷ []) f.1
    ∙ ap ok (append_assoc acc (o ∷ []) ops)

decode-count :
    (c : ℕ) (rest : Bytes)
    → versioned_flag ≤ c
    → c < 2 ^ 32
    → decode_txn_ops (put_be 4 c ++ rest) ≡ decode_ops (c % versioned_flag) true rest []
unfolding decode_txn_ops
decode-count c rest lo hi = rw (
  count_at c rest hi,
  drop_count c rest,
  le→leb versioned_flag c lo,
  le→ltb_false (length (put_be 4 c ++ rest)) 4
      (omega (arith, length-append (put_be 4 c) rest, length-put_be 4 c)),
)
  where
    drop_count : (n : ℕ) (r : Bytes) → drop 4 (put_be 4 n ++ r) ≡ r
    drop_count n r = unfold put_be in refl

    count_at : (n : ℕ) (r : Bytes) → n < 2 ^ 32 → u32_at (put_be 4 n ++ r) 0 ≡ n
    count_at n r h = unfold put_be in from_be-put_be 4 n h

-- Decoding what was encoded for fewer than 2 ^ 31 operations whose fields fit gives the operations,
-- in order.
pub decode-encode :
    (ops : List TxnSubOp)
    → length ops < 2 ^ 31
    → All Fits ops
    → decode_txn_ops (encode_txn_ops ops) ≡ ok ops
unfolding encode_txn_ops
decode-encode ops h f = rw (flagged (length ops) h) (
    decode-count (length ops + versioned_flag) (encode_ops ops) (omega arith) (omega arith)
    ∙ rw (unflagged (length ops) h) (decode-encode_ops ops [] f))
  where
    flagged :
        (n : ℕ)
        → n < 2 ^ 31
        → (if ltb (n % 2 ^ 32) versioned_flag then n % 2 ^ 32 + versioned_flag else n % 2 ^ 32)
          ≡ n + versioned_flag
    flagged n lt = ground arith

    unflagged : (n : ℕ) → n < 2 ^ 31 → (n + versioned_flag) % versioned_flag ≡ n
    unflagged n lt = omega arith
