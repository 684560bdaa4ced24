-- ===== src/Wal/TxnOps.antt =====
-- internal/wal/entry.go: the operations of a transaction entry, in its value.
pub mod RoundTrip
use t.Prelude.{
  ℕ, zero, suc, ◌+◌, ◌%◌, ◌^◌, ◌<◌, Bool, List, [], ◌∷◌, ◌++◌, Bytes, length, take, drop, ltb, leb,
  if◌then◌else◌,
}
use t.Prelude.BigEndian.{put_be}
use t.Result.{Result, ok, err}
use t.Wal.{Op}
use t.Wal.Errors.{
  WalError, txn_too_short, txn_header_truncated, txn_payload_truncated, u64_at, u32_at, byte_at,
}

pub record TxnSubOp : Type 0 where
  pub op : Op
  pub key : Bytes
  pub value : Bytes
  pub lease : ℕ
  pub create_revision : ℕ
  pub prev_revision : ℕ
  pub version : ℕ

-- 1 << 31
abbrev pub versioned_flag : ℕ
versioned_flag = 2 ^ 31

abbrev pub sub_op_fixed_size_v1 : ℕ
sub_op_fixed_size_v1 = 33

abbrev pub sub_op_fixed_size : ℕ
sub_op_fixed_size = 41

-- `flag | x` for a uint32 x: the top bit is set.
abbrev set_flag : ℕ → ℕ
set_flag x = if ltb x versioned_flag then x + versioned_flag else x

unfoldable pub encode_op : TxnSubOp → Bytes
encode_op o =
    o.op
    ∷ (put_be 8 o.lease
        ++ (put_be 8 o.create_revision
            ++ (put_be 8 o.prev_revision
                ++ (put_be 8 o.version
                    ++ (put_be 4 (length o.key)
                        ++ (put_be 4 (length o.value) ++ (o.key ++ o.value)))))))

-- The loop over the operations.
unfoldable pub encode_ops : List TxnSubOp → Bytes
unfolding encode_op
encode_ops [] = []
encode_ops (o ∷ ops) = encode_op o ++ encode_ops ops

unfoldable pub encode_txn_ops : List TxnSubOp → Bytes
unfolding encode_ops
encode_txn_ops ops = put_be 4 (set_flag (length ops % 2 ^ 32)) ++ encode_ops ops

-- The rounds that are left, what stands at `b[off:]`, and the operations decoded so far.
unfoldable pub decode_ops : ℕ → Bool → Bytes → List TxnSubOp → Result WalError (List TxnSubOp)
decode_ops zero versioned b ops = ok ops
decode_ops (suc count) versioned b ops =
    let fixed_size = if versioned then sub_op_fixed_size else sub_op_fixed_size_v1 in
    let key_len_offset : ℕ = if versioned then 33 else 25 in
    let key_len = u32_at b key_len_offset in
    let val_len = u32_at b (key_len_offset + 4) in
    let payload = drop fixed_size b in
    let o : TxnSubOp = record {
      op = byte_at b 0;
      key = take key_len payload;
      value = take val_len (drop key_len payload);
      lease = u64_at b 1;
      create_revision = u64_at b 9;
      prev_revision = u64_at b 17;
      version = if versioned then u64_at b 25 else 0;
    } in
    let more = decode_ops count versioned (drop val_len (drop key_len payload)) (ops ++ o ∷ []) in
    if ltb (length b) fixed_size
    then err txn_header_truncated
    else if ltb (length payload) (key_len + val_len)
    then err txn_payload_truncated
    else more

-- `raw & flag != 0` and `raw &^ flag`, of a uint32
unfoldable pub decode_txn_ops : Bytes → Result WalError (List TxnSubOp)
unfolding decode_ops
decode_txn_ops b =
    let raw_count = u32_at b 0 in
    let versioned = leb versioned_flag raw_count in
    if ltb (length b) 4
    then err txn_too_short
    else decode_ops (raw_count % versioned_flag) versioned (drop 4 b) []
