-- ===== src/Wal/Frame/Crc.antt =====
-- hash/crc32 with the Castagnoli table, a bit at a time: the reflected polynomial 0x82f63b78.
use Prim.Native.Nat.{bit_xor}
use mathlib.Core.List.{foldl}
use t.Prelude.{
  ℕ, zero, suc, ◌/◌, ◌%◌, ◌^◌, ◌<◌, ◌≡◌, refl, Bytes, ascii, ◌==◌, if◌then◌else◌, arith,
}

crc_bits : ℕ → ℕ → ℕ
crc_bits zero c = c
crc_bits (suc n) c = crc_bits n (if c % 2 == 1 then bit_xor (c / 2) 0x82f63b78 else c / 2)

crc_byte : ℕ → ℕ → ℕ
unfolding crc_bits
crc_byte c b = crc_bits 8 (bit_xor c b)

-- `crc32.Checksum(b, crcTable)`, a uint32
pub checksum : Bytes → ℕ
unfolding crc_byte
checksum b = bit_xor (foldl crc_byte 0xffff_ffff b) 0xffff_ffff % 2 ^ 32

pub checksum_lt : (b : Bytes) → checksum b < 2 ^ 32
unfolding checksum
checksum_lt b = omega arith

check_value : checksum (ascii "123456789") ≡ 0xe306_9283
unfolding checksum
check_value = refl
