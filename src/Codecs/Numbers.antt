-- ===== src/Codecs/Numbers.antt =====
-- packages/rsocket-core/src/Codecs.ts: numbers of 24 and of 64 bits.
use rsocket_js.Common.{ℕ, ◌+◌, ◌*◌, ◌/◌, ◌%◌, ◌^◌, bit_or}
use rsocket_js.Node.{
  Buffer, Writer, Result, ok, ◌>>=◌, ◌>>◌, pos, to_int32, write_uint8, write_uint32, read_uint8,
  read_uint32,
}

unfoldable pub read_uint24 : Buffer → ℕ → Result ℕ
read_uint24 buf offset = do
  a ← read_uint8 buf offset
  b ← read_uint8 buf (offset + 1)
  c ← read_uint8 buf (offset + 2)
  ok (bit_or (bit_or (a * 2 ^ 16) (b * 2 ^ 8)) c)

-- A mask `& 0xff` is the remainder by 256, and a shift `>>> 16` of a 32-bit number a division.
unfoldable pub write_uint24 : ℕ → Writer
write_uint24 value =
    write_uint8 (value % 2 ^ 32 / 2 ^ 16)
    >> write_uint8 (value % 2 ^ 32 / 2 ^ 8 % 256)
    >> write_uint8 (value % 256)

abbrev pub bitwise_overflow : ℕ
bitwise_overflow = 0x100000000

unfoldable pub read_uint64 : Buffer → ℕ → Result ℕ
read_uint64 buf offset = do
  high ← read_uint32 buf offset
  low ← read_uint32 buf (offset + 4)
  ok (high * bitwise_overflow + low)

-- `(value / BITWISE_OVERFLOW) | 0` is a signed number of 32 bits.
unfoldable pub write_uint64 : ℕ → Writer
write_uint64 value =
    write_uint32 (to_int32 (value / bitwise_overflow % bitwise_overflow))
    >> write_uint32 (pos (value % bitwise_overflow))
