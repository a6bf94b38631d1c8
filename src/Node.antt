-- ===== src/Node.antt =====
-- The language and the runtime as the code uses them: numbers, thrown errors, nullable references,
-- and the part of Node's Buffer class that packages/rsocket-core/src/Codecs.ts calls. A Buffer is the list
-- of its bytes. A write out of bounds, or of a value out of range, throws; `copy` and `slice` clamp.
pub mod Write
pub mod Read
pub mod Signed
use rsocket_js.Common.{
  ℕ, zero, suc, ◌+◌, ◌-◌, ◌*◌, ◌/◌, ◌%◌, min, List, [], ◌∷◌, ltb, leb, length, take, drop,
  if◌then◌else◌, ◌&&◌, Option,
}

-- A signed number; `negsuc n` is -(n + 1).
pub data ℤ : Type 0 where
  pos : ℕ → ℤ
  negsuc : ℕ → ℤ

-- A plain error is one of the class Error; its message is left out.
pub data Error : Type 0 where
  range_error type_error reference_error plain_error : Error

pub data Result {ℓ} (A : Type ℓ) : Type ℓ where
  ok : A → Result A
  throw : Error → Result A

infixl 5 ◌>>=◌
abbrev pub ◌>>=◌ {ℓ κ} : {A : Type ℓ} {B : Type κ} → Result A → (A → Result B) → Result B
ok a >>= f = f a
throw e >>= f = throw e

abbrev pub Buffer : Type 0
Buffer = List ℕ

-- A field of the type `Buffer | null | undefined`.
pub data BufferRef : Type 0 where
  undefined null : BufferRef
  buffer : Buffer → BufferRef

-- `ref != null ? ref.byteLength : 0`
abbrev pub byte_length : BufferRef → ℕ
byte_length undefined = 0
byte_length null = 0
byte_length (buffer b) = length b

-- What the code takes from its surroundings: the two directions of UTF-8, over strings as lists of
-- code units, the bytes that fresh memory holds, and the global variable `length`, if there is one.
pub record Runtime : Type 0 where
  pub utf8_encode : List ℕ → Buffer
  pub utf8_decode : Buffer → List ℕ
  pub memory : ℕ → ℕ
  pub global_length : Option ℕ

-- `Buffer.allocUnsafe(n)`: n bytes, whatever they are.
pub alloc_unsafe : (ℕ → ℕ) → ℕ → Buffer
alloc_unsafe memory zero = []
alloc_unsafe memory (suc n) = memory n ∷ alloc_unsafe memory n

-- Bytes put into a buffer from an offset on; those that do not fit are dropped.
pub overwrite : ℕ → Buffer → Buffer → Buffer
overwrite zero [] buf = buf
overwrite zero (x ∷ xs) [] = []
overwrite zero (x ∷ xs) (b ∷ buf) = x ∷ overwrite zero xs buf
overwrite (suc o) xs [] = []
overwrite (suc o) xs (b ∷ buf) = b ∷ overwrite o xs buf

-- A write takes the buffer and the offset, and returns them as they are after it.
abbrev pub Writer : Type 0
Writer = Buffer → ℕ → Result (Buffer × ℕ)

infixr 6 ◌>>◌
unfoldable pub ◌>>◌ : Writer → Writer → Writer
◌>>◌ m k buf offset = elim (m buf offset) [
  | ok (buf', offset') ↦ k buf' offset'
  | throw e ↦ throw e
]

unfoldable pub skip : Writer
skip buf offset = ok (buf, offset)

unfoldable pub write_fixed : Buffer → Writer
write_fixed bytes buf offset =
    if leb (offset + length bytes) (length buf)
    then ok (overwrite offset bytes buf, offset + length bytes)
    else throw range_error

-- `offset += source.copy(target, offset)`: what does not fit is left out.
unfoldable pub copy : Buffer → Writer
copy bytes buf offset =
    ok (overwrite offset bytes buf, offset + min (length bytes) (length buf - offset))

-- `offset += buffer.write(text, offset, size, encoding)` over the bytes of the text: at most `size`
-- bytes, and both numbers must lie within the buffer.
unfoldable pub write_text : Buffer → (ℕ → ℕ) → Writer
unfolding copy
write_text bytes size buf offset =
    if leb offset (length buf) && leb (size offset) (length buf)
    then copy (take (size offset) bytes) buf offset
    else throw range_error

abbrev pub u16 : ℕ → Buffer
u16 v = (v / 256) ∷ (v % 256) ∷ []

abbrev pub u32 : ℕ → Buffer
u32 v = (v / 16777216) ∷ (v / 65536 % 256) ∷ (v / 256 % 256) ∷ (v % 256) ∷ []

unfoldable pub write_uint8 : ℕ → Writer
unfolding write_fixed
write_uint8 v = if ltb v 256 then write_fixed (v ∷ []) else λ _ _. throw range_error

unfoldable pub write_uint16 : ℕ → Writer
unfolding write_fixed
write_uint16 v = if ltb v 65536 then write_fixed (u16 v) else λ _ _. throw range_error

unfoldable pub write_uint32 : ℤ → Writer
unfolding write_fixed
write_uint32 (pos v) = if ltb v 4294967296 then write_fixed (u32 v) else λ _ _. throw range_error
write_uint32 (negsuc v) = λ _ _. throw range_error

-- The two's complement bits of a number that fits 32 bits.
abbrev pub bits32 : ℤ → ℕ
bits32 (pos v) = v
bits32 (negsuc v) = 4294967295 - v

unfoldable pub write_int32 : ℤ → Writer
unfolding write_fixed
write_int32 (pos v) = if ltb v 2147483648 then write_fixed (u32 v) else λ _ _. throw range_error
write_int32 (negsuc v) =
    if ltb v 2147483648 then write_fixed (u32 (4294967295 - v)) else λ _ _. throw range_error

-- A buffer of `size` bytes after the writes, which start at offset 0.
unfoldable pub write_all : (ℕ → ℕ) → ℕ → Writer → Result Buffer
write_all memory size w = elim (w (alloc_unsafe memory size) 0) [
  | ok (buf, offset) ↦ ok buf
  | throw e ↦ throw e
]

abbrev pub uint8_of : Buffer → Result ℕ
uint8_of [] = throw range_error
uint8_of (a ∷ _) = ok a

abbrev pub uint16_of : Buffer → Result ℕ
uint16_of (a ∷ b ∷ _) = ok (a * 256 + b)
uint16_of _ = throw range_error

abbrev pub uint32_of : Buffer → Result ℕ
uint32_of (a ∷ b ∷ c ∷ d ∷ _) = ok (a * 16777216 + b * 65536 + c * 256 + d)
uint32_of _ = throw range_error

-- The number with the given 32 bits, and with the given 16 bits.
abbrev pub to_int32 : ℕ → ℤ
to_int32 n = if ltb n 2147483648 then pos n else negsuc (4294967295 - n)

abbrev pub to_int16 : ℕ → ℤ
to_int16 n = if ltb n 32768 then pos n else negsuc (65535 - n)

unfoldable pub read_uint8 : Buffer → ℕ → Result ℕ
read_uint8 buf offset = uint8_of (drop offset buf)

unfoldable pub read_uint16 : Buffer → ℕ → Result ℕ
read_uint16 buf offset = uint16_of (drop offset buf)

unfoldable pub read_uint32 : Buffer → ℕ → Result ℕ
read_uint32 buf offset = uint32_of (drop offset buf)

unfoldable pub read_int32 : Buffer → ℕ → Result ℤ
read_int32 buf offset = uint32_of (drop offset buf) >>= λ n. ok (to_int32 n)

unfoldable pub read_int16 : Buffer → ℕ → Result ℤ
read_int16 buf offset = uint16_of (drop offset buf) >>= λ n. ok (to_int16 n)

-- `buf.slice(from, to)`
unfoldable pub slice : Buffer → ℕ → ℕ → Buffer
slice buf from to = take (to - from) (drop from buf)

-- offset + length, for a length that may have been read as a negative number.
unfoldable pub advance : ℕ → ℤ → ℤ
advance offset (pos n) = pos (offset + n)
advance offset (negsuc n) = if leb (suc n) offset then pos (offset - suc n) else negsuc (n - offset)

-- `buf.slice(from, to)` where `to` may be negative: it then counts from the end.
unfoldable pub slice_to : Buffer → ℕ → ℤ → Buffer
unfolding slice
slice_to buf from (pos to) = slice buf from to
slice_to buf from (negsuc n) = slice buf from (length buf - suc n)

-- A read at a negative offset throws.
unfoldable pub checked : ℤ → Result ℕ
checked (pos offset) = ok offset
checked (negsuc n) = throw range_error
