-- ===== src/Node/Read.antt =====
-- What is read at an offset, from the bytes that stand there.
use rsocket_js.Common.{
  ℕ, ◌+◌, ◌-◌, ◌≡◌, ap, ◌∙◌, [], ◌∷◌, ◌++◌, arith, length, drop, take, length-drop, drop-drop,
  drop-append, take-append, append-nil,
}
use rsocket_js.Node.{
  Buffer, ok, ℤ, pos, negsuc, u16, u32, bits32, to_int32, read_uint8, read_uint16, read_uint32,
  read_int32, slice,
}
use mathlib.Core.Path.{sym}
use rsocket_js.Node.Write.{IsInt32}

-- From the offset on the buffer holds `rest`.
pub record At (buf : Buffer) (offset : ℕ) (rest : Buffer) : Type 0 where
  pub found : drop offset buf ≡ rest

pub At-append : (front rest : Buffer) → At (front ++ rest) (length front) rest
At-append front rest = record { found = drop-append front rest }

-- Behind the first bytes.
pub At-skip :
    {buf : Buffer} {offset : ℕ} (xs : Buffer) {rest : Buffer}
    → At buf offset (xs ++ rest)
    → At buf (offset + length xs) rest
At-skip {buf} {offset} xs {rest} a = record {
  found = sym (drop-drop offset (length xs) buf) ∙ (rw a.found (drop-append xs rest));
}

pub At-drop :
    {buf : Buffer} {offset : ℕ} (n : ℕ) {rest : Buffer}
    → At buf offset rest
    → At buf (offset + n) (drop n rest)
At-drop {buf} {offset} n a = record { found = sym (drop-drop offset n buf) ∙ ap (drop n) a.found }

pub length-At :
    {buf : Buffer} {offset : ℕ} {rest : Buffer}
    → At buf offset rest
    → length rest ≡ length buf - offset
length-At {buf} {offset} a = rw (← a.found) (length-drop offset buf)

pub read_uint8-At :
    {buf : Buffer} {offset : ℕ} {x : ℕ} {rest : Buffer}
    → At buf offset (x ∷ rest)
    → read_uint8 buf offset ≡ ok x
unfolding read_uint8
read_uint8-At a = rw a.found

pub read_uint16-At :
    {buf : Buffer} {offset : ℕ} (v : ℕ) {rest : Buffer}
    → At buf offset (u16 v ++ rest)
    → read_uint16 buf offset ≡ ok v
unfolding read_uint16
read_uint16-At v a = rw a.found (ap ok (omega arith))

pub read_uint32-At :
    {buf : Buffer} {offset : ℕ} (v : ℕ) {rest : Buffer}
    → At buf offset (u32 v ++ rest)
    → read_uint32 buf offset ≡ ok v
unfolding read_uint32
read_uint32-At v a = rw a.found (ap ok (omega arith))

pub to_int32-bits32 : (z : ℤ) → IsInt32 z → to_int32 (bits32 z) ≡ z
to_int32-bits32 (pos v) h = ground arith
to_int32-bits32 (negsuc v) h = ground arith

pub read_int32-At :
    {buf : Buffer} {offset : ℕ} (z : ℤ) {rest : Buffer}
    → IsInt32 z
    → At buf offset (u32 (bits32 z) ++ rest)
    → read_int32 buf offset ≡ ok z
unfolding read_int32
read_int32-At z h a = rw a.found (ap ok (ap to_int32 (omega arith) ∙ to_int32-bits32 z h))

pub slice-At :
    {buf : Buffer} {offset : ℕ} (xs rest : Buffer)
    → At buf offset (xs ++ rest)
    → slice buf offset (offset + length xs) ≡ xs
unfolding slice
slice-At {offset} xs rest a =
    rw (a.found, (let e : offset + length xs - offset ≡ length xs = omega arith in e))
      (take-append xs rest)

-- Everything that is left.
pub slice_rest-At :
    {buf : Buffer} {offset : ℕ} {rest : Buffer}
    → At buf offset rest
    → slice buf offset (length buf) ≡ rest
unfolding slice
slice_rest-At {buf} {offset} {rest} a =
    rw (a.found, ← length-At a)
      (ap (take (length rest)) (sym (append-nil rest)) ∙ take-append rest [])
