-- ===== src/Node/Write.antt =====
-- What a sequence of writes leaves in a buffer.
use rsocket_js.Common.{
  ℕ, zero, suc, ◌+◌, ◌≤◌, ◌<◌, ◌≡◌, refl, ap, ◌∙◌, [], ◌∷◌, ◌++◌, arith, length, drop,
  length-append, length-drop, drop-drop, drop-all, append-nil, append_assoc, lt→ltb, le→leb,
  take-all,
}
use mathlib.Core.Path.{ap₂, sym}
use rsocket_js.Node.{
  Buffer, Writer, ok, ℤ, pos, negsuc, alloc_unsafe, overwrite, ◌>>◌, skip, write_fixed, copy,
  write_text, write_uint8, write_uint16, write_uint32, write_int32, write_all, u16, u32, bits32,
}

-- Over any buffer with room from the offset on, `m` puts `bytes` there, moves the offset behind
-- them, and leaves the rest of the buffer as it was.
pub record Writes (m : Writer) (bytes : Buffer) : Type 0 where
  pub run :
      (done old : Buffer)
      → length bytes ≤ length old
      → m (done ++ old) (length done)
        ≡ ok (done ++ (bytes ++ drop (length bytes) old), length done + length bytes)

overwrite-append :
    (done bytes old : Buffer)
    → length bytes ≤ length old
    → overwrite (length done) bytes (done ++ old) ≡ done ++ (bytes ++ drop (length bytes) old)
unfolding overwrite
overwrite-append [] [] old h = refl
overwrite-append [] (x ∷ xs) [] h = absurd (omega arith)
overwrite-append [] (x ∷ xs) (b ∷ old) h = ap (◌∷◌ x) (overwrite-append [] xs old (omega arith))
overwrite-append (d ∷ done) bytes old h = ap (◌∷◌ d) (overwrite-append done bytes old h)

pub skip-Writes : Writes skip []
unfolding skip
skip-Writes = record { run = λ done old h. ground arith }

regroup :
    (done xs ys old : Buffer)
    → (done ++ xs) ++ (ys ++ drop (length ys) (drop (length xs) old))
      ≡ done ++ ((xs ++ ys) ++ drop (length (xs ++ ys)) old)
regroup done xs ys old =
    rw (drop-drop (length xs) (length ys) old, length-append xs ys)
      (append_assoc done xs _ ∙ ap (◌++◌ done) (sym (append_assoc xs ys _)))

pub >>-Writes :
    {m k : Writer} {xs ys : Buffer} → Writes m xs → Writes k ys → Writes (m >> k) (xs ++ ys)
unfolding ◌>>◌
>>-Writes {m} {k} {xs} {ys} f g = record {
  run = λ done old h.
      rw (f.run done old (omega (arith, length-append xs ys)), ◌>>◌)
        (rw (← append_assoc, ← length-append)
          (g.run (done ++ xs) (drop (length xs) old)
              (omega (arith, length-append xs ys, length-drop (length xs) old))
            ∙ ap₂ (λ b o. ok (b, o)) (regroup done xs ys old)
                (omega (arith, length-append done xs, length-append xs ys))));
}

pub write_fixed-Writes : (bytes : Buffer) → Writes (write_fixed bytes) bytes
unfolding write_fixed
write_fixed-Writes bytes = record {
  run = λ done old h.
      rw
        (le→leb (length done + length bytes) (length (done ++ old))
          (omega (arith, length-append done old)))
        (ap (λ b. ok (b, length done + length bytes)) (overwrite-append done bytes old h));
}

pub copy-Writes : (bytes : Buffer) → Writes (copy bytes) bytes
unfolding copy
copy-Writes bytes = record {
  run = λ done old h.
      ap₂ (λ b o. ok (b, o)) (overwrite-append done bytes old h)
        (omega (arith, length-append done old));
}

-- `buffer.write(text, offset, offset + byteLength)` writes the whole text.
pub write_text-Writes :
    (bytes : Buffer) → Writes (write_text bytes (λ offset. offset + length bytes)) bytes
unfolding write_text
write_text-Writes bytes = record {
  run = λ done old h.
      rw
        (
          le→leb (length done) (length (done ++ old)) (omega (arith, length-append done old)),
          le→leb (length done + length bytes) (length (done ++ old))
              (omega (arith, length-append done old)),
          take-all (length done + length bytes) bytes (omega arith),
        )
        ((copy-Writes bytes).run done old h);
}

pub write_uint8-Writes : (v : ℕ) → v < 256 → Writes (write_uint8 v) (v ∷ [])
unfolding write_uint8
write_uint8-Writes v h = rw (lt→ltb v 256 h) (write_fixed-Writes _)

pub write_uint16-Writes : (v : ℕ) → v < 65536 → Writes (write_uint16 v) (u16 v)
unfolding write_uint16
write_uint16-Writes v h = rw (lt→ltb v 65536 h) (write_fixed-Writes _)

pub write_uint32-Writes : (v : ℕ) → v < 4294967296 → Writes (write_uint32 (pos v)) (u32 v)
unfolding write_uint32
write_uint32-Writes v h = rw (lt→ltb v 4294967296 h) (write_fixed-Writes _)

-- The numbers that an int32 holds.
abbrev pub IsInt32 : ℤ → Type 0
IsInt32 (pos v) = v < 2147483648
IsInt32 (negsuc v) = v < 2147483648

pub write_int32-Writes : (z : ℤ) → IsInt32 z → Writes (write_int32 z) (u32 (bits32 z))
unfolding write_int32
write_int32-Writes (pos v) h = rw (lt→ltb v 2147483648 h) (write_fixed-Writes _)
write_int32-Writes (negsuc v) h = rw (lt→ltb v 2147483648 h) (write_fixed-Writes _)

length-alloc_unsafe : (memory : ℕ → ℕ) (n : ℕ) → length (alloc_unsafe memory n) ≡ n
unfolding alloc_unsafe
length-alloc_unsafe memory zero = refl
length-alloc_unsafe memory (suc n) = ap suc (length-alloc_unsafe memory n)

-- If the buffer was allocated with exactly the size of what is written, nothing of the memory's old
-- content is left in it.
pub write_all_lem :
    {m : Writer} {bytes : Buffer} (memory : ℕ → ℕ) (n : ℕ)
    → Writes m bytes
    → length bytes ≡ n
    → write_all memory n m ≡ ok bytes
unfolding write_all
write_all_lem {m} {bytes} memory n w e =
    let old : Buffer = alloc_unsafe memory n in
    rw (w.run [] old (omega (arith, length-alloc_unsafe memory n)), write_all)
      (rw (drop-all (length bytes) old (omega (arith, length-alloc_unsafe memory n)))
        (ap ok (append-nil bytes)))
