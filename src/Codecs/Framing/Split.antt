-- ===== src/Codecs/Framing/Split.antt =====
-- Splitting a frame from the front of a buffer: what is left, what was there, and more behind it.
use rsocket_js.Common.{
  ℕ, zero, suc, ◌+◌, ◌*◌, ◌/◌, ◌%◌, ◌^◌, ◌≤◌, ◌<◌, ◌≡◌, refl, ap, ◌∙◌, [], ◌∷◌, ◌++◌, arith, length,
  some, take, drop, length-take, length-drop, length-append, bit_or, take-append, drop-append,
}
use mathlib.Core.Path.{ap₂}
use rsocket_js.Node.{Buffer}
use rsocket_js.Codecs.Framing.{split_body, split_frame, framed, split_body-some}
use rsocket_js.Codecs.RoundTrip.Parts.{joined_bytes}

split_body-length :
    (n : ℕ) (buf body rest : Buffer)
    → split_body n buf ≡ some (body, rest)
    → length body + length rest ≡ length buf
unfolding split_body
split_body-length n [] body rest e = cc
split_body-length n (b ∷ buf) body rest e =
    ground (arith, length-take n (b ∷ buf), length-drop n (b ∷ buf))

-- The split takes the three bytes of the length and the frame off the buffer.
pub split_frame-length :
    (buf body rest : Buffer)
    → split_frame buf ≡ some (body, rest)
    → length body + length rest + 3 ≡ length buf
unfolding split_frame
split_frame-length [] body rest e = cc
split_frame-length (a ∷ []) body rest e = cc
split_frame-length (a ∷ b ∷ []) body rest e = cc
split_frame-length (a ∷ b ∷ c ∷ buf) body rest e =
    omega (arith, split_body-length (bit_or (bit_or (a * 2 ^ 16) (b * 2 ^ 8)) c) buf body rest e)

take-append_le : (n : ℕ) (xs ys : Buffer) → n ≤ length xs → take n (xs ++ ys) ≡ take n xs
take-append_le zero xs ys h = refl
take-append_le (suc n) [] ys h = absurd (omega arith)
take-append_le (suc n) (x ∷ xs) ys h = ap (◌∷◌ x) (take-append_le n xs ys (omega arith))

drop-append_le : (n : ℕ) (xs ys : Buffer) → n ≤ length xs → drop n (xs ++ ys) ≡ drop n xs ++ ys
drop-append_le zero xs ys h = refl
drop-append_le (suc n) [] ys h = absurd (omega arith)
drop-append_le (suc n) (x ∷ xs) ys h = drop-append_le n xs ys (omega arith)

split_body-append :
    (n : ℕ) (buf more body rest : Buffer)
    → split_body n buf ≡ some (body, rest)
    → split_body n (buf ++ more) ≡ some (body, rest ++ more)
unfolding split_body
split_body-append n [] more body rest e = cc
split_body-append n (b ∷ buf) more body rest e = ground (
  arith,
  length-append buf more,
  take-append_le n (b ∷ buf) more,
  drop-append_le n (b ∷ buf) more,
)

-- More bytes behind do not change the frame that is there.
pub split_frame-append :
    (buf more body rest : Buffer)
    → split_frame buf ≡ some (body, rest)
    → split_frame (buf ++ more) ≡ some (body, rest ++ more)
unfolding split_frame
split_frame-append [] more body rest e = cc
split_frame-append (a ∷ []) more body rest e = cc
split_frame-append (a ∷ b ∷ []) more body rest e = cc
split_frame-append (a ∷ b ∷ c ∷ buf) more body rest e =
    split_body-append (bit_or (bit_or (a * 2 ^ 16) (b * 2 ^ 8)) c) buf more body rest e

split_body-front :
    (body rest : Buffer)
    → 0 < length body
    → split_body (length body) (body ++ rest) ≡ some (body, rest)
split_body-front body rest h =
    split_body-some (length body) (body ++ rest) (omega (arith, length-append body rest))
      (omega (arith, length-append body rest))
    ∙ ap₂ (λ x y. some (x, y)) (take-append body rest) (drop-append body rest)

-- A frame behind its number is split off whole.
pub split_frame-framed :
    (body rest : Buffer)
    → 0 < length body
    → length body < 2 ^ 24
    → split_frame (framed body ++ rest) ≡ some (body, rest)
unfolding split_frame
split_frame-framed body rest h fits =
    rw
      (joined_bytes (length body / 65536) (length body / 256 % 256) (length body % 256)
        (omega arith) (omega arith))
      (ap (λ n. split_body n (body ++ rest)) (omega arith) ∙ split_body-front body rest h)
