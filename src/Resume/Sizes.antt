-- ===== src/Resume/Sizes.antt =====
-- packages/rsocket-core/src/Resume.ts: the sizes of stored frames, and dropping frames up to a position.
use rsocket_js.Common.{
  ℕ, suc, ◌+◌, ◌≡◌, refl, ap, ◌∙◌, arith, true, Option, none, some, List, [], ◌∷◌, ◌++◌, ltb,
}
use rsocket_js.Node.{pos, Runtime}
use rsocket_js.Node.Signed.{minus}
use rsocket_js.Frames.{Frame}
use rsocket_js.Codecs.{size_of_frame}
use rsocket_js.Resume.{FrameStore, drop_frames, after_drop, drop_to, plus_size}

module _ (rt : Runtime) where
  -- A frame whose size is known, which is one byte at least.
  pub record IsSized (frame : Frame) : Type 0 where
    pub rest : ℕ
    pub sized : size_of_frame rt frame ≡ some (suc rest)

  abbrev pub AllSized : List Frame → Type 0
  AllSized [] = Unit {0}
  AllSized (frame ∷ frames) = IsSized frame × AllSized frames

  unfoldable pub bytes_of : Option ℕ → ℕ
  bytes_of none = 0
  bytes_of (some n) = n

  unfoldable pub total : List Frame → ℕ
  total [] = 0
  total (frame ∷ frames) = bytes_of (size_of_frame rt frame) + total frames

  drop_frames-total :
      (xs ys : List Frame)
      → AllSized xs
      → drop_frames rt (some (pos (total xs))) (xs ++ ys) ≡ (some (pos 0), ys)
  unfolding drop_frames total bytes_of minus
  drop_frames-total [] [] h = refl
  drop_frames-total [] (y ∷ ys) h = refl
  drop_frames-total (x ∷ xs) ys (hx, h) =
      let n = hx.rest + total xs in
      let some_bytes : ltb 0 (suc hx.rest + total xs) ≡ true = ground arith in
      let less : minus (pos (suc hx.rest + total xs)) (suc hx.rest) ≡ pos (total xs) =
        ground arith in
      rw (hx.sized, some_bytes, less) (drop_frames-total xs ys h)

  total-append : (xs ys : List Frame) → total (xs ++ ys) ≡ total xs + total ys
  unfolding total
  total-append [] ys = omega arith
  total-append (x ∷ xs) ys = rw (total-append xs ys) (omega arith)

  pub AllSized-append : (xs ys : List Frame) → AllSized xs → AllSized ys → AllSized (xs ++ ys)
  AllSized-append [] ys h k = k
  AllSized-append (x ∷ xs) ys (hx, h) k = (hx, AllSized-append xs ys h k)

  minus-add : (a b : ℕ) → minus (pos (a + b)) a ≡ pos b
  unfolding minus
  minus-add a b = ground arith

  pub drop_to-untold :
      (s : FrameStore) (xs ys : List Frame)
      → s.stored_frames ≡ xs ++ ys
      → AllSized xs
      → drop_to rt (s.first_available_frame_position + total xs) s ≡ (
        record s {
          stored_frames = ys;
          first_available_frame_position = s.first_available_frame_position + total xs;
        },
        none,
      )
  unfolding drop_to
  drop_to-untold s xs ys e h =
      let position = s.first_available_frame_position + total xs in
      let bytes = minus (pos position) s.first_available_frame_position in
      ap (after_drop rt position bytes s) (
        ap (λ b. drop_frames rt (some b) s.stored_frames)
          (minus-add s.first_available_frame_position (total xs))
        ∙ ap (drop_frames rt (some (pos (total xs)))) e
        ∙ drop_frames-total xs ys h)

  pub recorded :
      (frame : Frame) (xs : List Frame) (p : Option ℕ) (first : ℕ)
      → IsSized frame
      → p ≡ some (first + total xs)
      → plus_size p (size_of_frame rt frame) ≡ some (first + total (xs ++ frame ∷ []))
  unfolding total bytes_of
  recorded frame xs p first h e =
      let one : total (frame ∷ []) ≡ suc h.rest = rw h.sized (omega arith) in
      ap (λ q. plus_size q (size_of_frame rt frame)) e
      ∙ ap (plus_size (some (first + total xs))) h.sized
      ∙ ap some (rw (total-append xs (frame ∷ []), one) (omega arith))
