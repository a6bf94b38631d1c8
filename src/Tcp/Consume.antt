-- ===== src/Tcp/Consume.antt =====
-- packages/rsocket-tcp-client/src/TcpDuplexConnection.ts: the bytes of a chunk, taken frame by frame.
use rsocket_js.Common.{
  ℕ, zero, suc, ◌+◌, ◌-◌, ◌<◌, ◌≡◌, refl, ap, ◌∙◌, [], ◌∷◌, ◌++◌, arith, length, drop, Option, none,
  some, Option-cases, inl, inr, length-append, bit_or, ◌*◌, ◌^◌, take-append-drop, take-all,
  length-drop,
}
use rsocket_js.Node.{Buffer, Error, Result, ok, throw, Runtime, slice}
use rsocket_js.Node.Read.{At, At-skip}
use rsocket_js.Frames.{Frame}
use rsocket_js.Codecs.{deserialize_frame, yield, yield_or_fail}
use rsocket_js.Codecs.Framing.{split_body, split_frame, frames_of}
use rsocket_js.Codecs.Framing.Split.{split_frame-length, split_frame-append}
use rsocket_js.Tcp.{
  Core, handle_with, Outcome, handled, threw, Surroundings, Round, all_handled, cut_off,
  handle_frames,
}

-- What becomes of a buffer: all its frames are handled and the rest is kept, or something threw.
pub data Consumed (S : Type 0) : Type 0 where
  kept : Buffer → Core S → Consumed S
  failed : Error → Core S → Consumed S

split_body-pieces :
    (n : ℕ) (buf body rest : Buffer) → split_body n buf ≡ some (body, rest) → body ++ rest ≡ buf
unfolding split_body
split_body-pieces n [] body rest e = cc
split_body-pieces n (b ∷ buf) body rest e = ground (arith, take-append-drop n (b ∷ buf))

pub split_frame-At :
    {whole : Buffer} {offset : ℕ} (buf body rest : Buffer)
    → split_frame buf ≡ some (body, rest)
    → At whole offset buf
    → At whole (offset + 3 + length body) rest
unfolding split_frame
split_frame-At [] body rest e a = cc
split_frame-At (x ∷ []) body rest e a = cc
split_frame-At (x ∷ y ∷ []) body rest e a = cc
split_frame-At {whole} {offset} (x ∷ y ∷ z ∷ buf) body rest e a = At-skip body (
    rw (split_body-pieces (bit_or (bit_or (x * 2 ^ 16) (y * 2 ^ 8)) z) buf body rest e)
      (At-skip (x ∷ y ∷ z ∷ []) a))

module _ {S : Type 0} (rt : Runtime) (env : Surroundings S) where
  -- Without offsets; one frame goes with one unit of fuel.
  abbrev pub after_outcome : (Buffer → Core S → Consumed S) → Buffer → Outcome S → Consumed S
  after_outcome more rest (handled s) = more rest s
  after_outcome more rest (threw e s) = failed e s

  abbrev pub after_read :
      (Buffer → Core S → Consumed S) → Buffer → Core S → Result (Option Frame) → Consumed S
  after_read more rest s (ok frame) =
      after_outcome more rest (handle_with rt env (env.handle frame s.around) s)
  after_read more rest s (throw e) = failed e s

  abbrev pub after_split :
      (Buffer → Core S → Consumed S) → Buffer → Core S → Option (Buffer × Buffer) → Consumed S
  after_split more buf s none = kept buf s
  after_split more buf s (some (body, rest)) = after_read more rest s (deserialize_frame rt body)

  unfoldable pub consume : ℕ → Buffer → Core S → Consumed S
  consume zero buf s = kept buf s
  consume (suc fuel) buf s = after_split (consume fuel) buf s (split_frame buf)

  -- Two numbers above the length do the same.
  pub consume-enough :
      (m n : ℕ) (buf : Buffer) (s : Core S)
      → length buf < m
      → length buf < n
      → consume m buf s ≡ consume n buf s
  unfolding consume
  consume-enough zero n buf s hm hn = absurd (omega arith)
  consume-enough (suc m) zero buf s hm hn = absurd (omega arith)
  consume-enough (suc m) (suc n) buf s hm hn = elim (Option-cases (split_frame buf)) [
    | inl e ↦ rw e refl
    | inr ((body, rest), e) ↦
        let same : (s' : Core S) → consume m rest s' ≡ consume n rest s' = λ s'.
          consume-enough m n rest s' (omega (arith, split_frame-length buf body rest e))
            (omega (arith, split_frame-length buf body rest e)) in
        rw e (go (deserialize_frame rt body) rest same)
  ]
    where
      go_outcome :
          (o : Outcome S) (rest : Buffer)
          → ((s' : Core S) → consume m rest s' ≡ consume n rest s')
          → after_outcome (consume m) rest o ≡ after_outcome (consume n) rest o
      go_outcome (handled s') rest same = same s'
      go_outcome (threw e s') rest same = refl

      go :
          (r : Result (Option Frame)) (rest : Buffer)
          → ((s' : Core S) → consume m rest s' ≡ consume n rest s')
          → after_read (consume m) rest s r ≡ after_read (consume n) rest s r
      go (ok frame) rest same =
          go_outcome (handle_with rt env (env.handle frame s.around) s) rest same
      go (throw e) rest same = refl

  pub consume-none :
      (m : ℕ) (buf : Buffer) (s : Core S)
      → split_frame buf ≡ none
      → consume (suc m) buf s ≡ kept buf s
  unfolding consume
  consume-none m buf s e = rw e refl

  pub consume-some :
      (m : ℕ) (buf body rest : Buffer) (s : Core S)
      → split_frame buf ≡ some (body, rest)
      → consume (suc m) buf s ≡ after_read (consume m) rest s (deserialize_frame rt body)
  unfolding consume
  consume-some m buf body rest s e = rw e refl

  -- The rest of what was consumed, with more bytes behind it.
  unfoldable pub then_consume : Buffer → Consumed S → Consumed S
  then_consume more (kept rest s) = consume (suc (length (rest ++ more))) (rest ++ more) s
  then_consume more (failed e s) = failed e s

  after_read-append :
      (m : ℕ) (rest more : Buffer) (s : Core S) (r : Result (Option Frame))
      → ((s' : Core S) → consume m (rest ++ more) s' ≡ then_consume more (consume m rest s'))
      → after_read (consume m) (rest ++ more) s r
        ≡ then_consume more (after_read (consume m) rest s r)
  unfolding then_consume
  after_read-append m rest more s (throw e) ih = refl
  after_read-append m rest more s (ok frame) ih =
      go (handle_with rt env (env.handle frame s.around) s)
    where
      go :
          (o : Outcome S)
          → after_outcome (consume m) (rest ++ more) o
            ≡ then_consume more (after_outcome (consume m) rest o)
      go (handled s') = ih s'
      go (threw e s') = refl

  -- Bytes that come in one piece are consumed like the same bytes in two.
  pub consume-append :
      (m : ℕ) (buf more : Buffer) (s : Core S)
      → length (buf ++ more) < m
      → consume m (buf ++ more) s ≡ then_consume more (consume m buf s)
  consume-append zero buf more s hm = absurd (omega arith)
  consume-append (suc m) buf more s hm = elim (Option-cases (split_frame buf)) [
    | inl e ↦ rw (consume-none m buf s e) (
        unfold then_consume in
        consume-enough (suc m) (suc (length (buf ++ more))) (buf ++ more) s hm (omega arith))
    | inr ((body, rest), e) ↦
        let shorter : length (rest ++ more) < length (buf ++ more) = omega (
          arith,
          split_frame-length buf body rest e,
          length-append buf more,
          length-append rest more,
        ) in
        let ih : (s' : Core S)
            → consume m (rest ++ more) s' ≡ then_consume more (consume m rest s') =
          λ s'. consume-append m rest more s' (omega arith) in
        rw
          (
            consume-some m buf body rest s e,
            consume-some m (buf ++ more) body (rest ++ more) s
                (split_frame-append buf more body rest e),
          )
          (after_read-append m rest more s (deserialize_frame rt body) ih)
  ]

  -- The loop over the frames, its offsets turned into the bytes that are left.
  unfoldable pub left_over : Buffer → Round S → Consumed S
  left_over whole (all_handled last s) = kept (slice whole last (length whole)) s
  left_over whole (cut_off e s) = failed e s

  slice-rest :
      {whole : Buffer} {offset : ℕ} {rest : Buffer}
      → At whole offset rest
      → slice whole offset (length whole) ≡ rest
  unfolding slice
  slice-rest {whole} {offset} {rest} a =
      take-all (length whole - offset) (drop offset whole) (omega (arith, length-drop offset whole))
      ∙ a.found

  handle_read-consume :
      (fuel : ℕ) (whole : Buffer) (end last : ℕ) (rest : Buffer) (s : Core S)
      (r : Result (Option Frame))
      → ((s' : Core S)
          → left_over whole (handle_frames rt env (frames_of rt fuel rest end) end s')
            ≡ consume fuel rest s')
      → left_over whole (
          handle_frames rt env
            (yield_or_fail r (λ frame. yield (frame, end) (frames_of rt fuel rest end)))
            last
            s)
        ≡ after_read (consume fuel) rest s r
  unfolding handle_frames left_over
  handle_read-consume fuel whole end last rest s (throw e) ih = refl
  handle_read-consume fuel whole end last rest s (ok frame) ih =
      go (handle_with rt env (env.handle frame s.around) s)
    where
      go :
          (o : Outcome S)
          → left_over whole (elim o [
            | handled s' ↦ handle_frames rt env (frames_of rt fuel rest end) end s'
            | threw e s' ↦ cut_off e s'
          ])
            ≡ after_outcome (consume fuel) rest o
      go (handled s') = ih s'
      go (threw e s') = refl

  pub handle_frames-consume :
      (fuel : ℕ) {whole : Buffer} {offset : ℕ} (buf : Buffer) (s : Core S)
      → At whole offset buf
      → length buf < fuel
      → left_over whole (handle_frames rt env (frames_of rt fuel buf offset) offset s)
        ≡ consume fuel buf s
  unfolding frames_of consume handle_frames
  handle_frames-consume zero buf s a h = absurd (omega arith)
  handle_frames-consume (suc fuel) {whole} {offset} buf s a h =
      elim (Option-cases (split_frame buf)) [
        | inl e ↦ rw e (unfold left_over in ap (λ b. kept b s) (slice-rest a))
        | inr ((body, rest), e) ↦
            let shorter : length rest < fuel = omega (arith, split_frame-length buf body rest e) in
            let ih : (s' : Core S)
                → left_over whole (
                    handle_frames rt env (frames_of rt fuel rest (offset + 3 + length body))
                      (offset + 3 + length body) s')
                  ≡ consume fuel rest s' =
              λ s'. handle_frames-consume fuel rest s' (split_frame-At buf body rest e a) shorter in
            rw e (
              handle_read-consume fuel whole (offset + 3 + length body) offset rest s
                (deserialize_frame rt body) ih)
      ]
