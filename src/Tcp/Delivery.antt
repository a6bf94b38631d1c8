-- ===== src/Tcp/Delivery.antt =====
-- packages/rsocket-tcp-client/src/TcpDuplexConnection.ts: what a peer has sent is handled here.
use rsocket_js.Common.{
  ℕ, zero, suc, ◌<◌, ◌≡◌, refl, sym, ap, ◌∙◌, [], ◌∷◌, ◌++◌, arith, length, List, some, none, false,
  length-append,
}
use rsocket_js.Node.{Buffer, Runtime}
use rsocket_js.Frames.{Frame}
use rsocket_js.Codecs.RoundTrip.{received_frame}
use rsocket_js.Codecs.Framing.{framed, split_frame}
use rsocket_js.Codecs.Framing.Split.{split_frame-framed}
use rsocket_js.Codecs.Framing.Streams.{
  AllSendable, Sent, nothing, one_more, IsSendable-Written, ok-injective,
}
use rsocket_js.Tcp.{
  Core, core_of, handle_with, Outcome, handled, threw, Surroundings, TcpDuplexConnection,
  data_event, data_events,
}
use rsocket_js.Tcp.Consume.{
  Consumed, kept, failed, after_outcome, consume, consume-none, consume-some,
}
use rsocket_js.Tcp.Chunks.{
  join, ClosedByNoFrame, visible, settle, handle_data-consume, data_event-open, visible-data_events,
}

empty-split : split_frame [] ≡ none
unfolding split_frame
empty-split = refl

module _ {S : Type 0} (rt : Runtime) (env : Surroundings S) where
  -- The frames, as they are received, are handled one by one until something throws.
  unfoldable pub handle_each : List Frame → Core S → Consumed S
  handle_each [] s = kept [] s
  handle_each (frame ∷ frames) s =
      elim (handle_with rt env (env.handle (some (received_frame frame)) s.around) s) [
        | handled s' ↦ handle_each frames s'
        | threw e s' ↦ failed e s'
      ]

  handled_then :
      (m : ℕ) (frames : List Frame) (stream : Buffer) (o : Outcome S)
      → ((s' : Core S) → consume rt env m stream s' ≡ handle_each frames s')
      → after_outcome rt env (consume rt env m) stream o
        ≡ elim o [ handled s' ↦ handle_each frames s' | threw e s' ↦ failed e s' ]
  handled_then m frames stream (handled s') ih = ih s'
  handled_then m frames stream (threw e s') ih = refl

  consume-Sent :
      (m : ℕ) (frames : List Frame) (stream : Buffer) (s : Core S)
      → Sent rt frames stream
      → AllSendable rt frames
      → length stream < m
      → consume rt env m stream s ≡ handle_each frames s
  unfolding handle_each
  consume-Sent zero frames stream s sent h less = absurd (omega arith)
  consume-Sent (suc m) [] stream s nothing h less = consume-none rt env m [] s empty-split
  consume-Sent (suc m) (f ∷ fs) _ s (one_more f' fs' bytes stream e sent) h less =
      let w = IsSendable-Written rt f h.0 in
      let same : bytes ≡ framed w.body = ok-injective bytes (framed w.body) (sym e ∙ w.sent) in
      let shorter : length stream < m = omega (arith, length-append bytes stream, ap length same) in
      let ih : (s' : Core S) → consume rt env m stream s' ≡ handle_each fs s' =
        λ s'. consume-Sent m fs stream s' sent h.1 shorter in
      rw
        (
          same,
          consume-some rt env m (framed w.body ++ stream) w.body stream s
              (split_frame-framed w.body stream w.nonempty w.fits),
          w.read,
        )
        (handled_then m fs stream
          (handle_with rt env (env.handle (some (received_frame f)) s.around) s) ih)

-- Frames that a peer has sent, whose bytes arrive at an open connection that keeps none, in chunks
-- however cut, are handled one by one in the order they were sent in, until something throws, which
-- closes the connection; else it keeps no bytes. No frame of a chunk but the last may close the
-- connection while it is handled.
pub data_events-Sent :
    {S : Type 0} (rt : Runtime) (env : Surroundings S) (c : TcpDuplexConnection S)
    (frames : List Frame) (chunk : Buffer) (more : List Buffer)
    → c.done ≡ false
    → c.remaining_buffer ≡ []
    → AllSendable rt frames
    → Sent rt frames (chunk ++ join more)
    → ClosedByNoFrame rt env c chunk more
    → visible (data_events rt env (data_event rt env c chunk) more)
      ≡ visible (settle rt env (handle_each rt env frames (core_of c)) c)
data_events-Sent rt env c frames chunk more open_ empty h sent unclosed =
    let stream : Buffer = chunk ++ join more in
    visible-data_events rt env c chunk more unclosed
    ∙ ap visible (
        data_event-open rt env c stream open_
        ∙ handle_data-consume rt env stream c (suc (length stream))
            (omega (arith, ap length empty, length-append c.remaining_buffer stream))
        ∙ ap (λ b. settle rt env (consume rt env (suc (length stream)) (b ++ stream) (core_of c)) c)
            empty
        ∙ ap (λ x. settle rt env x c)
            (consume-Sent rt env (suc (length stream)) frames stream (core_of c) sent h
              (omega arith)))
