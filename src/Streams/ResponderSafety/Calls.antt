-- ===== src/Streams/ResponderSafety/Calls.antt =====
-- packages/rsocket-core/src: the calls of the application at a responding stream, and the monitor.
use rsocket_js.Common.{
  ℕ, Bool, true, false, if◌then◌else◌, some, List, [], ◌∷◌, ◌++◌, ◌≡◌, refl, ap, bit_or, sym, ◌∙◌,
  arith, Bool-cases, inl, inr,
}
use mathlib.Core.Path.{subst}
use rsocket_js.Node.{ℤ, BufferRef, Result, ok, throw, ◌>>=◌}
use rsocket_js.Errors.{RSocketError}
use rsocket_js.Frames.{Frame, stream_id_of}
use rsocket_js.Frames.Flags
use rsocket_js.Fragmenter.{Carrier, is_fragmentable, fragment, truthy}
use rsocket_js.Codecs.{Yields, finished, stuck, failed, yield}
use rsocket_js.Fragmenter.Carried.{Every, IsCarried, fragment-IsCarried}
use rsocket_js.Fragmenter.Marks.{is_last, Silent, Settled, fragment-Settled}
use rsocket_js.Reassembler.{Payload}
use rsocket_js.Streams.{Action, send, Step, step, prepend, and_then, send_all, Ending, fuel_for}
use rsocket_js.Streams.Traces.{watch, watch-append, Live, continued}
use rsocket_js.Streams.RequesterSafety.{link, same_refl}
use rsocket_js.Streams.RequesterSafety.Ready.{link-append}
use rsocket_js.Streams.Responder
use rsocket_js.Streams.Responder.{
  Responder, Call, leave_if, payload_frames, payload_frame, perform_call, settle, start,
}
use rsocket_js.Streams.ResponderSafety.{Phase, after_send, observe, Agrees, Fits}

-- A responder that is done, and any that does nothing.
pub still : (s : Responder) (c : Bool) (phase : Phase) → Agrees s c phase → Fits (step s []) c phase
still s c phase h = record { after = phase; watched = refl; agrees = h }

-- One step behind another.
pub joined-Fits :
    (actions : List Action) (rest : Step Responder) (c : Bool) {phase : Phase} (mid : Phase)
    → watch observe actions phase ≡ some mid
    → Fits rest (link actions c) mid
    → Fits (record rest { actions = actions ++ rest.actions }) c phase
joined-Fits actions rest c {phase} mid w f = record {
  after = f.after;
  watched = watch-append observe actions rest.actions phase mid w ∙ f.watched;
  agrees =
      subst (λ b. Live rest.ending (Agrees rest.stream b f.after))
        (sym (link-append actions rest.actions c)) f.agrees;
}

pub and_then-Fits :
    (stream : Responder) (actions : List Action) (ending : Ending)
    (more : Responder → Step Responder) (c : Bool) {phase : Phase}
    → Fits (record { stream = stream; actions = actions; ending = ending }) c phase
    → ((c' : Bool) (mid : Phase) → Agrees stream c' mid → Fits (more stream) c' mid)
    → Fits (and_then (record { stream = stream; actions = actions; ending = ending }) more) c phase
and_then-Fits stream actions Ending.returned more c f fits =
    joined-Fits actions (more stream) c f.after f.watched (fits _ f.after f.agrees)
and_then-Fits stream actions (Ending.threw e) more c f fits = f
and_then-Fits stream actions Ending.endless more c f fits = f

pub continued-Fits :
    (stream : Responder) (actions : List Action) (ending : Ending)
    (more : Responder → Step Responder) (c : Bool) {phase : Phase}
    → Fits (record { stream = stream; actions = actions; ending = ending }) c phase
    → ((c' : Bool) (mid : Phase) → Agrees stream c' mid → Fits (more stream) c' mid)
    → Fits
        (continued ending
          (record { stream = stream; actions = actions; ending = ending })
          (more stream))
        c
        phase
continued-Fits stream actions Ending.returned more c f fits =
    joined-Fits actions (more stream) c f.after f.watched (fits _ f.after f.agrees)
continued-Fits stream actions (Ending.threw e) more c f fits =
    joined-Fits actions (more stream) c f.after f.watched (fits _ f.after f.agrees)
continued-Fits stream actions Ending.endless more c f fits = f

observe-IsCarried :
    (frame : Frame) (id : ℤ)
    → IsCarried id frame
    → observe (send frame) (Phase.serving id) ≡ some (after_send (is_last frame) id)
unfolding stream_id_of
observe-IsCarried (Frame.payload f) id h = rw (h, same_refl id) refl
observe-IsCarried (Frame.request_fnf f) id h = rw (h, same_refl id) refl
observe-IsCarried (Frame.request_response f) id h = rw (h, same_refl id) refl
observe-IsCarried (Frame.request_stream f) id h = rw (h, same_refl id) refl
observe-IsCarried (Frame.request_channel f) id h = rw (h, same_refl id) refl
observe-IsCarried _ id h = elim h [ ]

watch-one :
    (a : Action) (phase : Phase) {after : Phase}
    → observe a phase ≡ some after
    → watch observe (a ∷ []) phase ≡ some after
watch-one a phase w = rw (w, watch) refl

single_flag :
    (k t : Bool)
    → Flags.has_complete (
        bit_or
          (bit_or Flags.next (if k then Flags.complete else Flags.none))
          (if t then Flags.metadata else Flags.none))
      ≡ k
unfolding Flags.has_complete
single_flag true true = refl
single_flag true false = refl
single_flag false true = refl
single_flag false false = refl

and_then-prepend :
    (a : Action) (first : Step Responder) (more : Responder → Step Responder)
    → and_then (prepend a first) more ≡ prepend a (and_then first more)
and_then-prepend a first more = go first.ending
  where
    go :
        (ending : Ending)
        → and_then (prepend a (record first { ending = ending })) more
          ≡ prepend a (and_then (record first { ending = ending }) more)
    go Ending.returned = refl
    go (Ending.threw e) = refl
    go Ending.endless = refl

module _ (s : Responder) where
  abbrev Serving : Phase
  Serving = Phase.serving s.stream_id

  last-Fits :
      (frame : Frame) (rest : Yields Frame) (c : Bool)
      → s.done ≡ true
      → observe (send frame) Serving ≡ some Phase.last_sent
      → Silent rest
      → Fits (and_then (send_all (yield frame rest) s) (leave_if true)) c Serving
  unfolding send_all
  last-Fits frame finished c hd w h = record {
    after = Phase.ended;
    watched = rw (w, watch) refl;
    agrees = (hd, refl);
  }
  last-Fits frame stuck c hd w h = record {
    after = Phase.last_sent;
    watched = rw (w, watch) refl;
    agrees = tt;
  }
  last-Fits frame (failed e) c hd w h = elim h [ ]
  last-Fits frame (yield f rest) c hd w h = elim h [ ]

  sent-Fits :
      (frames : Yields Frame) (c k : Bool)
      → s.done ≡ k
      → Settled k frames
      → Every (IsCarried s.stream_id) frames
      → Fits (and_then (send_all frames s) (leave_if k)) c Serving
  unfolding send_all
  sent-Fits finished c true hd hs hc = record {
    after = Phase.ended;
    watched = refl;
    agrees = (hd, refl);
  }
  sent-Fits finished c false hd hs hc = record { after = Serving; watched = refl; agrees = refl }
  sent-Fits stuck c k hd hs hc = record { after = Serving; watched = refl; agrees = tt }
  sent-Fits (failed e) c k hd hs hc = record { after = Serving; watched = refl; agrees = refl }
  sent-Fits (yield frame rest) c k hd (hl, hs) (hf, hc) = elim (Bool-cases (is_last frame)) [
    | inl e ↦
        let (at_end, silent) = hl e in
        subst (λ b. Fits (and_then (send_all (yield frame rest) s) (leave_if b)) c Serving)
          (sym at_end)
          (last-Fits frame rest c (hd ∙ at_end)
            (observe-IsCarried frame s.stream_id hf ∙ ap (λ b. some (after_send b s.stream_id)) e)
            silent)
    | inr e ↦
        subst (λ r. Fits r c Serving)
          (sym (and_then-prepend (send frame) (send_all rest s) (leave_if k)))
          (joined-Fits (send frame ∷ []) _ c Serving
            (watch-one (send frame) Serving (
              observe-IsCarried frame s.stream_id hf ∙ ap (λ b. some (after_send b s.stream_id)) e))
            (sent-Fits rest c k hd hs hc))
  ]

  -- What it sends of a payload.
  payload_frames-sent :
      (p : Payload) (k : Bool) (sent : Yields Frame)
      → payload_frames p k s ≡ ok sent
      → Settled k sent × Every (IsCarried s.stream_id) sent
  unfolding payload_frames
  payload_frames-sent p k sent h = go (is_fragmentable p s.fragment_size Carrier.payload) h
    where
      go :
          (fragmentable : Result Bool)
          → (fragmentable >>= elim [
            | true ↦ ok (fragment (fuel_for p) s.stream_id p s.fragment_size Carrier.payload k)
            | false ↦ ok (yield (payload_frame s.stream_id p k) finished)
          ])
            ≡ ok sent
          → Settled k sent × Every (IsCarried s.stream_id) sent
      go (throw e) h = cc
      go (ok true) h =
          let e : fragment (fuel_for p) s.stream_id p s.fragment_size Carrier.payload k ≡ sent =
            cc in
          subst (λ f. Settled k f × Every (IsCarried s.stream_id) f) e
            (
              fragment-Settled (fuel_for p) s.stream_id p s.fragment_size k,
              fragment-IsCarried (fuel_for p) s.stream_id p s.fragment_size Carrier.payload k,
            )
      go (ok false) h =
          let e : yield (payload_frame s.stream_id p k) finished ≡ sent = cc in
          subst (λ f. Settled k f × Every (IsCarried s.stream_id) f) e
            (((λ last. (sym (single_flag k (truthy p.metadata)) ∙ last, tt)), tt), (refl, tt))

pub on_next-serving :
    (p : Payload) (k : Bool) (s : Responder) (c : Bool)
    → Fits (Responder.on_next p k s) c (Phase.serving s.stream_id)
unfolding Responder.on_next
on_next-serving p k s c = go s.done
  where
    sent :
        (frames : Result (Yields Frame))
        → ((f : Yields Frame) → frames ≡ ok f → Settled k f × Every (IsCarried s.stream_id) f)
        → Fits
            (elim frames [
              | throw e ↦ record {
                stream = record s { done = k };
                actions = [];
                ending = Ending.threw e;
              }
              | ok f ↦ and_then (send_all f (record s { done = k })) (leave_if k)
            ])
            c
            (Phase.serving s.stream_id)
    sent (throw e) h = record { after = Phase.serving s.stream_id; watched = refl; agrees = refl }
    sent (ok f) h =
        let (settled, carried) = h f refl in
        sent-Fits (record s { done = k }) f c k refl settled carried

    go :
        (done : Bool)
        → Fits (Responder.on_next p k (record s { done = done })) c (Phase.serving s.stream_id)
    go true = record { after = Phase.serving s.stream_id; watched = refl; agrees = refl }
    go false =
        sent (payload_frames p k (record s { done = false }))
          (payload_frames-sent (record s { done = false }) p k)

pub on_error-serving :
    (e : RSocketError) (s : Responder) (c : Bool)
    → Fits (Responder.on_error e s) c (Phase.serving s.stream_id)
unfolding Responder.on_error stream_id_of
on_error-serving e s c = elim (Bool-cases s.done) [
  | inl d ↦ record {
    after = Phase.serving s.stream_id;
    watched = ground arith;
    agrees = ground arith;
  }
  | inr d ↦ record {
    after = Phase.ended;
    watched = ground (arith, same_refl s.stream_id);
    agrees = ground arith;
  }
]

pub on_complete-serving :
    (s : Responder) (c : Bool) → Fits (Responder.on_complete s) c (Phase.serving s.stream_id)
unfolding Responder.on_complete stream_id_of Flags.has_complete
on_complete-serving s c = elim (Bool-cases s.done) [
  | inl d ↦ record {
    after = Phase.serving s.stream_id;
    watched = ground arith;
    agrees = ground arith;
  }
  | inr d ↦ record {
    after = Phase.ended;
    watched = ground (arith, same_refl s.stream_id);
    agrees = ground arith;
  }
]

pub on_extension-serving :
    (type : ℕ) (content : BufferRef) (ignored : Bool) (s : Responder) (c : Bool)
    → Fits (Responder.on_extension type content ignored s) c (Phase.serving s.stream_id)
unfolding Responder.on_extension stream_id_of
on_extension-serving type content ignored s c = elim (Bool-cases s.done) [
  | inl d ↦ record {
    after = Phase.serving s.stream_id;
    watched = ground arith;
    agrees = ground arith;
  }
  | inr d ↦ record {
    after = Phase.serving s.stream_id;
    watched = ground (arith, same_refl s.stream_id);
    agrees = ground arith;
  }
]
