-- ===== src/RequestStream/Delivery/Payloads.antt =====
-- packages/rsocket-core/src/RequestStreamStream.ts: from the application behind a responder to the receiver
-- of the requester.
use rsocket_js.Common.{
  ℕ, Bool, true, false, Option, none, some, List, [], ◌∷◌, ◌++◌, ◌≡◌, refl, ap, sym, ◌∙◌, arith,
  append-nil,
}
use mathlib.Core.Path.{subst}
use rsocket_js.Node.{ℤ}
use rsocket_js.Frames.{Frame}
use rsocket_js.Frames.Flags
use rsocket_js.Fragmenter.Assembly.{assemble}
use rsocket_js.Reassembler.{Payload, no_fragments}
use rsocket_js.Streams.{Action, send, on_next, on_complete, disconnect, step}
use rsocket_js.Streams.Traces.{run, continued}
use rsocket_js.Streams.Requester.{Requester}
use rsocket_js.Streams.Responder
use rsocket_js.Streams.Responder.{
  Responder, Call, emit, finish, perform_call, payload_frame, payload_frames, leave_if,
  complete_frame,
}
use rsocket_js.RequestStream.Requester.{handle, handle_payload}
use rsocket_js.Reassembler.Held.{IsHeld}
use rsocket_js.RequestStream.Delivery.{listed, behind, goes_on, run-cons, run-assemble}
use rsocket_js.RequestStream.Delivery.Emitted.{
  sent, sent-append, sent-sends, sends, leaving, Deliverable, Emitted, on_next-Emitted,
}

-- The calls of the application: payloads, and at the end another one that completes, or just completion.
abbrev pub script : List Payload → Option Payload → List Call
script [] none = finish ∷ []
script [] (some p) = emit p true ∷ []
script (p ∷ payloads) last = emit p false ∷ script payloads last

-- What the other side hears of it; it disconnects before it passes on the end.
abbrev pub heard : List Payload → Option Payload → List Action
heard [] none = disconnect ∷ on_complete ∷ []
heard [] (some p) = disconnect ∷ on_next p true ∷ []
heard (p ∷ payloads) last = on_next p false ∷ heard payloads last

abbrev pub AllDeliverable : ℕ → List Payload → Option Payload → Type 0
AllDeliverable size [] none = Unit {0}
AllDeliverable size [] (some p) = Deliverable size p
AllDeliverable size (p ∷ payloads) last = Deliverable size p × AllDeliverable size payloads last

sent-emitted : (frames : List Frame) (c : Bool) → sent (sends frames ++ leaving c) ≡ frames
sent-emitted frames true =
    sent-append (sends frames) _ ∙ ap (λ fs. fs ++ []) (sent-sends frames) ∙ append-nil frames
sent-emitted frames false =
    sent-append (sends frames) _ ∙ ap (λ fs. fs ++ []) (sent-sends frames) ∙ append-nil frames

-- A responder that goes on behind a call.
run-call :
    (call : Call) (calls : List Call) (s s' : Responder) (actions : List Action)
    → perform_call Responder.on_next call s ≡ step s' actions
    → sent (run (perform_call Responder.on_next) (call ∷ calls) s).actions
      ≡ sent actions ++ sent (run (perform_call Responder.on_next) calls s').actions
unfolding run
run-call call calls s s' actions e =
    ap
      (λ st.
        sent
          (continued st.ending st (run (perform_call Responder.on_next) calls st.stream)).actions)
      e
    ∙ sent-append actions _

run-emit :
    (p : Payload) (c : Bool) (calls : List Call) (s : Responder) (r : Requester)
    → Emitted p c s
    → r.done ≡ false
    → r.holder ≡ no_fragments
    → run handle (sent (run (perform_call Responder.on_next) (emit p c ∷ calls) s).actions) r
      ≡ goes_on c p r
          (sent (run (perform_call Responder.on_next) calls (record s { done = c })).actions)
unfolding perform_call
run-emit p c calls s r e hr hh =
    let more = sent (run (perform_call Responder.on_next) calls (record s { done = c })).actions in
    ap (λ frames. run handle frames r)
      (run-call (emit p c) calls s (record s { done = c }) _ e.emitted
        ∙ ap (λ frames. frames ++ more) (sent-emitted (listed e.frames) c))
    ∙ run-assemble c e.frames more r p e.flagged (subst IsHeld (sym hh) refl) hr
        (ap (λ h. assemble h e.frames) hh ∙ e.assembled)

on_complete-open :
    (s : Responder)
    → s.done ≡ false
    → Responder.on_complete s
      ≡ step (record s { done = true }) (send (complete_frame s.stream_id) ∷ disconnect ∷ [])
unfolding Responder.on_complete
on_complete-open s h = ground arith

handle-complete_frame :
    (id : ℤ) (r : Requester)
    → r.holder ≡ no_fragments
    → handle (complete_frame id) r
      ≡ step (record r { done = true; holder = no_fragments }) (disconnect ∷ on_complete ∷ [])
unfolding handle handle_payload Flags.has_complete Flags.has_next
handle-complete_frame id r h =
    ap (λ x. step (record r { done = true; holder = x }) (disconnect ∷ on_complete ∷ [])) h

-- The frames that a responder sends while the application gives it payloads and then completes, handled
-- one by one by the requester of the stream, which is not done and holds no fragments, give its receiver
-- these payloads in this order, and then completion; the requester is done, and nothing throws. Where the
-- responder's fragment size is not 0, it is at least four, and each payload has data, of a byte at least,
-- and no null for metadata.
pub handle-sent :
    (payloads : List Payload) (last : Option Payload) (s : Responder) (r : Requester)
    → AllDeliverable s.fragment_size payloads last
    → s.done ≡ false
    → r.done ≡ false
    → r.holder ≡ no_fragments
    → run handle (sent (run (perform_call Responder.on_next) (script payloads last) s).actions) r
      ≡ step (record r { done = true; holder = no_fragments }) (heard payloads last)
unfolding run perform_call
handle-sent [] none s r hp hs hr hh =
    ap (λ frames. run handle frames r)
      (run-call finish [] s (record s { done = true }) _ (on_complete-open s hs))
    ∙ run-cons (complete_frame s.stream_id) [] r _ _ (handle-complete_frame s.stream_id r hh)
handle-sent [] (some p) s r hp hs hr hh =
    run-emit p true [] s r (on_next-Emitted p true s hs hp) hr hh
handle-sent (p ∷ payloads) last s r (hp, hps) hs hr hh =
    run-emit p false (script payloads last) s r (on_next-Emitted p false s hs hp) hr hh
    ∙ ap (behind (on_next p false ∷ [])) (
        handle-sent payloads last (record s { done = false })
          (record r { done = false; holder = no_fragments }) hps refl refl refl)
