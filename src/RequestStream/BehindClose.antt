-- ===== src/RequestStream/BehindClose.antt =====
-- packages/rsocket-core/src/RequestStreamStream.ts: a frame that comes to a requester behind its `close`.
use rsocket_js.Common.{true, false, Option, none, some, List, [], ◌∷◌, ◌≡◌, refl, ap, arith, sym}
use mathlib.Core.Path.{subst}
use rsocket_js.Errors.{RSocketError}
use rsocket_js.Frames.{Frame, PayloadFrame}
use rsocket_js.Frames.Flags
use rsocket_js.Reassembler
use rsocket_js.Streams.{Action, on_next, on_complete, on_error, step}
use rsocket_js.Streams.Traces.{run, continued}
use rsocket_js.Streams.Requester
use rsocket_js.Streams.Requester.{Requester}
use rsocket_js.Streams.RequesterSafety.{Linked, frame, close, perform, lift, link}
use rsocket_js.RequestStream.Requester.{handle, handle_payload}
use rsocket_js.RequestStream.Safety.{stream_requester}

-- What a receiver is told when the connection closes.
abbrev pub last_signal : Option RSocketError → Action
last_signal (some error) = on_error error
last_signal none = on_complete

close-last_signal :
    (e : Option RSocketError) (s : Requester)
    → s.done ≡ false
    → Requester.close e s
      ≡ step (record s { done = true; holder = Reassembler.cancel s.holder }) (last_signal e ∷ [])
unfolding Requester.close
close-last_signal none s h = ground arith
close-last_signal (some error) s h = ground arith

handle-whole :
    (f : PayloadFrame) (s : Requester)
    → Flags.has_complete f.flags ≡ false
    → Flags.has_follows f.flags ≡ false
    → handle (Frame.payload f) (record s { holder = Reassembler.cancel s.holder })
      ≡ step
          (record s { holder = Reassembler.cancel s.holder })
          (on_next (record { data_ref = f.data_ref; metadata = f.metadata }) false ∷ [])
unfolding handle handle_payload Requester.deliver Requester.take_payload Reassembler.cancel
handle-whole f s c w = rw (c, w) refl

module _ (t : Linked) (f : PayloadFrame) (is_connected : t.connected ≡ true)
    (incomplete : Flags.has_complete f.flags ≡ false)
    (whole : Flags.has_follows f.flags ≡ false) where
  -- The stream behind its closing.
  abbrev left : Linked
  left = record t {
    requester = record t.requester { done = true; holder = Reassembler.cancel t.requester.holder };
  }

  abbrev passed : List Action
  passed = on_next (record { data_ref = f.data_ref; metadata = f.metadata }) false ∷ []

  frame-passed : perform stream_requester (frame (Frame.payload f)) left ≡ step left passed
  unfolding perform
  frame-passed =
      rw is_connected
        (ap (lift true) (handle-whole f (record t.requester { done = true }) incomplete whole))

  run-passed : (run (perform stream_requester) (frame (Frame.payload f) ∷ []) left).actions ≡ passed
  unfolding run
  run-passed = ap (λ r. (continued r.ending r (step r.stream [])).actions) frame-passed

  closed-run :
      (e : Option RSocketError)
      → t.requester.done ≡ false
      → (run (perform stream_requester) (close e ∷ frame (Frame.payload f) ∷ []) t).actions
        ≡ last_signal e ∷ passed
  unfolding run perform
  closed-run e open_ =
      subst
        (λ r.
          (continued r.ending (lift t.connected r) (
            run (perform stream_requester) (frame (Frame.payload f) ∷ [])
              (lift t.connected r).stream)).actions
          ≡ last_signal e ∷ passed)
        (sym (close-last_signal e t.requester open_)) (signalled e)
    where
      signalled :
          (e : Option RSocketError)
          → last_signal e
              ∷ (run
                  (perform stream_requester)
                  (frame (Frame.payload f) ∷ [])
                  (record left { connected = link (last_signal e ∷ []) t.connected })).actions
            ≡ last_signal e ∷ passed
      signalled none = ap (λ actions. on_complete ∷ actions) run-passed
      signalled (some error) = ap (λ actions. on_error error ∷ actions) run-passed

-- Where the connection of a stream that is connected and not done closes, a PAYLOAD frame that neither
-- completes nor has more fragments behind it, passed on to the stream behind the closing, still reaches
-- its receiver, behind the last signal.
pub run-frame_behind_close :
    (t : Linked) (e : Option RSocketError) (f : PayloadFrame)
    → t.connected ≡ true
    → t.requester.done ≡ false
    → Flags.has_complete f.flags ≡ false
    → Flags.has_follows f.flags ≡ false
    → (run (perform stream_requester) (close e ∷ frame (Frame.payload f) ∷ []) t).actions
      ≡ last_signal e ∷ on_next (record { data_ref = f.data_ref; metadata = f.metadata }) false ∷ []
run-frame_behind_close t e f h d c w = closed-run t f h c w e d
