-- ===== src/RequestResponse/Safety.antt =====
-- packages/rsocket-core/src/RequestResponseStream.ts: what a RequestResponseRequesterStream tells its receiver
-- and sends, over whole runs.
use rsocket_js.Common.{ℕ, Bool, true, false, some, List, ◌≡◌, refl, Bool-cases, inl, inr, ◌||◌, not}
use rsocket_js.Node.{ℤ, pos, ok}
use rsocket_js.Frames.{Frame, PayloadFrame}
use rsocket_js.Frames.Flags
use rsocket_js.Codecs.{Yields}
use rsocket_js.Fragmenter.{is_fragmentable}
use rsocket_js.Fragmenter.Carried.{Every, IsCarried, fragment-IsCarried}
use rsocket_js.Reassembler.{Payload}
use rsocket_js.Streams.{unexpected_frame_type, fuel_for}
use rsocket_js.Streams.Traces.{Accepted, run}
use rsocket_js.Streams.Requester.{Requester, new_requester}
use rsocket_js.Streams.RequesterSafety.{
  AgreesLinked, NoFrameBehindClose, Phase, observe, Fits, Event, RequesterClass, perform,
}
use rsocket_js.Streams.RequesterSafety.Operations.{
  refuse-active, handle_error-active, hold-active, handle_ext-active, deliver-last,
}
use rsocket_js.Streams.RequesterSafety.Ready.{chosen-IsCarried, ready_with-waiting, ready_with-done}
use rsocket_js.Streams.RequesterSafety.Runs.{RequesterLaws, run-Requester}
use rsocket_js.RequestResponse.Requester.{request_frames, handle_ready, handle_payload, handle}

request_frames-IsCarried :
    (id : ℤ) (s : Requester) (sent : Yields Frame)
    → request_frames id s ≡ ok sent
    → Every (IsCarried id) sent
unfolding request_frames
request_frames-IsCarried id s sent h =
    chosen-IsCarried id (is_fragmentable s.payload s.fragment_size _) _ _
      (fragment-IsCarried (fuel_for s.payload) id s.payload s.fragment_size _ false) refl sent h

module _ (s : Requester) (id : ℤ) (hd : s.done ≡ false) (hi : s.stream_id ≡ some id) where
  handle_payload-active : (f : PayloadFrame) → Fits (handle_payload f s) true (Phase.active id)
  unfolding handle_payload
  handle_payload-active f =
      elim (Bool-cases (Flags.has_complete f.flags || not (Flags.has_follows f.flags))) [
        | inl c ↦ elim (Bool-cases (Flags.has_next f.flags)) [
          | inl n ↦ rw (c, n) (deliver-last s true id hd hi f)
          | inr n ↦ rw (c, n) record { after = Phase.ended; watched = refl; agrees = (refl, refl) }
        ]
        | inr c ↦ rw c (hold-active s true id hd hi f)
      ]

  handle-active : (f : Frame) → Fits (handle f s) true (Phase.active id)
  unfolding handle
  handle-active (Frame.payload f) = handle_payload-active f
  handle-active (Frame.error f) = handle_error-active s true id hd hi f
  handle-active (Frame.ext f) = handle_ext-active s true id hd hi f
  handle-active f = refuse-active s true id hd hi (unexpected_frame_type f)

abbrev pub response_requester : RequesterClass
response_requester = record { has_request = false; handle_ready = handle_ready; handle = handle }

response_requester-Laws : RequesterLaws response_requester
unfolding handle_ready
response_requester-Laws = record {
  ready_waiting =
      λ id s h. ready_with-waiting (request_frames id s) id s h (request_frames-IsCarried id s);
  ready_done = λ id s h. ready_with-done (request_frames id s) id s h;
  handle_active = λ f s id hd hi. handle-active s id hd hi f;
}

-- Over any sequence of events from the making of a requester on, in which no frame is passed on to it
-- behind the closing of its connection, the receiver is told nothing behind its last signal, one frame at
-- most is sent behind it, a CANCEL, and nothing is sent or told behind a CANCEL; every frame carries the
-- stream's id. A requester that has told its last signal, or has cancelled, is done, and it is no longer
-- connected, unless the closing of its connection was what ended it.
pub response_requester-Accepted :
    (events : List Event) (payload : Payload) (fragment_size : ℕ) (lease : Bool)
    → NoFrameBehindClose events
    → Accepted
        (perform response_requester)
        observe
        AgreesLinked
        (run (perform response_requester) events (record {
          requester = new_requester payload fragment_size (pos 0) lease;
          connected = false;
        }))
        Phase.waiting
response_requester-Accepted events payload fragment_size lease allowed =
    run-Requester response_requester response_requester-Laws events _ Phase.waiting allowed
      (refl, refl)
