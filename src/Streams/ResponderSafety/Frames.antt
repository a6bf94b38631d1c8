-- ===== src/Streams/ResponderSafety/Frames.antt =====
-- packages/rsocket-core/src: frames and runs of the handler at a responding stream, and the monitor.
use rsocket_js.Common.{
  ℕ, Bool, true, false, Option, none, some, List, [], ◌∷◌, ◌++◌, ◌≡◌, refl, sym, arith, Bool-cases,
  inl, inr,
}
use mathlib.Core.Path.{subst}
use rsocket_js.Node.{ℤ, BufferRef, Result, ok, throw}
use rsocket_js.Errors.{RSocketError}
use rsocket_js.Frames.{Frame, PayloadFrame, stream_id_of}
use rsocket_js.Frames.Flags
use rsocket_js.Reassembler
use rsocket_js.Reassembler.{Payload, FragmentsHolder}
use rsocket_js.Streams.{Action, accept, disconnect, Step, step, and_then, Ending}
use rsocket_js.Streams.Traces.{run}
use rsocket_js.Streams.RequesterSafety.{same_refl}
use rsocket_js.Streams.Responder
use rsocket_js.Streams.Responder.{
  Responder, Call, raise, emit, finish, extend, HandlerRun, perform_call, settle, start, start_with,
  handle_fragment, cancel_receiver, answer,
}
use rsocket_js.Streams.ResponderSafety.{Phase, Agrees, Fits}
use rsocket_js.Streams.ResponderSafety.Calls.{
  still, joined-Fits, and_then-Fits, continued-Fits, on_error-serving, on_complete-serving,
  on_extension-serving,
}

done-on_error :
    (e : RSocketError) (s : Responder) → s.done ≡ true → Responder.on_error e s ≡ step s []
unfolding Responder.on_error
done-on_error e s h = ground arith

pub done-on_next :
    (p : Payload) (k : Bool) (s : Responder) → s.done ≡ true → Responder.on_next p k s ≡ step s []
unfolding Responder.on_next
done-on_next p k s h = ground arith

done-on_complete : (s : Responder) → s.done ≡ true → Responder.on_complete s ≡ step s []
unfolding Responder.on_complete
done-on_complete s h = ground arith

done-on_extension :
    (type : ℕ) (content : BufferRef) (ignored : Bool) (s : Responder)
    → s.done ≡ true
    → Responder.on_extension type content ignored s ≡ step s []
unfolding Responder.on_extension
done-on_extension type content ignored s h = ground arith

pub done-close :
    (e : Option RSocketError) (s : Responder) → s.done ≡ true → Responder.close e s ≡ step s []
unfolding Responder.close
done-close e s h = ground arith

-- In a phase that it agrees with, a stream does what it does while it serves, or nothing.
pub phased :
    {result : Step Responder} (s : Responder) (c : Bool) (phase : Phase)
    → Agrees s c phase
    → Fits result c (Phase.serving s.stream_id)
    → (s.done ≡ true → result ≡ step s [])
    → Fits result c phase
phased {result} s c (Phase.serving id) h f idle = subst (λ k. Fits result c (Phase.serving k)) h f
phased {result} s c Phase.ended (hd, hc) f idle =
    subst (λ r. Fits r c Phase.ended) (sym (idle hd)) (still s c Phase.ended (hd, hc))
phased {result} s c Phase.unserved h f idle = elim h [ ]
phased {result} s c Phase.last_sent h f idle = elim h [ ]

pub close-serving :
    (e : Option RSocketError) (s : Responder) (connected : Bool)
    → Fits (Responder.close e s) connected (Phase.serving s.stream_id)
unfolding Responder.close
close-serving e s connected = elim (Bool-cases s.done) [
  | inl d ↦ record {
    after = Phase.serving s.stream_id;
    watched = ground arith;
    agrees = ground arith;
  }
  | inr d ↦ elim (Bool-cases s.receiver) [
    | inl r ↦ record {
      after = Phase.serving s.stream_id;
      watched = ground arith;
      agrees = ground arith;
    }
    | inr r ↦ record {
      after = Phase.serving s.stream_id;
      watched = ground arith;
      agrees = ground arith;
    }
  ]
]

pub hold-serving :
    (d m : BufferRef) (s : Responder) (c : Bool)
    → Fits (Responder.hold d m s) c (Phase.serving s.stream_id)
unfolding Responder.hold
hold-serving d m s c = go (Reassembler.add s.holder d m)
  where
    go :
        (added : Result FragmentsHolder)
        → Fits
            (elim added [
              | ok holder ↦ step (record s { holder = holder }) []
              | throw e ↦ record { stream = s; actions = []; ending = Ending.threw e }
            ])
            c
            (Phase.serving s.stream_id)
    go (ok holder) = record { after = Phase.serving s.stream_id; watched = refl; agrees = refl }
    go (throw e) = record { after = Phase.serving s.stream_id; watched = refl; agrees = refl }

answered-Fits :
    (frame : Frame) (message : List ℕ) (s : Responder) (c : Bool)
    → s.done ≡ true
    → Fits
        (step s (answer frame s.stream_id message ++ disconnect ∷ []))
        c
        (Phase.serving s.stream_id)
unfolding stream_id_of
answered-Fits (Frame.cancel f) message s c h = record {
  after = Phase.ended;
  watched = refl;
  agrees = (h, refl);
}
answered-Fits (Frame.error f) message s c h = record {
  after = Phase.ended;
  watched = refl;
  agrees = (h, refl);
}
answered-Fits _ message s c h = record {
  after = Phase.ended;
  watched = ground (arith, same_refl s.stream_id);
  agrees = (h, refl);
}

abbrev gone : Responder → Responder
gone s = record s { done = true; holder = Reassembler.cancel s.holder }

pub refuse-serving :
    (frame : Frame) (message : List ℕ) (s : Responder) (c : Bool)
    → Fits (Responder.refuse frame message s) c (Phase.serving s.stream_id)
unfolding Responder.refuse
refuse-serving frame message s c = go s.receiver
  where
    go :
        (receiver : Bool)
        → Fits
            (step
              (gone s)
              (cancel_receiver receiver ++ answer frame s.stream_id message ++ disconnect ∷ []))
            c
            (Phase.serving s.stream_id)
    go true =
        joined-Fits (Action.cancel ∷ [])
          (step (gone s) (answer frame s.stream_id message ++ disconnect ∷ [])) c
          (Phase.serving s.stream_id) refl (answered-Fits frame message (gone s) c refl)
    go false = answered-Fits frame message (gone s) c refl

module _ (next : Payload → Bool → Responder → Step Responder)
    (next_serving : (p : Payload) (k : Bool) (s : Responder) (c : Bool)
      → Fits (next p k s) c (Phase.serving s.stream_id))
    (next_done : (p : Payload) (k : Bool) (s : Responder)
      → s.done ≡ true
      → next p k s ≡ step s []) where
  call-serving :
      (call : Call) (s : Responder) (c : Bool)
      → Fits (perform_call next call s) c (Phase.serving s.stream_id)
  unfolding perform_call
  call-serving (raise e) s c = on_error-serving e s c
  call-serving (emit p k) s c = next_serving p k s c
  call-serving finish s c = on_complete-serving s c
  call-serving (extend type content ignored) s c = on_extension-serving type content ignored s c

  call-done : (call : Call) (s : Responder) → s.done ≡ true → perform_call next call s ≡ step s []
  unfolding perform_call
  call-done (raise e) s h = done-on_error e s h
  call-done (emit p k) s h = next_done p k s h
  call-done finish s h = done-on_complete s h
  call-done (extend type content ignored) s h = done-on_extension type content ignored s h

  pub call-Fits :
      (call : Call) (s : Responder) (c : Bool) (phase : Phase)
      → Agrees s c phase
      → Fits (perform_call next call s) c phase
  call-Fits call s c phase h = phased s c phase h (call-serving call s c) (call-done call s)

  calls-Fits :
      (calls : List Call) (s : Responder) (c : Bool) (phase : Phase)
      → Agrees s c phase
      → Fits (run (perform_call next) calls s) c phase
  unfolding run
  calls-Fits [] s c phase h = still s c phase h
  calls-Fits (call ∷ calls) s c phase h =
      let first = perform_call next call s in
      continued-Fits first.stream first.actions first.ending (run (perform_call next) calls) c
        (call-Fits call s c phase h) (λ c' mid h'. calls-Fits calls first.stream c' mid h')

  settle-Fits :
      (thrown : Option RSocketError) (s : Responder) (c : Bool) (phase : Phase)
      → Agrees s c phase
      → Fits (settle next thrown s) c phase
  settle-Fits none s c (Phase.serving id) h = record {
    after = Phase.serving id;
    watched = refl;
    agrees = h;
  }
  settle-Fits none s c Phase.ended h = record { after = Phase.ended; watched = refl; agrees = h }
  settle-Fits none s c Phase.unserved h = elim h [ ]
  settle-Fits none s c Phase.last_sent h = elim h [ ]
  settle-Fits (some e) s c phase h = phased s c phase h (on_error-serving e s c) (done-on_error e s)

  pub start-serving :
      (request_n : Option ℤ) (p : Payload) (handler : HandlerRun) (s : Responder) (c : Bool)
      → Fits (start next request_n p handler s) c (Phase.serving s.stream_id)
  unfolding start
  start-serving request_n p handler s c =
      let calls = run (perform_call next) handler.calls s in
      joined-Fits (accept p request_n ∷ []) (and_then calls (settle next handler.thrown)) c
        (Phase.serving s.stream_id) refl
        (and_then-Fits calls.stream calls.actions calls.ending (settle next handler.thrown) c
          (calls-Fits handler.calls s c (Phase.serving s.stream_id) refl)
          (λ c' mid h. settle-Fits handler.thrown calls.stream c' mid h))

  pub handle_fragment-serving :
      (f : PayloadFrame) (handler : HandlerRun) (s : Responder) (c : Bool)
      → Fits (handle_fragment next f handler s) c (Phase.serving s.stream_id)
  unfolding handle_fragment
  handle_fragment-serving f handler s c = go (Flags.has_follows f.flags)
    where
      reassembled :
          (whole : FragmentsHolder × Result Payload)
          → Fits (start_with next handler s whole) c (Phase.serving s.stream_id)
      reassembled (holder, ok p) =
          start-serving s.initial_request_n p handler (record s { holder = holder }) c
      reassembled (holder, throw e) = record {
        after = Phase.serving s.stream_id;
        watched = refl;
        agrees = refl;
      }

      go :
          (follows : Bool)
          → Fits
              (elim follows [
                | true ↦ Responder.hold f.data_ref f.metadata s
                | false ↦
                    start_with next handler s
                      (Reassembler.reassemble s.holder f.data_ref f.metadata)
              ])
              c
              (Phase.serving s.stream_id)
      go true = hold-serving f.data_ref f.metadata s c
      go false = reassembled (Reassembler.reassemble s.holder f.data_ref f.metadata)
