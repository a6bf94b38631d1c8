-- ===== src/RequestFnf/Once.antt =====
-- packages/rsocket-core/src/RequestFnFStream.ts: what may come to a requester.
use rsocket_js.Common.{
  Bool, some, true, false, List, [], ◌∷◌, ◌≡◌, refl, ap, ◌∙◌, arith, append-nil, ◌++◌,
}
use rsocket_js.Node.{ℤ, Error, Result, ok, throw}
use rsocket_js.Errors.{RSocketError}
use rsocket_js.Frames.{Frame}
use rsocket_js.Codecs.{Yields}
use rsocket_js.Streams.{Action, Step, step, and_then, send_all, Ending}
use rsocket_js.Streams.Traces.{run, continued}
use rsocket_js.RequestStream.Delivery.Emitted.{Deliverable}
use rsocket_js.RequestFnf.Handled.{outcome-handle_ready}
use rsocket_js.RequestFnf.Requester
use rsocket_js.RequestFnf.Requester.{FnfRequester, send_request, completed, request_frames}

-- The multiplexer gives the request an id or rejects it; the application may cancel it. As the stream is
-- never connected, neither a frame nor the closing of the connection comes to it.
pub data Event : Type 0 where
  ready : ℤ → Event
  reject : RSocketError → Event
  cancel : Event

unfoldable pub perform : Event → FnfRequester → Step FnfRequester
perform (ready id) s = (Requester.handle_ready id s).1
perform (reject e) s = Requester.handle_reject e s
perform cancel s = Requester.cancel s

perform-done : (e : Event) (s : FnfRequester) → s.done ≡ true → perform e s ≡ step s []
unfolding perform Requester.handle_ready Requester.handle_reject Requester.cancel
perform-done (ready id) s h = ground arith
perform-done (reject e) s h = ground arith
perform-done cancel s h = ground arith

run-done :
    (events : List Event) (s : FnfRequester) → s.done ≡ true → run perform events s ≡ step s []
unfolding run
run-done [] s h = refl
run-done (e ∷ events) s h =
    ap (λ r. continued r.ending r (run perform events r.stream)) (perform-done e s h)
    ∙ run-done events s h

-- Nothing that was thrown or goes on for ever returns.
threw_not : {e : Error} → ¬ (Ending.threw e ≡ Ending.returned)
threw_not h = cc

endless_not : ¬ (Ending.endless ≡ Ending.returned)
endless_not h = cc

completed-done :
    (stream : FnfRequester) (actions : List Action) (ending : Ending)
    → (and_then (record { stream = stream; actions = actions; ending = ending }) completed).ending
      ≡ Ending.returned
    → (and_then
        (record { stream = stream; actions = actions; ending = ending })
        completed).stream.done
      ≡ true
completed-done stream actions Ending.returned h = refl
completed-done stream actions (Ending.threw e) h = absurd (threw_not h)
completed-done stream actions Ending.endless h = absurd (endless_not h)

send_request-done :
    (s : FnfRequester) (frames : Result (Yields Frame))
    → (send_request s frames).ending ≡ Ending.returned
    → (send_request s frames).stream.done ≡ true
send_request-done s (throw e) h = absurd (threw_not h)
send_request-done s (ok frames) h =
    let sent = send_all frames s in completed-done sent.stream sent.actions sent.ending h

first-done :
    (e : Event) (s : FnfRequester)
    → (perform e s).ending ≡ Ending.returned
    → (perform e s).stream.done ≡ true
unfolding perform Requester.handle_ready Requester.handle_reject Requester.cancel
first-done (ready id) s h = go s.done h
  where
    go :
        (done : Bool)
        → (Requester.handle_ready id (record s { done = done })).1.ending ≡ Ending.returned
        → (Requester.handle_ready id (record s { done = done })).1.stream.done ≡ true
    go true h = refl
    go false h =
        send_request-done (record s { done = false; stream_id = some id })
          (request_frames id (record s { done = false })) h
first-done (reject e) s h = ground arith
first-done cancel s h = ground arith

joined : List Action → Step FnfRequester → Step FnfRequester
joined actions r = record r { actions = actions ++ r.actions }

ended-once :
    (stream : FnfRequester) (actions : List Action) (ending : Ending) (events : List Event)
    → ending ≡ Ending.returned
    → stream.done ≡ true
    → continued ending
        (record { stream = stream; actions = actions; ending = ending })
        (run perform events stream)
      ≡ record { stream = stream; actions = actions; ending = ending }
unfolding joined
ended-once stream actions Ending.returned events h hd =
    ap (joined actions) (run-done events stream hd) ∙ ap (λ a. step stream a) (append-nil actions)
ended-once stream actions (Ending.threw e) events h hd = absurd (threw_not h)
ended-once stream actions Ending.endless events h hd = absurd (endless_not h)

first-returned :
    (e : Event) (s : FnfRequester)
    → s.done ≡ false
    → Deliverable s.fragment_size s.payload
    → (perform e s).ending ≡ Ending.returned
unfolding perform Requester.handle_reject Requester.cancel
first-returned (ready id) s hd hp = (outcome-handle_ready id s true hd hp).1
first-returned (reject e) s hd hp = ground arith
first-returned cancel s hd hp = ground arith

-- A request is sent, or rejected, or cancelled, whatever comes first; all that comes behind the first event
-- neither sends nor tells anything. The request is not done before; where its fragment size is not 0, it is
-- at least four, and the payload has data, of a byte at least, and no null for metadata.
pub run-first :
    (e : Event) (events : List Event) (s : FnfRequester)
    → s.done ≡ false
    → Deliverable s.fragment_size s.payload
    → run perform (e ∷ events) s ≡ perform e s
unfolding run
run-first e events s hd hp =
    let first = perform e s in
    let h = first-returned e s hd hp in
    ended-once first.stream first.actions first.ending events h (first-done e s h)
