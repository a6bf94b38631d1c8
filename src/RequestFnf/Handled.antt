-- ===== src/RequestFnf/Handled.antt =====
-- packages/rsocket-core/src/RequestFnFStream.ts: from a requester to the handler of the responder.
use rsocket_js.Common.{
  ℕ, ◌+◌, ◌<◌, ◌≤◌, Bool, true, false, some, List, [], ◌∷◌, ◌++◌, ◌≡◌, ◌≢◌, refl, ap, ◌∙◌, arith,
  Bool-cases, length, inl, inr, ◌⊎◌, ◌==◌, ltb, append-nil, if◌then◌else◌,
}
use mathlib.Core.Path.{subst}
use rsocket_js.Node.{ℤ, Buffer, BufferRef, undefined, null, buffer, byte_length, ok}
use rsocket_js.Frames.{Frame}
use rsocket_js.Fragmenter.{Carrier, is_fragmentable, fragment, truthy}
use rsocket_js.Fragmenter.Limits.{metadata_size, assemble-fragment_request}
use rsocket_js.Fragmenter.Opening.{fragment-Opening}
use rsocket_js.Reassembler.{Payload}
use rsocket_js.Streams.{Action, send, on_complete, step, and_then, Ending, fuel_for}
use rsocket_js.RequestStream.Delivery.{listed}
use rsocket_js.RequestStream.Delivery.Emitted.{
  sent, sends, sent-append, sent-sends, Deliverable, whole, cut, send_all-IsEnding,
}
use rsocket_js.RequestFnf.Requester.{
  FnfRequester, handle_ready, request_frames, send_request, completed,
}
use rsocket_js.RequestFnf.Received.{
  receive, outcome, Requested, Opening-Requested, single-Requested,
}

is_fragmentable-zero :
    (p : Payload) (n : ℕ) → n ≡ 0 → is_fragmentable p n Carrier.request_fnf ≡ ok false
unfolding is_fragmentable
is_fragmentable-zero p n h = rw h refl

too_long : (n k : ℕ) → ((ok (ltb n k) ≡ ok true) × (n < k)) ⊎ (ok (ltb n k) ≡ ok false)
too_long n k = elim (Bool-cases (ltb n k)) [
  | inl e ↦ inl (ap ok e, ground arith)
  | inr e ↦ inr (ap ok e)
]

is_fragmentable-data :
    (d : Buffer) (m : BufferRef) (n : ℕ)
    → 4 ≤ n
    → ((is_fragmentable (record { data_ref = buffer d; metadata = m }) n Carrier.request_fnf
          ≡ ok true)
        × (n < length d + metadata_size m))
      ⊎ (is_fragmentable (record { data_ref = buffer d; metadata = m }) n Carrier.request_fnf
          ≡ ok false)
unfolding is_fragmentable
is_fragmentable-data d m n h =
    let some_size : (n == 0) ≡ false = ground arith in rw some_size (go m)
  where
    measured : BufferRef → ℕ
    measured m = length d + (if truthy m then byte_length m + 3 else 0) + 0

    sized : (m : BufferRef) → measured m ≡ length d + metadata_size m
    sized (buffer b) = omega arith
    sized undefined = omega arith
    sized null = omega arith

    go :
        (m : BufferRef)
        → ((ok (ltb n (measured m)) ≡ ok true) × (n < length d + metadata_size m))
          ⊎ (ok (ltb n (measured m)) ≡ ok false)
    go m = elim (too_long n (measured m)) [
      | inl (e, h) ↦ inl (e, subst (λ k. n < k) (sized m) h)
      | inr e ↦ inr e
    ]

fragment-Requested :
    (s : FnfRequester) (id : ℤ) (returns : Bool) (d : Buffer) (m : BufferRef)
    → 0 < length d
    → m ≢ null
    → 4 ≤ s.fragment_size
    → is_fragmentable
        (record { data_ref = buffer d; metadata = m })
        s.fragment_size
        Carrier.request_fnf
      ≡ ok true
    → s.fragment_size < length d + metadata_size m
    → Requested (record s { payload = record { data_ref = buffer d; metadata = m } }) id returns
unfolding request_frames
fragment-Requested s id returns d m hd hm hs h big =
    let p : Payload = record { data_ref = buffer d; metadata = m } in
    Opening-Requested (record s { payload = p }) id returns
      (fragment (fuel_for p) id p s.fragment_size Carrier.request_fnf false)
      (rw (h, request_frames) refl)
      (fragment-Opening (fuel_for p) id d m s.fragment_size Carrier.request_fnf refl hm hs
        (omega arith))
      (assemble-fragment_request (fuel_for p) id d m s.fragment_size Carrier.request_fnf false refl
        hm hs big hd (omega arith) (omega arith))

with_payload :
    (s : FnfRequester) (id : ℤ) (returns : Bool) (p : Payload)
    → Deliverable s.fragment_size p
    → Requested (record s { payload = p }) id returns
with_payload s id returns _ (whole p hz) =
    single-Requested (record s { payload = p }) id returns
      (is_fragmentable-zero p s.fragment_size hz)
with_payload s id returns _ (cut d m hd hm hs) =
    elim (is_fragmentable-data d m s.fragment_size hs) [
      | inl (e, big) ↦ fragment-Requested s id returns d m hd hm hs e big
      | inr e ↦
          single-Requested (record s { payload = record { data_ref = buffer d; metadata = m } }) id
            returns e
    ]

handle_ready-open :
    (id : ℤ) (s : FnfRequester)
    → s.done ≡ false
    → (handle_ready id s).1 ≡ send_request (record s { stream_id = some id }) (request_frames id s)
unfolding handle_ready
handle_ready-open id s h = ground arith

-- What a requester does with the frames.
handle_ready-sends :
    (id : ℤ) (s : FnfRequester) (returns : Bool) (q : Requested s id returns)
    → s.done ≡ false
    → (handle_ready id s).1
      ≡ step
          (record s { stream_id = some id; done = true })
          (sends (listed q.frames) ++ on_complete ∷ [])
handle_ready-sends id s returns q hd =
    handle_ready-open id s hd
    ∙ ap (send_request (record s { stream_id = some id })) q.chosen
    ∙ ap (λ st. and_then st completed)
        (send_all-IsEnding q.frames (record s { stream_id = some id }) q.ending)

-- What was done but for the frames that were sent.
abbrev pub told : List Action → List Action
told [] = []
told (send frame ∷ actions) = told actions
told (action ∷ actions) = action ∷ told actions

told-sends : (frames : List Frame) (more : List Action) → told (sends frames ++ more) ≡ told more
told-sends [] more = refl
told-sends (f ∷ frames) more = told-sends frames more

sent-request : (frames : List Frame) → sent (sends frames ++ on_complete ∷ []) ≡ frames
sent-request frames =
    sent-append (sends frames) _ ∙ ap (λ fs. fs ++ []) (sent-sends frames) ∙ append-nil frames

-- A request that is not done, and is given an id, is sent, and tells its receiver of its completion, once
-- and nothing else; it is done then, and nothing throws. When its frames come to the peer, they make a
-- responder there whose handler is given the payload of the request, once, whether it returns or throws,
-- and nothing throws there. Where the fragment size is not 0, it is at least four, and the payload has
-- data, of a byte at least, and no null for metadata.
pub outcome-handle_ready :
    (id : ℤ) (s : FnfRequester) (returns : Bool)
    → s.done ≡ false
    → Deliverable s.fragment_size s.payload
    → (outcome (receive returns (sent (handle_ready id s).1.actions))
        ≡ some (s.payload ∷ [], Ending.returned))
      × ((handle_ready id s).1.ending ≡ Ending.returned)
      × (told (handle_ready id s).1.actions ≡ on_complete ∷ [])
      × ((handle_ready id s).1.stream.done ≡ true)
outcome-handle_ready id s returns hd hp =
    let q = with_payload s id returns s.payload hp in
    let e = handle_ready-sends id s returns q hd in
    (
      ap (λ r. outcome (receive returns (sent r.actions))) e
          ∙ ap (λ frames. outcome (receive returns frames)) (sent-request (listed q.frames))
          ∙ q.handled,
      ap (λ r. r.ending) e,
      ap (λ r. told r.actions) e ∙ told-sends (listed q.frames) (on_complete ∷ []),
      ap (λ r. r.stream.done) e,
    )
