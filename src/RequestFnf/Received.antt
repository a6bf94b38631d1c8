-- ===== src/RequestFnf/Received.antt =====
-- packages/rsocket-core/src/RequestFnFStream.ts: a responder that the frames of a request come to.
use rsocket_js.Common.{
  Bool, true, false, Option, none, some, List, [], ◌∷◌, ◌≡◌, ◌≢◌, refl, ap, sym, ◌∙◌, if◌then◌else◌,
}
use rsocket_js.Node.{ℤ, BufferRef, undefined, null, buffer, ok}
use rsocket_js.Frames.{Frame, RequestFnfFrame}
use rsocket_js.Frames.Flags
use rsocket_js.Codecs.{Yields, finished, yield}
use rsocket_js.Fragmenter.{Carrier, is_fragmentable, truthy, make_frame}
use rsocket_js.Fragmenter.Assembly.{assemble, holding}
use rsocket_js.Fragmenter.Carried.{Every}
use rsocket_js.Fragmenter.Flagged.{IsFlagged}
use rsocket_js.Fragmenter.Opening.{Opening}
use rsocket_js.Reassembler.{Payload, no_fragments, add, first_metadata}
use rsocket_js.Streams.{Action, accept, connect, Step, step, Ending}
use rsocket_js.Streams.Traces.{continued, run}
use rsocket_js.RequestStream.Delivery.{listed}
use rsocket_js.RequestStream.Delivery.Emitted.{IsEnding, assemble-IsEnding}
use rsocket_js.RequestFnf.Requester.{FnfRequester, request_frame, request_frames}
use rsocket_js.RequestFnf.Responder.{FnfResponder, construct, start, new_responder}
use rsocket_js.RequestFnf.Delivery.{handle_all, handle_all-assemble, answered}

-- The frames come to the peer: the first one makes a responder.
abbrev pub receive : Bool → List Frame → Option (Step FnfResponder)
receive returns (Frame.request_fnf f ∷ frames) =
    let first = construct f returns in
    some (continued first.ending first (handle_all returns frames first.stream))
receive returns _ = none

-- What the handler is given.
abbrev pub given : List Action → List Payload
given [] = []
given (accept p n ∷ actions) = p ∷ given actions
given (_ ∷ actions) = given actions

abbrev pub outcome : Option (Step FnfResponder) → Option (List Payload × Ending)
outcome none = none
outcome (some r) = some (given r.actions, r.ending)

-- The frames of a request, of which the responder makes up the payload.
pub record Requested (s : FnfRequester) (id : ℤ) (returns : Bool) : Type 0 where
  pub frames : Yields Frame
  pub chosen : request_frames id s ≡ ok frames
  pub ending : IsEnding frames
  pub handled : outcome (receive returns (listed frames)) ≡ some (s.payload ∷ [], Ending.returned)

request_flag : (t : Bool) → Flags.has_follows (if t then Flags.metadata else 0) ≡ false
unfolding Flags.has_follows
request_flag true = refl
request_flag false = refl

construct-whole :
    (f : RequestFnfFrame) (returns : Bool)
    → Flags.has_follows f.flags ≡ false
    → construct f returns
      ≡ start
          (record { data_ref = f.data_ref; metadata = f.metadata })
          returns
          (new_responder f.stream_id)
unfolding construct
construct-whole f returns h = rw (h, construct) refl

-- A responder that holds the first fragment.
abbrev opened : RequestFnfFrame → FnfResponder
opened f = record (new_responder f.stream_id) {
  holder = holding f.data_ref (first_metadata undefined f.metadata);
}

construct-follows :
    (f : RequestFnfFrame) (returns : Bool)
    → Flags.has_follows f.flags ≡ true
    → construct f returns ≡ step (opened f) (connect f.stream_id ∷ [])
unfolding construct add
construct-follows f returns h = rw (h, construct) refl

-- What comes behind the making of a responder.
abbrev then_all : Bool → List Frame → Step FnfResponder → Option (List Payload × Ending)
then_all returns frames first =
    outcome (some (continued first.ending first (handle_all returns frames first.stream)))

receive-single :
    (f : RequestFnfFrame) (returns : Bool)
    → Flags.has_follows f.flags ≡ false
    → outcome (receive returns (Frame.request_fnf f ∷ []))
      ≡ some (record { data_ref = f.data_ref; metadata = f.metadata } ∷ [], Ending.returned)
unfolding handle_all run
receive-single f true h = ap (then_all true []) (construct-whole f true h)
receive-single f false h = ap (then_all false []) (construct-whole f false h)

abbrev connected : ℤ → Step FnfResponder → Option (List Payload × Ending)
connected id r = outcome (some (record r { actions = connect id ∷ r.actions }))

connected-answered :
    (id : ℤ) (returns : Bool) (p : Payload) (s : FnfResponder)
    → connected id (answered returns p s) ≡ some (p ∷ [], Ending.returned)
connected-answered id true p s = refl
connected-answered id false p s = refl

first_metadata-held : (m : BufferRef) → first_metadata undefined m ≢ null
unfolding first_metadata
first_metadata-held undefined e = cc
first_metadata-held null e = cc
first_metadata-held (buffer b) e = cc

receive-opened :
    (f : RequestFnfFrame) (rest : Yields Frame) (p : Payload) (returns : Bool)
    → Flags.has_follows f.flags ≡ true
    → Every (IsFlagged false) rest
    → assemble (holding f.data_ref (first_metadata undefined f.metadata)) rest ≡ some p
    → outcome (receive returns (Frame.request_fnf f ∷ listed rest)) ≡ some (p ∷ [], Ending.returned)
receive-opened f rest p returns hf flagged e =
    ap (then_all returns (listed rest)) (construct-follows f returns hf)
    ∙ ap (connected f.stream_id) (
        handle_all-assemble returns rest (opened f) p flagged refl (first_metadata-held f.metadata)
          e)
    ∙ connected-answered f.stream_id returns p (opened f)

assemble-opened :
    (f : RequestFnfFrame) (rest : Yields Frame) (p : Payload)
    → Flags.has_follows f.flags ≡ true
    → assemble no_fragments (yield (Frame.request_fnf f) rest) ≡ some p
    → assemble (holding f.data_ref (first_metadata undefined f.metadata)) rest ≡ some p
unfolding assemble add
assemble-opened f rest p h e = rw (h, assemble) at e

pub Opening-Requested :
    (s : FnfRequester) (id : ℤ) (returns : Bool) (frames : Yields Frame)
    → request_frames id s ≡ ok frames
    → Opening Carrier.request_fnf id frames
    → assemble no_fragments frames ≡ some s.payload
    → Requested s id returns
unfolding make_frame
Opening-Requested s id returns frames hr o e =
    let f : RequestFnfFrame = record {
      data_ref = o.data_ref;
      metadata = o.metadata;
      flags = o.flags;
      stream_id = id;
    } in
    let e' =
      assemble-opened f o.rest s.payload o.follows (ap (assemble no_fragments) (sym o.opens) ∙ e) in
    record {
      frames = yield (Frame.request_fnf f) o.rest;
      chosen = hr ∙ ap ok o.opens;
      ending = assemble-IsEnding false o.rest _ s.payload o.flagged e';
      handled = receive-opened f o.rest s.payload returns o.follows o.flagged e';
    }

pub single-Requested :
    (s : FnfRequester) (id : ℤ) (returns : Bool)
    → is_fragmentable s.payload s.fragment_size Carrier.request_fnf ≡ ok false
    → Requested s id returns
unfolding request_frames
single-Requested s id returns h = record {
  frames = yield (request_frame id s.payload) finished;
  chosen = rw (h, request_frames) refl;
  ending = tt;
  handled = receive-single _ returns (request_flag (truthy s.payload.metadata));
}
