-- ===== src/RequestFnf/Responder.antt =====
-- packages/rsocket-core/src/RequestFnFStream.ts: RequestFnfResponderStream. `onError` and `onComplete` do
-- nothing, so that of a run of the handler only counts whether it returned a cancellable.
use rsocket_js.Common.{Bool, true, false, none, [], ◌∷◌, ◌++◌}
use rsocket_js.Node.{ℤ, Result, ok, throw}
use rsocket_js.Frames.{Frame, PayloadFrame, RequestFnfFrame}
use rsocket_js.Frames.Flags
use rsocket_js.Reassembler
use rsocket_js.Reassembler.{Payload, FragmentsHolder, no_fragments}
use rsocket_js.Streams.{
  connect, disconnect, accept, Step, step, prepend, and_then, Ending, unexpected_frame_type,
}
use rsocket_js.Streams.Responder.{answer, cancel_receiver}

pub record FnfResponder : Type 0 where
  pub stream_id : ℤ
  pub cancellable : Bool
  pub done : Bool
  pub holder : FragmentsHolder

abbrev pub new_responder : ℤ → FnfResponder
new_responder id = record {
  stream_id = id;
  cancellable = false;
  done = false;
  holder = no_fragments;
}

-- `returns` says whether the handler returns; what it throws is dropped.
abbrev pub start : Payload → Bool → FnfResponder → Step FnfResponder
start p true s = step (record s { cancellable = true }) (accept p none ∷ [])
start p false s = step s (accept p none ∷ [])

abbrev pub held : FnfResponder → Result FragmentsHolder → Step FnfResponder
held s (ok holder) = step (record s { holder = holder }) []
held s (throw e) = record { stream = s; actions = []; ending = Ending.threw e }

-- The constructor: it connects only if more follows.
unfoldable pub construct : RequestFnfFrame → Bool → Step FnfResponder
construct f returns =
    let s = new_responder f.stream_id in
    elim (Flags.has_follows f.flags) [
      | true ↦
          and_then (held s (Reassembler.add s.holder f.data_ref f.metadata))
            (λ s'. step s' (connect f.stream_id ∷ []))
      | false ↦ start (record { data_ref = f.data_ref; metadata = f.metadata }) returns s
    ]

abbrev pub start_with : Bool → FnfResponder → FragmentsHolder × Result Payload → Step FnfResponder
start_with returns s (holder, ok p) = start p returns (record s { holder = holder })
start_with returns s (holder, throw e) = record {
  stream = record s { holder = holder };
  actions = [];
  ending = Ending.threw e;
}

unfoldable pub handle_payload : PayloadFrame → Bool → FnfResponder → Step FnfResponder
handle_payload f returns s = elim (Flags.has_follows f.flags) [
  | true ↦ held s (Reassembler.add s.holder f.data_ref f.metadata)
  | false ↦
      prepend disconnect
        (start_with returns s (Reassembler.reassemble s.holder f.data_ref f.metadata))
]

unfoldable pub handle : Frame → Bool → FnfResponder → Step FnfResponder
handle (Frame.payload f) returns s = handle_payload f returns s
handle frame returns s =
    step (record s { done = true; holder = Reassembler.cancel s.holder })
      (answer frame s.stream_id (unexpected_frame_type frame) ++ disconnect ∷ [])

unfoldable pub close : FnfResponder → Step FnfResponder
close s = elim s.done [
  | true ↦ step s []
  | false ↦
      step (record s { done = true; holder = Reassembler.cancel s.holder })
        (cancel_receiver s.cancellable)
]
