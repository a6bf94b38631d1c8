-- ===== src/Streams/Requester.antt =====
-- packages/rsocket-core/src: the requesting side of a REQUEST_STREAM and of a REQUEST_RESPONSE. The classes
-- have most of their text in common; what only one of them has is in RequestStream and RequestResponse.
use rsocket_js.Common.{ℕ, Bool, true, false, Option, none, some, List, [], ◌∷◌, if◌then◌else◌}
use rsocket_js.Node.{ℤ, BufferRef, Result, ok, throw}
use rsocket_js.Node.Signed.{plus}
use rsocket_js.Errors.{RSocketError, ErrorCodes, error_code, new_rsocket_error}
use rsocket_js.Frames.{Frame, ErrorFrame, ExtFrame, PayloadFrame}
use rsocket_js.Frames.Flags
use rsocket_js.Codecs.{Yields}
use rsocket_js.Reassembler
use rsocket_js.Reassembler.{Payload, FragmentsHolder, no_fragments}
use rsocket_js.Streams.{
  Action, connect, disconnect, send, on_next, on_complete, on_error, cancel_request, Step, step,
  prepend, and_then, send_all, Ending, unexpected_during_reassembly,
}

-- The extension that waits for the stream to be ready: its type, its content and its flags.
pub record Extension : Type 0 where
  pub extended_type : ℕ
  pub extended_content : BufferRef
  pub flags : ℕ

pub record Requester : Type 0 where
  pub payload : Payload
  pub fragment_size : ℕ
  pub initial_request_n : ℤ
  pub has_lease_manager : Bool
  pub done : Bool
  pub stream_id : Option ℤ
  pub extension : Option Extension
  pub holder : FragmentsHolder

abbrev pub new_requester : Payload → ℕ → ℤ → Bool → Requester
new_requester payload fragment_size initial_request_n has_lease_manager = record {
  payload = payload;
  fragment_size = fragment_size;
  initial_request_n = initial_request_n;
  has_lease_manager = has_lease_manager;
  done = false;
  stream_id = none;
  extension = none;
  holder = no_fragments;
}

-- `canBeIgnored ? Flags.IGNORE : Flags.NONE`
abbrev pub ignore_flags : Bool → ℕ
ignore_flags can_be_ignored = if can_be_ignored then Flags.ignore else Flags.none

abbrev pub ext_frame : ℤ → Extension → Frame
ext_frame id e = Frame.ext (record {
  flags = e.flags;
  stream_id = id;
  extended_type = e.extended_type;
  extended_content = e.extended_content;
})

abbrev pub cancel_frame : ℤ → Frame
cancel_frame id = Frame.cancel (record { flags = Flags.none; stream_id = id })

-- `!this.streamId` is the case of `none`: the ids that are given out are not 0.
abbrev pub send_extension : ℤ → Requester → Step Requester
send_extension id s = elim s.extension [
  | none ↦ step s []
  | some e ↦ step s (send (ext_frame id e) ∷ [])
]

-- The frames of the request; then it is true that the stream was taken.
unfoldable pub handle_ready_with : Result (Yields Frame) → ℤ → Requester → Bool × Step Requester
handle_ready_with frames id s = elim s.done [
  | true ↦ (false, step s [])
  | false ↦
      let s' = record s { stream_id = some id } in
      (
        true,
        prepend (connect id) (elim frames [
          | throw e ↦ record { stream = s'; actions = []; ending = Ending.threw e }
          | ok sent ↦ and_then (send_all sent s') (send_extension id)
        ]),
      )
]

unfoldable pub handle_reject : RSocketError → Requester → Step Requester
handle_reject e s = elim s.done [
  | true ↦ step s []
  | false ↦ step (record s { done = true }) (on_error e ∷ [])
]

unfoldable pub close : Option RSocketError → Requester → Step Requester
close e s = elim s.done [
  | true ↦ step s []
  | false ↦
      step (record s { done = true; holder = Reassembler.cancel s.holder })
        (elim e [ some error ↦ on_error error ∷ [] | none ↦ on_complete ∷ [] ])
]

-- Behind the switch of `handle`: what did not fit.
unfoldable pub refuse : List ℕ → Requester → Step Requester
refuse error_message s =
    and_then (close (some (new_rsocket_error (error_code ErrorCodes.canceled) error_message)) s)
      (λ s'.
        step s'
          (elim s'.stream_id [ none ↦ [] | some id ↦ send (cancel_frame id) ∷ disconnect ∷ [] ]))

-- `hasFragments ? reassemble(…) : { data: frame.data, metadata: frame.metadata }`
unfoldable pub take_payload : PayloadFrame → FragmentsHolder → FragmentsHolder × Result Payload
take_payload f holder =
    if holder.has_fragments
    then Reassembler.reassemble holder f.data_ref f.metadata
    else (holder, ok (record { data_ref = f.data_ref; metadata = f.metadata }))

-- The payload is passed on, or what the reassembler threw.
abbrev pub passed_on : Bool → Requester → FragmentsHolder × Result Payload → Step Requester
passed_on is_complete s (holder, ok payload) =
    step (record s { holder = holder }) (on_next payload is_complete ∷ [])
passed_on is_complete s (holder, throw e) = record {
  stream = record s { holder = holder };
  actions = [];
  ending = Ending.threw e;
}

unfoldable pub deliver : PayloadFrame → Bool → Requester → Step Requester
deliver f is_complete s = passed_on is_complete s (take_payload f s.holder)

unfoldable pub hold : PayloadFrame → Requester → Step Requester
hold f s = elim (Reassembler.add s.holder f.data_ref f.metadata) [
  | ok holder ↦ step (record s { holder = holder }) []
  | throw e ↦ record { stream = s; actions = []; ending = Ending.threw e }
]

unfoldable pub handle_error : ErrorFrame → Requester → Step Requester
handle_error f s =
    step (record s { done = true; holder = Reassembler.cancel s.holder })
      (disconnect ∷ on_error (new_rsocket_error f.code f.message) ∷ [])

unfoldable pub handle_ext : ExtFrame → Requester → Step Requester
handle_ext f s = elim s.holder.has_fragments [
  | true ↦ refuse (unexpected_during_reassembly (Frame.ext f)) s
  | false ↦
      step s
        (Action.on_extension f.extended_type f.extended_content (Flags.has_ignore f.flags) ∷ [])
]

unfoldable pub request : ℤ → Requester → Step Requester
request n s = elim s.done [
  | true ↦ step s []
  | false ↦ elim s.stream_id [
    | none ↦ step (record s { initial_request_n = plus s.initial_request_n n }) []
    | some id ↦
        step s (
          send (Frame.request_n (record { flags = Flags.none; request_n = n; stream_id = id }))
          ∷ [])
  ]
]

unfoldable pub cancel : Requester → Step Requester
cancel s = elim s.done [
  | true ↦ step s []
  | false ↦ elim s.stream_id [
    | none ↦
        step (record s { done = true }) (if s.has_lease_manager then cancel_request ∷ [] else [])
    | some id ↦
        step (record s { done = true; holder = Reassembler.cancel s.holder })
          (send (cancel_frame id) ∷ disconnect ∷ [])
  ]
]

unfoldable pub on_extension : ℕ → BufferRef → Bool → Requester → Step Requester
on_extension extended_type content can_be_ignored s =
    let e : Extension = record {
      extended_type = extended_type;
      extended_content = content;
      flags = ignore_flags can_be_ignored;
    } in
    elim s.done [
      | true ↦ step s []
      | false ↦ elim s.stream_id [
        | none ↦ step (record s { extension = some e }) []
        | some id ↦ step s (send (ext_frame id e) ∷ [])
      ]
    ]
