-- ===== src/RequestStream/Delivery.antt =====
-- packages/rsocket-core/src/RequestStreamStream.ts: the frames of a payload, at the requester of the
-- stream.
pub mod Emitted
pub mod Payloads
use rsocket_js.Common.{
  ℕ, Bool, true, false, if◌then◌else◌, Option, none, some, List, [], ◌∷◌, ◌++◌, ◌≡◌, ◌≢◌, refl, ap,
  sym, ◌∙◌, arith, Bool-cases, inl, inr,
}
use mathlib.Core.Path.{ap₂, subst}
use rsocket_js.Node.{BufferRef, undefined, null, buffer, Result, ok, throw}
use rsocket_js.Frames.{Frame, PayloadFrame}
use rsocket_js.Frames.Flags
use rsocket_js.Codecs.{Yields, finished, stuck, failed, yield}
use rsocket_js.Fragmenter.Assembly.{assemble, last_payload}
use rsocket_js.Fragmenter.Carried.{Every}
use rsocket_js.Fragmenter.Flagged.{AreFlagged, IsFlagged}
use rsocket_js.Reassembler
use rsocket_js.Reassembler.{
  Payload, FragmentsHolder, no_fragments, add, reassemble, extend_data, first_metadata,
  extend_metadata,
}
use rsocket_js.Reassembler.Held.{Held, IsHeld, inj, reassemble-held, add-IsHeld}
use rsocket_js.Streams.{Action, send, on_next, disconnect, Step, step, prepend, Ending}
use rsocket_js.Streams.Traces.{run, continued}
use rsocket_js.Streams.Requester
use rsocket_js.Streams.Requester.{Requester, take_payload, passed_on, deliver, hold}
use rsocket_js.RequestStream.Requester.{handle, handle_payload}

abbrev pub listed : Yields Frame → List Frame
listed (yield frame rest) = frame ∷ listed rest
listed _ = []

-- What a receiver is told of a payload, and what the connection.
abbrev pub told : Bool → Payload → List Action
told true p = disconnect ∷ on_next p true ∷ []
told false p = on_next p false ∷ []

abbrev pub delivered : Bool → Payload → Requester → Step Requester
delivered c p r = step (record r { done = c; holder = no_fragments }) (told c p)

take_payload-last :
    (f : PayloadFrame) (b : Bool) (dr hm : BufferRef) (p : Payload)
    → Held b (record { has_fragments = b; data_ref = dr; metadata = hm })
    → last_payload
        (record { has_fragments = b; data_ref = dr; metadata = hm })
        f.data_ref
        f.metadata
      ≡ some p
    → take_payload f (record { has_fragments = b; data_ref = dr; metadata = hm })
      ≡ (no_fragments, ok p)
unfolding take_payload last_payload
take_payload-last f true dr hm p held e =
    reassemble-held dr hm f.data_ref f.metadata _ p refl held e
take_payload-last f false dr hm p held e = ap₂ (λ h q. (h, ok q)) held (inj e)

handle-follows :
    (f : PayloadFrame) (r : Requester) (h : FragmentsHolder)
    → Flags.has_complete f.flags ≡ false
    → Flags.has_follows f.flags ≡ true
    → add r.holder f.data_ref f.metadata ≡ ok h
    → handle (Frame.payload f) r ≡ step (record r { holder = h }) []
unfolding handle handle_payload hold
handle-follows f r h hc hf e = ground arith

handle-last :
    (f : PayloadFrame) (c : Bool) (r : Requester) (p : Payload)
    → r.done ≡ false
    → Flags.has_next f.flags ≡ true
    → Flags.has_complete f.flags ≡ c
    → Flags.has_follows f.flags ≡ false
    → take_payload f r.holder ≡ (no_fragments, ok p)
    → handle (Frame.payload f) r ≡ delivered c p r
unfolding handle handle_payload deliver
handle-last f true r p hd hn hc hf e =
    rw (hc, hn) (ap (λ t. prepend disconnect (passed_on true (record r { done = true }) t)) e)
handle-last f false r p hd hn hc hf e =
    rw (hc, hf)
      (ap (λ t. passed_on false r t) e
        ∙ ap (λ b. step (record r { done = b; holder = no_fragments }) (on_next p false ∷ [])) hd)

not_ended : {p : Payload} → ¬ (none ≡ some p)
not_ended e = cc

abbrev pub behind : List Action → Step Requester → Step Requester
behind actions s = record s { actions = actions ++ s.actions }

-- A payload is delivered, and then come the other frames.
abbrev pub goes_on : Bool → Payload → Requester → List Frame → Step Requester
goes_on c p r more =
    behind (told c p) (run handle more (record r { done = c; holder = no_fragments }))

-- A frame, and the frames behind it.
pub run-cons :
    (f : Frame) (frames : List Frame) (r r' : Requester) (actions : List Action)
    → handle f r ≡ step r' actions
    → run handle (f ∷ frames) r ≡ behind actions (run handle frames r')
unfolding run
run-cons f frames r r' actions e = ap (λ s. continued s.ending s (run handle frames s.stream)) e

run-follows :
    (c : Bool) (f : PayloadFrame) (rest : Yields Frame) (more : List Frame) (r : Requester)
    (p : Payload) (added : Result FragmentsHolder)
    → Flags.has_complete f.flags ≡ false
    → Flags.has_follows f.flags ≡ true
    → IsHeld r.holder
    → add r.holder f.data_ref f.metadata ≡ added
    → (elim added [ ok h ↦ assemble h rest | throw e ↦ none ]) ≡ some p
    → ((h : FragmentsHolder)
        → IsHeld h
        → assemble h rest ≡ some p
        → run handle (listed rest ++ more) (record r { holder = h }) ≡ goes_on c p r more)
    → run handle (Frame.payload f ∷ (listed rest ++ more)) r ≡ goes_on c p r more
run-follows c f rest more r p (throw x) hc hf hh ha e then_ = absurd (not_ended e)
run-follows c f rest more r p (ok h) hc hf hh ha e then_ =
    run-cons (Frame.payload f) (listed rest ++ more) r (record r { holder = h }) []
      (handle-follows f r h hc hf ha)
    ∙ then_ h (add-IsHeld r.holder.has_fragments _ _ f.data_ref f.metadata h hh ha) e

run-last :
    (c : Bool) (f : PayloadFrame) (rest : Yields Frame) (more : List Frame) (r : Requester)
    (p : Payload)
    → AreFlagged c f.flags
    → Flags.has_follows f.flags ≡ false
    → IsHeld r.holder
    → r.done ≡ false
    → (elim rest [ finished ↦ last_payload r.holder f.data_ref f.metadata | _ ↦ none ]) ≡ some p
    → run handle (Frame.payload f ∷ (listed rest ++ more)) r ≡ goes_on c p r more
run-last c f finished more r p flagged last hh hd e =
    run-cons (Frame.payload f) more r (record r { done = c; holder = no_fragments }) (told c p)
      (handle-last f c r p hd flagged.with_next (rw last at flagged.complete_last) last
        (take_payload-last f r.holder.has_fragments _ _ p hh e))
run-last c f stuck more r p flagged last hh hd e = absurd (not_ended e)
run-last c f (failed x) more r p flagged last hh hd e = absurd (not_ended e)
run-last c f (yield g rest) more r p flagged last hh hd e = absurd (not_ended e)

-- Frames that make up a payload deliver it, whatever frames come behind them.
pub run-assemble :
    (c : Bool) (frames : Yields Frame) (more : List Frame) (r : Requester) (p : Payload)
    → Every (IsFlagged c) frames
    → IsHeld r.holder
    → r.done ≡ false
    → assemble r.holder frames ≡ some p
    → run handle (listed frames ++ more) r ≡ goes_on c p r more
unfolding assemble run
run-assemble c finished more r p hf hh hd e = absurd (not_ended e)
run-assemble c stuck more r p hf hh hd e = absurd (not_ended e)
run-assemble c (failed x) more r p hf hh hd e = absurd (not_ended e)
run-assemble c (yield (Frame.payload f) rest) more r p (flagged, hf) hh hd e =
    elim (Bool-cases (Flags.has_follows f.flags)) [
      | inl follows ↦
          run-follows c f rest more r p _ (rw follows at flagged.complete_last) follows hh refl
            (rw (follows, assemble) at e)
            (λ h held e'. run-assemble c rest more (record r { holder = h }) p hf held hd e')
      | inr last ↦ run-last c f rest more r p flagged last hh hd (rw (last, assemble) at e)
    ]
run-assemble c (yield _ rest) more r p (flagged, hf) hh hd e = elim flagged [ ]
