-- ===== src/RequestFnf/Delivery.antt =====
-- packages/rsocket-core/src/RequestFnFStream.ts: both sides together.
use rsocket_js.Common.{
  Bool, true, false, none, some, List, [], ◌∷◌, ◌≡◌, refl, ap, ◌∙◌, Bool-cases, inl, inr,
}
use rsocket_js.Node.{BufferRef, Result, ok, throw}
use rsocket_js.Frames.{Frame, PayloadFrame}
use rsocket_js.Frames.Flags
use rsocket_js.Codecs.{Yields, finished, stuck, failed, yield}
use rsocket_js.Fragmenter.Assembly.{assemble, last_payload}
use rsocket_js.Fragmenter.Carried.{Every}
use rsocket_js.Fragmenter.Flagged.{IsFlagged}
use rsocket_js.Reassembler.{Payload, FragmentsHolder, no_fragments, add, reassemble}
use rsocket_js.Reassembler.Held.{Held, IsHeld, reassemble-held, add-IsHeld, add-has_fragments}
use rsocket_js.Streams.{disconnect, Step, step, prepend}
use rsocket_js.Streams.Traces.{run, continued}
use rsocket_js.RequestStream.Delivery.{listed}
use rsocket_js.RequestFnf.Responder.{FnfResponder, handle, handle_payload, held, start, start_with}

-- Frames that come to a responder in turn, with what the handler does when it is called.
unfoldable pub handle_all : Bool → List Frame → FnfResponder → Step FnfResponder
handle_all returns frames s = run (λ f. handle f returns) frames s

abbrev pub answered : Bool → Payload → FnfResponder → Step FnfResponder
answered returns p s = prepend disconnect (start p returns (record s { holder = no_fragments }))

not_ended : {p : Payload} → ¬ (none ≡ some p)
not_ended e = cc

handle-follows :
    (f : PayloadFrame) (returns : Bool) (s : FnfResponder) (h : FragmentsHolder)
    → Flags.has_follows f.flags ≡ true
    → add s.holder f.data_ref f.metadata ≡ ok h
    → handle (Frame.payload f) returns s ≡ step (record s { holder = h }) []
unfolding handle handle_payload
handle-follows f returns s h hf e = rw (hf, handle, handle_payload) (ap (held s) e)

handle-last :
    (f : PayloadFrame) (returns : Bool) (s : FnfResponder) (p : Payload)
    → Flags.has_follows f.flags ≡ false
    → reassemble s.holder f.data_ref f.metadata ≡ (no_fragments, ok p)
    → handle (Frame.payload f) returns s ≡ answered returns p s
unfolding handle handle_payload
handle-last f returns s p hf e =
    rw (hf, handle, handle_payload) (ap (λ r. prepend disconnect (start_with returns s r)) e)

handle_all-follows :
    (returns : Bool) (f : PayloadFrame) (rest : Yields Frame) (s : FnfResponder) (p : Payload)
    (added : Result FragmentsHolder)
    → Flags.has_follows f.flags ≡ true
    → s.holder.has_fragments ≡ true
    → IsHeld s.holder
    → add s.holder f.data_ref f.metadata ≡ added
    → (elim added [ ok h ↦ assemble h rest | throw e ↦ none ]) ≡ some p
    → ((h : FragmentsHolder)
        → h.has_fragments ≡ true
        → IsHeld h
        → assemble h rest ≡ some p
        → handle_all returns (listed rest) (record s { holder = h }) ≡ answered returns p s)
    → handle_all returns (Frame.payload f ∷ listed rest) s ≡ answered returns p s
unfolding handle_all run
handle_all-follows returns f rest s p (throw x) hf hb hh ha e more = absurd (not_ended e)
handle_all-follows returns f rest s p (ok h) hf hb hh ha e more =
    ap (λ r. continued r.ending r (run (λ g. handle g returns) (listed rest) r.stream))
      (handle-follows f returns s h hf ha)
    ∙ more h (add-has_fragments s.holder.has_fragments _ _ f.data_ref f.metadata h ha)
        (add-IsHeld s.holder.has_fragments _ _ f.data_ref f.metadata h hh ha) e

continued-answered :
    (returns : Bool) (p : Payload) (s : FnfResponder)
    → continued
        (answered returns p s).ending
        (answered returns p s)
        (step (answered returns p s).stream [])
      ≡ answered returns p s
continued-answered true p s = refl
continued-answered false p s = refl

last-reassemble :
    (f : PayloadFrame) (b : Bool) (dr hm : BufferRef) (p : Payload)
    → b ≡ true
    → Held b (record { has_fragments = b; data_ref = dr; metadata = hm })
    → last_payload
        (record { has_fragments = b; data_ref = dr; metadata = hm })
        f.data_ref
        f.metadata
      ≡ some p
    → reassemble (record { has_fragments = b; data_ref = dr; metadata = hm }) f.data_ref f.metadata
      ≡ (no_fragments, ok p)
unfolding last_payload
last-reassemble f true dr hm p hb h e = reassemble-held dr hm f.data_ref f.metadata _ p refl h e
last-reassemble f false dr hm p hb h e = absurd cc

handle_all-last :
    (returns : Bool) (f : PayloadFrame) (rest : Yields Frame) (s : FnfResponder) (p : Payload)
    → Flags.has_follows f.flags ≡ false
    → s.holder.has_fragments ≡ true
    → IsHeld s.holder
    → (elim rest [ finished ↦ last_payload s.holder f.data_ref f.metadata | _ ↦ none ]) ≡ some p
    → handle_all returns (Frame.payload f ∷ listed rest) s ≡ answered returns p s
unfolding handle_all run
handle_all-last returns f finished s p hf hb hh e =
    ap (λ r. continued r.ending r (step r.stream []))
      (handle-last f returns s p hf (last-reassemble f s.holder.has_fragments _ _ p hb hh e))
    ∙ continued-answered returns p s
handle_all-last returns f stuck s p hf hb hh e = absurd (not_ended e)
handle_all-last returns f (failed x) s p hf hb hh e = absurd (not_ended e)
handle_all-last returns f (yield g rest) s p hf hb hh e = absurd (not_ended e)

pub handle_all-assemble :
    (returns : Bool) (frames : Yields Frame) (s : FnfResponder) (p : Payload)
    → Every (IsFlagged false) frames
    → s.holder.has_fragments ≡ true
    → IsHeld s.holder
    → assemble s.holder frames ≡ some p
    → handle_all returns (listed frames) s ≡ answered returns p s
unfolding assemble
handle_all-assemble returns finished s p hf hb hh e = absurd (not_ended e)
handle_all-assemble returns stuck s p hf hb hh e = absurd (not_ended e)
handle_all-assemble returns (failed x) s p hf hb hh e = absurd (not_ended e)
handle_all-assemble returns (yield (Frame.payload f) rest) s p (flagged, hf) hb hh e =
    elim (Bool-cases (Flags.has_follows f.flags)) [
      | inl follows ↦
          handle_all-follows returns f rest s p _ follows hb hh refl (rw (follows, assemble) at e)
            (λ h hb' held' e'.
              handle_all-assemble returns rest (record s { holder = h }) p hf hb' held' e')
      | inr last ↦ handle_all-last returns f rest s p last hb hh (rw (last, assemble) at e)
    ]
handle_all-assemble returns (yield _ rest) s p (flagged, hf) hb hh e = elim flagged [ ]
