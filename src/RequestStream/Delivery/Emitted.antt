-- ===== src/RequestStream/Delivery/Emitted.antt =====
-- packages/rsocket-core/src/RequestStreamStream.ts: the frames of a payload, at the responder.
use rsocket_js.Common.{
  ℕ, Bool, true, false, if◌then◌else◌, Option, none, some, List, [], ◌∷◌, ◌++◌, ◌≡◌, ◌≢◌, ◌<◌, ◌≤◌,
  refl, ap, sym, ◌∙◌, arith, Bool-cases, inl, inr, ◌⊎◌, length, ◌==◌, append_assoc,
}
use rsocket_js.Node.{Buffer, BufferRef, null, buffer, Result, ok, throw}
use rsocket_js.Frames.{Frame}
use rsocket_js.Frames.Flags
use rsocket_js.Codecs.{Yields, finished, stuck, failed, yield}
use rsocket_js.Fragmenter.{Carrier, is_fragmentable, fragment, truthy}
use rsocket_js.Fragmenter.Assembly.{assemble, last_payload}
use rsocket_js.Fragmenter.Carried.{Every}
use rsocket_js.Fragmenter.Flagged.{IsFlagged, fragment-IsFlagged, single-AreFlagged, single-follows}
use rsocket_js.Fragmenter.RoundTrip.{assemble-fragment}
use rsocket_js.Reassembler.{Payload, no_fragments, FragmentsHolder, add}
use rsocket_js.Streams.{
  Action, send, disconnect, Step, step, prepend, and_then, send_all, Ending, fuel_for,
}
use rsocket_js.Streams.Responder
use rsocket_js.Streams.Responder.{
  Responder, Call, emit, finish, perform_call, payload_frame, payload_frames, leave_if,
  complete_frame,
}
use rsocket_js.RequestStream.Delivery.{listed}

-- The frames among the actions.
abbrev pub frame_of : Action → List Frame
frame_of (send frame) = frame ∷ []
frame_of _ = []

abbrev pub sent : List Action → List Frame
sent [] = []
sent (action ∷ actions) = frame_of action ++ sent actions

-- A payload that arrives as it is: nothing is cut, or the fragments have at least four bytes, and the
-- payload has data, of a byte at least, and no null for metadata.
pub data Deliverable (fragment_size : ℕ) : Payload → Type 0 where
  whole : (p : Payload) → fragment_size ≡ 0 → Deliverable fragment_size p
  cut :
      (d : _) (m : BufferRef)
      → 0 < length d
      → m ≢ null
      → 4 ≤ fragment_size
      → Deliverable fragment_size (record { data_ref = buffer d; metadata = m })

abbrev pub sends : List Frame → List Action
sends [] = []
sends (frame ∷ frames) = send frame ∷ sends frames

pub sent-append : (xs ys : List Action) → sent (xs ++ ys) ≡ sent xs ++ sent ys
sent-append [] ys = cc
sent-append (x ∷ xs) ys =
    ap (◌++◌ (frame_of x)) (sent-append xs ys) ∙ sym (append_assoc (frame_of x) (sent xs) (sent ys))

pub sent-sends : (frames : List Frame) → sent (sends frames) ≡ frames
sent-sends [] = refl
sent-sends (f ∷ frames) = ap (◌∷◌ f) (sent-sends frames)

-- A generator that comes to its end.
abbrev pub IsEnding : Yields Frame → Type 0
IsEnding finished = Unit {0}
IsEnding (yield frame rest) = IsEnding rest
IsEnding _ = ⊥

pub send_all-IsEnding :
    {S : Type 0} (frames : Yields Frame) (s : S)
    → IsEnding frames
    → send_all frames s ≡ step s (sends (listed frames))
unfolding send_all
send_all-IsEnding finished s h = refl
send_all-IsEnding (yield f rest) s h = ap (prepend (send f)) (send_all-IsEnding rest s h)
send_all-IsEnding stuck s h = elim h [ ]
send_all-IsEnding (failed e) s h = elim h [ ]

not_ended : {p : Payload} → ¬ (none ≡ some p)
not_ended e = cc

follows-IsEnding :
    (added : Result FragmentsHolder) (rest : Yields Frame) (p : Payload)
    → (elim added [ ok h ↦ assemble h rest | throw e ↦ none ]) ≡ some p
    → ((h : FragmentsHolder) → assemble h rest ≡ some p → IsEnding rest)
    → IsEnding rest
follows-IsEnding (ok h) rest p e more = more h e
follows-IsEnding (throw x) rest p e more = absurd (not_ended e)

last-IsEnding :
    (rest : Yields Frame) (last : Option Payload) (p : Payload)
    → (elim rest [ finished ↦ last | _ ↦ none ]) ≡ some p
    → IsEnding rest
last-IsEnding finished last p e = tt
last-IsEnding stuck last p e = not_ended e
last-IsEnding (failed x) last p e = not_ended e
last-IsEnding (yield f rest) last p e = absurd (not_ended e)

pub assemble-IsEnding :
    (c : Bool) (frames : Yields Frame) (h : FragmentsHolder) (p : Payload)
    → Every (IsFlagged c) frames
    → assemble h frames ≡ some p
    → IsEnding frames
unfolding assemble
assemble-IsEnding c finished h p hf e = tt
assemble-IsEnding c stuck h p hf e = not_ended e
assemble-IsEnding c (failed x) h p hf e = not_ended e
assemble-IsEnding c (yield (Frame.payload f) rest) h p (flagged, hf) e =
    elim (Bool-cases (Flags.has_follows f.flags)) [
      | inl follows ↦
          follows-IsEnding (add h f.data_ref f.metadata) rest p (rw (follows, assemble) at e)
            (λ h' e'. assemble-IsEnding c rest h' p hf e')
      | inr last ↦ last-IsEnding rest _ p (rw (last, assemble) at e)
    ]
assemble-IsEnding c (yield _ rest) h p (flagged, hf) e = elim flagged [ ]

abbrev pub leaving : Bool → List Action
leaving c = if c then disconnect ∷ [] else []

abbrev emit_frames : Bool → Responder → Result (Yields Frame) → Step Responder
emit_frames c s (throw e) = record {
  stream = record s { done = c };
  actions = [];
  ending = Ending.threw e;
}
emit_frames c s (ok frames) = and_then (send_all frames (record s { done = c })) (leave_if c)

on_next-open :
    (p : Payload) (c : Bool) (s : Responder)
    → s.done ≡ false
    → Responder.on_next p c s ≡ emit_frames c s (payload_frames p c s)
unfolding Responder.on_next
on_next-open p c s hd = ground arith

-- What a responder does with a payload.
pub record Emitted (p : Payload) (c : Bool) (s : Responder) : Type 0 where
  pub frames : Yields Frame
  pub flagged : Every (IsFlagged c) frames
  pub assembled : assemble no_fragments frames ≡ some p
  pub emitted :
      Responder.on_next p c s ≡ step (record s { done = c }) (sends (listed frames) ++ leaving c)

frames-Emitted :
    (p : Payload) (c : Bool) (s : Responder) (frames : Yields Frame)
    → s.done ≡ false
    → payload_frames p c s ≡ ok frames
    → Every (IsFlagged c) frames
    → assemble no_fragments frames ≡ some p
    → Emitted p c s
frames-Emitted p c s frames hd hp hf ha = record {
  frames = frames;
  flagged = hf;
  assembled = ha;
  emitted =
      on_next-open p c s hd
      ∙ ap (emit_frames c s) hp
      ∙ ap (λ st. and_then st (leave_if c))
          (send_all-IsEnding frames (record s { done = c })
            (assemble-IsEnding c frames no_fragments p hf ha));
}

single-Emitted :
    (p : Payload) (c : Bool) (s : Responder)
    → s.done ≡ false
    → is_fragmentable p s.fragment_size Carrier.payload ≡ ok false
    → Emitted p c s
unfolding payload_frames assemble last_payload
single-Emitted p c s hd h =
    frames-Emitted p c s (yield (payload_frame s.stream_id p c) finished) hd
      (rw (h, payload_frames) refl) (single-AreFlagged c (truthy p.metadata), tt)
      (rw (single-follows c (truthy p.metadata), assemble) refl)

cut-Emitted :
    (d : Buffer) (m : BufferRef) (c : Bool) (s : Responder)
    → s.done ≡ false
    → 0 < length d
    → m ≢ null
    → 4 ≤ s.fragment_size
    → is_fragmentable (record { data_ref = buffer d; metadata = m }) s.fragment_size Carrier.payload
      ≡ ok true
    → Emitted (record { data_ref = buffer d; metadata = m }) c s
unfolding payload_frames
cut-Emitted d m c s hd hl hm hs h =
    let p : Payload = record { data_ref = buffer d; metadata = m } in
    frames-Emitted p c s (fragment (fuel_for p) s.stream_id p s.fragment_size Carrier.payload c) hd
      (rw (h, payload_frames) refl)
      (fragment-IsFlagged (fuel_for p) s.stream_id p s.fragment_size c)
      (assemble-fragment (fuel_for p) s.stream_id d m s.fragment_size c hl hm hs (omega arith)
        (omega arith))

is_fragmentable-zero :
    (p : Payload) (n : ℕ) → n ≡ 0 → is_fragmentable p n Carrier.payload ≡ ok false
unfolding is_fragmentable
is_fragmentable-zero p n h = rw h refl

pub either_way : (b : Bool) → (ok b ≡ ok true) ⊎ (ok b ≡ ok false)
either_way true = inl refl
either_way false = inr refl

is_fragmentable-data :
    (d : Buffer) (m : BufferRef) (n : ℕ)
    → 4 ≤ n
    → (is_fragmentable (record { data_ref = buffer d; metadata = m }) n Carrier.payload ≡ ok true)
      ⊎ (is_fragmentable (record { data_ref = buffer d; metadata = m }) n Carrier.payload
          ≡ ok false)
unfolding is_fragmentable
is_fragmentable-data d m n h =
    let some_size : (n == 0) ≡ false = ground arith in rw some_size (either_way _)

pub on_next-Emitted :
    (p : Payload) (c : Bool) (s : Responder)
    → s.done ≡ false
    → Deliverable s.fragment_size p
    → Emitted p c s
on_next-Emitted _ c s hd (whole p hz) =
    single-Emitted p c s hd (is_fragmentable-zero p s.fragment_size hz)
on_next-Emitted _ c s hd (cut d m hl hm hs) = elim (is_fragmentable-data d m s.fragment_size hs) [
  | inl e ↦ cut-Emitted d m c s hd hl hm hs e
  | inr e ↦ single-Emitted (record { data_ref = buffer d; metadata = m }) c s hd e
]
