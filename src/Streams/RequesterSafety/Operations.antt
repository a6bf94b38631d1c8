-- ===== src/Streams/RequesterSafety/Operations.antt =====
-- packages/rsocket-core/src: the operations that both classes of requesting streams have, and the monitor.
use rsocket_js.Common.{
  ℕ, Bool, true, false, Option, none, some, List, ◌≡◌, refl, sym, arith, Bool-cases, inl, inr,
}
use mathlib.Core.Path.{subst}
use rsocket_js.Node.{ℤ, BufferRef, Result, ok, throw}
use rsocket_js.Errors.{RSocketError}
use rsocket_js.Frames.{Frame, PayloadFrame, ErrorFrame, ExtFrame, stream_id_of}
use rsocket_js.Reassembler.{FragmentsHolder, Payload}
use rsocket_js.Streams.{disconnect, prepend, unexpected_during_reassembly, Ending}
use rsocket_js.Streams.Traces.{watch}
use rsocket_js.Streams.Requester
use rsocket_js.Streams.Requester.{Requester}
use rsocket_js.Streams.RequesterSafety.{Phase, Fits, same_refl, observe}

pub cancel-waiting :
    (s : Requester) → s.stream_id ≡ none → Fits (Requester.cancel s) false Phase.waiting
unfolding Requester.cancel
cancel-waiting s h = elim (Bool-cases s.done) [
  | inl d ↦ record { after = Phase.waiting; watched = ground arith; agrees = ground arith }
  | inr d ↦ elim (Bool-cases s.has_lease_manager) [
    | inl l ↦ record { after = Phase.cancelled; watched = ground arith; agrees = ground arith }
    | inr l ↦ record { after = Phase.waiting; watched = ground arith; agrees = ground arith }
  ]
]

pub cancel-active :
    (s : Requester) (c : Bool) (id : ℤ)
    → s.done ≡ false
    → s.stream_id ≡ some id
    → Fits (Requester.cancel s) c (Phase.active id)
unfolding Requester.cancel
cancel-active s c id hd hi = record {
  after = Phase.cancelled;
  watched = ground (arith, same_refl id);
  agrees = ground arith;
}

pub request-waiting :
    (n : ℤ) (s : Requester) → s.stream_id ≡ none → Fits (Requester.request n s) false Phase.waiting
unfolding Requester.request
request-waiting n s h = elim (Bool-cases s.done) [
  | inl d ↦ record { after = Phase.waiting; watched = ground arith; agrees = ground arith }
  | inr d ↦ record { after = Phase.waiting; watched = ground arith; agrees = ground arith }
]

pub on_extension-waiting :
    (type : ℕ) (content : BufferRef) (ignored : Bool) (s : Requester)
    → s.stream_id ≡ none
    → Fits (Requester.on_extension type content ignored s) false Phase.waiting
unfolding Requester.on_extension
on_extension-waiting type content ignored s h = elim (Bool-cases s.done) [
  | inl d ↦ record { after = Phase.waiting; watched = ground arith; agrees = ground arith }
  | inr d ↦ record { after = Phase.waiting; watched = ground arith; agrees = ground arith }
]

pub handle_reject-waiting :
    (e : RSocketError) (s : Requester)
    → s.stream_id ≡ none
    → Fits (Requester.handle_reject e s) false Phase.waiting
unfolding Requester.handle_reject
handle_reject-waiting e s h = elim (Bool-cases s.done) [
  | inl d ↦ record { after = Phase.waiting; watched = ground arith; agrees = ground arith }
  | inr d ↦ record { after = Phase.ended; watched = ground arith; agrees = ground arith }
]

pub close-waiting :
    (e : Option RSocketError) (s : Requester)
    → s.stream_id ≡ none
    → Fits (Requester.close e s) false Phase.waiting
unfolding Requester.close
close-waiting e s h = elim (Bool-cases s.done) [
  | inl d ↦ record { after = Phase.waiting; watched = ground arith; agrees = ground arith }
  | inr d ↦ record { after = Phase.ended; watched = ground arith; agrees = ground arith }
]

-- A stream with an id that is not done.
module _ (s : Requester) (c : Bool) (id : ℤ) (open_ : s.done ≡ false)
    (has_id : s.stream_id ≡ some id) where
  pub request-active : (n : ℤ) → Fits (Requester.request n s) c (Phase.active id)
  unfolding Requester.request stream_id_of
  request-active n = record {
    after = Phase.active id;
    watched = ground (arith, same_refl id);
    agrees = ground arith;
  }

  pub on_extension-active :
      (type : ℕ) (content : BufferRef) (ignored : Bool)
      → Fits (Requester.on_extension type content ignored s) c (Phase.active id)
  unfolding Requester.on_extension stream_id_of
  on_extension-active type content ignored = record {
    after = Phase.active id;
    watched = ground (arith, same_refl id);
    agrees = ground arith;
  }

  pub refuse-active : (message : List ℕ) → Fits (Requester.refuse message s) c (Phase.active id)
  unfolding Requester.refuse Requester.close
  refuse-active message = record {
    after = Phase.cancelled;
    watched = ground (arith, same_refl id);
    agrees = ground arith;
  }

  pub handle_error-active : (f : ErrorFrame) → Fits (Requester.handle_error f s) c (Phase.active id)
  unfolding Requester.handle_error
  handle_error-active f = record {
    after = Phase.ended;
    watched = ground arith;
    agrees = ground arith;
  }

  pub hold-active : (f : PayloadFrame) → Fits (Requester.hold f s) c (Phase.active id)
  unfolding Requester.hold
  hold-active f = record { after = Phase.active id; watched = ground arith; agrees = ground arith }

  pub deliver-active : (f : PayloadFrame) → Fits (Requester.deliver f false s) c (Phase.active id)
  unfolding Requester.deliver
  deliver-active f = go (Requester.take_payload f s.holder)
    where
      go :
          (taken : FragmentsHolder × Result Payload)
          → Fits (Requester.passed_on false s taken) c (Phase.active id)
      go (holder, ok payload) = record {
        after = Phase.active id;
        watched = refl;
        agrees = (open_, has_id);
      }
      go (holder, throw e) = record {
        after = Phase.active id;
        watched = refl;
        agrees = (open_, has_id);
      }

  handle_ext-held :
      (f : ExtFrame)
      → s.holder.has_fragments ≡ true
      → Requester.handle_ext f s ≡ Requester.refuse (unexpected_during_reassembly (Frame.ext f)) s
  unfolding Requester.handle_ext
  handle_ext-held f h = ground arith

  handle_ext-plain :
      (f : ExtFrame)
      → s.holder.has_fragments ≡ false
      → Fits (Requester.handle_ext f s) c (Phase.active id)
  unfolding Requester.handle_ext
  handle_ext-plain f h = record {
    after = Phase.active id;
    watched = ground arith;
    agrees = ground arith;
  }

  pub handle_ext-active : (f : ExtFrame) → Fits (Requester.handle_ext f s) c (Phase.active id)
  handle_ext-active f = elim (Bool-cases s.holder.has_fragments) [
    | inl h ↦
        subst (λ r. Fits r c (Phase.active id)) (sym (handle_ext-held f h))
          (refuse-active (unexpected_during_reassembly (Frame.ext f)))
    | inr h ↦ handle_ext-plain f h
  ]

  pub close-active :
      (e : Option RSocketError)
      → (watch observe (Requester.close e s).actions (Phase.active id) ≡ some (Phase.closing id))
        × ((Requester.close e s).stream.done ≡ true)
        × ((Requester.close e s).ending ≡ Ending.returned)
  unfolding Requester.close
  close-active e = (ground arith, ground arith, ground arith)

  -- A payload that ends the stream: disconnected, and then told.
  pub deliver-last :
      (f : PayloadFrame)
      → Fits
          (prepend disconnect (Requester.deliver f true (record s { done = true })))
          c
          (Phase.active id)
  unfolding Requester.deliver
  deliver-last f = go (Requester.take_payload f s.holder)
    where
      go :
          (taken : FragmentsHolder × Result Payload)
          → Fits
              (prepend disconnect (Requester.passed_on true (record s { done = true }) taken))
              c
              (Phase.active id)
      go (holder, ok payload) = record {
        after = Phase.ended;
        watched = refl;
        agrees = (refl, refl);
      }
      go (holder, throw e) = record { after = Phase.leaving; watched = refl; agrees = (refl, refl) }
