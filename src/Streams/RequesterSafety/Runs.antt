-- ===== src/Streams/RequesterSafety/Runs.antt =====
-- packages/rsocket-core/src: runs of the requesting streams, and the laws that a class of them has to keep.
use rsocket_js.Common.{
  ℕ, Bool, true, false, Option, none, some, List, [], ◌≡◌, refl, sym, ap, arith, Bool-cases, inl,
  inr, ◌∷◌,
}
use mathlib.Core.Path.{subst}
use rsocket_js.Node.{ℤ}
use rsocket_js.Frames.{Frame}
use rsocket_js.Errors.{RSocketError}
use rsocket_js.Streams.{Action, Step, step, Ending}
use rsocket_js.Streams.Traces.{Accepted, live, run, continued-Accepted}
use rsocket_js.Streams.Requester
use rsocket_js.Streams.Requester.{Requester}
use rsocket_js.Streams.RequesterSafety.{
  Phase, observe, Agrees, Fits, Event, ready, reject, frame, request, cancel, extension, close,
  Linked, AgreesLinked, NotFrame, NoFrame, NoFrameBehindClose, lift, given_id, RequesterClass,
  perform,
}
use rsocket_js.Streams.RequesterSafety.Operations.{
  cancel-waiting, cancel-active, request-waiting, request-active, on_extension-waiting,
  on_extension-active, handle_reject-waiting, close-waiting, close-active,
}

abbrev Open : Linked → Phase → Type 0
Open t phase = Agrees t.requester t.connected phase

abbrev NotClose : Event → Type 0
NotClose (close e) = ⊥
NotClose _ = Unit {0}

-- No frame comes to the stream by the event.
abbrev Quiet : Event → Bool → Type 0
Quiet (frame f) connected = connected ≡ false
Quiet _ connected = Unit {0}

NotFrame-Quiet : (e : Event) (connected : Bool) → NotFrame e → Quiet e connected
NotFrame-Quiet (frame f) connected h = elim h [ ]
NotFrame-Quiet _ connected h = tt

unconnected-Quiet : (e : Event) (connected : Bool) → connected ≡ false → Quiet e connected
unconnected-Quiet (frame f) connected h = h
unconnected-Quiet _ connected h = tt

Open-AgreesLinked : (t : Linked) (phase : Phase) → Open t phase → AgreesLinked t phase
Open-AgreesLinked t (Phase.closing id) h = elim h [ ]
Open-AgreesLinked t _ h = h

-- What a class has to show for its own operations.
pub record RequesterLaws (c : RequesterClass) : Type 0 where
  pub ready_waiting :
      (id : ℤ) (s : Requester)
      → s.stream_id ≡ none
      → Fits (c.handle_ready id s).1 false Phase.waiting
  pub ready_done : (id : ℤ) (s : Requester) → s.done ≡ true → (c.handle_ready id s).1 ≡ step s []
  pub handle_active :
      (f : Frame) (s : Requester) (id : ℤ)
      → s.done ≡ false
      → s.stream_id ≡ some id
      → Fits (c.handle f s) true (Phase.active id)

done-reject : (s : Requester) → s.done ≡ true → (e : _) → Requester.handle_reject e s ≡ step s []
unfolding Requester.handle_reject
done-reject s h e = ground arith

done-request : (s : Requester) → s.done ≡ true → (n : ℤ) → Requester.request n s ≡ step s []
unfolding Requester.request
done-request s h n = ground arith

done-cancel : (s : Requester) → s.done ≡ true → Requester.cancel s ≡ step s []
unfolding Requester.cancel
done-cancel s h = ground arith

done-on_extension :
    (s : Requester)
    → s.done ≡ true
    → (type : ℕ) (content : _) (ignored : Bool)
    → Requester.on_extension type content ignored s ≡ step s []
unfolding Requester.on_extension
done-on_extension s h type content ignored = ground arith

done-close : (s : Requester) → s.done ≡ true → (e : _) → Requester.close e s ≡ step s []
unfolding Requester.close
done-close s h e = ground arith

module _ (c : RequesterClass) (laws : RequesterLaws c) where
  abbrev Keeps : Step Linked → Phase → Type 0
  Keeps result phase = Accepted (perform c) observe Open result phase

  abbrev KeepsLinked : Step Linked → Phase → Type 0
  KeepsLinked result phase = Accepted (perform c) observe AgreesLinked result phase

  Keeps-KeepsLinked :
      (stream : Linked) (actions : List Action) (ending : Ending) (phase : Phase)
      → Keeps (record { stream = stream; actions = actions; ending = ending }) phase
      → KeepsLinked (record { stream = stream; actions = actions; ending = ending }) phase
  Keeps-KeepsLinked stream actions Ending.endless phase k = record {
    after = k.after;
    watched = k.watched;
    agrees = tt;
  }
  Keeps-KeepsLinked stream actions Ending.returned phase k = record {
    after = k.after;
    watched = k.watched;
    agrees = Open-AgreesLinked stream k.after k.agrees;
  }
  Keeps-KeepsLinked stream actions (Ending.threw e) phase k = record {
    after = k.after;
    watched = k.watched;
    agrees = Open-AgreesLinked stream k.after k.agrees;
  }

  lifted :
      {connected : Bool} {result : Step Requester} {phase : Phase}
      → Fits result connected phase
      → Keeps (lift connected result) phase
  lifted {connected} {result} f = record {
    after = f.after;
    watched = f.watched;
    agrees = live result.ending f.agrees;
  }

  stays : (t : Linked) (phase : Phase) → Open t phase → Keeps (step t []) phase
  stays t phase h = record { after = phase; watched = refl; agrees = h }

  given_id-stays :
      (id : Option ℤ) (t : Linked) {result : Step Linked}
      → result ≡ step t []
      → given_id c id result t ≡ step t []
  given_id-stays none t e = e
  given_id-stays (some id) t e = refl

  -- A stream that is done does nothing more.
  over :
      (e : Event) (t : Linked)
      → Quiet e t.connected
      → t.requester.done ≡ true
      → perform c e t ≡ step t []
  unfolding perform
  over (ready id) t hc hd =
      given_id-stays t.requester.stream_id t
        (ap (lift t.connected) (laws.ready_done id t.requester hd))
  over (reject e) t hc hd =
      given_id-stays t.requester.stream_id t (ap (lift t.connected) (done-reject t.requester hd e))
  over (frame f) t hc hd = rw hc refl
  over (request n) t hc hd = elim (Bool-cases c.has_request) [
    | inl e ↦ rw e (ap (lift t.connected) (done-request t.requester hd n))
    | inr e ↦ rw e refl
  ]
  over cancel t hc hd = ap (lift t.connected) (done-cancel t.requester hd)
  over (extension type content ignored) t hc hd =
      ap (lift t.connected) (done-on_extension t.requester hd type content ignored)
  over (close e) t hc hd = ap (lift t.connected) (done-close t.requester hd e)

  given_id-none :
      (id : Option ℤ) (t : Linked) (result : Step Linked)
      → id ≡ none
      → given_id c id result t ≡ result
  given_id-none id t result h = rw h refl

  given_id-some :
      (id : Option ℤ) {k : ℤ} (t : Linked) (result : Step Linked)
      → id ≡ some k
      → given_id c id result t ≡ step t []
  given_id-some id t result h = rw h refl

  over-Keeps :
      (e : Event) (t : Linked) (phase : Phase)
      → t.connected ≡ false
      → t.requester.done ≡ true
      → Open t phase
      → Keeps (perform c e t) phase
  over-Keeps e t phase hc hd h =
      subst (λ r. Keeps r phase) (sym (over e t (unconnected-Quiet e t.connected hc) hd))
        (stays t phase h)

  if-Keeps :
      (b : Bool) {result : Step Linked} (t : Linked) (phase : Phase)
      → Keeps result phase
      → Keeps (step t []) phase
      → Keeps (elim b [ true ↦ result | false ↦ step t [] ]) phase
  if-Keeps true t phase h h' = h
  if-Keeps false t phase h h' = h'

  waiting-Keeps :
      (e : Event) (s : Requester)
      → s.stream_id ≡ none
      → Keeps (perform c e (record { requester = s; connected = false })) Phase.waiting
  unfolding perform
  waiting-Keeps (ready id) s h =
      subst (λ r. Keeps r Phase.waiting) (sym (given_id-none s.stream_id _ _ h))
        (lifted (laws.ready_waiting id s h))
  waiting-Keeps (reject e) s h =
      subst (λ r. Keeps r Phase.waiting) (sym (given_id-none s.stream_id _ _ h))
        (lifted (handle_reject-waiting e s h))
  waiting-Keeps (frame f) s h =
      stays (record { requester = s; connected = false }) Phase.waiting (refl, h)
  waiting-Keeps (request n) s h =
      let t : Linked = record { requester = s; connected = false } in
      if-Keeps c.has_request t Phase.waiting (lifted (request-waiting n s h))
        (stays t Phase.waiting (refl, h))
  waiting-Keeps cancel s h = lifted (cancel-waiting s h)
  waiting-Keeps (extension type content ignored) s h =
      lifted (on_extension-waiting type content ignored s h)
  waiting-Keeps (close e) s h = lifted (close-waiting e s h)

  unmoved :
      (s : Requester) (connected : Bool) (id : ℤ)
      → s.done ≡ false
      → s.stream_id ≡ some id
      → Keeps (step (record { requester = s; connected = connected }) []) (Phase.active id)
  unmoved s connected id hd hi =
      stays (record { requester = s; connected = connected }) (Phase.active id) (hd, hi)

  active-Keeps :
      (e : Event) (s : Requester) (connected : Bool) (id : ℤ)
      → NotClose e
      → s.done ≡ false
      → s.stream_id ≡ some id
      → Keeps (perform c e (record { requester = s; connected = connected })) (Phase.active id)
  unfolding perform
  active-Keeps (ready id') s connected id allowed hd hi =
      subst (λ r. Keeps r (Phase.active id)) (sym (given_id-some s.stream_id _ _ hi))
        (unmoved s connected id hd hi)
  active-Keeps (reject e) s connected id allowed hd hi =
      subst (λ r. Keeps r (Phase.active id)) (sym (given_id-some s.stream_id _ _ hi))
        (unmoved s connected id hd hi)
  active-Keeps (frame f) s true id allowed hd hi = lifted (laws.handle_active f s id hd hi)
  active-Keeps (frame f) s false id allowed hd hi = unmoved s false id hd hi
  active-Keeps (request n) s connected id allowed hd hi =
      if-Keeps c.has_request (record { requester = s; connected = connected }) (Phase.active id)
        (lifted (request-active s connected id hd hi n)) (unmoved s connected id hd hi)
  active-Keeps cancel s connected id allowed hd hi = lifted (cancel-active s connected id hd hi)
  active-Keeps (extension type content ignored) s connected id allowed hd hi =
      lifted (on_extension-active s connected id hd hi type content ignored)
  active-Keeps (close e) s connected id allowed hd hi = elim allowed [ ]

  event-Keeps :
      (e : Event) (t : Linked) (phase : Phase)
      → NotClose e
      → Open t phase
      → Keeps (perform c e t) phase
  event-Keeps e t Phase.waiting allowed (hc, hi) =
      subst
        (λ b. Keeps (perform c e (record { requester = t.requester; connected = b })) Phase.waiting)
        (sym hc) (waiting-Keeps e t.requester hi)
  event-Keeps e t (Phase.active id) allowed (hd, hi) =
      active-Keeps e t.requester t.connected id allowed hd hi
  event-Keeps e t Phase.leaving allowed (hc, hd) = over-Keeps e t Phase.leaving hc hd (hc, hd)
  event-Keeps e t (Phase.closing id) allowed h = elim h [ ]
  event-Keeps e t Phase.ended allowed (hc, hd) = over-Keeps e t Phase.ended hc hd (hc, hd)
  event-Keeps e t Phase.cancelled allowed (hc, hd) = over-Keeps e t Phase.cancelled hc hd (hc, hd)

  linked : (result : Step Linked) (phase : Phase) → Keeps result phase → KeepsLinked result phase
  linked result phase k = Keeps-KeepsLinked result.stream result.actions result.ending phase k

  -- The connection closes.
  close-Keeps :
      (e : Option RSocketError) (t : Linked) (phase : Phase)
      → Open t phase
      → KeepsLinked (perform c (close e) t) phase
  unfolding perform
  close-Keeps e t Phase.waiting (hc, hi) =
      subst
        (λ b.
          KeepsLinked (perform c (close e) (record { requester = t.requester; connected = b }))
            Phase.waiting)
        (sym hc) (linked _ Phase.waiting (waiting-Keeps (close e) t.requester hi))
  close-Keeps e t (Phase.active id) (hd, hi) =
      let (watched, done, returned) = close-active t.requester t.connected id hd hi e in
      record {
        after = Phase.closing id;
        watched = watched;
        agrees = live (Requester.close e t.requester).ending done;
      }
  close-Keeps e t Phase.leaving (hc, hd) =
      linked _ Phase.leaving (over-Keeps (close e) t Phase.leaving hc hd (hc, hd))
  close-Keeps e t (Phase.closing id) h = elim h [ ]
  close-Keeps e t Phase.ended (hc, hd) =
      linked _ Phase.ended (over-Keeps (close e) t Phase.ended hc hd (hc, hd))
  close-Keeps e t Phase.cancelled (hc, hd) =
      linked _ Phase.cancelled (over-Keeps (close e) t Phase.cancelled hc hd (hc, hd))

  unclosed-KeepsLinked :
      (e : Event) (t : Linked) (phase : Phase) → Open t phase → KeepsLinked (perform c e t) phase
  unclosed-KeepsLinked (close e) t phase h = close-Keeps e t phase h
  unclosed-KeepsLinked e t phase h = linked (perform c e t) phase (event-Keeps e t phase tt h)

  -- Behind the closing, where no frame comes.
  closed-KeepsLinked :
      (e : Event) (t : Linked) (phase : Phase)
      → NotFrame e
      → AgreesLinked t phase
      → KeepsLinked (perform c e t) phase
  closed-KeepsLinked e t (Phase.closing id) allowed h =
      subst (λ r. KeepsLinked r (Phase.closing id))
        (sym (over e t (NotFrame-Quiet e t.connected allowed) h))
        (record { after = Phase.closing id; watched = refl; agrees = h })
  closed-KeepsLinked e t phase allowed h = unclosed-KeepsLinked e t phase h

  closed-run :
      (events : List Event) (t : Linked) (phase : Phase)
      → NoFrame events
      → AgreesLinked t phase
      → KeepsLinked (run (perform c) events t) phase
  unfolding run
  closed-run [] t phase allowed h = record { after = phase; watched = refl; agrees = h }
  closed-run (e ∷ events) t phase (allowed, more) h =
      let first = perform c e t in
      continued-Accepted (perform c) observe AgreesLinked AgreesLinked first.stream first.actions
        first.ending (run (perform c) events) (closed-KeepsLinked e t phase allowed h)
        (λ after agrees. closed-run events first.stream after more agrees)

  -- Whatever happens to a stream from its making on, the monitor accepts it.
  pub run-Requester :
      (events : List Event) (t : Linked) (phase : Phase)
      → NoFrameBehindClose events
      → Open t phase
      → KeepsLinked (run (perform c) events t) phase
  unfolding run
  run-Requester [] t phase allowed h = record {
    after = phase;
    watched = refl;
    agrees = Open-AgreesLinked t phase h;
  }
  run-Requester (close e ∷ events) t phase allowed h =
      let first = perform c (close e) t in
      continued-Accepted (perform c) observe AgreesLinked AgreesLinked first.stream first.actions
        first.ending (run (perform c) events) (close-Keeps e t phase h)
        (λ after agrees. closed-run events first.stream after allowed agrees)
  run-Requester (e ∷ events) t phase allowed h =
      let first = perform c e t in
      continued-Accepted (perform c) observe Open AgreesLinked first.stream first.actions
        first.ending (run (perform c) events) (event-Keeps e t phase tt h)
        (λ after agrees. run-Requester events first.stream after allowed agrees)
