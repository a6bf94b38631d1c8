-- ===== src/Streams/RequesterSafety/Ready.antt =====
-- packages/rsocket-core/src: a requesting stream that is given an id, and the monitor.
use rsocket_js.Common.{
  Bool, true, false, Option, none, some, List, [], ◌∷◌, ◌++◌, ◌≡◌, refl, sym, ◌∙◌, ap, arith,
}
use mathlib.Core.Path.{subst}
use rsocket_js.Node.{ℤ, Result, ok, throw, ◌>>=◌}
use rsocket_js.Frames.{Frame, stream_id_of}
use rsocket_js.Codecs.{Yields, finished, stuck, failed, yield}
use rsocket_js.Fragmenter.Carried.{Every, IsCarried}
use rsocket_js.Streams.{Action, send, Step, step, and_then, send_all, Ending, connect, prepend}
use rsocket_js.Streams.Traces.{watch, watch-append}
use rsocket_js.Streams.Requester.{Requester, Extension, handle_ready_with, send_extension}
use rsocket_js.Streams.RequesterSafety.{Phase, observe, Agrees, Fits, same_refl, link}

observe-IsCarried :
    (frame : Frame) (id : ℤ)
    → IsCarried id frame
    → observe (send frame) (Phase.active id) ≡ some (Phase.active id)
unfolding stream_id_of
observe-IsCarried (Frame.payload f) id h = rw (h, same_refl id) refl
observe-IsCarried (Frame.request_fnf f) id h = rw (h, same_refl id) refl
observe-IsCarried (Frame.request_response f) id h = rw (h, same_refl id) refl
observe-IsCarried (Frame.request_stream f) id h = rw (h, same_refl id) refl
observe-IsCarried (Frame.request_channel f) id h = rw (h, same_refl id) refl
observe-IsCarried _ id h = elim h [ ]

pub link-append : (xs ys : List Action) (c : Bool) → link (xs ++ ys) c ≡ link ys (link xs c)
link-append [] ys c = cc
link-append (x ∷ xs) ys c = link-append xs ys _

module _ (s : Requester) (id : ℤ) where
  -- The stream is still open, and the monitor with it.
  abbrev Open : Step Requester → Type 0
  Open result =
      (watch observe result.actions (Phase.active id) ≡ some (Phase.active id))
      × (result.stream ≡ s)

  send_all-Open : (frames : Yields Frame) → Every (IsCarried id) frames → Open (send_all frames s)
  unfolding send_all
  send_all-Open finished h = (refl, refl)
  send_all-Open stuck h = (refl, refl)
  send_all-Open (failed e) h = (refl, refl)
  send_all-Open (yield frame rest) (h, hs) =
      let (w, e) = send_all-Open rest hs in (rw (observe-IsCarried frame id h, watch) w, e)

  module _ (open_ : s.done ≡ false) (has_id : s.stream_id ≡ some id) where
    and_then-Fits :
        (actions : List Action) (ending : Ending) (stream : Requester)
        (more : Requester → Step Requester) (c : Bool)
        → Open (record { stream = stream; actions = actions; ending = ending })
        → ((c' : Bool) → Fits (more s) c' (Phase.active id))
        → Fits
            (and_then (record { stream = stream; actions = actions; ending = ending }) more)
            c
            (Phase.active id)
    and_then-Fits actions Ending.returned stream more c (w, e) fits =
        let f' =
          subst (λ r. Fits r (link actions c) (Phase.active id)) (ap more (sym e))
            (fits (link actions c)) in
        record {
          after = f'.after;
          watched =
              watch-append observe actions _ (Phase.active id) (Phase.active id) w ∙ f'.watched;
          agrees =
              subst (λ b. Agrees (more stream).stream b f'.after)
                (sym (link-append actions (more stream).actions c)) f'.agrees;
        }
    and_then-Fits actions (Ending.threw x) stream more c (w, e) fits = record {
      after = Phase.active id;
      watched = w;
      agrees = rw e (open_, has_id);
    }
    and_then-Fits actions Ending.endless stream more c (w, e) fits = record {
      after = Phase.active id;
      watched = w;
      agrees = rw e (open_, has_id);
    }

    send_extension-Fits : (c : Bool) → Fits (send_extension id s) c (Phase.active id)
    unfolding stream_id_of
    send_extension-Fits c = go s.extension
      where
        go :
            (extension : Option Extension)
            → Fits (send_extension id (record s { extension = extension })) c (Phase.active id)
        go none = record { after = Phase.active id; watched = refl; agrees = (open_, has_id) }
        go (some e) = record {
          after = Phase.active id;
          watched = rw (watch, same_refl id) refl;
          agrees = (open_, has_id);
        }

-- The case of a stream that is not done.
abbrev sent_first : Result (Yields Frame) → ℤ → Requester → Step Requester
sent_first frames id s = prepend (connect id) (elim frames [
  | throw e ↦ record { stream = s; actions = []; ending = Ending.threw e }
  | ok sent ↦ and_then (send_all sent s) (send_extension id)
])

sent_first-Fits :
    (frames : Result (Yields Frame)) (id : ℤ) (s : Requester)
    → s.done ≡ false
    → s.stream_id ≡ some id
    → ((sent : Yields Frame) → frames ≡ ok sent → Every (IsCarried id) sent)
    → Fits (sent_first frames id s) false Phase.waiting
sent_first-Fits (throw e) id s hd hi carried = record {
  after = Phase.active id;
  watched = refl;
  agrees = (hd, hi);
}
sent_first-Fits (ok sent) id s hd hi carried =
    let first = send_all sent s in
    let f =
      and_then-Fits s id hd hi first.actions first.ending first.stream (send_extension id) true
        (send_all-Open s id sent (carried sent refl)) (send_extension-Fits s id hd hi) in
    record { after = f.after; watched = f.watched; agrees = f.agrees }

pub ready_with-waiting :
    (frames : Result (Yields Frame)) (id : ℤ) (s : Requester)
    → s.stream_id ≡ none
    → ((sent : Yields Frame) → frames ≡ ok sent → Every (IsCarried id) sent)
    → Fits (handle_ready_with frames id s).1 false Phase.waiting
unfolding handle_ready_with
ready_with-waiting frames id s h carried = go s.done
  where
    go :
        (done : Bool)
        → Fits (handle_ready_with frames id (record s { done = done })).1 false Phase.waiting
    go true = record { after = Phase.waiting; watched = refl; agrees = (refl, h) }
    go false =
        sent_first-Fits frames id (record s { done = false; stream_id = some id }) refl refl carried

pub ready_with-done :
    (frames : Result (Yields Frame)) (id : ℤ) (s : Requester)
    → s.done ≡ true
    → (handle_ready_with frames id s).1 ≡ step s []
unfolding handle_ready_with
ready_with-done frames id s h = ground arith

-- A request is cut, or it is sent in one frame.
pub chosen-IsCarried :
    (id : ℤ) (fragmentable : Result Bool) (cut : Yields Frame) (whole : Frame)
    → Every (IsCarried id) cut
    → IsCarried id whole
    → (sent : Yields Frame)
    → (fragmentable >>= elim [ true ↦ ok cut | false ↦ ok (yield whole finished) ]) ≡ ok sent
    → Every (IsCarried id) sent
chosen-IsCarried id (throw e) cut whole hc hw sent h = cc
chosen-IsCarried id (ok true) cut whole hc hw sent h =
    let e : cut ≡ sent = cc in subst (λ f. Every (IsCarried id) f) e hc
chosen-IsCarried id (ok false) cut whole hc hw sent h =
    let e : yield whole finished ≡ sent = cc in subst (λ f. Every (IsCarried id) f) e (hw, tt)
