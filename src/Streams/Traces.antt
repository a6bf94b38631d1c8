-- ===== src/Streams/Traces.antt =====
-- Runs of a machine whose events give steps, and monitors that watch what it does.
use rsocket_js.Common.{
  ◌≡◌, refl, ◌∙◌, Option-cases, inl, inr, Option, none, some, List, [], ◌∷◌, ◌++◌,
}
use rsocket_js.Streams.{Action, Step, step, Ending}

-- A monitor goes on from state to state, or refuses an action.
module _ {W : Type 0} (observe : Action → W → Option W) where
  abbrev pub watch : List Action → W → Option W
  watch [] w = some w
  watch (a ∷ actions) w = elim (observe a w) [ none ↦ none | some w' ↦ watch actions w' ]

  pub watch-append :
      (xs ys : List Action) (w w' : W) → watch xs w ≡ some w' → watch (xs ++ ys) w ≡ watch ys w'
  watch-append [] ys w w' e = cc
  watch-append (x ∷ xs) ys w w' h = elim (Option-cases (observe x w)) [
    | inl e ↦ cc (rw (e, watch) at h)
    | inr (v, e) ↦ rw (e, watch) (watch-append xs ys v w' (rw (e, watch) at h))
  ]

-- What is asked of a step that ends.
abbrev pub Live : Ending → Type 0 → Type 0
Live Ending.endless P = Unit {0}
Live _ P = P

pub live : {P : Type 0} (ending : Ending) → P → Live ending P
live Ending.endless h = tt
live Ending.returned h = h
live (Ending.threw e) h = h

-- A step and what comes behind it, if it ended.
abbrev pub continued : {S : Type 0} → Ending → Step S → Step S → Step S
continued Ending.endless first rest = first
continued _ first rest = record rest { actions = first.actions ++ rest.actions }

module _ {S E : Type 0} (perform : E → S → Step S) where
  -- The events one after the other, up to one that does not end.
  unfoldable pub run : List E → S → Step S
  run [] s = step s []
  run (e ∷ events) s =
      let first = perform e s in continued first.ending first (run events first.stream)

module _ {S E W : Type 0} (perform : E → S → Step S) (observe : Action → W → Option W)
    (Agrees : S → W → Type 0) where
  -- The monitor goes through what was done, and agrees with the state behind it.
  pub record Accepted (result : Step S) (w : W) : Type 0 where
    pub after : W
    pub watched : watch observe result.actions w ≡ some after
    pub agrees : Live result.ending (Agrees result.stream after)

-- What comes behind the first step may keep another agreement.
module _ {S E W : Type 0} (perform : E → S → Step S) (observe : Action → W → Option W)
    (Agrees Later : S → W → Type 0) where
  pub continued-Accepted :
      {w : W} (stream : S) (actions : List Action) (ending : Ending) (rest : S → Step S)
      → Accepted perform observe Agrees
          (record { stream = stream; actions = actions; ending = ending })
          w
      → ((after : W) → Agrees stream after → Accepted perform observe Later (rest stream) after)
      → Accepted perform observe Later
          (continued ending
            (record { stream = stream; actions = actions; ending = ending })
            (rest stream))
          w
  continued-Accepted stream actions Ending.endless rest a keeps = record {
    after = a.after;
    watched = a.watched;
    agrees = tt;
  }
  continued-Accepted {w} stream actions Ending.returned rest a keeps =
      let b = keeps a.after a.agrees in
      record {
        after = b.after;
        watched =
            watch-append observe actions (rest stream).actions w a.after a.watched ∙ b.watched;
        agrees = b.agrees;
      }
  continued-Accepted {w} stream actions (Ending.threw e) rest a keeps =
      let b = keeps a.after a.agrees in
      record {
        after = b.after;
        watched =
            watch-append observe actions (rest stream).actions w a.after a.watched ∙ b.watched;
        agrees = b.agrees;
      }

-- The monitor accepts each run of a machine whose states agree with the monitor's, if each event keeps
-- the agreement.
module _ {S E W : Type 0} (perform : E → S → Step S) (observe : Action → W → Option W)
    (Agrees : S → W → Type 0) where
  pub run-Accepted :
      ((e : E) (s : S) (w : W) → Agrees s w → Accepted perform observe Agrees (perform e s) w)
      → (events : List E) (s : S) (w : W) → Agrees s w
      → Accepted perform observe Agrees (run perform events s) w
  unfolding run
  run-Accepted keeps [] s w h = record { after = w; watched = refl; agrees = h }
  run-Accepted keeps (e ∷ events) s w h =
      let first = perform e s in
      continued-Accepted perform observe Agrees Agrees first.stream first.actions first.ending
        (run perform events) (keeps e s w h)
        (λ after agrees. run-Accepted keeps events first.stream after agrees)
