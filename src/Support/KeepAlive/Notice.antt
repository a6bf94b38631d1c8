-- ===== src/Support/KeepAlive/Notice.antt =====
-- packages/rsocket-core/src/RSocketSupport.ts: KeepAliveHandler, while time goes by.
use rsocket_js.Common.{
  ℕ, ◌+◌, ◌-◌, ◌≤◌, ◌≡◌, ◌≢◌, leb, Bool, true, false, Option, none, some, List, [], ◌∷◌,
  if◌then◌else◌,
}
use rsocket_js.Frames.{KeepAliveFrame}
use rsocket_js.Support.KeepAlive
use rsocket_js.Support.KeepAlive.{running, KeepAliveHandler, new_keep_alive_handler, timeout_check}

-- A handler, the time, and how long nothing had come when it closed the connection.
pub record Watch : Type 0 where
  pub handler : KeepAliveHandler
  pub now : ℕ
  pub silence : Option ℕ

abbrev pub new_watch : ℕ → Watch
new_watch duration = record { handler = new_keep_alive_handler duration; now = 0; silence = none }

-- Time goes by, a KEEPALIVE comes, the connection starts, pauses or closes; the timer, if it is due, fires.
pub data Event : Type 0 where
  elapse : ℕ → Event
  receive : KeepAliveFrame → Event
  start pause close : Event
  fire : Event

abbrev pub checked : Watch → KeepAliveHandler × Bool → Watch
checked w (s, true) = record w {
  handler = s;
  silence = some (w.now - w.handler.keep_alive_last_received_millis);
}
checked w (s, false) = record w { handler = s }

unfoldable pub happen : Event → Watch → Watch
happen (elapse time) w = record w { now = w.now + time }
happen (receive f) w = record w { handler = (KeepAlive.handle w.now f w.handler).0 }
happen start w = record w { handler = KeepAlive.start w.now w.handler }
happen pause w = record w { handler = KeepAlive.pause w.handler }
happen close w = record w { handler = KeepAlive.close w.handler }
happen fire w = elim w.handler.active_timeout [
  | none ↦ w
  | some due ↦ if leb due w.now then checked w (timeout_check w.now w.handler) else w
]

unfoldable pub happen_all : List Event → Watch → Watch
happen_all [] w = w
happen_all (e ∷ events) w = happen_all events (happen e w)

-- A timer is set at most 100 milliseconds beyond the time that the peer has; without a timer, a handler
-- does not run unless it has closed the connection.
abbrev pub Timed : Option ℕ → ℕ → Watch → Type 0
Timed none duration w = w.handler.state ≡ running → w.silence ≢ none
Timed (some due) duration w =
    (due ≤ w.handler.keep_alive_last_received_millis + duration + 100) × (w.handler.state ≡ running)

abbrev pub WasSilent : ℕ → Option ℕ → Type 0
WasSilent duration none = Unit {0}
WasSilent duration (some time) = duration ≤ time

pub record IsWatchful (duration : ℕ) (w : Watch) : Type 0 where
  pub lasts : w.handler.keep_alive_timeout_duration ≡ duration
  pub past : w.handler.keep_alive_last_received_millis ≤ w.now
  pub timed : Timed w.handler.active_timeout duration w
  pub was_silent : WasSilent duration w.silence
