-- ===== src/Support/KeepAlive.antt =====
-- packages/rsocket-core/src/RSocketSupport.ts: KeepAliveHandler and KeepAliveSender. The time, `Date.now()`,
-- is an argument, and does not go back; a timer is the time at which it is due, or the period in which it
-- comes again.
pub mod Notice
use rsocket_js.Common.{
  ℕ, ◌+◌, ◌-◌, leb, Bool, true, false, Option, none, some, List, [], ◌∷◌, if◌then◌else◌,
}
use Prim.Native.Nat.{bit_xor}
use rsocket_js.Node.{undefined}
use rsocket_js.Frames.{Frame, KeepAliveFrame}
use rsocket_js.Frames.Flags

-- KeepAliveHandlerStates and KeepAliveSenderStates
pub data KeepAliveState : Type 0 where
  paused running closed : KeepAliveState

pub record KeepAliveHandler : Type 0 where
  pub keep_alive_timeout_duration : ℕ
  pub keep_alive_last_received_millis : ℕ
  pub active_timeout : Option ℕ
  pub state : KeepAliveState

-- `keepAliveLastReceivedMillis` has no value before the start.
abbrev pub new_keep_alive_handler : ℕ → KeepAliveHandler
new_keep_alive_handler duration = record {
  keep_alive_timeout_duration = duration;
  keep_alive_last_received_millis = 0;
  active_timeout = none;
  state = paused;
}

-- The handler after it, and the frames that it sends.
unfoldable pub handle : ℕ → KeepAliveFrame → KeepAliveHandler → KeepAliveHandler × List Frame
handle now f s = (
  record s { keep_alive_last_received_millis = now },
  if Flags.has_respond f.flags
      then Frame.keepalive (record {
        flags = bit_xor f.flags Flags.respond;
        data_ref = f.data_ref;
        last_received_position = 0;
      })
        ∷ []
      else [],
)

unfoldable pub start : ℕ → KeepAliveHandler → KeepAliveHandler
start now s = elim s.state [
  | paused ↦ record s {
    keep_alive_last_received_millis = now;
    state = running;
    active_timeout = some (now + s.keep_alive_timeout_duration);
  }
  | _ ↦ s
]

unfoldable pub pause : KeepAliveHandler → KeepAliveHandler
pause s = elim s.state [ running ↦ record s { state = paused; active_timeout = none } | _ ↦ s ]

unfoldable pub close : KeepAliveHandler → KeepAliveHandler
close s = record s { state = closed; active_timeout = none }

-- What the timer does: whether it closes the connection, or it is set again.
unfoldable pub timeout_check : ℕ → KeepAliveHandler → KeepAliveHandler × Bool
timeout_check now s =
    let no_keep_alive_duration = now - s.keep_alive_last_received_millis in
    let left = s.keep_alive_timeout_duration - no_keep_alive_duration in
    if leb s.keep_alive_timeout_duration no_keep_alive_duration
    then (record s { active_timeout = none }, true)
    else (record s { active_timeout = some (now + (if leb left 100 then 100 else left)) }, false)

pub record KeepAliveSender : Type 0 where
  pub keep_alive_period_duration : ℕ
  pub active_interval : Option ℕ
  pub sender_state : KeepAliveState

abbrev pub keep_alive_frame : Frame
keep_alive_frame =
    Frame.keepalive
      (record { flags = Flags.respond; data_ref = undefined; last_received_position = 0 })

unfoldable pub start_sender : KeepAliveSender → KeepAliveSender
start_sender s = elim s.sender_state [
  | paused ↦ record s {
    sender_state = running;
    active_interval = some s.keep_alive_period_duration;
  }
  | _ ↦ s
]

unfoldable pub pause_sender : KeepAliveSender → KeepAliveSender
pause_sender s = elim s.sender_state [
  | running ↦ record s { sender_state = paused; active_interval = none }
  | _ ↦ s
]

unfoldable pub close_sender : KeepAliveSender → KeepAliveSender
close_sender s = record s { sender_state = closed; active_interval = none }
