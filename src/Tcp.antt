-- ===== src/Tcp.antt =====
-- packages/rsocket-tcp-client/src/TcpDuplexConnection.ts: a connection over a socket. The socket, the
-- multiplexer and the callbacks of Deferred are its surroundings, with a state of their own.
pub mod Consume
pub mod Chunks
pub mod Delivery
pub mod Sending
use rsocket_js.Common.{ℕ, Bool, true, false, Option, none, some, ◌++◌, length, List, [], ◌∷◌}
use rsocket_js.Node.{Buffer, Error, Result, ok, throw, plain_error, type_error, Runtime, slice}
use rsocket_js.Frames.{Frame}
use rsocket_js.Codecs.{
  Yields, finished, stuck, failed, yield, deserialize_frames, serialize_frame_with_length,
}

-- What `handle` does: it returns, it throws, or it closes the connection, and goes on behind that.
pub data Handling (S : Type 0) : Type 0 where
  returns : S → Handling S
  throws : Error → S → Handling S
  closes : Option Error → S → (S → Handling S) → Handling S

pub record Surroundings (S : Type 0) : Type 0 where
  pub handle : Option Frame → S → Handling S
  pub socket_write : Buffer → S → S
  pub socket_end : S → S
  pub close_callbacks : Option Error → S → S

-- `closed_by` is the error that Deferred keeps, `error` the one that the socket reported.
pub record TcpDuplexConnection (S : Type 0) : Type 0 where
  pub done : Bool
  pub closed_by : Option Error
  pub error : Option Error
  pub remaining_buffer : Buffer
  pub around : S

-- What may change of a connection while a frame is handled: what `close` sets, and what is around.
pub record Core (S : Type 0) : Type 0 where
  pub done : Bool
  pub closed_by : Option Error
  pub around : S

abbrev pub core_of : {S : Type 0} → TcpDuplexConnection S → Core S
core_of c = record { done = c.done; closed_by = c.closed_by; around = c.around }

abbrev pub with_core : {S : Type 0} → Core S → TcpDuplexConnection S → TcpDuplexConnection S
with_core core c = record c { done = core.done; closed_by = core.closed_by; around = core.around }

-- How a call of `handle` ended.
pub data Outcome (S : Type 0) : Type 0 where
  handled : Core S → Outcome S
  threw : Error → Core S → Outcome S

-- How the loop over the frames ends, with the last offset.
pub data Round (S : Type 0) : Type 0 where
  all_handled : ℕ → Core S → Round S
  cut_off : Error → Core S → Round S

module _ {S : Type 0} (rt : Runtime) (env : Surroundings S) where
  -- The listeners are taken off the socket: `data_event` delivers nothing to a closed connection.
  unfoldable pub close_core : Option Error → Core S → Core S
  close_core e core = elim core.done [
    | true ↦ core
    | false ↦ record {
      done = true;
      closed_by = e;
      around = env.close_callbacks e (env.socket_end core.around);
    }
  ]

  unfoldable pub close : Option Error → TcpDuplexConnection S → TcpDuplexConnection S
  close e c = with_core (close_core e (core_of c)) c

  -- A call of `handle`, its calls of `close` included.
  unfoldable pub handle_with : Handling S → Core S → Outcome S
  handle_with (returns s) core = handled (record core { around = s })
  handle_with (throws e s) core = threw e (record core { around = s })
  handle_with (closes e s more) core =
      let core' = close_core e (record core { around = s }) in handle_with (more core'.around) core'

  abbrev pub write_out : Result Buffer → TcpDuplexConnection S → Result (TcpDuplexConnection S)
  write_out (ok buf) c = ok (record c { around = env.socket_write buf c.around })
  write_out (throw e) c = throw e

  unfoldable pub send : Frame → TcpDuplexConnection S → Result (TcpDuplexConnection S)
  send frame c = elim c.done [
    | true ↦ ok c
    | false ↦ write_out (serialize_frame_with_length rt frame) c
  ]

  -- The frames of a buffer never end with `stuck`.
  unfoldable pub handle_frames : Yields (Option Frame × ℕ) → ℕ → Core S → Round S
  handle_frames finished last core = all_handled last core
  handle_frames stuck last core = all_handled last core
  handle_frames (failed e) last core = cut_off e core
  handle_frames (yield (frame, offset) rest) last core =
      elim (handle_with (env.handle frame core.around) core) [
        | handled core' ↦ handle_frames rest offset core'
        | threw e core' ↦ cut_off e core'
      ]

  -- A connection that was closed on the way handles the rest of the chunk and no other one. What is kept for the next chunk, or the connection closed.
  unfoldable pub after_frames : Buffer → Round S → TcpDuplexConnection S → TcpDuplexConnection S
  after_frames buf (all_handled last core) c = record (with_core core c) {
    remaining_buffer = slice buf last (length buf);
  }
  after_frames buf (cut_off e core) c = close (some e) (with_core core c)

  unfoldable pub handle_data : Buffer → TcpDuplexConnection S → TcpDuplexConnection S
  handle_data chunks c =
      let buf : Buffer = c.remaining_buffer ++ chunks in
      after_frames buf (handle_frames (deserialize_frames rt buf) 0 (core_of c)) c

  unfoldable pub data_event : TcpDuplexConnection S → Buffer → TcpDuplexConnection S
  data_event c chunks = elim c.done [ true ↦ c | false ↦ handle_data chunks c ]

  unfoldable pub data_events : TcpDuplexConnection S → List Buffer → TcpDuplexConnection S
  data_events c [] = c
  data_events c (chunks ∷ more) = data_events (data_event c chunks) more

  unfoldable pub handle_error : Error → TcpDuplexConnection S → TcpDuplexConnection S
  handle_error e c = record c { error = some e }

  unfoldable pub handle_closed : Bool → TcpDuplexConnection S → Result (TcpDuplexConnection S)
  handle_closed false c = ok (close (some plain_error) c)
  handle_closed true c = elim c.error [
    | none ↦ throw type_error
    | some e ↦ ok (close (some plain_error) c)
  ]
