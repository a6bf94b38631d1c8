-- ===== src/Multiplexer.antt =====
-- packages/rsocket-core/src/ClientServerMultiplexerDemultiplexer.ts: StreamIdGeneratorImpl and
-- ClientServerInputMultiplexerDemultiplexer. A stream handler is a name of type H; what `handle` calls is
-- its result.
pub mod Registry
pub mod Routing
pub mod Ids
use rsocket_js.Common.{
  ℕ, ◌==◌, ltb, Bool, true, false, if◌then◌else◌, Option, none, some, List, [], ◌∷◌, map,
}
use rsocket_js.Node.{ℤ, pos, negsuc, Result, ok, throw, type_error, plain_error}
use rsocket_js.Node.Signed.{plus}
use rsocket_js.Frames.{
  Frame, FrameType, frame_type, type_code, stream_id_of, is_connection, is_request,
}

-- The order of `for ... in`: array indices first and ascending, then other keys as they were added.
abbrev pub before : ℤ → ℤ → Bool
before (pos a) (pos b) = ltb a b
before (pos a) (negsuc b) = true
before (negsuc a) k = false

abbrev pub same : ℤ → ℤ → Bool
same (pos a) (pos b) = a == b
same (negsuc a) (negsuc b) = a == b
same _ _ = false

abbrev pub Registry : Type 0 → Type 0
Registry H = List (ℤ × H)

unfoldable pub find : {H : Type 0} → ℤ → Registry H → Option H
find id [] = none
find id ((k, handler) ∷ rest) = if same id k then some handler else find id rest

unfoldable pub put : {H : Type 0} → ℤ → H → Registry H → Registry H
put id handler [] = (id, handler) ∷ []
put id handler ((k, other) ∷ rest) =
    let behind = (k, other) ∷ put id handler rest in
    if same id k
    then (id, handler) ∷ rest
    else if before id k
    then (id, handler) ∷ (k, other) ∷ rest
    else behind

unfoldable pub remove : {H : Type 0} → ℤ → Registry H → Registry H
remove id [] = []
remove id ((k, handler) ∷ rest) =
    let others = remove id rest in if same id k then others else (k, handler) ∷ others

pub record Multiplexer (H : Type 0) : Type 0 where
  pub done : Bool
  pub registry : Registry H
  pub has_connection_frames_handler : Bool
  pub has_request_frames_handler : Bool
  pub current_id : ℤ

-- Who is called with the frame.
pub data Call (H : Type 0) : Type 0 where
  nobody : Call H
  connection_frames_handler request_frames_handler : Frame → Call H
  stream_handler : H → Frame → Call H

-- A call on a handler that is undefined throws.
abbrev pub installed : {H : Type 0} → Bool → Call H → Result (Call H)
installed true call = ok call
installed false call = throw type_error

unfoldable pub handle_connection : {H : Type 0} → Frame → Multiplexer H → Result (Call H)
handle_connection frame m =
    if type_code (frame_type frame) == type_code FrameType.reserved
    then ok nobody
    else installed m.has_connection_frames_handler (connection_frames_handler frame)

-- A request for a stream that is there, and one for a stream that is not.
abbrev pub handle_request : {H : Type 0} → Frame → Bool → Option H → Result (Call H)
handle_request frame has_handler (some handler) = ok nobody
handle_request frame has_handler none = installed has_handler (request_frames_handler frame)

abbrev pub handle_stream : {H : Type 0} → Frame → Option H → Result (Call H)
handle_stream frame (some handler) = ok (stream_handler handler frame)
handle_stream frame none = ok nobody

unfoldable pub handle : {H : Type 0} → Frame → Multiplexer H → Result (Call H)
handle frame m =
    if is_connection frame
    then handle_connection frame m
    else if is_request frame
    then handle_request frame m.has_request_frames_handler (find (stream_id_of frame) m.registry)
    else handle_stream frame (find (stream_id_of frame) m.registry)

unfoldable pub connection_inbound : {H : Type 0} → Multiplexer H → Result (Multiplexer H)
connection_inbound m =
    if m.has_connection_frames_handler
    then throw plain_error
    else ok (record m { has_connection_frames_handler = true })

unfoldable pub handle_request_stream : {H : Type 0} → Multiplexer H → Result (Multiplexer H)
handle_request_stream m =
    if m.has_request_frames_handler
    then throw plain_error
    else ok (record m { has_request_frames_handler = true })

unfoldable pub connect : {H : Type 0} → ℤ → H → Multiplexer H → Multiplexer H
connect id handler m = record m { registry = put id handler m.registry }

unfoldable pub disconnect : {H : Type 0} → ℤ → Multiplexer H → Multiplexer H
disconnect id m = record m { registry = remove id m.registry }

-- `handleReady` of a stream: whether it takes the id, and what it does to the multiplexer.
abbrev pub Ready : Type 0 → Type 0
Ready H = ℤ → Multiplexer H → Bool × Multiplexer H

-- `next` of the generator.
unfoldable pub next : {H : Type 0} → Ready H → Multiplexer H → Option ℤ × Multiplexer H
next ready m =
    let next_id = plus m.current_id (pos 2) in
    let (taken, m') = ready next_id m in
    if taken then (some next_id, record m' { current_id = next_id }) else (none, m')

-- The id that was taken; a closed multiplexer rejects the stream.
unfoldable pub create_request_stream :
    {H : Type 0} → Ready H → Multiplexer H → Option ℤ × Multiplexer H
create_request_stream ready m = if m.done then (none, m) else next ready m

-- The streams that are closed, in order.
unfoldable pub close : {H : Type 0} → Multiplexer H → List H × Multiplexer H
close m = if m.done then ([], m) else (map (λ entry. entry.1) m.registry, record m { done = true })
