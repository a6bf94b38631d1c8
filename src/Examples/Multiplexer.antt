-- ===== src/Examples/Multiplexer.antt =====
-- The theorems on packages/rsocket-core/src/ClientServerMultiplexerDemultiplexer.ts and Deferred.ts,
-- applied.
use rsocket_js.Common.{
  ℕ, ◌≡◌, refl, [], ◌∷◌, List, some, none, true, false, not, ◌||◌, if◌then◌else◌, length,
}
use rsocket_js.Node.{pos, negsuc, ok, type_error}
use rsocket_js.Frames.{is_connection, is_request, stream_id_of}
use rsocket_js.Deferred.{Operation, closing, registering, perform_all, new_deferred}
use rsocket_js.Deferred.Calls.{registered, first_closing, calls_of, perform_all-new_deferred}
use rsocket_js.Multiplexer.{
  Multiplexer, Ready, same, handle, connect, disconnect, installed, request_frames_handler, nobody,
  stream_handler,
}
use rsocket_js.Multiplexer.Routing.{handle-connect, handle-disconnect}
use rsocket_js.Multiplexer.Ids.{Keeps, create_all, every_second, create_all-every_second}
use rsocket_js.Examples.{small_payload}

abbrev operations : List (Operation ℕ)
operations =
    registering 1 ∷ registering 2 ∷ closing (some type_error) ∷ registering 3 ∷ closing none ∷ []

perform_all-new_deferred_example :
    perform_all operations new_deferred
    ≡ calls_of (first_closing operations) (registered operations)
perform_all-new_deferred_example = perform_all-new_deferred operations

-- A client before its first stream.
abbrev client : Multiplexer ℕ
client = record {
  done = false;
  registry = [];
  has_connection_frames_handler = true;
  has_request_frames_handler = true;
  current_id = negsuc 0;
}

handle-connect_example : handle small_payload (connect (pos 5) 8 client) ≡ (
    if is_connection small_payload || not (same (stream_id_of small_payload) (pos 5))
    then handle small_payload client
    else if is_request small_payload
    then ok nobody
    else ok (stream_handler 8 small_payload))
handle-connect_example = handle-connect small_payload (pos 5) 8 client

handle-disconnect_example : handle small_payload (disconnect (pos 5) client) ≡ (
    if is_connection small_payload || not (same (stream_id_of small_payload) (pos 5))
    then handle small_payload client
    else if is_request small_payload
    then installed client.has_request_frames_handler (request_frames_handler small_payload)
    else ok nobody)
handle-disconnect_example = handle-disconnect small_payload (pos 5) client

abbrev taking : Ready ℕ
taking id m = (true, connect id 8 m)

abbrev refusing : Ready ℕ
refusing id m = (false, m)

taking-Keeps : Keeps taking
unfolding connect
taking-Keeps = record { keeps_id = λ id m. refl }

refusing-Keeps : Keeps refusing
refusing-Keeps = record { keeps_id = λ id m. refl }

create_all-every_second_example :
    create_all (taking ∷ refusing ∷ taking ∷ []) client
    ≡ every_second (negsuc 0) (length (create_all (taking ∷ refusing ∷ taking ∷ []) client))
create_all-every_second_example =
    create_all-every_second (taking ∷ refusing ∷ taking ∷ []) client
      (taking-Keeps, (refusing-Keeps, (taking-Keeps, tt)))
