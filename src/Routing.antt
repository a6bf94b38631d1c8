-- ===== src/Routing.antt =====
-- packages/rsocket-composite-metadata/src/RoutingMetadata.ts: routes as metadata, each behind its length in
-- one byte.
pub mod RoundTrip
use rsocket_js.Common.{
  ℕ, zero, suc, ◌+◌, ltb, Bool, true, false, List, [], ◌∷◌, ◌++◌, length, if◌then◌else◌,
}
use rsocket_js.Node.{
  Buffer, Runtime, Result, ok, throw, plain_error, ◌>>=◌, read_uint8, slice, write_all, write_uint8,
}
use rsocket_js.Codecs.{Yields, finished, stuck, failed, yield}

module _ (rt : Runtime) where
  unfoldable pub encode_route : List ℕ → Result Buffer
  encode_route route =
      let encoded_route = rt.utf8_encode route in
      if ltb 255 (length encoded_route)
      then throw plain_error
      else write_all rt.memory 1 (write_uint8 (length encoded_route)) >>= λ encoded_length.
          ok (encoded_length ++ encoded_route)

  -- `Buffer.concat(routes.map(…))`
  unfoldable pub encode_each : List (List ℕ) → Result Buffer
  encode_each [] = ok []
  encode_each (route ∷ routes) =
      encode_route route >>= λ first. encode_each routes >>= λ rest. ok (first ++ rest)

  unfoldable pub encode_routes : List (List ℕ) → Result Buffer
  encode_routes [] = throw plain_error
  encode_routes (route ∷ routes) = encode_each (route ∷ routes)

  -- `while (offset < length)`
  unfoldable pub decode_routes_from : ℕ → Buffer → ℕ → Yields (List ℕ)
  decode_routes_from zero buf offset = stuck
  decode_routes_from (suc fuel) buf offset = elim (ltb offset (length buf)) [
    | false ↦ finished
    | true ↦ elim (read_uint8 buf offset) [
      | throw e ↦ failed e
      | ok route_length ↦
          let start = offset + 1 in
          let end = start + route_length in
          elim (ltb (length buf) end) [
            | true ↦ failed plain_error
            | false ↦ yield (rt.utf8_decode (slice buf start end)) (decode_routes_from fuel buf end)
          ]
    ]
  ]

  -- Each round moves by a byte at least.
  unfoldable pub decode_routes : Buffer → Yields (List ℕ)
  decode_routes buf = decode_routes_from (suc (length buf)) buf 0
