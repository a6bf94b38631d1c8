-- ===== src/Examples/Routing.antt =====
-- The theorem on packages/rsocket-composite-metadata/src/RoutingMetadata.ts, applied.
use rsocket_js.Common.{◌≡◌, refl, arith, [], ◌∷◌}
use rsocket_js.Node.{ok}
use rsocket_js.Routing.{encode_routes, decode_routes}
use rsocket_js.Routing.RoundTrip.{IsRoute, route_bytes, yielded, decode_routes-encode_routes}
use rsocket_js.Examples.{small_runtime, five_bytes}

five_bytes-IsRoute : IsRoute small_runtime five_bytes
five_bytes-IsRoute = record { fits = omega arith; decodes = refl }

empty-IsRoute : IsRoute small_runtime []
empty-IsRoute = record { fits = omega arith; decodes = refl }

decode_routes-encode_routes_example :
    (encode_routes small_runtime (five_bytes ∷ [] ∷ five_bytes ∷ [])
      ≡ ok (route_bytes small_runtime (five_bytes ∷ [] ∷ five_bytes ∷ [])))
    × (decode_routes small_runtime (route_bytes small_runtime (five_bytes ∷ [] ∷ five_bytes ∷ []))
        ≡ yielded (five_bytes ∷ [] ∷ five_bytes ∷ []))
decode_routes-encode_routes_example =
    decode_routes-encode_routes small_runtime five_bytes ([] ∷ five_bytes ∷ [])
      (five_bytes-IsRoute, (empty-IsRoute, (five_bytes-IsRoute, tt)))
