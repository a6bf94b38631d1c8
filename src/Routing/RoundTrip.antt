-- ===== src/Routing/RoundTrip.antt =====
-- packages/rsocket-composite-metadata/src/RoutingMetadata.ts: routes, and the bytes of routes.
use rsocket_js.Common.{
  ℕ, zero, suc, ◌+◌, ◌-◌, ◌≤◌, ◌<◌, ◌≡◌, refl, ap, sym, ◌∙◌, arith, ltb, true, false, List, [], ◌∷◌,
  ◌++◌, length, take, take-append, length-append,
}
use mathlib.Core.Path.{ap₂}
use rsocket_js.Node.{Buffer, Runtime, ok, slice, write_all, write_uint8}
use rsocket_js.Node.Write.{write_all_lem, write_uint8-Writes}
use rsocket_js.Node.Read.{At, At-skip, length-At, read_uint8-At}
use rsocket_js.Codecs.{Yields, finished, yield}
use rsocket_js.Routing.{encode_route, encode_each, encode_routes, decode_routes_from, decode_routes}

-- The routes one by one, and then the end.
abbrev pub yielded : List (List ℕ) → Yields (List ℕ)
yielded [] = finished
yielded (route ∷ routes) = yield route (yielded routes)

module _ (rt : Runtime) where
  -- A route whose bytes fit, and that UTF-8 gives back.
  pub record IsRoute (route : List ℕ) : Type 0 where
    pub fits : length (rt.utf8_encode route) ≤ 255
    pub decodes : rt.utf8_decode (rt.utf8_encode route) ≡ route

  abbrev pub AllRoutes : List (List ℕ) → Type 0
  AllRoutes [] = Unit {0}
  AllRoutes (route ∷ routes) = IsRoute route × AllRoutes routes

  -- The layout: length and bytes of each route.
  abbrev pub route_bytes : List (List ℕ) → Buffer
  route_bytes [] = []
  route_bytes (route ∷ routes) =
      length (rt.utf8_encode route) ∷ (rt.utf8_encode route ++ route_bytes routes)

  one_byte : (memory : ℕ → ℕ) (n : ℕ) → n ≤ 255 → write_all memory 1 (write_uint8 n) ≡ ok (n ∷ [])
  one_byte memory n h = write_all_lem memory 1 (write_uint8-Writes n (omega arith)) refl

  encode_route-bytes :
      (route : List ℕ)
      → IsRoute route
      → encode_route rt route ≡ ok (length (rt.utf8_encode route) ∷ rt.utf8_encode route)
  unfolding encode_route
  encode_route-bytes route h =
      let short : ltb 255 (length (rt.utf8_encode route)) ≡ false = ground (arith, h.fits) in
      rw (short, one_byte rt.memory (length (rt.utf8_encode route)) h.fits) refl

  encode_each-bytes :
      (routes : List (List ℕ)) → AllRoutes routes → encode_each rt routes ≡ ok (route_bytes routes)
  unfolding encode_each
  encode_each-bytes [] h = refl
  encode_each-bytes (route ∷ routes) (h, hs) =
      rw (encode_route-bytes route h, encode_each-bytes routes hs) refl

  sliced :
      {buf : Buffer} {offset : ℕ} (bytes rest : Buffer)
      → At buf offset (bytes ++ rest)
      → slice buf offset (offset + length bytes) ≡ bytes
  unfolding slice
  sliced {buf} {offset} bytes rest a =
      let n : offset + length bytes - offset ≡ length bytes = omega arith in
      rw n (ap (take (length bytes)) a.found ∙ take-append bytes rest)

  decode_routes_from-bytes :
      (fuel : ℕ) (buf : Buffer) (offset : ℕ) (routes : List (List ℕ))
      → AllRoutes routes
      → At buf offset (route_bytes routes)
      → offset ≤ length buf
      → length buf < offset + fuel
      → decode_routes_from rt fuel buf offset ≡ yielded routes
  unfolding decode_routes_from
  decode_routes_from-bytes zero buf offset routes h a ho hf = absurd (omega arith)
  decode_routes_from-bytes (suc fuel) buf offset [] h a ho hf =
      let none_left : ltb offset (length buf) ≡ false = ground (arith, length-At a) in
      rw (none_left, decode_routes_from) refl
  decode_routes_from-bytes (suc fuel) buf offset (route ∷ routes) (h, hs) a ho hf =
      let bytes = rt.utf8_encode route in
      let n = length bytes in
      let one : At buf (offset + 1) (bytes ++ route_bytes routes) = At-skip (n ∷ []) a in
      let behind : At buf (offset + 1 + n) (route_bytes routes) = At-skip bytes one in
      let long : suc (n + length (route_bytes routes)) ≡ length buf - offset =
        ap suc (sym (length-append bytes (route_bytes routes))) ∙ length-At a in
      let some_left : ltb offset (length buf) ≡ true = ground arith in
      let inside : ltb (length buf) (offset + 1 + n) ≡ false = ground arith in
      rw (some_left, read_uint8-At a, inside, decode_routes_from)
        (ap₂ yield (ap rt.utf8_decode (sliced bytes (route_bytes routes) one) ∙ h.decodes) (
          decode_routes_from-bytes fuel buf (offset + 1 + n) routes hs behind (omega arith)
            (omega arith)))

  -- Routes of which there is one at least, whose bytes are 255 at most, and that UTF-8 gives back, are
  -- encoded, and decoding the bytes yields these routes in their order, and comes to its end.
  pub decode_routes-encode_routes :
      (route : List ℕ) (routes : List (List ℕ))
      → AllRoutes (route ∷ routes)
      → (encode_routes rt (route ∷ routes) ≡ ok (route_bytes (route ∷ routes)))
        × (decode_routes rt (route_bytes (route ∷ routes)) ≡ yielded (route ∷ routes))
  unfolding encode_routes decode_routes
  decode_routes-encode_routes route routes h =
      let buf = route_bytes (route ∷ routes) in
      (
        encode_each-bytes (route ∷ routes) h,
        decode_routes_from-bytes (suc (length buf)) buf 0 (route ∷ routes) h
            (record { found = refl }) (omega arith) (omega arith),
      )
