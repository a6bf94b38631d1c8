-- ===== src/Examples/Fragments.antt =====
-- The theorems on packages/rsocket-core/src/Fragmenter.ts and Reassembler.ts, applied.
use rsocket_js.Common.{◌≡◌, [], ◌∷◌, some, inl, refl, arith, false, true, bit_or, take}
use rsocket_js.Node.{buffer, pos}
use rsocket_js.Frames.{Frame}
use rsocket_js.Frames.Flags
use rsocket_js.Codecs.{Yields, yield}
use rsocket_js.Reassembler.{no_fragments}
use rsocket_js.Fragmenter.{
  payload, request_response, request_stream, make_frame, fragment, fragment_with_request_n,
}
use rsocket_js.Fragmenter.Assembly.{assemble}
use rsocket_js.Fragmenter.RoundTrip.{assemble-fragment}
use rsocket_js.Fragmenter.Limits.{
  assemble-fragment_request, assemble-fragment_with_request_n, fragment_with_request_n_oversized,
}
use rsocket_js.Fragmenter.Fits.{is_fragmentable-get_payload_length}
use rsocket_js.Frames.Lengths
use rsocket_js.Codecs.Payload.{get_payload_length}
use rsocket_js.Common.{ltb, ◌+◌, if◌then◌else◌}
use rsocket_js.Node.{ok}
use rsocket_js.Fragmenter.{is_fragmentable, is_request_many}
use rsocket_js.Fragmenter.Sizes.{AllSmall, fragment-AllSmall}
use rsocket_js.Examples.{five_bytes}

assemble-fragment_example :
    assemble no_fragments (
      fragment 6
        (pos 5)
        (record { data_ref = buffer five_bytes; metadata = buffer (8 ∷ 9 ∷ []) })
        4
        payload
        true)
    ≡ some (record { data_ref = buffer five_bytes; metadata = buffer (8 ∷ 9 ∷ []) })
assemble-fragment_example =
    assemble-fragment 6 (pos 5) five_bytes (buffer (8 ∷ 9 ∷ [])) 4 true (omega arith) (λ e. cc)
      (omega arith) (omega arith) (omega arith)

assemble-fragment_request_example :
    assemble no_fragments (
      fragment 6
        (pos 5)
        (record { data_ref = buffer five_bytes; metadata = buffer (8 ∷ 9 ∷ []) })
        4
        request_response
        false)
    ≡ some (record { data_ref = buffer five_bytes; metadata = buffer (8 ∷ 9 ∷ []) })
assemble-fragment_request_example =
    assemble-fragment_request 6 (pos 5) five_bytes (buffer (8 ∷ 9 ∷ [])) 4 request_response false
      refl (λ e. cc) (omega arith) (omega arith) (omega arith) (omega arith) (omega arith)

assemble-fragment_with_request_n_example :
    assemble no_fragments (
      fragment_with_request_n 6
        (pos 5)
        (record { data_ref = buffer five_bytes; metadata = buffer (8 ∷ 9 ∷ []) })
        7
        (request_stream (pos 1))
        false)
    ≡ some (record { data_ref = buffer five_bytes; metadata = buffer (8 ∷ 9 ∷ []) })
assemble-fragment_with_request_n_example =
    assemble-fragment_with_request_n 6 (pos 5) five_bytes (buffer (8 ∷ 9 ∷ [])) 7
      (request_stream (pos 1)) false (λ e. cc) (omega arith) (inl (omega arith)) (omega arith)
      (omega arith) (omega arith) (omega arith)

fragment_with_request_n_oversized_example :
    (rest : Yields Frame) × (fragment_with_request_n 2
        (pos 5)
        (record { data_ref = buffer five_bytes; metadata = buffer (8 ∷ []) })
        9
        (request_stream (pos 1))
        false
      ≡ yield
          (make_frame
            (request_stream (pos 1))
            (bit_or Flags.follows Flags.metadata)
            (buffer (take 4 five_bytes))
            (buffer (8 ∷ []))
            (pos 5))
          rest)
fragment_with_request_n_oversized_example =
    fragment_with_request_n_oversized 1 (pos 5) five_bytes 8 [] (request_stream (pos 1)) false 2
      (omega arith) (omega arith)

flagged : Flags.has_metadata 0x100 ≡ true
unfolding Flags.has_metadata
flagged = refl

is_fragmentable-get_payload_length_example :
    is_fragmentable
      (record { data_ref = buffer five_bytes; metadata = buffer (8 ∷ []) })
      9
      (request_stream (pos 1))
    ≡ ok (
        ltb 9 (
          get_payload_length (buffer five_bytes) 0x100 (buffer (8 ∷ []))
          + (if is_request_many (request_stream (pos 1)) then Lengths.request else 0)))
is_fragmentable-get_payload_length_example =
    is_fragmentable-get_payload_length five_bytes (buffer (8 ∷ [])) 9 0x100 (request_stream (pos 1))
      (omega arith) flagged

fragment-AllSmall_example : AllSmall 4 (
    fragment 6
      (pos 5)
      (record { data_ref = buffer five_bytes; metadata = buffer (8 ∷ 9 ∷ []) })
      4
      payload
      true)
fragment-AllSmall_example =
    fragment-AllSmall 6 (pos 5) five_bytes (buffer (8 ∷ 9 ∷ [])) 4 true (omega arith) (omega arith)
      (omega arith) (omega arith)
