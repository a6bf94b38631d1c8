-- ===== src/Fragmenter/Fits.antt =====
-- packages/rsocket-core/src/Fragmenter.ts: which payloads are cut at all.
use rsocket_js.Common.{ℕ, Bool, ◌+◌, ◌<◌, ◌≡◌, ap, length, ltb, if◌then◌else◌, arith, false, ◌==◌}
use rsocket_js.Node.{Buffer, BufferRef, undefined, null, buffer, byte_length, Result, ok}
use rsocket_js.Frames.Flags
use rsocket_js.Frames.Lengths
use rsocket_js.Codecs.Payload.{get_payload_length}
use rsocket_js.Fragmenter.{Carrier, is_request_many, truthy, is_fragmentable}

-- With a fragment size above 0, a payload with data is cut exactly if what the codec writes of it, with
-- the flag METADATA set just if there are metadata, and with the room for a request count, is longer.
pub is_fragmentable-get_payload_length :
    (d : Buffer) (metadata : BufferRef) (fragment_size flags : ℕ) (carrier : Carrier)
    → 0 < fragment_size
    → Flags.has_metadata flags ≡ truthy metadata
    → is_fragmentable (record { data_ref = buffer d; metadata = metadata }) fragment_size carrier
      ≡ ok (
          ltb fragment_size (
            get_payload_length (buffer d) flags metadata
            + (if is_request_many carrier then Lengths.request else 0)))
unfolding is_fragmentable get_payload_length
is_fragmentable-get_payload_length d metadata fs flags carrier h flagged =
    let some_size : (fs == 0) ≡ false = ground arith in rw (some_size, flagged) (go metadata)
  where
    measured : ℕ → Result Bool
    measured n = ok (ltb fs (n + (if is_request_many carrier then Lengths.request else 0)))

    go :
        (m : BufferRef)
        → ok (
            ltb fs (
              length d
              + (if truthy m then byte_length m + Lengths.metadata else 0)
              + (if is_request_many carrier then Lengths.request else 0)))
          ≡ ok (
              ltb fs (
                (if truthy m then length d + (3 + byte_length m) else length d)
                + (if is_request_many carrier then Lengths.request else 0)))
    go undefined = ap measured (omega arith)
    go null = ap measured (omega arith)
    go (buffer m) = ap measured (omega arith)
