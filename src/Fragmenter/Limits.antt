-- ===== src/Fragmenter/Limits.antt =====
-- packages/rsocket-core/src/Fragmenter.ts: requests of every kind, and where the room goes wrong.
use rsocket_js.Common.{
  ℕ, zero, suc, ◌+◌, ◌-◌, ◌≤◌, ◌<◌, ◌≡◌, ◌≢◌, refl, ap, ◌∙◌, [], ◌∷◌, arith, length, take, Bool,
  false, some, bit_or, ◌⊎◌, inl, inr,
}
use native.Mathlib.Decide.{dec_le}
use rsocket_js.Node.{ℤ, pos, negsuc, Buffer, BufferRef, undefined, null, buffer, byte_length, slice}
use rsocket_js.Node.Signed.{minus, plus, min_of, slice_signed, index}
use rsocket_js.Frames.{Frame}
use rsocket_js.Frames.Flags
use rsocket_js.Codecs.{Yields, yield}
use rsocket_js.Reassembler.{no_fragments}
use rsocket_js.Fragmenter.{
  Carrier, is_payload, Job, data_loop, make_frame, first_data_frame, first_data_from, fragment,
  fragment_with_request_n,
}
use rsocket_js.Fragmenter.Assembly.{assemble}
use rsocket_js.Fragmenter.Metadata.{minus-pos}
use rsocket_js.Fragmenter.Requests.{assemble-first_data, assemble-full_metadata, few_metadata}

-- The room that metadata take in a frame: their length has three bytes.
abbrev pub metadata_size : BufferRef → ℕ
metadata_size (buffer m) = 3 + length m
metadata_size _ = 0

-- A payload that does not fit one frame, cut into fragments of a REQUEST_FNF or REQUEST_RESPONSE of
-- at least four bytes, is made up again by the receiver; fuel above the two lengths is enough.
pub assemble-fragment_request :
    (fuel : ℕ) (stream_id : ℤ) (d : Buffer) (metadata : BufferRef) (fragment_size : ℕ)
    (carrier : Carrier) (is_complete : Bool)
    → is_payload carrier ≡ false
    → metadata ≢ null
    → 4 ≤ fragment_size
    → fragment_size < length d + metadata_size metadata
    → 0 < length d
    → length d < fuel
    → byte_length metadata < fuel
    → assemble no_fragments (
        fragment fuel stream_id
          (record { data_ref = buffer d; metadata = metadata })
          fragment_size
          carrier
          is_complete)
      ≡ some (record { data_ref = buffer d; metadata = metadata })
unfolding fragment
assemble-fragment_request fuel sid d undefined fs carrier c hc hn hs big hd hf hm =
    rw hc (assemble-first_data fuel _ carrier d undefined fs refl (omega arith) (omega arith) hf hn)
assemble-fragment_request fuel sid d null fs carrier c hc hn hs big hd hf hm = absurd (hn refl)
assemble-fragment_request fuel sid d (buffer []) fs carrier c hc hn hs big hd hf hm =
    rw (hc, minus-pos fs 3 (omega arith))
      (assemble-first_data fuel _ carrier d (buffer []) (fs - 3) refl (omega arith) (omega arith) hf
        hn)
assemble-fragment_request zero sid d (buffer (b ∷ m)) fs carrier c hc hn hs big hd hf hm =
    absurd (omega arith)
assemble-fragment_request (suc fuel) sid d (buffer (b ∷ m)) fs carrier c hc hn hs big hd hf hm =
    rw (hc, minus-pos fs 3 (omega arith))
      (elim (dec_le (fs - 3) (length (b ∷ m))) [
        | yes full ↦
            assemble-full_metadata (suc fuel) _ carrier (b ∷ m) d (fs - 3) _ refl hd hs hf hm
              (omega arith) full
        | no few ↦ rw (few_metadata fuel _ carrier (b ∷ m) (fs - 3) _ (omega arith)) (
            assemble-first_data (suc fuel) _ carrier d (buffer (b ∷ m)) (fs - 3 - length (b ∷ m))
              refl (omega arith) (omega arith) hf (λ e. cc))
      ])

-- The metadata fill the first frame of a REQUEST_STREAM or REQUEST_CHANNEL, or leave room in it for
-- three bytes at least beside the request count; an empty buffer of metadata does no harm.
abbrev pub HasRoom : ℕ → BufferRef → Type 0
HasRoom fragment_size (buffer (b ∷ m)) =
    (fragment_size ≤ 6 + length (b ∷ m)) ⊎ (9 + length (b ∷ m) ≤ fragment_size)
HasRoom fragment_size _ = Unit {0}

-- A payload that does not fit one frame, cut into fragments of a REQUEST_STREAM or REQUEST_CHANNEL
-- of at least seven bytes, is made up again by the receiver, if the metadata leave no room or enough.
pub assemble-fragment_with_request_n :
    (fuel : ℕ) (stream_id : ℤ) (d : Buffer) (metadata : BufferRef) (fragment_size : ℕ)
    (carrier : Carrier) (is_complete : Bool)
    → metadata ≢ null
    → 7 ≤ fragment_size
    → HasRoom fragment_size metadata
    → fragment_size < length d + metadata_size metadata + 3
    → 0 < length d
    → length d < fuel
    → byte_length metadata < fuel
    → assemble no_fragments (
        fragment_with_request_n fuel stream_id
          (record { data_ref = buffer d; metadata = metadata })
          fragment_size
          carrier
          is_complete)
      ≡ some (record { data_ref = buffer d; metadata = metadata })
unfolding fragment_with_request_n
assemble-fragment_with_request_n fuel sid d undefined fs carrier c hn hs room big hd hf hm =
    rw (minus-pos fs 3 (omega arith)) (
      assemble-first_data fuel _ carrier d undefined (fs - 3) refl (omega arith) (omega arith) hf
        hn)
assemble-fragment_with_request_n fuel sid d null fs carrier c hn hs room big hd hf hm =
    absurd (hn refl)
assemble-fragment_with_request_n fuel sid d (buffer []) fs carrier c hn hs room big hd hf hm =
    rw (minus-pos fs 3 (omega arith), minus-pos (fs - 3) 3 (omega arith))
      (assemble-first_data fuel _ carrier d (buffer []) (fs - 3 - 3) refl (omega arith)
        (omega arith) hf hn)
assemble-fragment_with_request_n zero sid d (buffer (b ∷ m)) fs carrier c hn hs room big hd hf hm =
    absurd (omega arith)
assemble-fragment_with_request_n (suc fuel) sid d (buffer (b ∷ m)) fs carrier c hn hs room big hd hf
      hm =
    rw (minus-pos fs 6 (omega arith)) (elim room [
      | inl full ↦
          assemble-full_metadata (suc fuel) _ carrier (b ∷ m) d (fs - 6) _ refl hd (omega arith) hf
            hm (omega arith) (omega arith)
      | inr enough ↦
          rw
            (
              few_metadata fuel _ carrier (b ∷ m) (fs - 6) _ (omega arith),
              minus-pos (fs - 6 - length (b ∷ m)) 3 (omega arith),
            )
            (assemble-first_data (suc fuel) _ carrier d (buffer (b ∷ m))
              (fs - 6 - length (b ∷ m) - 3) refl (omega arith) (omega arith) hf (λ e. cc))
    ])

minus_below : (r n : ℕ) → r < n → minus (pos r) n ≡ negsuc (n - suc r)
unfolding minus
minus_below r n h = ground arith

plus-zero_negsuc : (k : ℕ) → plus (pos 0) (negsuc k) ≡ negsuc k
unfolding plus
plus-zero_negsuc k = minus_below 0 (suc k) (omega arith) ∙ ap negsuc (omega arith)

slice_signed-negsuc :
    (d : Buffer) (k : ℕ) → slice_signed d (pos 0) (negsuc k) ≡ take (length d - suc k) d
unfolding slice_signed slice index
slice_signed-negsuc d k = ap (λ n. take n d) (omega arith)

-- The first data frame where the room is down to -(k + 1).
negative_room :
    (fuel : ℕ) (job : Job) (carrier : Carrier) (d m : Buffer) (k : ℕ)
    → first_data_from fuel job carrier (buffer d) (buffer m) (negsuc k)
      ≡ yield
          (make_frame carrier
            (bit_or Flags.follows Flags.metadata)
            (buffer (take (length d - suc k) d))
            (buffer m)
            job.stream_id)
          (data_loop fuel job d (negsuc k) (pos job.fragment_size) undefined)
unfolding first_data_from min_of
negative_room fuel job carrier d m k = rw (plus-zero_negsuc k, slice_signed-negsuc d k) refl

-- Where one or two bytes are left beside metadata and request count, the room for the count is taken
-- off twice. The negative rest counts from the end of the data: the first frame has all data but one
-- or two bytes, however small the fragments are to be.
pub fragment_with_request_n_oversized :
    (fuel : ℕ) (stream_id : ℤ) (d : Buffer) (b : ℕ) (m : Buffer) (carrier : Carrier)
    (is_complete : Bool) (left : ℕ)
    → 0 < left
    → left < 3
    → (rest : Yields Frame) × (fragment_with_request_n
          (suc fuel)
          stream_id
          (record { data_ref = buffer d; metadata = buffer (b ∷ m) })
          (6 + length (b ∷ m) + left)
          carrier
          is_complete
        ≡ yield
            (make_frame carrier
              (bit_or Flags.follows Flags.metadata)
              (buffer (take (length d - suc (3 - suc left)) d))
              (buffer (b ∷ m))
              stream_id)
            rest)
unfolding fragment_with_request_n first_data_frame
fragment_with_request_n_oversized fuel sid d b m carrier c left lo hi =
    let size : ℕ = 6 + length (b ∷ m) + left in
    let job : Job = record {
      stream_id = sid;
      payload_data = buffer d;
      fragment_size = size;
      is_complete = c;
    } in
    (
      data_loop (suc fuel) job d (negsuc (3 - suc left)) (pos size) undefined,
      rw
          (
            minus-pos size 6 (omega arith),
            few_metadata fuel job carrier (b ∷ m) (size - 6) _ (omega arith),
            minus_left,
          )
          (negative_room (suc fuel) job carrier d (b ∷ m) (3 - suc left)),
    )
  where
    minus_left :
        minus (pos (6 + length (b ∷ m) + left - 6 - length (b ∷ m))) 3 ≡ negsuc (3 - suc left)
    minus_left = ap (λ n. minus (pos n) 3) (omega arith) ∙ minus_below left 3 hi
