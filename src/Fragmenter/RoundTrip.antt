-- ===== src/Fragmenter/RoundTrip.antt =====
-- packages/rsocket-core/src/Fragmenter.ts and Reassembler.ts: the fragments of a payload make it up again.
use rsocket_js.Common.{
  ℕ, zero, suc, ◌+◌, ◌-◌, ◌≤◌, ◌<◌, ◌≡◌, ◌≢◌, refl, sym, ap, ◌∙◌, [], ◌∷◌, ◌++◌, arith, length,
  take, drop, Bool, true, false, some, drop-all, append-nil,
}
use mathlib.Core.Path.{ap₂}
use native.Mathlib.Decide.{dec_le}
use rsocket_js.Node.{ℤ, pos, Buffer, BufferRef, undefined, null, buffer, byte_length}
use rsocket_js.Frames.{Frame}
use rsocket_js.Codecs.{Yields, finished, yield}
use rsocket_js.Reassembler.{no_fragments, add, first_metadata}
use rsocket_js.Fragmenter.{
  payload, Job, make_frame, truthy, data_loop, metadata_loop, rest_of_data, rest_from, fragment,
}
use rsocket_js.Fragmenter.Assembly.{
  assemble, holding, joined, data_frame, data_loop-inner, data_loop-end, assemble-data_loop,
  cut-append, follows_flag, last_payload,
}
use rsocket_js.Fragmenter.Metadata.{
  metadata_loop-full, metadata_loop-partial, metadata_loop-end, assemble-metadata_frame,
  assemble-first_metadata_frame, minus-pos,
}

-- What is held of the metadata, the rest of them, and all of the data.
assemble-rest_of_data :
    (fuel : ℕ) (job : Job) (d a : Buffer) (metadata : BufferRef) (r : ℕ)
    → job.payload_data ≡ buffer d
    → 0 < length d
    → 0 < r
    → 0 < job.fragment_size
    → length d < fuel
    → assemble (holding undefined (buffer a)) (rest_of_data fuel job metadata (pos r))
      ≡ some (record { data_ref = buffer d; metadata = joined (buffer a) metadata })
unfolding rest_of_data rest_from
assemble-rest_of_data fuel job d a metadata r ed hd hr hs hf =
    ap (λ ref. assemble (holding undefined (buffer a)) (rest_from fuel job ref metadata (pos r))) ed
    ∙ (assemble-data_loop fuel job d 0 r undefined (buffer a) metadata hd hr hs (omega arith))

-- The end of the metadata: none are left, or so few that data follow in their frame.
assemble-last_metadata :
    (fuel : ℕ) (job : Job) (m d a : Buffer) (q data_fuel : ℕ)
    → job.payload_data ≡ buffer d
    → 0 < length d
    → 4 ≤ job.fragment_size
    → length d < data_fuel
    → q ≤ length m
    → length m < q + (job.fragment_size - 3)
    → length m < q + suc fuel
    → assemble (holding undefined (buffer a)) (
        metadata_loop
          (suc fuel)
          job
          m
          (pos q)
          (pos job.fragment_size)
          undefined
          (rest_of_data data_fuel job))
      ≡ some (record { data_ref = buffer d; metadata = buffer (a ++ drop q m) })
assemble-last_metadata zero job m d a q df ed hd hs hdf hq part hf =
    let all : q ≡ length m = omega arith in
    rw (all, metadata_loop-end zero job m undefined (pos job.fragment_size) (rest_of_data df job))
      (assemble-rest_of_data df job d a undefined job.fragment_size ed hd (omega arith)
          (omega arith) hdf
        ∙ ap (λ x. some (record { data_ref = buffer d; metadata = buffer x }))
            (sym (append-nil a) ∙ ap (◌++◌ a) (sym (drop-all (length m) m (omega arith)))))
assemble-last_metadata (suc fuel) job m d a q df ed hd hs hdf hq part hf =
    elim (dec_le (length m) q) [
      | yes e ↦
          let all : q ≡ length m = omega arith in
          rw
            (
              all,
              metadata_loop-end (suc fuel) job m undefined (pos job.fragment_size)
                  (rest_of_data df job),
            )
            (assemble-rest_of_data df job d a undefined job.fragment_size ed hd (omega arith)
                (omega arith) hdf
              ∙ ap (λ x. some (record { data_ref = buffer d; metadata = buffer x }))
                  (sym (append-nil a) ∙ ap (◌++◌ a) (sym (drop-all (length m) m (omega arith)))))
      | no e ↦
          rw
            (metadata_loop-partial fuel job m q (rest_of_data df job) hs (rw ed hd) (omega arith)
              part)
            (assemble-rest_of_data df job d a (buffer (drop q m))
              (job.fragment_size - 3 - (length m - q)) ed hd (omega arith) (omega arith) hdf)
    ]

-- Behind metadata that are held, the rest of them and the data.
pub assemble-metadata_loop :
    (fuel : ℕ) (job : Job) (m d a : Buffer) (q data_fuel : ℕ)
    → job.payload_data ≡ buffer d
    → 0 < length d
    → 4 ≤ job.fragment_size
    → length d < data_fuel
    → q ≤ length m
    → length m < q + fuel
    → assemble (holding undefined (buffer a)) (
        metadata_loop fuel job m
          (pos q)
          (pos job.fragment_size)
          undefined
          (rest_of_data data_fuel job))
      ≡ some (record { data_ref = buffer d; metadata = buffer (a ++ drop q m) })
assemble-metadata_loop zero job m d a q df ed hd hs hdf hq hf = absurd (omega arith)
assemble-metadata_loop (suc fuel) job m d a q df ed hd hs hdf hq hf =
    let some_data : 0 < byte_length job.payload_data = rw ed hd in
    elim (dec_le (q + (job.fragment_size - 3)) (length m)) [
      | yes full ↦
          let size : ℕ = job.fragment_size - 3 in
          rw (metadata_loop-full fuel job m q (rest_of_data df job) hs some_data full) (
            assemble-metadata_frame job a (take size (drop q m)) _
            ∙ assemble-metadata_loop fuel job m d (a ++ take size (drop q m)) (q + size) df ed hd hs
                hdf full (omega arith)
            ∙ ap (λ x. some (record { data_ref = buffer d; metadata = buffer x }))
                (cut-append q size a m))
      | no part ↦ assemble-last_metadata fuel job m d a q df ed hd hs hdf hq (omega arith) hf
    ]

fresh_last :
    (job : Job) (piece : Buffer) (metadata : BufferRef)
    → assemble no_fragments (yield (data_frame job true piece metadata) finished)
      ≡ some (record { data_ref = buffer piece; metadata = metadata })
unfolding assemble data_frame make_frame last_payload
fresh_last job piece metadata = rw (follows_flag true job.is_complete (truthy metadata))

fresh_more :
    (job : Job) (piece : Buffer) (metadata : BufferRef) (rest : Yields Frame)
    → assemble no_fragments (yield (data_frame job false piece metadata) rest)
      ≡ assemble (holding (buffer piece) (first_metadata undefined metadata)) rest
unfolding assemble data_frame make_frame add
fresh_more job piece metadata rest = rw (follows_flag false job.is_complete (truthy metadata))

pub first_joined :
    (metadata : BufferRef)
    → metadata ≢ null
    → joined (first_metadata undefined metadata) undefined ≡ metadata
unfolding first_metadata
first_joined undefined h = refl
first_joined null h = absurd (h refl)
first_joined (buffer m) h = refl

-- A first frame with data: what is pending of the metadata goes with it.
assemble-fresh_data :
    (fuel : ℕ) (job : Job) (d : Buffer) (r : ℕ) (metadata : BufferRef)
    → 0 < length d
    → 0 < r
    → 0 < job.fragment_size
    → length d < fuel
    → metadata ≢ null
    → assemble no_fragments (data_loop fuel job d (pos 0) (pos r) metadata)
      ≡ some (record { data_ref = buffer d; metadata = metadata })
assemble-fresh_data zero job d r metadata hd hr hs hf hm = absurd (omega arith)
assemble-fresh_data (suc zero) job d r metadata hd hr hs hf hm = absurd (omega arith)
assemble-fresh_data (suc (suc fuel)) job d r metadata hd hr hs hf hm = elim (dec_le (length d) r) [
  | yes e ↦ rw (data_loop-end fuel job d 0 r metadata hd (omega arith)) (fresh_last job d metadata)
  | no e ↦ rw (data_loop-inner (suc fuel) job d 0 r metadata (omega arith)) (
      fresh_more job (take r d) metadata _
      ∙ assemble-data_loop (suc fuel) job d (0 + r) job.fragment_size (buffer (take r d))
          (first_metadata undefined metadata) undefined (omega arith) hs hs (omega arith)
      ∙ ap₂ (λ x y. some (record { data_ref = buffer x; metadata = y })) (cut-append 0 r [] d)
          (first_joined metadata hm))
]

assemble-fresh_rest :
    (fuel : ℕ) (job : Job) (d : Buffer) (r : ℕ) (metadata : BufferRef)
    → job.payload_data ≡ buffer d
    → 0 < length d
    → 0 < r
    → 0 < job.fragment_size
    → length d < fuel
    → metadata ≢ null
    → assemble no_fragments (rest_of_data fuel job metadata (pos r))
      ≡ some (record { data_ref = buffer d; metadata = metadata })
unfolding rest_of_data rest_from
assemble-fresh_rest fuel job d r metadata ed hd hr hs hf hm =
    ap (λ ref. assemble no_fragments (rest_from fuel job ref metadata (pos r))) ed
    ∙ assemble-fresh_data fuel job d r metadata hd hr hs hf hm

-- The metadata of a payload that no frame has carried yet.
assemble-fresh_metadata :
    (fuel : ℕ) (job : Job) (m d : Buffer) (data_fuel : ℕ)
    → job.payload_data ≡ buffer d
    → 0 < length d
    → 0 < length m
    → 4 ≤ job.fragment_size
    → length d < data_fuel
    → length m < fuel
    → assemble no_fragments (
        metadata_loop fuel job m
          (pos 0)
          (pos job.fragment_size)
          undefined
          (rest_of_data data_fuel job))
      ≡ some (record { data_ref = buffer d; metadata = buffer m })
assemble-fresh_metadata zero job m d df ed hd hm hs hdf hf = absurd (omega arith)
assemble-fresh_metadata (suc zero) job m d df ed hd hm hs hdf hf = absurd (omega arith)
assemble-fresh_metadata (suc (suc fuel)) job m d df ed hd hm hs hdf hf =
    let size : ℕ = job.fragment_size - 3 in
    elim (dec_le (0 + size) (length m)) [
      | yes full ↦
          rw (metadata_loop-full (suc fuel) job m 0 (rest_of_data df job) hs (rw ed hd) full) (
            assemble-first_metadata_frame job (take size m) _
            ∙ assemble-metadata_loop (suc fuel) job m d (take size m) (0 + size) df ed hd hs hdf
                full (omega arith)
            ∙ ap (λ x. some (record { data_ref = buffer d; metadata = buffer x }))
                (cut-append 0 size [] m))
      | no part ↦
          rw
            (metadata_loop-partial fuel job m 0 (rest_of_data df job) hs (rw ed hd) hm
              (omega arith))
            (assemble-fresh_rest df job d (size - (length m - 0)) (buffer m) ed hd (omega arith)
              (omega arith) hdf (λ e. cc))
    ]

-- A payload with data, cut into PAYLOAD frames of at least four bytes, is made up again by the
-- receiver; fuel above the two lengths is enough.
pub assemble-fragment :
    (fuel : ℕ) (stream_id : ℤ) (d : Buffer) (metadata : BufferRef) (fragment_size : ℕ)
    (is_complete : Bool)
    → 0 < length d
    → metadata ≢ null
    → 4 ≤ fragment_size
    → length d < fuel
    → byte_length metadata < fuel
    → assemble no_fragments (
        fragment fuel stream_id
          (record { data_ref = buffer d; metadata = metadata })
          fragment_size
          payload
          is_complete)
      ≡ some (record { data_ref = buffer d; metadata = metadata })
unfolding fragment
assemble-fragment fuel sid d undefined fs c hd hn hs hf hm =
    assemble-fresh_rest fuel _ d fs undefined refl hd (omega arith) (omega arith) hf hn
assemble-fragment fuel sid d null fs c hd hn hs hf hm = absurd (hn refl)
assemble-fragment fuel sid d (buffer []) fs c hd hn hs hf hm =
    rw (minus-pos fs 3 (omega arith))
      (assemble-fresh_rest fuel _ d (fs - 3) (buffer []) refl hd (omega arith) (omega arith) hf hn)
assemble-fragment fuel sid d (buffer (b ∷ bytes)) fs c hd hn hs hf hm =
    assemble-fresh_metadata fuel _ (b ∷ bytes) d fuel refl hd (omega arith) hs hf hm
