-- ===== src/Tcp/Chunks.antt =====
-- packages/rsocket-tcp-client/src/TcpDuplexConnection.ts: the chunks in which a stream arrives.
use rsocket_js.Common.{
  ℕ, suc, ◌<◌, ◌≡◌, refl, sym, ap, ◌∙◌, [], ◌∷◌, ◌++◌, arith, length, List, Bool, Option, some,
  true, false, append-nil, append_assoc, length-append, Bool-cases, inl, inr,
}
use mathlib.Core.Path.{subst}
use rsocket_js.Node.{Buffer, Error, Runtime}
use rsocket_js.Codecs.Framing.{deserialize_frames-frames_of}
use rsocket_js.Codecs.{deserialize_frames}
use rsocket_js.Tcp.{
  Core, core_of, with_core, close_core, handle_frames, Surroundings, TcpDuplexConnection, Round,
  all_handled, cut_off, close, after_frames, handle_data, data_event, data_events,
}
use rsocket_js.Tcp.Consume.{
  Consumed, kept, failed, consume, consume-enough, consume-append, then_consume, left_over,
  handle_frames-consume,
}

abbrev pub join : List Buffer → Buffer
join [] = []
join (chunk ∷ more) = chunk ++ join more

module _ {S : Type 0} where
  -- A closed connection does not use its remaining bytes any more.
  unfoldable pub visible : TcpDuplexConnection S → TcpDuplexConnection S
  visible c = elim c.done [ true ↦ record c { remaining_buffer = [] } | false ↦ c ]

-- What is asked of a connection that is not done.
abbrev pub Unless : Bool → Type 0 → Type 0
Unless true P = Unit {0}
Unless false P = P

module _ {S : Type 0} (rt : Runtime) (env : Surroundings S) where
  abbrev pub LeavesOpen : Round S → Type 0
  LeavesOpen (all_handled last core) = core.done ≡ false
  LeavesOpen (cut_off e core) = Unit {0}

  -- No frame of a chunk but the last closes the connection while it is handled.
  abbrev pub ClosedByNoFrame : TcpDuplexConnection S → Buffer → List Buffer → Type 0
  ClosedByNoFrame c chunk [] = Unit {0}
  ClosedByNoFrame c chunk (next ∷ more) =
      Unless c.done (
        LeavesOpen (
          handle_frames rt env (deserialize_frames rt (c.remaining_buffer ++ chunk)) 0 (core_of c)))
      × ClosedByNoFrame (data_event rt env c chunk) next more

  pub settle : Consumed S → TcpDuplexConnection S → TcpDuplexConnection S
  settle (kept rest core) c = record (with_core core c) { remaining_buffer = rest }
  settle (failed e core) c = close rt env (some e) (with_core core c)

  settle-left_over :
      (buf : Buffer) (round : Round S) (c : TcpDuplexConnection S)
      → after_frames rt env buf round c ≡ settle (left_over rt env buf round) c
  unfolding settle after_frames left_over
  settle-left_over buf (all_handled last s) c = refl
  settle-left_over buf (cut_off e s) c = refl

  frames-consume :
      (buf : Buffer) (core : Core S) (n : ℕ)
      → length buf < n
      → left_over rt env buf (handle_frames rt env (deserialize_frames rt buf) 0 core)
        ≡ consume rt env n buf core
  frames-consume buf core n h = rw (deserialize_frames-frames_of rt buf) (
      handle_frames-consume rt env (suc (length buf)) buf core (record { found = refl })
        (omega arith)
      ∙ consume-enough rt env (suc (length buf)) n buf core (omega arith) h)

  pub handle_data-consume :
      (chunk : Buffer) (c : TcpDuplexConnection S) (n : ℕ)
      → length (c.remaining_buffer ++ chunk) < n
      → handle_data rt env chunk c
        ≡ settle (consume rt env n (c.remaining_buffer ++ chunk) (core_of c)) c
  unfolding handle_data
  handle_data-consume chunk c n h =
      let buf : Buffer = c.remaining_buffer ++ chunk in
      settle-left_over buf _ c ∙ ap (λ x. settle x c) (frames-consume buf (core_of c) n h)

  close_core-done : (e : Option Error) (core : Core S) → (close_core rt env e core).done ≡ true
  unfolding close_core
  close_core-done e core = elim (Bool-cases core.done) [
    | inl closed ↦ ground arith
    | inr open_ ↦ ground arith
  ]

  abbrev StaysOpen : Consumed S → Type 0
  StaysOpen (kept rest core) = core.done ≡ false
  StaysOpen (failed e core) = Unit {0}

  -- What was kept before does not show behind further bytes.
  visible-settle :
      (x : Consumed S) (c : TcpDuplexConnection S) (rest : Buffer) (core : Core S)
      → visible (settle x (record (with_core core c) { remaining_buffer = rest }))
        ≡ visible (settle x c)
  unfolding visible settle close
  visible-settle (kept rest' core') c rest core = refl
  visible-settle (failed e core') c rest core =
      let closed : (close_core rt env (some e) core').done ≡ true =
        close_core-done (some e) core' in
      rw closed refl

  pub data_event-open :
      (c : TcpDuplexConnection S) (chunk : Buffer)
      → c.done ≡ false
      → data_event rt env c chunk ≡ handle_data rt env chunk c
  unfolding data_event
  data_event-open c chunk open_ = rw open_ refl

  data_event-closed :
      (c : TcpDuplexConnection S) (chunk : Buffer) → c.done ≡ true → data_event rt env c chunk ≡ c
  unfolding data_event
  data_event-closed c chunk closed = rw closed refl

  close-done : (e : Option Error) (c : TcpDuplexConnection S) → (close rt env e c).done ≡ true
  unfolding close
  close-done e c = close_core-done e (core_of c)

  event_after-settle :
      (x : Consumed S) (c : TcpDuplexConnection S) (chunk : Buffer)
      → StaysOpen x
      → visible (data_event rt env (settle x c) chunk)
        ≡ visible (settle (then_consume rt env chunk x) c)
  unfolding settle then_consume
  event_after-settle (kept rest s) c chunk open_ =
      let c' : TcpDuplexConnection S = record (with_core s c) { remaining_buffer = rest } in
      ap visible (
        data_event-open c' chunk open_
        ∙ handle_data-consume chunk c' (suc (length (rest ++ chunk))) (omega arith))
      ∙ visible-settle (consume rt env (suc (length (rest ++ chunk))) (rest ++ chunk) s) c rest s
  event_after-settle (failed e s) c chunk open_ =
      ap visible (data_event-closed _ chunk (close-done (some e) (with_core s c)))

  left_over-StaysOpen :
      (buf : Buffer) (round : Round S) → LeavesOpen round → StaysOpen (left_over rt env buf round)
  unfolding left_over
  left_over-StaysOpen buf (all_handled last core) h = h
  left_over-StaysOpen buf (cut_off e core) h = tt

  unclosed-LeavesOpen :
      (done : Bool) (round : Round S)
      → done ≡ false
      → Unless done (LeavesOpen round)
      → LeavesOpen round
  unclosed-LeavesOpen true round open_ h = absurd cc
  unclosed-LeavesOpen false round open_ h = h

  two_chunks :
      (c : TcpDuplexConnection S) (chunk more : Buffer)
      → ClosedByNoFrame c chunk (more ∷ [])
      → visible (data_event rt env (data_event rt env c chunk) more)
        ≡ visible (data_event rt env c (chunk ++ more))
  two_chunks c chunk more unclosed = elim (Bool-cases c.done) [
    | inl closed ↦ rw (data_event-closed c chunk closed) (
        ap visible
          (data_event-closed c more closed ∙ sym (data_event-closed c (chunk ++ more) closed)))
    | inr open_ ↦
        let buf : Buffer = c.remaining_buffer ++ chunk in
        let n : ℕ = suc (length (buf ++ more)) in
        let x : Consumed S = consume rt env n buf (core_of c) in
        let first : data_event rt env c chunk ≡ settle x c =
          data_event-open c chunk open_
          ∙ handle_data-consume chunk c n (omega (arith, length-append buf more)) in
        let both : data_event rt env c (chunk ++ more) ≡ settle (then_consume rt env more x) c =
          data_event-open c (chunk ++ more) open_
          ∙ handle_data-consume (chunk ++ more) c n
              (omega (arith, ap length (append_assoc c.remaining_buffer chunk more)))
          ∙ ap (λ b. settle (consume rt env n b (core_of c)) c)
              (sym (append_assoc c.remaining_buffer chunk more))
          ∙ ap (λ y. settle y c) (consume-append rt env n buf more (core_of c) (omega arith)) in
        let stays : StaysOpen x =
          subst StaysOpen (frames-consume buf (core_of c) n (omega (arith, length-append buf more)))
            (left_over-StaysOpen buf _ (unclosed-LeavesOpen c.done _ open_ unclosed.0)) in
        rw first (event_after-settle x c more stays ∙ ap visible (sym both))
  ]

-- However a stream of bytes is cut into chunks, and whatever is read or thrown on the way, the
-- connection ends as it does on the same bytes in one chunk, up to the rest that a closed one keeps. No
-- frame of a chunk but the last may close the connection while it is handled.
pub visible-data_events :
    {S : Type 0} (rt : Runtime) (env : Surroundings S) (c : TcpDuplexConnection S) (chunk : Buffer)
    (more : List Buffer)
    → ClosedByNoFrame rt env c chunk more
    → visible (data_events rt env (data_event rt env c chunk) more)
      ≡ visible (data_event rt env c (chunk ++ join more))
unfolding data_events
visible-data_events rt env c chunk [] unclosed =
    ap (λ b. visible (data_event rt env c b)) (sym (append-nil chunk))
visible-data_events rt env c chunk (next ∷ more) (unclosed, later) =
    visible-data_events rt env (data_event rt env c chunk) next more later
    ∙ two_chunks rt env c chunk (next ++ join more) (unclosed, tt)
