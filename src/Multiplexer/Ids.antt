-- ===== src/Multiplexer/Ids.antt =====
-- packages/rsocket-core/src/ClientServerMultiplexerDemultiplexer.ts: the ids of the streams that are
-- created here.
use rsocket_js.Common.{
  ℕ, zero, suc, Option, none, some, List, [], ◌∷◌, length, ◌≡◌, refl, ap, sym, ◌∙◌, ◌⊎◌, Bool-cases,
  inl, inr,
}
use rsocket_js.Node.{ℤ, pos}
use rsocket_js.Node.Signed.{plus}
use rsocket_js.Multiplexer.{Multiplexer, Ready, next, create_request_stream}

abbrev pub add_id : Option ℤ → List ℤ → List ℤ
add_id none ids = ids
add_id (some id) ids = id ∷ ids

module _ {H : Type 0} where
  -- The ids taken by a sequence of streams that are created.
  unfoldable pub create_all : List (Ready H) → Multiplexer H → List ℤ
  create_all [] m = []
  create_all (ready ∷ more) m =
      let (id, m') = create_request_stream ready m in add_id id (create_all more m')

  -- Taking an id neither closes the multiplexer nor draws another one.
  pub record Keeps (ready : Ready H) : Type 0 where
    pub keeps_id : (id : ℤ) (m : Multiplexer H) → (ready id m).1.current_id ≡ m.current_id

  abbrev pub AllKeep : List (Ready H) → Type 0
  AllKeep [] = Unit {0}
  AllKeep (ready ∷ more) = Keeps ready × AllKeep more

-- Every second number behind one, n of them.
abbrev pub every_second : ℤ → ℕ → List ℤ
every_second id zero = []
every_second id (suc n) = plus id (pos 2) ∷ every_second (plus id (pos 2)) n

length-every_second : (id : ℤ) (n : ℕ) → length (every_second id n) ≡ n
length-every_second id zero = refl
length-every_second id (suc n) = ap suc (length-every_second (plus id (pos 2)) n)

module _ {H : Type 0} where
  next-id :
      (ready : Ready H) (m : Multiplexer H)
      → Keeps ready
      → (((next ready m).0 ≡ none) × ((next ready m).1.current_id ≡ m.current_id))
        ⊎ (((next ready m).0 ≡ some (plus m.current_id (pos 2)))
            × ((next ready m).1.current_id ≡ plus m.current_id (pos 2)))
  unfolding next
  next-id ready m h =
      let id : ℤ = plus m.current_id (pos 2) in
      elim (Bool-cases (ready id m).0) [
        | inl taken ↦ inr (rw taken refl, rw taken refl)
        | inr refused ↦ inl (rw refused refl, rw refused (h.keeps_id id m))
      ]

  create_request_stream-id :
      (ready : Ready H) (m : Multiplexer H)
      → Keeps ready
      → (((create_request_stream ready m).0 ≡ none)
          × ((create_request_stream ready m).1.current_id ≡ m.current_id))
        ⊎ (((create_request_stream ready m).0 ≡ some (plus m.current_id (pos 2)))
            × ((create_request_stream ready m).1.current_id ≡ plus m.current_id (pos 2)))
  unfolding create_request_stream
  create_request_stream-id ready m h = elim (Bool-cases m.done) [
    | inl e ↦ simp e (inl (refl, refl))
    | inr e ↦ simp e (next-id ready m h)
  ]

  ids_taken :
      (readies : List (Ready H)) (m : Multiplexer H)
      → AllKeep readies
      → (n : ℕ) × (create_all readies m ≡ every_second m.current_id n)
  unfolding create_all
  ids_taken [] m h = (0, refl)
  ids_taken (ready ∷ more) m h =
      let (n, rest) = ids_taken more (create_request_stream ready m).1 h.1 in
      elim (create_request_stream-id ready m h.0) [
        | inl (id, current) ↦ (n, rw id (rest ∙ ap (λ c. every_second c n) current))
        | inr (id, current) ↦ (
          suc n,
          rw id (ap (◌∷◌ (plus m.current_id (pos 2))) (rest ∙ ap (λ c. every_second c n) current)),
        )
      ]

-- The ids taken by streams that are created one after the other are every second number behind the
-- last one taken before, if no stream draws another id while it takes its own; refused ids are no
-- gaps.
pub create_all-every_second :
    {H : Type 0} (readies : List (Ready H)) (m : Multiplexer H)
    → AllKeep readies
    → create_all readies m ≡ every_second m.current_id (length (create_all readies m))
create_all-every_second readies m h =
    let (n, e) = ids_taken readies m h in
    e
    ∙ ap (every_second m.current_id) (sym (length-every_second m.current_id n) ∙ sym (ap length e))
