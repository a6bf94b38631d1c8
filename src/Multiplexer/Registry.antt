-- ===== src/Multiplexer/Registry.antt =====
-- packages/rsocket-core/src/ClientServerMultiplexerDemultiplexer.ts: what the registry finds.
use rsocket_js.Common.{
  ==→eq, Bool, true, false, if◌then◌else◌, Option, none, some, [], ◌∷◌, ◌≡◌, refl, ap, sym, ◌∙◌,
  Bool-cases, inl, inr,
}
use rsocket_js.Node.{ℤ, pos, negsuc}
use rsocket_js.Multiplexer.{same, before, Registry, find, put, remove}

same→eq : (a b : ℤ) → same a b ≡ true → a ≡ b
same→eq (pos a) (pos b) e = ap pos (==→eq a b e)
same→eq (negsuc a) (negsuc b) e = ap negsuc (==→eq a b e)
same→eq (pos a) (negsuc b) e = cc
same→eq (negsuc a) (pos b) e = cc

same-both : (j id k : ℤ) → same id k ≡ false → same j k ≡ true → same j id ≡ false
same-both j id k e ek = elim (Bool-cases (same j id)) [
  | inr apart ↦ apart
  | inl meet ↦
      let found : same id k ≡ true = ap (λ x. same x k) (sym (same→eq j id meet)) ∙ ek in cc
]

module _ {H : Type 0} where
  shadowed :
      (b : Bool) (handler other : Option H) (rest : Option H)
      → (if b then handler else rest) ≡ (if b then handler else if b then other else rest)
  shadowed true handler other rest = refl
  shadowed false handler other rest = refl

  pub find-put :
      (j id : ℤ) (handler : H) (entries : Registry H)
      → find j (put id handler entries) ≡ (if same j id then some handler else find j entries)
  unfolding find put
  find-put j id handler [] = refl
  find-put j id handler ((k, other) ∷ rest) = elim (Bool-cases (same id k)) [
    | inl e ↦
        rw (e, ap (same j) (same→eq id k e))
          (shadowed (same j k) (some handler) (some other) (find j rest))
    | inr e ↦ rw e (elim (Bool-cases (before id k)) [
      | inl first ↦ rw first refl
      | inr later ↦ rw later (elim (Bool-cases (same j k)) [
        | inl here ↦ rw (here, same-both j id k e here) refl
        | inr there ↦ rw there (find-put j id handler rest)
      ])
    ])
  ]

  pub find-remove :
      (j id : ℤ) (entries : Registry H)
      → find j (remove id entries) ≡ (if same j id then none else find j entries)
  unfolding find remove
  find-remove j id [] = elim (Bool-cases (same j id)) [ inl e ↦ rw e refl | inr e ↦ rw e refl ]
  find-remove j id ((k, other) ∷ rest) = elim (Bool-cases (same id k)) [
    | inl e ↦
        rw (e, ap (same j) (same→eq id k e))
          (rw (ap (same j) (same→eq id k e)) at (find-remove j id rest)
            ∙ shadowed (same j k) none (some other) (find j rest))
    | inr e ↦ rw e (elim (Bool-cases (same j k)) [
      | inl here ↦ rw (here, same-both j id k e here) refl
      | inr there ↦ rw there (find-remove j id rest)
    ])
  ]
