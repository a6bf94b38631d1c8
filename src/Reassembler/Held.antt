-- ===== src/Reassembler/Held.antt =====
-- packages/rsocket-core/src/Reassembler.ts: what a holder keeps between its calls, and behind the last one.
use rsocket_js.Common.{Bool, true, false, none, some, ◌≡◌, ◌≢◌, refl, ap, sym}
use mathlib.Core.Path.{subst}
use rsocket_js.Node.{BufferRef, undefined, null, buffer, Result, ok, throw, ◌>>=◌}
use rsocket_js.Reassembler.{
  Payload, FragmentsHolder, no_fragments, add, reassemble, extend_data, first_metadata,
  extend_metadata, whole_metadata, add_to,
}

-- A holder as the reassembler leaves it: empty, or with no null for metadata.
abbrev pub Held : Bool → FragmentsHolder → Type 0
Held true h = h.metadata ≢ null
Held false h = h ≡ no_fragments

abbrev pub IsHeld : FragmentsHolder → Type 0
IsHeld h = Held h.has_fragments h

inj-ok : {h h' : FragmentsHolder} → ok h ≡ ok h' → h ≡ h'
inj-ok e = cc

no_payload : {p : Payload} → ¬ (none ≡ some p)
no_payload e = cc

pub inj : {p q : Payload} → some p ≡ some q → p ≡ q
inj e = cc

pub reassemble-held :
    (dr hm d m : BufferRef) (x : Result BufferRef) (p : Payload)
    → extend_data dr d ≡ x
    → hm ≢ null
    → (elim (reassemble (record { has_fragments = true; data_ref = dr; metadata = hm }) d m).1 [
      | ok q ↦ some q
      | throw e ↦ none
    ])
      ≡ some p
    → reassemble (record { has_fragments = true; data_ref = dr; metadata = hm }) d m
      ≡ (no_fragments, ok p)
unfolding reassemble whole_metadata
reassemble-held dr hm d m (throw x) p e n h = absurd (no_payload (rw (e, reassemble) at h))
reassemble-held dr (buffer b) d m (ok ref) p e n h =
    rw (e, reassemble) (ap (λ q. (no_fragments, ok q)) (inj (rw (e, reassemble) at h)))
reassemble-held dr undefined d m (ok ref) p e n h =
    rw (e, reassemble) (ap (λ q. (no_fragments, ok q)) (inj (rw (e, reassemble) at h)))
reassemble-held dr null d m (ok ref) p e n h = absurd (n refl)

first_metadata-held : (m : BufferRef) → first_metadata undefined m ≢ null
unfolding first_metadata
first_metadata-held undefined e = cc
first_metadata-held null e = cc
first_metadata-held (buffer b) e = cc

extend_metadata-held : (hm m : BufferRef) → hm ≢ null → extend_metadata hm m ≢ null
unfolding extend_metadata
extend_metadata-held (buffer a) (buffer b) n e = cc
extend_metadata-held (buffer a) undefined n e = cc
extend_metadata-held (buffer a) null n e = cc
extend_metadata-held undefined m n e = cc
extend_metadata-held null m n e = n refl

extended-IsHeld :
    (x : Result BufferRef) (dr hm m : BufferRef) (h' : FragmentsHolder)
    → hm ≢ null
    → (x >>= λ d'.
        ok (record { has_fragments = true; data_ref = d'; metadata = extend_metadata hm m }))
      ≡ ok h'
    → IsHeld h'
extended-IsHeld (throw x) dr hm m h' n e = absurd cc
extended-IsHeld (ok d') dr hm m h' n e = subst IsHeld (inj-ok e) (extend_metadata-held hm m n)

-- A fragment that was added leaves it in order.
pub add-IsHeld :
    (b : Bool) (dr hm d m : BufferRef) (h' : FragmentsHolder)
    → Held b (record { has_fragments = b; data_ref = dr; metadata = hm })
    → add (record { has_fragments = b; data_ref = dr; metadata = hm }) d m ≡ ok h'
    → IsHeld h'
unfolding add add_to
add-IsHeld true dr hm d m h' held e = extended-IsHeld (extend_data dr d) dr hm m h' held e
add-IsHeld false dr hm d m h' held e = subst IsHeld (inj-ok e) (
    subst (λ x. first_metadata x m ≢ null) (sym (ap (λ h. h.metadata) held))
      (first_metadata-held m))

extended-has_fragments :
    (x : Result BufferRef) (m : BufferRef) (h' : FragmentsHolder)
    → (x >>= λ d'. ok (record { has_fragments = true; data_ref = d'; metadata = m })) ≡ ok h'
    → h'.has_fragments ≡ true
extended-has_fragments (throw x) m h' e = absurd cc
extended-has_fragments (ok d') m h' e = sym (ap (λ h. h.has_fragments) (inj-ok e))

-- And behind it there are fragments.
pub add-has_fragments :
    (b : Bool) (dr hm d m : BufferRef) (h' : FragmentsHolder)
    → add (record { has_fragments = b; data_ref = dr; metadata = hm }) d m ≡ ok h'
    → h'.has_fragments ≡ true
unfolding add add_to
add-has_fragments true dr hm d m h' e =
    extended-has_fragments (extend_data dr d) (extend_metadata hm m) h' e
add-has_fragments false dr hm d m h' e = sym (ap (λ h. h.has_fragments) (inj-ok e))
