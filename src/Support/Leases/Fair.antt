-- ===== src/Support/Leases/Fair.antt =====
-- packages/rsocket-core/src/RSocketSupport.ts: LeaseHandler, while time goes by.
use rsocket_js.Common.{
  ℕ, zero, suc, ◌+◌, ◌-◌, ◌≤◌, ◌<◌, ◌≡◌, refl, ap, sym, ◌∙◌, arith, ltb, leb, Bool, true, false,
  ◌&&◌, List, [], ◌∷◌, ◌++◌, length, if◌then◌else◌, Bool-cases, inl, inr, ◌⊎◌, append_assoc,
  append-nil,
}
use rsocket_js.Frames.{LeaseFrame}
use rsocket_js.Support.Leases.{
  LeaseHandler, new_lease_handler, Answer, created, pending, rejected, create_pending, handle,
  request_lease, refusal,
}

-- The handler with the time, the requests that were not rejected, the streams that were created, and how
-- many of them since the last lease, with what this lease granted.
pub record Ledger : Type 0 where
  pub leases : LeaseHandler
  pub now : ℕ
  pub accepted : List ℕ
  pub made : List ℕ
  pub used : ℕ
  pub granted : ℕ

abbrev pub new_ledger : ℕ → Ledger
new_ledger max_pending_requests = record {
  leases = new_lease_handler max_pending_requests;
  now = 0;
  accepted = [];
  made = [];
  used = 0;
  granted = 0;
}

-- Time goes by, a lease comes, a stream asks for one.
pub data Event : Type 0 where
  elapse : ℕ → Event
  lease : LeaseFrame → Event
  ask : ℕ → Event

abbrev pub answered : ℕ → Ledger → LeaseHandler × Answer → Ledger
answered handler l (s, created) = record l {
  leases = s;
  accepted = l.accepted ++ handler ∷ [];
  made = l.made ++ handler ∷ [];
  used = suc l.used;
}
answered handler l (s, pending) = record l { leases = s; accepted = l.accepted ++ handler ∷ [] }
answered handler l (s, rejected e) = record l { leases = s }

unfoldable pub happen : Event → Ledger → Ledger
happen (elapse time) l = record l { now = l.now + time }
happen (lease frame) l =
    let result = handle l.now frame l.leases in
    record l {
      leases = result.0;
      made = l.made ++ result.1;
      used = length result.1;
      granted = frame.request_count;
    }
happen (ask handler) l = answered handler l (request_lease l.now handler l.leases)

unfoldable pub happen_all : List Event → Ledger → Ledger
happen_all [] l = l
happen_all (e ∷ events) l = happen_all events (happen e l)

-- Requests wait only for a lease that is used up or has expired.
abbrev pub Waits : LeaseHandler → ℕ → Type 0
Waits s now = (s.available_lease ≡ 0) ⊎ (s.pending_requests ≡ []) ⊎ (s.expiration_time ≤ now)

pub record IsFair (max : ℕ) (l : Ledger) : Type 0 where
  pub in_order : l.made ++ l.leases.pending_requests ≡ l.accepted
  pub within_lease : l.used + l.leases.available_lease ≡ l.granted
  pub bounded : length l.leases.pending_requests ≤ max
  pub maximum : l.leases.max_pending_requests ≡ max
  pub waits : Waits l.leases l.now

create_pending-append :
    (n : ℕ) (requests : List ℕ)
    → (create_pending n requests).2 ++ (create_pending n requests).1 ≡ requests
unfolding create_pending
create_pending-append zero requests = refl
create_pending-append (suc n) [] = refl
create_pending-append (suc n) (h ∷ requests) = ap (◌∷◌ h) (create_pending-append n requests)

create_pending-length :
    (n : ℕ) (requests : List ℕ)
    → length (create_pending n requests).2 + (create_pending n requests).0 ≡ n
unfolding create_pending
create_pending-length zero requests = refl
create_pending-length (suc n) [] = omega arith
create_pending-length (suc n) (h ∷ requests) = omega (arith, create_pending-length n requests)

create_pending-shorter :
    (n : ℕ) (requests : List ℕ) → length (create_pending n requests).1 ≤ length requests
unfolding create_pending
create_pending-shorter zero requests = omega arith
create_pending-shorter (suc n) [] = omega arith
create_pending-shorter (suc n) (h ∷ requests) = omega (arith, create_pending-shorter n requests)

create_pending-used :
    (n : ℕ) (requests : List ℕ)
    → ((create_pending n requests).0 ≡ 0) ⊎ ((create_pending n requests).1 ≡ [])
unfolding create_pending
create_pending-used zero requests = inl refl
create_pending-used (suc n) [] = inr refl
create_pending-used (suc n) (h ∷ requests) = create_pending-used n requests

later : (s : LeaseHandler) (now time : ℕ) → Waits s now → Waits s (now + time)
later s now time (inl h) = inl h
later s now time (inr (inl h)) = inr (inl h)
later s now time (inr (inr h)) = inr (inr (omega arith))

used_up :
    (n : ℕ) (requests : List ℕ) (now ttl : ℕ)
    → ((create_pending n requests).0 ≡ 0) ⊎ ((create_pending n requests).1 ≡ []) ⊎ (ttl + now ≤ now)
used_up n requests now ttl = elim (create_pending-used n requests) [
  | inl h ↦ inl h
  | inr h ↦ inr (inl h)
]

elapse-IsFair : (max time : ℕ) (l : Ledger) → IsFair max l → IsFair max (happen (elapse time) l)
unfolding happen
elapse-IsFair max time l f = record {
  in_order = f.in_order;
  within_lease = f.within_lease;
  bounded = f.bounded;
  maximum = f.maximum;
  waits = later l.leases l.now time f.waits;
}

lease-IsFair :
    (max : ℕ) (frame : LeaseFrame) (l : Ledger) → IsFair max l → IsFair max (happen (lease frame) l)
unfolding happen handle
lease-IsFair max frame l f =
    let requests = l.leases.pending_requests in
    let n = frame.request_count in
    record {
      in_order =
          append_assoc l.made (create_pending n requests).2 (create_pending n requests).1
          ∙ ap (λ hs. l.made ++ hs) (create_pending-append n requests)
          ∙ f.in_order;
      within_lease = create_pending-length n requests;
      bounded = omega (arith, create_pending-shorter n requests, f.bounded);
      maximum = f.maximum;
      waits = used_up n requests l.now frame.ttl;
    }

length-end : (hs : List ℕ) (h : ℕ) → length (hs ++ h ∷ []) ≡ suc (length hs)
length-end [] h = refl
length-end (x ∷ hs) h = ap suc (length-end hs h)

-- With a lease that can be used, nothing waits.
none-Waits :
    (s : LeaseHandler) (now : ℕ)
    → (ltb 0 s.available_lease && ltb now s.expiration_time) ≡ true
    → Waits s now
    → s.pending_requests ≡ []
none-Waits s now h (inl e) = absurd (ground arith)
none-Waits s now h (inr (inl e)) = e
none-Waits s now h (inr (inr e)) = absurd (ground arith)

-- With none, requests wait as they should.
all_waiting :
    (s : LeaseHandler) (now : ℕ)
    → (ltb 0 s.available_lease && ltb now s.expiration_time) ≡ false
    → (s.available_lease ≡ 0) ⊎ (s.expiration_time ≤ now)
all_waiting s now h = elim (Bool-cases (ltb 0 s.available_lease)) [
  | inl e ↦ inr (ground arith)
  | inr e ↦ inl (ground arith)
]

module _ (max handler : ℕ) (l : Ledger) (f : IsFair max l) where
  created-IsFair :
      (ltb 0 l.leases.available_lease && ltb l.now l.leases.expiration_time) ≡ true
      → IsFair max (
          answered handler l
            (record (l.leases) { available_lease = l.leases.available_lease - 1 }, created))
  created-IsFair e =
      let empty = none-Waits l.leases l.now e f.waits in
      let some_left : 0 < l.leases.available_lease = ground arith in
      record {
        in_order =
            append_assoc l.made (handler ∷ []) l.leases.pending_requests
            ∙ ap (λ hs. l.made ++ handler ∷ hs) empty
            ∙ ap (λ hs. hs ++ handler ∷ [])
                (sym (append-nil l.made) ∙ ap (λ hs. l.made ++ hs) (sym empty) ∙ f.in_order);
        within_lease = omega (arith, f.within_lease);
        bounded = f.bounded;
        maximum = f.maximum;
        waits = inr (inl empty);
      }

  pending-IsFair :
      (ltb 0 l.leases.available_lease && ltb l.now l.leases.expiration_time) ≡ false
      → leb l.leases.max_pending_requests (length l.leases.pending_requests) ≡ false
      → IsFair max (
          answered handler l (
            record (l.leases) { pending_requests = l.leases.pending_requests ++ handler ∷ [] },
            pending,
          ))
  pending-IsFair e free = record {
    in_order =
        sym (append_assoc l.made l.leases.pending_requests (handler ∷ []))
        ∙ ap (λ hs. hs ++ handler ∷ []) f.in_order;
    within_lease = f.within_lease;
    bounded =
        let longer = length-end l.leases.pending_requests handler in
        let room : length l.leases.pending_requests < max = ground (arith, f.maximum) in
        omega (arith, longer);
    maximum = f.maximum;
    waits = elim (all_waiting l.leases l.now e) [ inl h ↦ inl h | inr h ↦ inr (inr h) ];
  }

  ask-IsFair : IsFair max (happen (ask handler) l)
  unfolding happen request_lease
  ask-IsFair =
      go (ltb 0 l.leases.available_lease && ltb l.now l.leases.expiration_time)
        (leb l.leases.max_pending_requests (length l.leases.pending_requests)) refl refl
    where
      go :
          (usable full : Bool)
          → (ltb 0 l.leases.available_lease && ltb l.now l.leases.expiration_time) ≡ usable
          → leb l.leases.max_pending_requests (length l.leases.pending_requests) ≡ full
          → IsFair max (
              answered handler l (
                if usable
                then (record (l.leases) { available_lease = l.leases.available_lease - 1 }, created)
                else if full
                then (l.leases, refusal)
                else (
                  record (l.leases) {
                    pending_requests = l.leases.pending_requests ++ handler ∷ [];
                  },
                  pending,
                )))
      go true full e e' = created-IsFair e
      go false true e e' = f
      go false false e e' = pending-IsFair e e'

happen-IsFair : (max : ℕ) (e : Event) (l : Ledger) → IsFair max l → IsFair max (happen e l)
happen-IsFair max (elapse time) l f = elapse-IsFair max time l f
happen-IsFair max (lease frame) l f = lease-IsFair max frame l f
happen-IsFair max (ask handler) l f = ask-IsFair max handler l f

happen_all-IsFair :
    (max : ℕ) (events : List Event) (l : Ledger) → IsFair max l → IsFair max (happen_all events l)
unfolding happen_all
happen_all-IsFair max [] l f = f
happen_all-IsFair max (e ∷ events) l f =
    happen_all-IsFair max events (happen e l) (happen-IsFair max e l f)

-- While time goes by, leases come and streams ask for them, in any order and without a cancellation: the
-- streams that were created, and behind them those that wait, are those that asked and were not rejected,
-- in the order in which they asked; since a lease came, no more streams were created than it granted;
-- and no more wait than the maximum.
pub happen_all-fair :
    (max : ℕ) (events : List Event)
    → let l = happen_all events (new_ledger max) in
      (l.made ++ l.leases.pending_requests ≡ l.accepted)
      × (l.used + l.leases.available_lease ≡ l.granted)
      × (length l.leases.pending_requests ≤ max)
happen_all-fair max events =
    let f = happen_all-IsFair max events (new_ledger max) (record {
      in_order = refl;
      within_lease = refl;
      bounded = omega arith;
      maximum = refl;
      waits = inl refl;
    }) in
    (f.in_order, f.within_lease, f.bounded)
