-- ===== src/Support/Leases.antt =====
-- packages/rsocket-core/src/RSocketSupport.ts: LeaseHandler. Handlers of streams are told apart by numbers;
-- the time, `Date.now()`, is an argument. A stream that is created does not ask for a lease again.
pub mod Fair
use rsocket_js.Common.{
  ℕ, zero, suc, ◌+◌, ◌-◌, ltb, leb, ◌==◌, Bool, true, false, ◌&&◌, List, [], ◌∷◌, ◌++◌, length,
  if◌then◌else◌,
}
use rsocket_js.Errors.{RSocketError, ErrorCodes, error_code, new_rsocket_error, text}
use rsocket_js.Frames.{LeaseFrame}

pub record LeaseHandler : Type 0 where
  pub max_pending_requests : ℕ
  pub pending_requests : List ℕ
  pub expiration_time : ℕ
  pub available_lease : ℕ

abbrev pub new_lease_handler : ℕ → LeaseHandler
new_lease_handler max_pending_requests = record {
  max_pending_requests = max_pending_requests;
  pending_requests = [];
  expiration_time = 0;
  available_lease = 0;
}

-- What a request for a lease comes to at once.
pub data Answer : Type 0 where
  created : Answer
  pending : Answer
  rejected : RSocketError → Answer

-- `while (this.availableLease > 0 && this.pendingRequests.length > 0)`: what is left of the lease and of the
-- requests, and the streams that are created.
unfoldable pub create_pending : ℕ → List ℕ → ℕ × List ℕ × List ℕ
create_pending zero requests = (zero, requests, [])
create_pending (suc n) [] = (suc n, [], [])
create_pending (suc n) (handler ∷ requests) =
    let rest = create_pending n requests in (rest.0, rest.1, handler ∷ rest.2)

-- The handler after it, and the streams that are created.
unfoldable pub handle : ℕ → LeaseFrame → LeaseHandler → LeaseHandler × List ℕ
handle now frame s =
    let rest = create_pending frame.request_count s.pending_requests in
    (
      record s {
        expiration_time = frame.ttl + now;
        available_lease = rest.0;
        pending_requests = rest.1;
      },
      rest.2,
    )

abbrev pub refusal : Answer
refusal =
    rejected (new_rsocket_error (error_code ErrorCodes.rejected) (text "No available lease given"))

unfoldable pub request_lease : ℕ → ℕ → LeaseHandler → LeaseHandler × Answer
request_lease now handler s =
    if ltb 0 s.available_lease && ltb now s.expiration_time
    then (record s { available_lease = s.available_lease - 1 }, created)
    else if leb s.max_pending_requests (length s.pending_requests)
    then (s, refusal)
    else (record s { pending_requests = s.pending_requests ++ handler ∷ [] }, pending)

-- `indexOf` and `splice`
abbrev pub remove : ℕ → List ℕ → List ℕ
remove handler [] = []
remove handler (h ∷ handlers) = if h == handler then handlers else h ∷ remove handler handlers

unfoldable pub cancel_request : ℕ → LeaseHandler → LeaseHandler
cancel_request handler s = record s { pending_requests = remove handler s.pending_requests }
