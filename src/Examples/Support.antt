-- ===== src/Examples/Support.antt =====
-- The theorems on packages/rsocket-core/src/RSocketSupport.ts, applied.
use rsocket_js.Common.{◌+◌, ◌≤◌, ◌≡◌, List, [], ◌∷◌, ◌++◌, length}
use rsocket_js.Frames.{KeepAliveFrame, LeaseFrame}
use rsocket_js.Node.{undefined}
use rsocket_js.Support.Leases.Fair
use rsocket_js.Support.Leases.Fair.{new_ledger, happen_all-fair}
use rsocket_js.Support.KeepAlive.Notice

abbrev two_streams : LeaseFrame
two_streams = record { flags = 0; ttl = 1000; request_count = 2; metadata = undefined }

-- One stream waits for the lease, one finds it, one is too late, and one too many.
abbrev asked : List Fair.Event
asked =
    Fair.ask 7
    ∷ Fair.elapse 10
    ∷ Fair.lease two_streams
    ∷ Fair.ask 8
    ∷ Fair.elapse 2000
    ∷ Fair.ask 9
    ∷ Fair.ask 10
    ∷ []

happen_all-fair_example :
    ((Fair.happen_all asked (new_ledger 1)).made
        ++ (Fair.happen_all asked (new_ledger 1)).leases.pending_requests
      ≡ (Fair.happen_all asked (new_ledger 1)).accepted)
    × ((Fair.happen_all asked (new_ledger 1)).used
          + (Fair.happen_all asked (new_ledger 1)).leases.available_lease
        ≡ (Fair.happen_all asked (new_ledger 1)).granted)
    × (length (Fair.happen_all asked (new_ledger 1)).leases.pending_requests ≤ 1)
happen_all-fair_example = happen_all-fair 1 asked

abbrev alive : KeepAliveFrame
alive = record { flags = 0; data_ref = undefined; last_received_position = 0 }

-- A KEEPALIVE comes, and then none for more than a second.
abbrev ticking : List Notice.Event
ticking =
    Notice.start
    ∷ Notice.elapse 400
    ∷ Notice.receive alive
    ∷ Notice.elapse 600
    ∷ Notice.fire
    ∷ Notice.elapse 500
    ∷ Notice.fire
    ∷ []
