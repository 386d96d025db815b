-- ===== src/Server/Tests.antt =====
-- The relay server of apps/relay/src/server.rs at a concrete start and concrete events.
use xs_nexus.Base.{
  ◌+◌, ◌-◌, ◌<◌, ◌≡◌, refl, true, false, some, none, List, [], ◌∷◌, lookup, nat_key, arith, leb,
}
use xs_nexus.Credential.Tests.{toy}
use xs_nexus.Server.{RelayConfig, SocketAddr, sent, would_block, TrafficBudget, new}
use xs_nexus.Server.Budgets.{can_accept, commit_traffic, traffic_window}
use xs_nexus.Server.Registration.{Outside, new_lease_id, draw_lease_id}
use xs_nexus.Server.Service.{Event, cleanup_tick, flush_tick, datagram_received, serve}
use xs_nexus.Server.Invariant.{WellFormed}
use xs_nexus.Server.Invariant.Admission.{new_lease_id-fresh}
use xs_nexus.Server.Invariant.Service.{serve-WellFormed}
use xs_nexus.Server.Limits.{Within, commit_traffic-Within}

abbrev config : RelayConfig
config = record {
  relay_id = 8;
  controller_credential_key = 5;
  identity_key = 6;
  lease_ttl_seconds = 120;
  idle_timeout_seconds = 60;
  max_leases = 2;
  registration_requests_per_minute = 30;
  packets_per_lease_per_second = 2000;
  bytes_per_lease_per_second = 16777216;
  queue_packets_per_node = 64;
  queue_bytes_per_node = 131072;
}

abbrev outside : Outside
outside = record { instant = 7; unix_now = 200; random = λ attempt. some 77 }

abbrev source : SocketAddr
source = record { ip = 1; port = 5000 }

abbrev events : List Event
events =
    datagram_received (88 ∷ 83 ∷ 82 ∷ 49 ∷ 1 ∷ 1 ∷ []) source outside (sent 0)
      (λ round. would_block)
    ∷ flush_tick (λ round. sent 0)
    ∷ cleanup_tick 100 300
    ∷ []

serve-WellFormed_example : WellFormed (serve toy (new config) events)
serve-WellFormed_example = serve-WellFormed toy config events (omega arith)

first_draw : new_lease_id (new config) (λ attempt. some 77) ≡ some 77
unfolding new_lease_id draw_lease_id lookup
first_draw = refl

drawn_id : (0 < 77) × (lookup 77 (new config).leases ≡ none)
drawn_id = new_lease_id-fresh (new config) (λ attempt. some 77) 77 first_draw

abbrev budget : TrafficBudget
budget = record { window_started = 0; packets = 1; bytes = 100 }

within : Within 2 1000 budget
within = record { packets = omega arith; bytes = omega arith }

accepted : can_accept budget 5 200 2 1000 ≡ true
unfolding can_accept
accepted = refl

commit_traffic-Within_example :
    Within 2 1000 (commit_traffic budget 5 200)
    × (leb traffic_window (5 - 0) ≡ true
        → ((commit_traffic budget 5 200).window_started ≡ 5)
          × ((commit_traffic budget 5 200).packets ≡ 1)
          × ((commit_traffic budget 5 200).bytes ≡ 200))
    × (leb traffic_window (5 - 0) ≡ false
        → ((commit_traffic budget 5 200).window_started ≡ 0)
          × ((commit_traffic budget 5 200).packets ≡ 1 + 1)
          × ((commit_traffic budget 5 200).bytes ≡ 100 + 200))
commit_traffic-Within_example =
    commit_traffic-Within budget 5 200 2 1000 within (omega arith) (omega arith) (omega arith)
      accepted
