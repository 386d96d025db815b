-- ===== src/Server/Budgets.antt =====
-- The limits of apps/relay/src/server.rs: the traffic of a lease, the registrations of a host, and
-- the tables that forget their oldest entries.
use xs_nexus.Base.{
  ℕ, ◌-◌, ◌^◌, min, max, Bool, true, false, ◌&&◌, Option, none, some, List, [], ◌∷◌, ◌++◌, ltb, leb,
  if◌then◌else◌, length, Eq, nat_key, lookup, insert, remove, saturating_add,
}
use xs_nexus.Server.{TrafficBudget, SourceBudget, RelayServer, seconds}

abbrev pub traffic_window : ℕ
traffic_window = seconds 1

abbrev pub source_window : ℕ
source_window = seconds 60

abbrev pub new_traffic : ℕ → TrafficBudget
new_traffic now = record { window_started = now; packets = 0; bytes = 0 }

-- `now.saturating_duration_since(..)` is the subtraction that stops at 0.
unfoldable pub can_accept : TrafficBudget → ℕ → ℕ → ℕ → ℕ → Bool
can_accept t now bytes packet_limit byte_limit =
    if leb traffic_window (now - t.window_started)
    then leb bytes byte_limit
    else ltb t.packets packet_limit && leb (saturating_add (2 ^ 64 - 1) t.bytes bytes) byte_limit

abbrev pub restarted : TrafficBudget → ℕ → TrafficBudget
restarted t now = if leb traffic_window (now - t.window_started) then new_traffic now else t

abbrev pub add_packet : TrafficBudget → ℕ → TrafficBudget
add_packet t bytes = record t {
  packets = saturating_add (2 ^ 32 - 1) t.packets 1;
  bytes = saturating_add (2 ^ 64 - 1) t.bytes bytes;
}

unfoldable pub commit_traffic : TrafficBudget → ℕ → ℕ → TrafficBudget
commit_traffic t now bytes = add_packet (restarted t now) bytes

-- `while map.len() >= maximum { let Some(oldest) = order.pop_front() else { break }; map.remove(&oldest) }`
module _ {K V : Type 0} ⦃e : Eq K⦄ where
  pub evict : ℕ → List (K × V) → List K → List (K × V) × List K
  evict maximum entries [] = (entries, [])
  evict maximum entries (oldest ∷ order) =
      let rest = evict maximum (remove oldest entries) order in
      if leb maximum (length entries) then rest else (entries, oldest ∷ order)

-- A host that is known: a new window, one more request in it, or none.
unfoldable pub count_request : RelayServer → ℕ → ℕ → SourceBudget → RelayServer × Bool
count_request s source now budget =
    if leb source_window (now - budget.window_started)
    then (
      record s {
        source_budgets =
            insert source (record { window_started = now; requests = 1 }) s.source_budgets;
      },
      true,
    )
    else if leb s.registration_requests_per_minute budget.requests
    then (s, false)
    else (
      record s {
        source_budgets =
            insert source
              (record budget { requests = saturating_add (2 ^ 16 - 1) budget.requests 1 })
              s.source_budgets;
      },
      true,
    )

abbrev pub add_source : RelayServer → ℕ → ℕ → List (ℕ × SourceBudget) × List ℕ → RelayServer
add_source s source now (budgets, order) = record s {
  source_budgets = insert source (record { window_started = now; requests = 1 }) budgets;
  source_order = order ++ (source ∷ []);
}

abbrev pub allow_known_source : RelayServer → ℕ → ℕ → Option SourceBudget → RelayServer × Bool
allow_known_source s source now (some budget) = count_request s source now budget
allow_known_source s source now none = (
  add_source s source now (evict (min 4096 (max 64 s.max_leases)) s.source_budgets s.source_order),
  true,
)

unfoldable pub allow_registration_source : RelayServer → ℕ → ℕ → RelayServer × Bool
allow_registration_source s source now =
    allow_known_source s source now (lookup source s.source_budgets)
