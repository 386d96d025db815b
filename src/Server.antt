-- ===== src/Server.antt =====
-- The relay server: `RelayServer` of apps/relay/src/server.rs. An `Instant` and a `Duration` are
-- nanoseconds, an address is a number for the host and a port; a `HashMap` is an association list
-- and a `VecDeque` a list from the front. What the handlers tell `RelayMetrics` and the socket is
-- logged, newest first: `metrics` has the calls that carry no clock, `outbox` what was handed to
-- `try_send_to`.
pub mod Budgets
pub mod Registration
pub mod Forwarding
pub mod Service
pub mod Limits
mod Tests
pub mod Invariant
use xs_nexus.Base.{
  ℕ, ◌+◌, ◌-◌, ◌*◌, ◌^◌, ◌<◌, ◌≤◌, ◌≡◌, ◌↔◌, refl, ap, Bool, true, false, not, ◌&&◌, Option, none,
  some, List, [], ◌∷◌, ltb, leb, ◌==◌, ==_iff, ==_self, &&-true, Eq, arith,
}
use xs_nexus.Replay.{ReplayWindow}

pub record NodeKey : Type 0 where
  pub network_id : ℕ
  pub node_id : ℕ

pub record RequestKey : Type 0 where
  pub node : NodeKey
  pub request_id : ℕ

pub record SocketAddr : Type 0 where
  pub ip : ℕ
  pub port : ℕ

abbrev pub same_node : NodeKey → NodeKey → Bool
same_node a b = a.network_id == b.network_id && a.node_id == b.node_id

abbrev pub same_request : RequestKey → RequestKey → Bool
same_request a b = same_node a.node b.node && a.request_id == b.request_id

abbrev pub same_address : SocketAddr → SocketAddr → Bool
same_address a b = a.ip == b.ip && a.port == b.port

node-eq : (a b : NodeKey) → a.network_id ≡ b.network_id → a.node_id ≡ b.node_id → a ≡ b
node-eq a b p q = λ i. record { network_id = p i; node_id = q i }

pub same_node_iff : (a b : NodeKey) → (same_node a b ≡ true) ↔ (a ≡ b)
same_node_iff a b = (
  λ h.
      let (p, q) = &&-true (a.network_id == b.network_id) _ h in
      node-eq a b ((==_iff _ _).0 p) ((==_iff _ _).0 q),
  λ e. rw (← e, ==_self a.network_id, ==_self a.node_id) refl,
)

pub same_request_iff : (a b : RequestKey) → (same_request a b ≡ true) ↔ (a ≡ b)
same_request_iff a b = (
  λ h.
      let (p, q) = &&-true (same_node a.node b.node) _ h in
      let e : a.node ≡ b.node = (same_node_iff a.node b.node).0 p in
      let f : a.request_id ≡ b.request_id = (==_iff _ _).0 q in
      λ i. record { node = e i; request_id = f i },
  λ e. rw (← e, (same_node_iff a.node a.node).1 refl, ==_self a.request_id) refl,
)

instance abbrev pub node_key : Eq NodeKey
node_key = record { matches = same_node; decides = same_node_iff }

instance abbrev pub request_key : Eq RequestKey
request_key = record { matches = same_request; decides = same_request_iff }

pub record QueuedDatagram : Type 0 where
  pub bytes : List ℕ
  pub enqueued_at : ℕ

pub record TrafficBudget : Type 0 where
  pub window_started : ℕ
  pub packets : ℕ
  pub bytes : ℕ

pub record SourceBudget : Type 0 where
  pub window_started : ℕ
  pub requests : ℕ

pub record Lease : Type 0 where
  pub node : NodeKey
  pub endpoint : SocketAddr
  pub expires_at : ℕ
  pub last_activity : ℕ
  pub replay : ReplayWindow
  pub traffic : TrafficBudget
  pub queue : List QueuedDatagram
  pub queued_bytes : ℕ
  pub queue_scheduled : Bool

pub record CachedRegistration : Type 0 where
  pub endpoint : SocketAddr
  pub expires : ℕ
  pub response : List ℕ

-- The calls of `RelayMetrics`.
pub data Metric : Type 0 where
  received forwarded set_active_leases : ℕ → Metric
  invalid_drop authentication_drop replay_drop rate_limit_drop destination_drop queue_drop : Metric
  send_drop registration_rejected registration_retry registration_accepted : Metric
  keepalive_accepted : Metric

-- What `try_send_to` answers.
pub data SendResult : Type 0 where
  sent : ℕ → SendResult
  would_block send_error : SendResult

pub record RelayServer : Type 0 where
  pub relay_id : ℕ
  pub controller_credential_key : ℕ
  pub identity_key : ℕ
  pub lease_ttl_seconds : ℕ
  pub idle_timeout : ℕ
  pub max_leases : ℕ
  pub registration_requests_per_minute : ℕ
  pub packets_per_lease_per_second : ℕ
  pub bytes_per_lease_per_second : ℕ
  pub queue_packets_per_node : ℕ
  pub queue_bytes_per_node : ℕ
  pub nodes : List (NodeKey × ℕ)
  pub leases : List (ℕ × Lease)
  pub active_queues : List ℕ
  pub registrations : List (RequestKey × CachedRegistration)
  pub registration_order : List RequestKey
  pub source_budgets : List (ℕ × SourceBudget)
  pub source_order : List ℕ
  pub metrics : List Metric
  pub outbox : List (List ℕ × SocketAddr)

abbrev pub seconds : ℕ → ℕ
seconds n = n * 1000000000

abbrev pub usize_max : ℕ
usize_max = 2 ^ 64 - 1

-- The settings of `RelayConfig` that the server keeps.
pub record RelayConfig : Type 0 where
  pub relay_id : ℕ
  pub controller_credential_key : ℕ
  pub identity_key : ℕ
  pub lease_ttl_seconds : ℕ
  pub idle_timeout_seconds : ℕ
  pub max_leases : ℕ
  pub registration_requests_per_minute : ℕ
  pub packets_per_lease_per_second : ℕ
  pub bytes_per_lease_per_second : ℕ
  pub queue_packets_per_node : ℕ
  pub queue_bytes_per_node : ℕ

abbrev pub new : RelayConfig → RelayServer
new config = record {
  relay_id = config.relay_id;
  controller_credential_key = config.controller_credential_key;
  identity_key = config.identity_key;
  lease_ttl_seconds = config.lease_ttl_seconds;
  idle_timeout = seconds config.idle_timeout_seconds;
  max_leases = config.max_leases;
  registration_requests_per_minute = config.registration_requests_per_minute;
  packets_per_lease_per_second = config.packets_per_lease_per_second;
  bytes_per_lease_per_second = config.bytes_per_lease_per_second;
  queue_packets_per_node = config.queue_packets_per_node;
  queue_bytes_per_node = config.queue_bytes_per_node;
  nodes = [];
  leases = [];
  active_queues = [];
  registrations = [];
  registration_order = [];
  source_budgets = [];
  source_order = [];
  metrics = [];
  outbox = [];
}

abbrev pub count : Metric → RelayServer → RelayServer
count metric s = record s { metrics = metric ∷ s.metrics }

abbrev pub try_send_to : List ℕ → SocketAddr → RelayServer → RelayServer
try_send_to bytes endpoint s = record s { outbox = (bytes, endpoint) ∷ s.outbox }

unfoldable pub lease_matches : Lease → ℕ → ℕ → SocketAddr → ℕ → Bool
lease_matches lease network_id node_id endpoint now =
    lease.node.network_id == network_id
    && lease.node.node_id == node_id
    && same_address lease.endpoint endpoint
    && ltb now lease.expires_at
