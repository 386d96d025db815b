-- ===== src/Server/Invariant.antt =====
-- What holds of the tables of `RelayServer` (apps/relay/src/server.rs) at all times.
pub mod Tables
pub mod Queues
pub mod Traffic
pub mod Admission
pub mod Housekeeping
pub mod Service
use xs_nexus.Base.{
  ℕ, ◌+◌, ◌^◌, ◌<◌, ◌≤◌, ◌≡◌, Bool, true, false, Option, none, some, List, [], ◌∷◌, length,
  is_empty, any, ◌==◌, nat_key, lookup, Unique,
}
use xs_nexus.Server.{NodeKey, Lease, QueuedDatagram, RelayServer, node_key, usize_max}

-- The two tables name each other: a node's id is the id of a lease of that node, and a lease's node
-- has the lease's id.
pub record Indexed (nodes : List (NodeKey × ℕ)) (leases : List (ℕ × Lease)) : Type 0 where
  pub lease_of :
      (node : NodeKey) (id : ℕ)
      → lookup node nodes ≡ some id
      → (lease : Lease) × (lookup id leases ≡ some lease) × (lease.node ≡ node)
  pub node_of :
      (id : ℕ) (lease : Lease) → lookup id leases ≡ some lease → lookup lease.node nodes ≡ some id

-- The bytes of a queue.
abbrev pub total_bytes : List QueuedDatagram → ℕ
total_bytes [] = 0
total_bytes (datagram ∷ queue) = length datagram.bytes + total_bytes queue

-- A lease's count of its queued bytes is right and within the limits, and what is queued is scheduled.
pub record IsQueue (packets bytes : ℕ) (lease : Lease) : Type 0 where
  pub counted : lease.queued_bytes ≡ total_bytes lease.queue
  pub bytes_bound : lease.queued_bytes ≤ bytes
  pub packets_bound : length lease.queue ≤ packets
  pub scheduled : is_empty lease.queue ≡ false → lease.queue_scheduled ≡ true

-- The id is among the active queues.
abbrev pub waits : ℕ → List ℕ → Bool
waits id active = any (λ other. other == id) active

abbrev pub Queued : ℕ → ℕ → List ℕ → List (ℕ × Lease) → Type 0
Queued packets bytes active leases =
    (id : ℕ) (lease : Lease)
    → lookup id leases ≡ some lease
    → IsQueue packets bytes lease × (lease.queue_scheduled ≡ true → waits id active ≡ true)

pub record IsTables (most packets bytes : ℕ) (nodes : List (NodeKey × ℕ))
    (leases : List (ℕ × Lease)) (active : List ℕ) : Type 0 where
  pub indexed : Indexed nodes leases
  pub unique : Unique leases
  pub bounded : length leases ≤ most
  pub queued : Queued packets bytes active leases
  pub room : bytes < usize_max

abbrev pub WellFormed : RelayServer → Type 0
WellFormed s =
    IsTables s.max_leases s.queue_packets_per_node s.queue_bytes_per_node s.nodes s.leases
      s.active_queues
