-- ===== src/Server/Service.antt =====
-- The relay's loop: `cleanup`, `handle_datagram` and the arms of `serve` in
-- apps/relay/src/server.rs.
use xs_nexus.Base.{
  ℕ, ◌-◌, Bool, false, not, ◌||◌, Option, none, some, List, [], ◌∷◌, ltb, leb, ◌==◌, if◌then◌else◌,
  length, get_or, nat_key, lookup, remove,
}
use xs_nexus.Base.Bytes.{slice, bytes_eq}
use xs_nexus.Credential.{Signing}
use xs_nexus.Relay.{relay_magic, max_frame_length, register_request_type, data_type, keepalive_type}
use xs_nexus.Server.{
  NodeKey, RequestKey, SocketAddr, Lease, CachedRegistration, RelayServer, SendResult, node_key,
  request_key, count, invalid_drop, received, set_active_leases,
}
use xs_nexus.Server.Registration.{Outside, handle_registration}
use xs_nexus.Server.Forwarding.{Clock, handle_data, handle_keepalive, flush_queues}

unfoldable pub is_expired : ℕ → ℕ → ℕ → Lease → Bool
is_expired idle_timeout now unix_now lease =
    leb lease.expires_at unix_now || leb idle_timeout (now - lease.last_activity)

-- The leases that `filter_map` collects.
unfoldable pub expired_leases : ℕ → ℕ → ℕ → List (ℕ × Lease) → List (ℕ × NodeKey)
expired_leases idle_timeout now unix_now [] = []
expired_leases idle_timeout now unix_now ((id, lease) ∷ leases) =
    let rest = expired_leases idle_timeout now unix_now leases in
    if is_expired idle_timeout now unix_now lease then (id, lease.node) ∷ rest else rest

-- `self.nodes.get(&node) == Some(&lease_id)`
abbrev pub names : ℕ → Option ℕ → Bool
names id none = false
names id (some other) = other == id

unfoldable pub remove_lease : RelayServer → ℕ → NodeKey → RelayServer
remove_lease s id node = record s {
  leases = remove id s.leases;
  nodes = if names id (lookup node s.nodes) then remove node s.nodes else s.nodes;
}

unfoldable pub remove_leases : RelayServer → List (ℕ × NodeKey) → RelayServer
remove_leases s [] = s
remove_leases s ((id, node) ∷ expired) = remove_leases (remove_lease s id node) expired

abbrev pub is_live : ℕ → Option CachedRegistration → Bool
is_live now none = false
is_live now (some cached) = ltb now cached.expires

-- The registrations whose time is over leave from the front of the order.
unfoldable pub forget_registrations :
    ℕ
    → List (RequestKey × CachedRegistration)
    → List RequestKey
    → List (RequestKey × CachedRegistration) × List RequestKey
forget_registrations now registrations [] = (registrations, [])
forget_registrations now registrations (request ∷ order) =
    let rest = forget_registrations now (remove request registrations) order in
    if is_live now (lookup request registrations) then (registrations, request ∷ order) else rest

abbrev pub with_registrations :
    RelayServer → List (RequestKey × CachedRegistration) × List RequestKey → RelayServer
with_registrations s (registrations, order) = record s {
  registrations = registrations;
  registration_order = order;
}

unfoldable pub cleanup : RelayServer → ℕ → ℕ → RelayServer
cleanup s now unix_now =
    let live = remove_leases s (expired_leases s.idle_timeout now unix_now s.leases) in
    let swept =
      with_registrations live
        (forget_registrations now live.registrations live.registration_order) in
    count (set_active_leases (length swept.leases)) swept

-- What the handlers of one datagram read from outside.
abbrev pub clock_of : Outside → Clock
clock_of outside = record { instant = outside.instant; unix_now = outside.unix_now }

-- The arms of `serve`'s `select!`, but the one that ends it.
pub data Event : Type 0 where
  cleanup_tick : ℕ → ℕ → Event
  flush_tick : (ℕ → SendResult) → Event
  datagram_received : List ℕ → SocketAddr → Outside → SendResult → (ℕ → SendResult) → Event

module _ (g : Signing) where
  -- The `match datagram[5]`.
  unfoldable pub dispatch :
      RelayServer → Outside → SendResult → List ℕ → SocketAddr → ℕ → RelayServer
  dispatch s outside result datagram source kind =
      if kind == register_request_type
      then handle_registration g s outside datagram source
      else if kind == data_type
      then handle_data s (clock_of outside) datagram source
      else if kind == keepalive_type
      then handle_keepalive g s (clock_of outside) result datagram source
      else count invalid_drop s

  unfoldable pub handle_datagram :
      RelayServer → Outside → SendResult → List ℕ → SocketAddr → RelayServer
  handle_datagram s outside result datagram source =
      if ltb (length datagram) 6
        || ltb max_frame_length (length datagram)
        || not (bytes_eq (slice 0 4 datagram) relay_magic)
      then count invalid_drop s
      else dispatch s outside result datagram source (get_or datagram 5 0)

  unfoldable pub serve_event : RelayServer → Event → RelayServer
  serve_event s (cleanup_tick now unix_now) = cleanup s now unix_now
  serve_event s (flush_tick results) = flush_queues s results
  serve_event s (datagram_received datagram source outside result results) =
      flush_queues
        (handle_datagram (count (received (length datagram)) s) outside result datagram source)
        results

  unfoldable pub serve : RelayServer → List Event → RelayServer
  serve s [] = s
  serve s (event ∷ events) = serve (serve_event s event) events
