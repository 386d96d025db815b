-- ===== src/Server/Registration.antt =====
-- A registration at the relay: `handle_registration`, `new_lease_id` and `cache_registration` of
-- apps/relay/src/server.rs.
use xs_nexus.Base.{
  ℕ, suc, zero, ◌+◌, ◌-◌, ◌*◌, ◌^◌, min, max, Bool, true, false, not, ◌&&◌, Option, none, some,
  List, [], ◌∷◌, ◌++◌, ltb, leb, ◌==◌, if◌then◌else◌, length, nat_key, lookup, insert, remove,
  saturating_add,
}
use xs_nexus.Credential.{Signing}
use xs_nexus.Replay
use xs_nexus.Relay.{register_request_length}
use xs_nexus.Relay.Leases.{
  RelayRegisterRequest, VerifiedRelayRegisterRequest, RelayRegisterResponse,
  verify_relay_register_request, sign_relay_register_response,
}
use xs_nexus.Server.{
  NodeKey, RequestKey, SocketAddr, Lease, CachedRegistration, RelayServer, node_key, request_key,
  same_address, seconds, usize_max, count, try_send_to, registration_rejected, registration_retry,
  registration_accepted, set_active_leases,
}
use xs_nexus.Server.Budgets.{new_traffic, evict, allow_registration_source}

-- What a handler reads from outside: the two clocks, and the random bytes of the attempts.
pub record Outside : Type 0 where
  pub instant : ℕ
  pub unix_now : ℕ
  pub random : ℕ → Option ℕ

abbrev pub request_replay_ttl : ℕ
request_replay_ttl = seconds 300

abbrev pub is_known : {A : Type 0} → Option A → Bool
is_known none = false
is_known (some a) = true

-- One draw: not 0, and no lease's id.
abbrev pub drawn : List (ℕ × Lease) → Option ℕ → Option ℕ → Option ℕ
drawn leases none rest = rest
drawn leases (some id) rest =
    if not (id == 0) && not (is_known (lookup id leases)) then some id else rest

unfoldable pub draw_lease_id : ℕ → List (ℕ × Lease) → (ℕ → Option ℕ) → Option ℕ
draw_lease_id zero leases random = none
draw_lease_id (suc attempts) leases random =
    drawn leases (random attempts) (draw_lease_id attempts leases random)

unfoldable pub new_lease_id : RelayServer → (ℕ → Option ℕ) → Option ℕ
unfolding draw_lease_id
new_lease_id s random = draw_lease_id 8 s.leases random

abbrev pub store_registration :
    RelayServer
    → RequestKey
    → CachedRegistration
    → List (RequestKey × CachedRegistration) × List RequestKey
    → RelayServer
store_registration s request cached (registrations, order) = record s {
  registrations = insert request cached registrations;
  registration_order = order ++ (request ∷ []);
}

unfoldable pub cache_registration : RelayServer → RequestKey → SocketAddr → List ℕ → ℕ → RelayServer
cache_registration s request endpoint response now =
    let maximum = max 16 (min usize_max (s.max_leases * 4)) in
    store_registration s request
      (record { endpoint = endpoint; expires = now + request_replay_ttl; response = response })
      (evict maximum s.registrations s.registration_order)

-- `self.nodes.insert` with the removal of the node's lease before, and `self.leases.insert`.
abbrev pub drop_previous : Option ℕ → List (ℕ × Lease) → List (ℕ × Lease)
drop_previous none leases = leases
drop_previous (some previous) leases = remove previous leases

unfoldable pub install_lease : RelayServer → ℕ → Lease → RelayServer
install_lease s lease_id lease = record s {
  nodes = insert lease.node lease_id s.nodes;
  leases = insert lease_id lease (drop_previous (lookup lease.node s.nodes) s.leases);
}

abbrev pub new_lease : NodeKey → SocketAddr → ℕ → ℕ → Lease
new_lease node endpoint expires_at instant = record {
  node = node;
  endpoint = endpoint;
  expires_at = expires_at;
  last_activity = instant;
  replay = Replay.new;
  traffic = new_traffic instant;
  queue = [];
  queued_bytes = 0;
  queue_scheduled = false;
}

abbrev pub rejected : RelayServer → RelayServer
rejected s = count registration_rejected s

abbrev pub response_for : RelayServer → RequestKey → ℕ → ℕ → RelayRegisterResponse
response_for s request lease_id expires_at = record {
  network_id = request.node.network_id;
  node_id = request.node.node_id;
  relay_id = s.relay_id;
  request_id = request.request_id;
  lease_id = lease_id;
  expires_at = expires_at;
}

abbrev pub request_of : RelayRegisterRequest → RequestKey
request_of request = record {
  node = record { network_id = request.network_id; node_id = request.node_id };
  request_id = request.request_id;
}

module _ (g : Signing) where
  -- The part behind the choice of a lease id: the lease, the response, its cache and the datagram.
  unfoldable pub grant : RelayServer → Outside → SocketAddr → RequestKey → ℕ → ℕ → RelayServer
  grant s outside source request lease_id expires_at =
      let response =
        sign_relay_register_response g (response_for s request lease_id expires_at)
          s.identity_key in
      let granted =
        cache_registration
          (install_lease s lease_id (new_lease request.node source expires_at outside.instant))
          request source response outside.instant in
      try_send_to response source
        (count registration_accepted (count (set_active_leases (length granted.leases)) granted))

  abbrev pub grant_drawn :
      RelayServer → Outside → SocketAddr → RequestKey → ℕ → Option ℕ → RelayServer
  grant_drawn s outside source request not_after none = rejected s
  grant_drawn s outside source request not_after (some lease_id) =
      let expires_at =
        min (saturating_add (2 ^ 64 - 1) outside.unix_now s.lease_ttl_seconds) not_after in
      if leb expires_at outside.unix_now
      then rejected s
      else grant s outside source request lease_id expires_at

  -- A request id that was answered before, or not.
  abbrev pub answer_request :
      RelayServer → Outside → SocketAddr → RequestKey → ℕ → Option CachedRegistration → RelayServer
  answer_request s outside source request not_after (some cached) =
      if same_address cached.endpoint source && ltb outside.instant cached.expires
      then count registration_retry (try_send_to cached.response source s)
      else rejected s
  answer_request s outside source request not_after none =
      if leb s.max_leases (length s.leases) && not (is_known (lookup request.node s.nodes))
      then rejected s
      else grant_drawn s outside source request not_after (new_lease_id s outside.random)

  abbrev pub register_verified :
      RelayServer → Outside → SocketAddr → Option VerifiedRelayRegisterRequest → RelayServer
  register_verified s outside source none = rejected s
  register_verified s outside source (some verified) =
      let request = request_of verified.request in
      if verified.request.relay_id == s.relay_id
      then answer_request s outside source request verified.credential.not_after
          (lookup request s.registrations)
      else rejected s

  abbrev pub register_allowed : Outside → List ℕ → SocketAddr → RelayServer × Bool → RelayServer
  register_allowed outside datagram source (s, false) = rejected s
  register_allowed outside datagram source (s, true) =
      register_verified s outside source
        (verify_relay_register_request g datagram s.controller_credential_key outside.unix_now)

  unfoldable pub handle_registration : RelayServer → Outside → List ℕ → SocketAddr → RelayServer
  handle_registration s outside datagram source =
      if length datagram == register_request_length
      then register_allowed outside datagram source
          (allow_registration_source s source.ip outside.instant)
      else rejected s
