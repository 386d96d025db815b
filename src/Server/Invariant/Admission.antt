-- ===== src/Server/Invariant/Admission.antt =====
-- Registrations keep the tables of `RelayServer` (apps/relay/src/server.rs) in step.
use xs_nexus.Base.{
  ℕ, zero, suc, ◌-◌, ◌<◌, ◌≡◌, ◌^◌, min, inl, inr, refl, Bool, true, false, not, ◌&&◌, Option, none,
  some, List, length, nat_key, lookup, arith, if◌then◌else◌, ◌==◌, ltb, leb, saturating_add,
  Bool-cases, some-eq, insert-Unique, remove-Unique, Unique,
}
use mathlib.Core.Path.{subst}
use xs_nexus.Credential.{Signing}
use xs_nexus.Relay.{register_request_length}
use xs_nexus.Relay.Leases.{VerifiedRelayRegisterRequest, verify_relay_register_request}
use xs_nexus.Server.{
  NodeKey, RequestKey, SocketAddr, Lease, CachedRegistration, SourceBudget, RelayServer, node_key,
  request_key, same_address,
}
use xs_nexus.Server.Budgets.{
  allow_known_source, allow_registration_source, count_request, source_window,
}
use xs_nexus.Server.Registration.{
  Outside, is_known, drawn, draw_lease_id, new_lease_id, drop_previous, install_lease, new_lease,
  cache_registration, grant, grant_drawn, answer_request, register_verified, register_allowed,
  handle_registration, request_of,
}
use xs_nexus.Server.Invariant.{WellFormed}
use xs_nexus.Server.Invariant.Tables.{install-Indexed, install-bounded}
use xs_nexus.Server.Invariant.Queues.{update-Queued, drop_previous-Queued}
use xs_nexus.Server.Invariant.Traffic.{if-WellFormed}

unused :
    {A : Type 0} (n : ℕ) (o : Option A)
    → (not (n == 0) && not (is_known o)) ≡ true
    → (0 < n) × (o ≡ none)
unused n none h = ground arith
unused n (some a) h = absurd (ground arith)

drawn-fresh :
    (leases : List (ℕ × Lease)) (draw rest : Option ℕ) (id : ℕ)
    → (rest ≡ some id → (0 < id) × (lookup id leases ≡ none))
    → drawn leases draw rest ≡ some id
    → (0 < id) × (lookup id leases ≡ none)
drawn-fresh leases none rest id before h = before h
drawn-fresh leases (some draw) rest id before h =
    elim (Bool-cases (not (draw == 0) && not (is_known (lookup draw leases)))) [
      | inl ok ↦
          let (positive, free) = unused draw (lookup draw leases) ok in
          let same : draw ≡ id = some-eq (rw ok at h) in
          subst (λ i. (0 < i) × (lookup i leases ≡ none)) same (positive, free)
      | inr taken ↦ before (rw taken at h)
    ]

draw-fresh :
    (attempts : ℕ) (leases : List (ℕ × Lease)) (random : ℕ → Option ℕ) (id : ℕ)
    → draw_lease_id attempts leases random ≡ some id
    → (0 < id) × (lookup id leases ≡ none)
unfolding draw_lease_id
draw-fresh zero leases random id h = absurd (cc)
draw-fresh (suc attempts) leases random id h =
    drawn-fresh leases (random attempts) (draw_lease_id attempts leases random) id
      (draw-fresh attempts leases random id) h

room_for :
    {A : Type 0} (o : Option A) (most n : ℕ)
    → (leb most n && not (is_known o)) ≡ false
    → o ≡ none
    → n < most
room_for none most n h e = ground arith
room_for (some a) most n h e = absurd (cc)

-- A new lease's id is not 0 and no lease's.
pub new_lease_id-fresh :
    (s : RelayServer) (random : ℕ → Option ℕ) (id : ℕ)
    → new_lease_id s random ≡ some id
    → (0 < id) × (lookup id s.leases ≡ none)
unfolding new_lease_id
new_lease_id-fresh s random id h = draw-fresh 8 s.leases random id h

drop_previous-Unique :
    (o : Option ℕ) (leases : List (ℕ × Lease)) → Unique leases → Unique (drop_previous o leases)
drop_previous-Unique none leases u = u
drop_previous-Unique (some id) leases u = remove-Unique id leases u

-- A lease for a node, where there is room or the node has one.
install_lease-WellFormed :
    (s : RelayServer) (id : ℕ) (node : NodeKey) (source : SocketAddr) (expires_at instant : ℕ)
    → WellFormed s
    → lookup id s.leases ≡ none
    → (lookup node s.nodes ≡ none → length s.leases < s.max_leases)
    → WellFormed (install_lease s id (new_lease node source expires_at instant))
unfolding install_lease
install_lease-WellFormed s id node source expires_at instant w fresh room =
    let lease = new_lease node source expires_at instant in
    let earlier = lookup node s.nodes in
    let others = drop_previous earlier s.leases in
    record {
      indexed = install-Indexed s.nodes s.leases id lease w.indexed fresh;
      unique = insert-Unique id lease others (drop_previous-Unique earlier s.leases w.unique);
      bounded =
          install-bounded s.nodes s.leases id lease s.max_leases w.indexed w.bounded earlier refl
            room;
      queued =
          update-Queued s.queue_packets_per_node s.queue_bytes_per_node s.active_queues
            s.active_queues others id lease
            (drop_previous-Queued s.queue_packets_per_node s.queue_bytes_per_node s.active_queues
              s.leases earlier w.queued)
            (record {
              counted = refl;
              bytes_bound = omega arith;
              packets_bound = omega arith;
              scheduled = λ h. absurd (cc);
            })
            (λ h. absurd (cc)) (λ other ne h. h);
      room = w.room;
    }

if_first-WellFormed :
    (b : Bool) (x y : RelayServer × Bool)
    → WellFormed x.0
    → WellFormed y.0
    → WellFormed (if b then x else y).0
if_first-WellFormed true x y hx hy = hx
if_first-WellFormed false x y hx hy = hy

count_request-WellFormed :
    (s : RelayServer) (source now : ℕ) (budget : SourceBudget)
    → WellFormed s
    → WellFormed (count_request s source now budget).0
unfolding count_request
count_request-WellFormed s source now budget w =
    if_first-WellFormed (leb source_window (now - budget.window_started)) _ _ w
      (if_first-WellFormed (leb s.registration_requests_per_minute budget.requests) _ _ w w)

allow_registration_source-WellFormed :
    (s : RelayServer) (source now : ℕ)
    → WellFormed s
    → (o : Option SourceBudget) → WellFormed (allow_known_source s source now o).0
allow_registration_source-WellFormed s source now w none = w
allow_registration_source-WellFormed s source now w (some budget) =
    count_request-WellFormed s source now budget w

module _ (g : Signing) where
  grant-WellFormed :
      (s : RelayServer) (outside : Outside) (source : SocketAddr) (request : RequestKey)
      (id expires_at : ℕ)
      → WellFormed s
      → lookup id s.leases ≡ none
      → (lookup request.node s.nodes ≡ none → length s.leases < s.max_leases)
      → WellFormed (grant g s outside source request id expires_at)
  unfolding grant cache_registration
  grant-WellFormed s outside source request id expires_at w fresh room =
      install_lease-WellFormed s id request.node source expires_at outside.instant w fresh room

  grant_drawn-WellFormed :
      (s : RelayServer) (outside : Outside) (source : SocketAddr) (request : RequestKey)
      (not_after : ℕ)
      → WellFormed s
      → (lookup request.node s.nodes ≡ none → length s.leases < s.max_leases)
      → (o : Option ℕ) → new_lease_id s outside.random ≡ o
      → WellFormed (grant_drawn g s outside source request not_after o)
  grant_drawn-WellFormed s outside source request not_after w room none p = w
  grant_drawn-WellFormed s outside source request not_after w room (some id) p =
      if-WellFormed
        (leb (min (saturating_add (2 ^ 64 - 1) outside.unix_now s.lease_ttl_seconds) not_after)
          outside.unix_now)
        _ _ (λ _. w)
        (λ _.
          grant-WellFormed s outside source request id
            (min (saturating_add (2 ^ 64 - 1) outside.unix_now s.lease_ttl_seconds) not_after) w
            (new_lease_id-fresh s outside.random id p).1 room)

  answer_request-WellFormed :
      (s : RelayServer) (outside : Outside) (source : SocketAddr) (request : RequestKey)
      (not_after : ℕ)
      → WellFormed s
      → (o : Option CachedRegistration)
      → WellFormed (answer_request g s outside source request not_after o)
  answer_request-WellFormed s outside source request not_after w (some cached) =
      if-WellFormed (same_address cached.endpoint source && ltb outside.instant cached.expires) _ _
        (λ _. w) (λ _. w)
  answer_request-WellFormed s outside source request not_after w none =
      if-WellFormed
        (leb s.max_leases (length s.leases) && not (is_known (lookup request.node s.nodes))) _ _
        (λ _. w)
        (λ free.
          grant_drawn-WellFormed s outside source request not_after w
            (room_for (lookup request.node s.nodes) s.max_leases (length s.leases) free)
            (new_lease_id s outside.random) refl)

  register_verified-WellFormed :
      (s : RelayServer) (outside : Outside) (source : SocketAddr)
      → WellFormed s
      → (o : Option VerifiedRelayRegisterRequest)
      → WellFormed (register_verified g s outside source o)
  register_verified-WellFormed s outside source w none = w
  register_verified-WellFormed s outside source w (some verified) =
      if-WellFormed (verified.request.relay_id == s.relay_id) _ _
        (λ _.
          answer_request-WellFormed s outside source (request_of verified.request)
            verified.credential.not_after w (lookup (request_of verified.request) s.registrations))
        (λ _. w)

  register_allowed-WellFormed :
      (outside : Outside) (datagram : List ℕ) (source : SocketAddr) (s : RelayServer)
      (allowed : Bool)
      → WellFormed s
      → WellFormed (register_allowed g outside datagram source (s, allowed))
  register_allowed-WellFormed outside datagram source s false w = w
  register_allowed-WellFormed outside datagram source s true w =
      register_verified-WellFormed s outside source w
        (verify_relay_register_request g datagram s.controller_credential_key outside.unix_now)

  -- A registration.
  pub handle_registration-WellFormed :
      (s : RelayServer) (outside : Outside) (datagram : List ℕ) (source : SocketAddr)
      → WellFormed s
      → WellFormed (handle_registration g s outside datagram source)
  unfolding handle_registration allow_registration_source
  handle_registration-WellFormed s outside datagram source w =
      let step = allow_registration_source s source.ip outside.instant in
      if-WellFormed (length datagram == register_request_length) _ _
        (λ _. register_allowed-WellFormed outside datagram source step.0 step.1 (
          allow_registration_source-WellFormed s source.ip outside.instant w
            (lookup source.ip s.source_budgets)))
        (λ _. w)
