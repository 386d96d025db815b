-- ===== src/AgentRelay/Attempts.antt =====
-- A relay client's upkeep sends a registration at most 6 times (`maintain` of
-- apps/agent/src/relay.rs).
use xs_nexus.Base.{
  ℕ, ◌+◌, ◌-◌, ◌*◌, ◌≤◌, ◌≡◌, inl, inr, refl, ap, Bool, true, false, not, ◌&&◌, ◌||◌, Option, none,
  some, List, [], ◌∷◌, ◌++◌, ltb, leb, ◌==◌, if◌then◌else◌, Bool-cases, Option-cases, min, arith,
}
use xs_nexus.Base.Bytes.{be, bytes_eq}
use xs_nexus.Credential.{Signing}
use xs_nexus.Relay.{encode_common}
use xs_nexus.Relay.Frames.{encode_relay_keepalive, frame_bytes}
use xs_nexus.Relay.Leases.{RelayRegisterRequest, request_body, sign_relay_register_request}
use xs_nexus.AgentRelay.{
  RelayLease, PendingRegistration, RelayClient, RelayNode, registration_max_attempts,
  registration_retry_interval, relay_keepalive_interval, is_some, next_of, wrap,
  authenticate_activity, handle_datagram,
}
use xs_nexus.AgentRelay.Upkeep.{
  is_dead, drop_dead, retry_pending, maintain_pending, registration_due, begin_registration,
  register_if_due, keepalive_under, send_keepalive, with_keepalive, with_registration, maintain,
  Event, wrapping, receiving, active, maintaining, step, run,
}
use xs_nexus.AgentRelay.Bounds.{IsLease, WellFormed}
use xs_nexus.AgentRelay.Runs.{run-WellFormed}
use xs_nexus.AgentRelay.Sends.{
  is_request, once_if, requests, draws_of, draws, remaining, Pays, PaysIf, requests-append,
  authenticated_left, wrap_left, datagram_left,
}

keepalive_is_no_request :
    (id : List ℕ) (network_id relay_id node_id lease_id sequence : ℕ)
    → is_request id (encode_relay_keepalive network_id relay_id node_id lease_id sequence) ≡ false
unfolding is_request encode_relay_keepalive frame_bytes encode_common
keepalive_is_no_request id network_id relay_id node_id lease_id sequence = refl

resent :
    (request : Bool) (attempts : ℕ)
    → leb 6 attempts ≡ false
    → once_if request + 0 + (if request then 6 - min 255 (attempts + 1) else 0)
      ≤ (if request then 6 - attempts else 0) + 0
resent request attempts h = ground arith

first_sent :
    (request drawn : Bool)
    → request ≡ drawn
    → once_if request + 0 + (if request then 6 - 1 else 0) ≤ 0 + 6 * once_if drawn
first_sent request drawn h = ground arith

nothing_waits :
    (waiting : Option PendingRegistration) (due : Bool)
    → (not (is_some waiting) && due) ≡ true
    → waiting ≡ none
nothing_waits none due h = refl
nothing_waits (some pending) due h = absurd (cc)

module _ (g : Signing) where
  request_carries :
      (id : List ℕ) (r : RelayRegisterRequest) (key : ℕ)
      → is_request id (sign_relay_register_request g r key) ≡ bytes_eq (be 16 r.request_id) id
  unfolding is_request sign_relay_register_request request_body encode_common be
  request_carries id r key = refl

  abbrev request_for : RelayNode → RelayClient → ℕ → ℕ → RelayRegisterRequest
  request_for node client number unix_now = record {
    network_id = node.network_id;
    node_id = node.node_id;
    relay_id = client.relay_id;
    request_id = number;
    client_time = unix_now;
    credential = node.credential;
  }

  dropped_left :
      (id : List ℕ) (client : RelayClient) (now unix_now : ℕ)
      → remaining id (drop_dead g client now unix_now).1.pending ≤ remaining id client.pending
  unfolding drop_dead
  dropped_left id client now unix_now = elim (Option-cases client.lease) [
    | inl none_held ↦ rw (none_held, drop_dead) (omega arith)
    | inr (lease, held) ↦ elim (Bool-cases (is_dead g lease now unix_now)) [
      | inl dead ↦ rw (held, dead, drop_dead) (omega arith)
      | inr alive ↦ rw (held, alive, drop_dead) (omega arith)
    ]
  ]

  retry-Pays :
      (id : List ℕ) (client : RelayClient) (pending : PendingRegistration) (now : ℕ)
      → client.pending ≡ some pending
      → requests id (retry_pending g client pending now).0
          + remaining id (retry_pending g client pending now).1.pending
        ≤ remaining id (some pending) + 0
  unfolding retry_pending
  retry-Pays id client pending now waits =
      elim (Bool-cases (ltb (now - pending.last_sent) registration_retry_interval)) [
        | inl early ↦ rw (early, retry_pending) (omega (arith, ap (remaining id) waits))
        | inr due ↦ elim (Bool-cases (leb registration_max_attempts pending.attempts)) [
          | inl exhausted ↦ rw (due, exhausted, retry_pending) (omega arith)
          | inr fewer ↦
              rw (due, fewer, retry_pending)
                (resent (is_request id pending.encoded) pending.attempts fewer)
        ]
      ]

  pending-Pays :
      (id : List ℕ) (client : RelayClient) (now : ℕ)
      → Pays id client 0 (maintain_pending g client now)
  unfolding maintain_pending
  pending-Pays id client now = elim (Option-cases client.pending) [
    | inl idle ↦ rw (idle, maintain_pending) (omega (arith, ap (remaining id) idle))
    | inr (pending, waits) ↦ rw (waits, maintain_pending) (retry-Pays id client pending now waits)
  ]

  begun-Pays :
      (id : List ℕ) (node : RelayNode) (client : RelayClient) (random : Option ℕ) (now unix_now : ℕ)
      → client.pending ≡ none
      → PaysIf id client
          (6 * draws_of id random)
          (begin_registration g node client random now unix_now)
  unfolding begin_registration
  begun-Pays id node client random now unix_now idle =
      elim (Bool-cases (is_some client.pending || ltb now client.next_registration_at)) [
        | inl early ↦ rw (early, begin_registration) (omega arith)
        | inr due ↦ elim (Option-cases random) [
          | inl nothing ↦ rw (due, nothing, begin_registration) tt
          | inr (number, drawn) ↦ elim (Bool-cases (number == 0)) [
            | inl zero_id ↦ rw (due, drawn, zero_id, begin_registration) tt
            | inr some_id ↦
                rw (due, drawn, some_id, idle, begin_registration)
                  (first_sent _ _ (
                    request_carries id (request_for node client number unix_now) node.identity_key))
          ]
        ]
      ]

  if_due-Pays :
      (id : List ℕ) (node : RelayNode) (client : RelayClient) (random : Option ℕ) (now unix_now : ℕ)
      → PaysIf id client
          (6 * draws_of id random)
          (register_if_due g node client random now unix_now)
  unfolding register_if_due
  if_due-Pays id node client random now unix_now =
      elim (Bool-cases (not (is_some client.pending) && registration_due g client now unix_now)) [
        | inl due ↦
            rw (due, register_if_due)
              (begun-Pays id node client random now unix_now (nothing_waits client.pending _ due))
        | inr later ↦ rw (later, register_if_due) (omega arith)
      ]

  kept_under :
      (id : List ℕ) (node : RelayNode) (client : RelayClient) (lease : RelayLease) (now : ℕ)
      → PaysIf id client 0 (keepalive_under g node client lease now)
  unfolding keepalive_under
  kept_under id node client lease now =
      elim (Bool-cases (ltb (now - lease.last_keepalive_at) relay_keepalive_interval)) [
        | inl early ↦ rw (early, keepalive_under) (omega arith)
        | inr due ↦ elim (Option-cases (next_of lease.next_sequence)) [
          | inl last ↦ rw (due, last, keepalive_under) tt
          | inr (next, more) ↦
              rw
                (
                  due,
                  more,
                  keepalive_is_no_request id node.network_id client.relay_id node.node_id
                      lease.lease_id lease.next_sequence,
                  keepalive_under,
                )
                (omega arith)
        ]
      ]

  kept-Pays :
      (id : List ℕ) (node : RelayNode) (client : RelayClient) (now : ℕ)
      → PaysIf id client 0 (send_keepalive g node client now)
  unfolding send_keepalive
  kept-Pays id node client now = elim (Option-cases client.lease) [
    | inl none_held ↦ rw (none_held, send_keepalive) (omega arith)
    | inr (lease, held) ↦ rw (held, send_keepalive) (kept_under id node client lease now)
  ]

  with_keepalive-Pays :
      (id : List ℕ) (dead : Bool) (outbound : List (List ℕ)) (client : RelayClient)
      (kept : Option (List (List ℕ) × RelayClient)) (budget : ℕ)
      → requests id outbound + remaining id client.pending ≤ budget
      → PaysIf id client 0 kept
      → requests id (with_keepalive g dead outbound client kept).outbound
          + remaining id (with_keepalive g dead outbound client kept).client.pending
        ≤ budget
  with_keepalive-Pays id dead outbound client none budget within pays = omega arith
  with_keepalive-Pays id dead outbound client (some kept) budget within pays =
      omega (arith, requests-append id outbound kept.0)

  with_registration-Pays :
      (id : List ℕ) (node : RelayNode) (dead : Bool) (outbound : List (List ℕ))
      (client : RelayClient) (now : ℕ) (done : Option (List (List ℕ) × RelayClient))
      (budget more : ℕ)
      → requests id outbound + remaining id client.pending ≤ budget
      → PaysIf id client more done
      → requests id (with_registration g node dead outbound client now done).outbound
          + remaining id (with_registration g node dead outbound client now done).client.pending
        ≤ budget + more
  with_registration-Pays id node dead outbound client now none budget more within pays = omega arith
  with_registration-Pays id node dead outbound client now (some done) budget more within pays =
      with_keepalive-Pays id dead (outbound ++ done.0) done.1 (send_keepalive g node done.1 now)
        (budget + more) (omega (arith, requests-append id outbound done.0))
        (kept-Pays id node done.1 now)

  maintain-Pays :
      (id : List ℕ) (node : RelayNode) (client : RelayClient) (random : Option ℕ)
      (now unix_now utc : ℕ)
      → requests id (maintain g node client random now unix_now utc).outbound
          + remaining id (maintain g node client random now unix_now utc).client.pending
        ≤ remaining id client.pending + 6 * draws_of id random
  unfolding maintain
  maintain-Pays id node client random now unix_now utc =
      elim (Bool-cases (leb client.config_expires_at utc)) [
        | inl over ↦ rw (over, maintain) (omega arith)
        | inr current ↦
            let dropped_client = (drop_dead g client now unix_now).1 in
            let retried = maintain_pending g dropped_client now in
            let paid = pending-Pays id dropped_client now in
            let less = dropped_left id client now unix_now in
            rw (current, maintain)
              (with_registration-Pays id node (drop_dead g client now unix_now).0 retried.0
                retried.1 now (register_if_due g node retried.1 random now unix_now)
                (remaining id client.pending) (6 * draws_of id random) (omega (arith, paid, less))
                (if_due-Pays id node retried.1 random now unix_now))
      ]

  -- What the upkeep sends through a series of calls.
  abbrev pub upkeep_sent : RelayNode → RelayClient → List Event → List (List ℕ)
  upkeep_sent node client [] = []
  upkeep_sent node client (wrapping destination payload now utc ∷ events) =
      upkeep_sent node (step g node client (wrapping destination payload now utc)) events
  upkeep_sent node client (receiving datagram now unix_now ∷ events) =
      upkeep_sent node (step g node client (receiving datagram now unix_now)) events
  upkeep_sent node client (active now ∷ events) =
      upkeep_sent node (step g node client (active now)) events
  upkeep_sent node client (maintaining random now unix_now utc ∷ events) =
      (maintain g node client random now unix_now utc).outbound
      ++ upkeep_sent node (step g node client (maintaining random now unix_now utc)) events

  sent-Pays :
      (id : List ℕ) (node : RelayNode) (client : RelayClient) (events : List Event)
      → requests id (upkeep_sent node client events)
        ≤ remaining id client.pending + 6 * draws id events
  unfolding step
  sent-Pays id node client [] = omega arith
  sent-Pays id node client (wrapping destination payload now utc ∷ events) = omega (
    arith,
    sent-Pays id node (wrap node client destination payload now utc).1 events,
    wrap_left id node client destination payload now utc,
  )
  sent-Pays id node client (receiving datagram now unix_now ∷ events) = omega (
    arith,
    sent-Pays id node (handle_datagram g node client datagram now unix_now).1 events,
    datagram_left g id node client datagram now unix_now,
  )
  sent-Pays id node client (active now ∷ events) = omega (
    arith,
    sent-Pays id node (authenticate_activity client now) events,
    authenticated_left id client now,
  )
  sent-Pays id node client (maintaining random now unix_now utc ∷ events) = omega (
    arith,
    sent-Pays id node (maintain g node client random now unix_now utc).client events,
    maintain-Pays id node client random now unix_now utc,
    requests-append id (maintain g node client random now unix_now utc).outbound
        (upkeep_sent node (maintain g node client random now unix_now utc).client events),
  )

  -- From a client on for which no registration waits and whose lease, if it has one, has a next
  -- number below 2 ^ 64, through any series of calls the upkeep sends at most 6 registration requests
  -- with a request id for each of its calls to which the system's generator gave that id; and at the
  -- end a lease has a next number below 2 ^ 64, and a registration that waits has an attempt count
  -- of 1 to 6.
  pub upkeep-IsBounded :
      (node : RelayNode) (client : RelayClient) (events : List Event) (id : List ℕ)
      → client.pending ≡ none
      → IsLease client.lease
      → (requests id (upkeep_sent node client events) ≤ 6 * draws id events)
        × WellFormed (run g node client events)
  upkeep-IsBounded node client events id idle lease = (
    omega (arith, sent-Pays id node client events, ap (remaining id) idle),
    run-WellFormed g node client events (rw idle tt, lease),
  )
