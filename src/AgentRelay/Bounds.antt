-- ===== src/AgentRelay/Bounds.antt =====
-- The counters of a relay client (apps/agent/src/relay.rs) stay within their bounds.
use xs_nexus.Base.{
  ℕ, ◌^◌, ◌<◌, ◌≤◌, ◌≡◌, inl, inr, refl, ◌||◌, Option, none, some, List, leb, ◌==◌, Bool-cases,
  Option-cases, get_or, arith,
}
use mathlib.Core.Path.{subst}
use xs_nexus.Credential.{Signing}
use xs_nexus.Relay.Leases.{RelayRegisterResponse, verify_relay_keepalive_response}
use xs_nexus.AgentRelay.{
  RelayLease, PendingRegistration, RelayClient, RelayNode, registration_max_attempts, is_some,
  next_of, next_frame, wrap_under, wrap_by, wrap, response_for, authenticate_activity, registered,
  handle_register_response, handle_keepalive_response, handle_datagram,
}

-- A registration that waits has been sent 1 to 6 times.
abbrev pub IsPending : Option PendingRegistration → Type 0
IsPending none = Unit {0}
IsPending (some pending) = (1 ≤ pending.attempts) × (pending.attempts ≤ registration_max_attempts)

-- The next sequence number has 64 bits.
abbrev pub IsLease : Option RelayLease → Type 0
IsLease none = Unit {0}
IsLease (some lease) = lease.next_sequence < 2 ^ 64

abbrev pub WellFormed : RelayClient → Type 0
WellFormed client = IsPending client.pending × IsLease client.lease

pub next_fits :
    (sequence next : ℕ) → sequence < 2 ^ 64 → next_of sequence ≡ some next → next < 2 ^ 64
next_fits sequence next small e = ground arith

pub authenticated-WellFormed :
    (client : RelayClient) (now : ℕ)
    → WellFormed client
    → WellFormed (authenticate_activity client now)
unfolding authenticate_activity
authenticated-WellFormed client now (p, l) = elim (Option-cases client.lease) [
  | inl none_held ↦ rw (none_held, authenticate_activity) (p, l)
  | inr (lease, held) ↦ rw (held, authenticate_activity) (p, subst IsLease held l)
]

-- A frame takes one number.
next_frame-WellFormed :
    (node : RelayNode) (client : RelayClient) (lease : RelayLease) (destination : ℕ)
    (payload : List ℕ) (next : Option ℕ)
    → WellFormed client
    → lease.next_sequence < 2 ^ 64
    → next_of lease.next_sequence ≡ next
    → WellFormed (next_frame node client lease destination payload next).1
next_frame-WellFormed node client lease destination payload none w small e = w
next_frame-WellFormed node client lease destination payload (some next) (p, l) small e =
    (p, next_fits lease.next_sequence next small e)

wrap_under-WellFormed :
    (node : RelayNode) (client : RelayClient) (lease : RelayLease) (destination : ℕ)
    (payload : List ℕ) (now utc : ℕ)
    → WellFormed client
    → lease.next_sequence < 2 ^ 64
    → WellFormed (wrap_under node client lease destination payload now utc).1
unfolding wrap_under
wrap_under-WellFormed node client lease destination payload now utc (p, l) small =
    elim (Bool-cases (leb lease.expires_at now || leb client.config_expires_at utc)) [
      | inl over ↦ rw (over, wrap_under) (p, tt)
      | inr live ↦
          rw (live, wrap_under)
            (next_frame-WellFormed node client lease destination payload
              (next_of lease.next_sequence) (p, l) small refl)
    ]

wrap_by-WellFormed :
    (node : RelayNode) (client : RelayClient) (held : Option RelayLease) (destination : ℕ)
    (payload : List ℕ) (now utc : ℕ)
    → WellFormed client
    → IsLease held
    → WellFormed (wrap_by node client held destination payload now utc).1
wrap_by-WellFormed node client none destination payload now utc w small = w
wrap_by-WellFormed node client (some lease) destination payload now utc w small =
    wrap_under-WellFormed node client lease destination payload now utc w small

pub wrap-WellFormed :
    (node : RelayNode) (client : RelayClient) (destination : ℕ) (payload : List ℕ) (now utc : ℕ)
    → WellFormed client
    → WellFormed (wrap node client destination payload now utc).1
unfolding wrap
wrap-WellFormed node client destination payload now utc w =
    wrap_by-WellFormed node client client.lease destination payload now utc w w.1

module _ (g : Signing) where
  registered-WellFormed :
      (client : RelayClient) (now : ℕ) (response : Option RelayRegisterResponse)
      → WellFormed client
      → WellFormed (registered g client now response)
  registered-WellFormed client now none w = w
  registered-WellFormed client now (some response) w = (tt, omega arith)

  response_for-WellFormed :
      (node : RelayNode) (client : RelayClient) (waiting : Option PendingRegistration)
      (datagram : List ℕ) (now unix_now : ℕ)
      → WellFormed client
      → WellFormed (response_for g node client waiting datagram now unix_now)
  response_for-WellFormed node client none datagram now unix_now w = w
  response_for-WellFormed node client (some pending) datagram now unix_now w =
      registered-WellFormed client now _ w

  response_handled :
      (node : RelayNode) (client : RelayClient) (datagram : List ℕ) (now unix_now : ℕ)
      → WellFormed client
      → WellFormed (handle_register_response g node client datagram now unix_now)
  unfolding handle_register_response
  response_handled node client datagram now unix_now w =
      response_for-WellFormed node client client.pending datagram now unix_now w

  keepalive_handled :
      (node : RelayNode) (client : RelayClient) (datagram : List ℕ) (now unix_now : ℕ)
      → WellFormed client
      → WellFormed (handle_keepalive_response g node client datagram now unix_now)
  unfolding handle_keepalive_response
  keepalive_handled node client datagram now unix_now w = elim (Option-cases client.lease) [
    | inl idle ↦ rw (idle, handle_keepalive_response) w
    | inr (lease, held) ↦
        elim (Bool-cases (
          is_some (
            verify_relay_keepalive_response g datagram client.verifying_key node.network_id
              client.relay_id node.node_id lease.lease_id unix_now))) [
                | inl taken ↦
                    rw (held, taken, handle_keepalive_response)
                      (authenticated-WellFormed client now w)
                | inr other ↦ rw (held, other, handle_keepalive_response) w
              ]
  ]

  pub handled :
      (node : RelayNode) (client : RelayClient) (datagram : List ℕ) (now unix_now : ℕ)
      → WellFormed client
      → WellFormed (handle_datagram g node client datagram now unix_now).1
  unfolding handle_datagram
  handled node client datagram now unix_now w = elim (Bool-cases (get_or datagram 5 0 == 2)) [
    | inl response ↦
        rw (response, handle_datagram) (response_handled node client datagram now unix_now w)
    | inr other ↦ elim (Bool-cases (get_or datagram 5 0 == 5)) [
      | inl alive ↦
          rw (other, alive, handle_datagram) (keepalive_handled node client datagram now unix_now w)
      | inr more ↦ elim (Bool-cases (get_or datagram 5 0 == 3)) [
        | inl frame ↦ rw (other, more, frame, handle_datagram) w
        | inr unknown ↦ rw (other, more, unknown, handle_datagram) w
      ]
    ]
  ]
