-- ===== src/AgentRelay/Sends.antt =====
-- How often a relay client sends a registration (`maintain` of apps/agent/src/relay.rs): the
-- requests among the datagrams of its upkeep, counted by the request id that they carry.
use xs_nexus.Base.{
  ℕ, ◌+◌, ◌-◌, ◌≤◌, ◌≡◌, inl, inr, Bool, ◌&&◌, ◌||◌, Option, none, some, List, [], ◌∷◌, ◌++◌, leb,
  ◌==◌, if◌then◌else◌, Bool-cases, Option-cases, get_or, arith,
}
use xs_nexus.Base.Bytes.{be, slice, bytes_eq}
use xs_nexus.Credential.{Signing}
use xs_nexus.Relay.{register_request_type}
use xs_nexus.Relay.Leases.{RelayRegisterResponse, verify_relay_keepalive_response}
use xs_nexus.AgentRelay.{
  RelayLease, PendingRegistration, RelayClient, RelayNode, is_some, next_of, next_frame, wrap_under,
  wrap_by, wrap, authenticate_activity, registered, response_for, handle_register_response,
  handle_keepalive_response, handle_datagram,
}
use xs_nexus.AgentRelay.Upkeep.{Event, wrapping, receiving, active, maintaining}

-- A registration request with these 16 bytes as its request id.
unfoldable pub is_request : List ℕ → List ℕ → Bool
is_request id datagram =
    get_or datagram 5 0 == register_request_type && bytes_eq (slice 64 80 datagram) id

abbrev pub once_if : Bool → ℕ
once_if b = if b then 1 else 0

-- How many of the datagrams are requests with the id.
abbrev pub requests : List ℕ → List (List ℕ) → ℕ
requests id [] = 0
requests id (datagram ∷ datagrams) = once_if (is_request id datagram) + requests id datagrams

-- How often the system's generator gave the id.
abbrev pub draws_of : List ℕ → Option ℕ → ℕ
draws_of id none = 0
draws_of id (some random) = once_if (bytes_eq (be 16 random) id)

abbrev pub draws : List ℕ → List Event → ℕ
draws id [] = 0
draws id (wrapping destination payload now utc ∷ events) = draws id events
draws id (receiving datagram now unix_now ∷ events) = draws id events
draws id (active now ∷ events) = draws id events
draws id (maintaining random now unix_now utc ∷ events) = draws_of id random + draws id events

-- How often the registration that waits may still be sent.
abbrev pub remaining : List ℕ → Option PendingRegistration → ℕ
remaining id none = 0
remaining id (some pending) = if is_request id pending.encoded then 6 - pending.attempts else 0

-- What is sent, and what may still be sent, is paid for by what might have been sent before.
abbrev pub Pays : List ℕ → RelayClient → ℕ → List (List ℕ) × RelayClient → Type 0
Pays id before more (outbound, after) =
    requests id outbound + remaining id after.pending ≤ remaining id before.pending + more

abbrev pub PaysIf : List ℕ → RelayClient → ℕ → Option (List (List ℕ) × RelayClient) → Type 0
PaysIf id before more none = Unit {0}
PaysIf id before more (some done) = Pays id before more done

pub requests-append :
    (id : List ℕ) (xs ys : List (List ℕ)) → requests id (xs ++ ys) ≡ requests id xs + requests id ys
requests-append id [] ys = omega arith
requests-append id (x ∷ xs) ys = omega (arith, requests-append id xs ys)

-- The calls that send nothing leave no more to be sent.
pub authenticated_left :
    (id : List ℕ) (client : RelayClient) (now : ℕ)
    → remaining id (authenticate_activity client now).pending ≤ remaining id client.pending
unfolding authenticate_activity
authenticated_left id client now = elim (Option-cases client.lease) [
  | inl none_held ↦ rw (none_held, authenticate_activity) (omega arith)
  | inr (lease, held) ↦ rw (held, authenticate_activity) (omega arith)
]

next_left :
    (id : List ℕ) (node : RelayNode) (client : RelayClient) (lease : RelayLease) (destination : ℕ)
    (payload : List ℕ) (next : Option ℕ)
    → remaining id (next_frame node client lease destination payload next).1.pending
      ≤ remaining id client.pending
next_left id node client lease destination payload none = omega arith
next_left id node client lease destination payload (some next) = omega arith

under_left :
    (id : List ℕ) (node : RelayNode) (client : RelayClient) (lease : RelayLease) (destination : ℕ)
    (payload : List ℕ) (now utc : ℕ)
    → remaining id (wrap_under node client lease destination payload now utc).1.pending
      ≤ remaining id client.pending
unfolding wrap_under
under_left id node client lease destination payload now utc =
    elim (Bool-cases (leb lease.expires_at now || leb client.config_expires_at utc)) [
      | inl over ↦ rw (over, wrap_under) (omega arith)
      | inr live ↦
          rw (live, wrap_under)
            (next_left id node client lease destination payload (next_of lease.next_sequence))
    ]

by_left :
    (id : List ℕ) (node : RelayNode) (client : RelayClient) (held : Option RelayLease)
    (destination : ℕ) (payload : List ℕ) (now utc : ℕ)
    → remaining id (wrap_by node client held destination payload now utc).1.pending
      ≤ remaining id client.pending
by_left id node client none destination payload now utc = omega arith
by_left id node client (some lease) destination payload now utc =
    under_left id node client lease destination payload now utc

pub wrap_left :
    (id : List ℕ) (node : RelayNode) (client : RelayClient) (destination : ℕ) (payload : List ℕ)
    (now utc : ℕ)
    → remaining id (wrap node client destination payload now utc).1.pending
      ≤ remaining id client.pending
unfolding wrap
wrap_left id node client destination payload now utc =
    by_left id node client client.lease destination payload now utc

module _ (g : Signing) where
  registered_left :
      (id : List ℕ) (client : RelayClient) (now : ℕ) (response : Option RelayRegisterResponse)
      → remaining id (registered g client now response).pending ≤ remaining id client.pending
  registered_left id client now none = omega arith
  registered_left id client now (some response) = omega arith

  response_left :
      (id : List ℕ) (node : RelayNode) (client : RelayClient) (waiting : Option PendingRegistration)
      (datagram : List ℕ) (now unix_now : ℕ)
      → remaining id (response_for g node client waiting datagram now unix_now).pending
        ≤ remaining id client.pending
  response_left id node client none datagram now unix_now = omega arith
  response_left id node client (some pending) datagram now unix_now =
      registered_left id client now _

  keepalive_left :
      (id : List ℕ) (node : RelayNode) (client : RelayClient) (datagram : List ℕ) (now unix_now : ℕ)
      → remaining id (handle_keepalive_response g node client datagram now unix_now).pending
        ≤ remaining id client.pending
  unfolding handle_keepalive_response
  keepalive_left id node client datagram now unix_now = elim (Option-cases client.lease) [
    | inl idle ↦ rw (idle, handle_keepalive_response) (omega arith)
    | inr (lease, held) ↦
        elim (Bool-cases (
          is_some (
            verify_relay_keepalive_response g datagram client.verifying_key node.network_id
              client.relay_id node.node_id lease.lease_id unix_now))) [
                | inl taken ↦
                    rw (held, taken, handle_keepalive_response) (authenticated_left id client now)
                | inr other ↦ rw (held, other, handle_keepalive_response) (omega arith)
              ]
  ]

  pub datagram_left :
      (id : List ℕ) (node : RelayNode) (client : RelayClient) (datagram : List ℕ) (now unix_now : ℕ)
      → remaining id (handle_datagram g node client datagram now unix_now).1.pending
        ≤ remaining id client.pending
  unfolding handle_datagram handle_register_response
  datagram_left id node client datagram now unix_now =
      elim (Bool-cases (get_or datagram 5 0 == 2)) [
        | inl response ↦
            rw (response, handle_datagram)
              (response_left id node client client.pending datagram now unix_now)
        | inr other ↦ elim (Bool-cases (get_or datagram 5 0 == 5)) [
          | inl alive ↦
              rw (other, alive, handle_datagram)
                (keepalive_left id node client datagram now unix_now)
          | inr more ↦ elim (Bool-cases (get_or datagram 5 0 == 3)) [
            | inl frame ↦ rw (other, more, frame, handle_datagram) (omega arith)
            | inr unknown ↦ rw (other, more, unknown, handle_datagram) (omega arith)
          ]
        ]
      ]
