-- ===== src/AgentRelay.antt =====
-- The agent's side of a relay: `RelayClient` of apps/agent/src/relay.rs with what
-- `RelayManager` does on the client of one endpoint. Instants are in milliseconds; the clocks, the
-- random bytes and, as `utc`, the time of day that the configuration's expiry is compared with are
-- inputs. Every datagram that a client sends goes to its own endpoint.
pub mod Upkeep
pub mod Bounds
pub mod Runs
pub mod Sends
pub mod Attempts
pub mod Framing
pub mod Tests
use xs_nexus.Base.{
  ℕ, ◌+◌, ◌-◌, ◌*◌, ◌^◌, ◌≡◌, Bool, true, false, not, ◌&&◌, ◌||◌, Option, none, some, List, [], ◌∷◌,
  ◌++◌, ltb, leb, ◌==◌, if◌then◌else◌, ◌>>=◌, ◌>>◌, ensure, min, get_or, length,
}
use xs_nexus.Credential.{Signing}
use xs_nexus.Relay.{RelayFrame, register_response_type, keepalive_response_type, data_type}
use xs_nexus.Relay.Frames.{encode_relay_frame, parse_relay_frame, encode_relay_keepalive}
use xs_nexus.Relay.Leases.{
  RelayRegisterRequest, RelayRegisterResponse, RelayKeepaliveResponse, sign_relay_register_request,
  verify_relay_register_response, verify_relay_keepalive_response,
}

abbrev pub registration_max_attempts : ℕ
registration_max_attempts = 6

abbrev pub registration_retry_interval : ℕ
registration_retry_interval = 500

abbrev pub registration_backoff_base : ℕ
registration_backoff_base = 2000

abbrev pub registration_backoff_max : ℕ
registration_backoff_max = 60000

abbrev pub lease_renewal_margin_seconds : ℕ
lease_renewal_margin_seconds = 30

abbrev pub relay_keepalive_interval : ℕ
relay_keepalive_interval = 15000

abbrev pub relay_failure_timeout : ℕ
relay_failure_timeout = 45000

pub record RelayLease : Type 0 where
  pub lease_id : ℕ
  pub expires_at : ℕ
  pub next_sequence : ℕ
  pub last_keepalive_at : ℕ
  pub last_authenticated_activity : ℕ

pub record PendingRegistration : Type 0 where
  pub request_id : ℕ
  pub encoded : List ℕ
  pub last_sent : ℕ
  pub attempts : ℕ

-- The endpoint is the key of the manager's map.
pub record RelayClient : Type 0 where
  pub relay_id : ℕ
  pub verifying_key : ℕ
  pub priority : ℕ
  pub config_expires_at : ℕ
  pub lease : Option RelayLease
  pub pending : Option PendingRegistration
  pub next_registration_at : ℕ
  pub failures : ℕ

-- The fields of the manager beside its clients.
pub record RelayNode : Type 0 where
  pub network_id : ℕ
  pub node_id : ℕ
  pub credential : List ℕ
  pub identity_key : ℕ

pub data RelayInbound : Type 0 where
  consumed : RelayInbound
  data_from : (source_node_id : ℕ) (payload : List ℕ) → RelayInbound

-- `Ok(None)`, an error, or a frame.
pub data Wrapped : Type 0 where
  unwrapped failed : Wrapped
  framed : List ℕ → Wrapped

abbrev pub as_wrapped : Option (List ℕ) → Wrapped
as_wrapped none = failed
as_wrapped (some frame) = framed frame

abbrev pub is_some : {A : Type 0} → Option A → Bool
is_some none = false
is_some (some a) = true

-- `checked_add(1)` of 64 bits.
abbrev pub next_of : ℕ → Option ℕ
next_of sequence = if sequence == 2 ^ 64 - 1 then none else some (sequence + 1)

abbrev pub next_frame :
    RelayNode → RelayClient → RelayLease → ℕ → List ℕ → Option ℕ → Wrapped × RelayClient
next_frame node client lease destination payload none = (failed, client)
next_frame node client lease destination payload (some next) = (
  as_wrapped (
      encode_relay_frame (record {
        network_id = node.network_id;
        relay_id = client.relay_id;
        source_node_id = node.node_id;
        destination_node_id = destination;
        lease_id = lease.lease_id;
        sequence = lease.next_sequence;
        payload = payload;
      })),
  record client { lease = some (record lease { next_sequence = next }) },
)

unfoldable pub wrap_under :
    RelayNode → RelayClient → RelayLease → ℕ → List ℕ → ℕ → ℕ → Wrapped × RelayClient
wrap_under node client lease destination payload now utc =
    if leb lease.expires_at now || leb client.config_expires_at utc
    then (unwrapped, record client { lease = none })
    else next_frame node client lease destination payload (next_of lease.next_sequence)

abbrev pub wrap_by :
    RelayNode → RelayClient → Option RelayLease → ℕ → List ℕ → ℕ → ℕ → Wrapped × RelayClient
wrap_by node client none destination payload now utc = (unwrapped, client)
wrap_by node client (some lease) destination payload now utc =
    wrap_under node client lease destination payload now utc

unfoldable pub wrap : RelayNode → RelayClient → ℕ → List ℕ → ℕ → ℕ → Wrapped × RelayClient
wrap node client destination payload now utc =
    wrap_by node client client.lease destination payload now utc

unfoldable pub authenticate_activity : RelayClient → ℕ → RelayClient
authenticate_activity client now = elim (client.lease) [
  | none ↦ client
  | some lease ↦ record client { lease = some (record lease { last_authenticated_activity = now }) }
]

module _ (g : Signing) where
  -- The arms of `handle_datagram`.
  abbrev pub registered : RelayClient → ℕ → Option RelayRegisterResponse → RelayClient
  registered client now none = client
  registered client now (some response) = record client {
    lease = some (record {
      lease_id = response.lease_id;
      expires_at = response.expires_at;
      next_sequence = 0;
      last_keepalive_at = now;
      last_authenticated_activity = now;
    });
    pending = none;
    failures = 0;
    next_registration_at = now;
  }

  abbrev pub response_for :
      RelayNode → RelayClient → Option PendingRegistration → List ℕ → ℕ → ℕ → RelayClient
  response_for node client none datagram now unix_now = client
  response_for node client (some pending) datagram now unix_now = registered client now (
      verify_relay_register_response g datagram client.verifying_key node.network_id node.node_id
        client.relay_id pending.request_id unix_now)

  unfoldable pub handle_register_response : RelayNode → RelayClient → List ℕ → ℕ → ℕ → RelayClient
  handle_register_response node client datagram now unix_now =
      response_for node client client.pending datagram now unix_now

  unfoldable pub handle_keepalive_response : RelayNode → RelayClient → List ℕ → ℕ → ℕ → RelayClient
  handle_keepalive_response node client datagram now unix_now = elim (client.lease) [
    | none ↦ client
    | some lease ↦
        if is_some (
          verify_relay_keepalive_response g datagram client.verifying_key node.network_id
            client.relay_id node.node_id lease.lease_id unix_now)
        then authenticate_activity client now
        else client
  ]

  abbrev pub delivered : RelayNode → RelayClient → Option RelayFrame → RelayInbound
  delivered node client none = consumed
  delivered node client (some frame) =
      if frame.network_id == node.network_id
        && frame.relay_id == client.relay_id
        && frame.destination_node_id == node.node_id
      then data_from frame.source_node_id frame.payload
      else consumed

  unfoldable pub handle_data : RelayNode → RelayClient → List ℕ → ℕ → RelayInbound
  handle_data node client datagram unix_now = elim (client.lease) [
    | none ↦ consumed
    | some lease ↦
        if leb lease.expires_at unix_now
        then consumed
        else delivered node client (parse_relay_frame datagram)
  ]

  -- `datagram.get(5)`; a datagram that is shorter has no type, and 0 is none.
  unfoldable pub handle_datagram :
      RelayNode → RelayClient → List ℕ → ℕ → ℕ → RelayInbound × RelayClient
  handle_datagram node client datagram now unix_now =
      let packet_type = get_or datagram 5 0 in
      if packet_type == register_response_type
      then (consumed, handle_register_response node client datagram now unix_now)
      else if packet_type == keepalive_response_type
      then (consumed, handle_keepalive_response node client datagram now unix_now)
      else if packet_type == data_type
      then (handle_data node client datagram unix_now, client)
      else (consumed, client)
