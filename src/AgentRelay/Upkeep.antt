-- ===== src/AgentRelay/Upkeep.antt =====
-- The upkeep of a relay client: `maintain` of apps/agent/src/relay.rs and its helpers, and the series
-- of calls that the manager makes on a client.
use xs_nexus.Base.{
  ℕ, ◌+◌, ◌-◌, ◌*◌, ◌^◌, Bool, true, false, not, ◌&&◌, ◌||◌, Option, none, some, List, [], ◌∷◌,
  ◌++◌, ltb, leb, ◌==◌, if◌then◌else◌, ◌>>=◌, ◌>>◌, ensure, min,
}
use xs_nexus.Credential.{Signing}
use xs_nexus.Relay.Frames.{encode_relay_keepalive}
use xs_nexus.Relay.Leases.{sign_relay_register_request}
use xs_nexus.AgentRelay.{
  registration_max_attempts, registration_retry_interval, registration_backoff_base,
  registration_backoff_max, lease_renewal_margin_seconds, relay_keepalive_interval,
  relay_failure_timeout, RelayLease, PendingRegistration, RelayClient, RelayNode, is_some, next_of,
  wrap, authenticate_activity, handle_datagram,
}

-- What `maintain` does for one client; on an error what was to be sent is lost.
pub record Maintained : Type 0 where
  pub succeeded : Bool
  pub outbound : List (List ℕ)
  pub failed : Bool
  pub client : RelayClient

-- The calls that the manager makes on a client.
pub data Event : Type 0 where
  wrapping : (destination : ℕ) (payload : List ℕ) (now utc : ℕ) → Event
  receiving : (datagram : List ℕ) (now unix_now : ℕ) → Event
  active : (now : ℕ) → Event
  maintaining : (random : Option ℕ) (now unix_now utc : ℕ) → Event

module _ (g : Signing) where
  -- `maintain`: a lease that has run out or is silent for too long is dropped.
  abbrev pub is_dead : RelayLease → ℕ → ℕ → Bool
  is_dead lease now unix_now =
      leb lease.expires_at unix_now
      || leb relay_failure_timeout (now - lease.last_authenticated_activity)

  unfoldable pub drop_dead : RelayClient → ℕ → ℕ → Bool × RelayClient
  drop_dead client now unix_now = elim (client.lease) [
    | none ↦ (false, client)
    | some lease ↦
        if is_dead lease now unix_now
        then (true, record client { lease = none; pending = none; next_registration_at = now })
        else (false, client)
  ]

  abbrev pub backoff : ℕ → ℕ
  backoff failures =
      min (registration_backoff_base * 2 ^ min (failures - 1) 6) registration_backoff_max

  unfoldable pub retry_pending : RelayClient → PendingRegistration → ℕ → List (List ℕ) × RelayClient
  retry_pending client pending now =
      if ltb (now - pending.last_sent) registration_retry_interval
      then ([], client)
      else if leb registration_max_attempts pending.attempts
      then (
        [],
        record client {
          pending = none;
          failures = min 255 (client.failures + 1);
          next_registration_at = now + backoff (min 255 (client.failures + 1));
        },
      )
      else (
        pending.encoded ∷ [],
        record client {
          pending =
              some (record pending { attempts = min 255 (pending.attempts + 1); last_sent = now });
        },
      )

  unfoldable pub maintain_pending : RelayClient → ℕ → List (List ℕ) × RelayClient
  maintain_pending client now = elim (client.pending) [
    | none ↦ ([], client)
    | some pending ↦ retry_pending client pending now
  ]

  abbrev pub wants_lease : Option RelayLease → ℕ → Bool
  wants_lease none unix_now = true
  wants_lease (some lease) unix_now = leb (lease.expires_at - unix_now) lease_renewal_margin_seconds

  abbrev pub registration_due : RelayClient → ℕ → ℕ → Bool
  registration_due client now unix_now =
      leb client.next_registration_at now && wants_lease client.lease unix_now

  -- `random` is what the system's generator gave; bytes of zeros are an error too.
  unfoldable pub begin_registration :
      RelayNode → RelayClient → Option ℕ → ℕ → ℕ → Option (List (List ℕ) × RelayClient)
  begin_registration node client random now unix_now =
      if is_some client.pending || ltb now client.next_registration_at
      then some ([], client)
      else do
        request_id ← random
        ensure (not (request_id == 0))
        let encoded =
            sign_relay_register_request g
              (record {
                network_id = node.network_id;
                node_id = node.node_id;
                relay_id = client.relay_id;
                request_id = request_id;
                client_time = unix_now;
                credential = node.credential;
              })
              node.identity_key
        some (
          encoded ∷ [],
          record client {
            pending = some (record {
              request_id = request_id;
              encoded = encoded;
              last_sent = now;
              attempts = 1;
            });
          },
        )

  unfoldable pub register_if_due :
      RelayNode → RelayClient → Option ℕ → ℕ → ℕ → Option (List (List ℕ) × RelayClient)
  register_if_due node client random now unix_now =
      if not (is_some client.pending) && registration_due client now unix_now
      then begin_registration node client random now unix_now
      else some ([], client)

  unfoldable pub keepalive_under :
      RelayNode → RelayClient → RelayLease → ℕ → Option (List (List ℕ) × RelayClient)
  keepalive_under node client lease now =
      if ltb (now - lease.last_keepalive_at) relay_keepalive_interval then some ([], client) else do
        next ← next_of lease.next_sequence
        some (
          encode_relay_keepalive node.network_id client.relay_id node.node_id lease.lease_id
                lease.next_sequence
              ∷ [],
          record client {
            lease = some (record lease { next_sequence = next; last_keepalive_at = now });
          },
        )

  unfoldable pub send_keepalive : RelayNode → RelayClient → ℕ → Option (List (List ℕ) × RelayClient)
  send_keepalive node client now = elim (client.lease) [
    | none ↦ some ([], client)
    | some lease ↦ keepalive_under node client lease now
  ]

  abbrev pub with_keepalive :
      Bool → List (List ℕ) → RelayClient → Option (List (List ℕ) × RelayClient) → Maintained
  with_keepalive dead outbound client none = record {
    succeeded = false;
    outbound = [];
    failed = false;
    client = client;
  }
  with_keepalive dead outbound client (some kept) = record {
    succeeded = true;
    outbound = outbound ++ kept.0;
    failed = dead;
    client = kept.1;
  }

  abbrev pub with_registration :
      RelayNode
      → Bool
      → List (List ℕ)
      → RelayClient
      → ℕ
      → Option (List (List ℕ) × RelayClient)
      → Maintained
  with_registration node dead outbound client now none = record {
    succeeded = false;
    outbound = [];
    failed = false;
    client = client;
  }
  with_registration node dead outbound client now (some begun) =
      with_keepalive dead (outbound ++ begun.0) begun.1 (send_keepalive node begun.1 now)

  unfoldable pub maintain : RelayNode → RelayClient → Option ℕ → ℕ → ℕ → ℕ → Maintained
  maintain node client random now unix_now utc =
      if leb client.config_expires_at utc
      then record {
        succeeded = true;
        outbound = [];
        failed = is_some client.lease;
        client = record client { lease = none; pending = none };
      }
      else (let dropped = drop_dead client now unix_now in
          let retried = maintain_pending dropped.1 now in
          with_registration node dropped.0 retried.0 retried.1 now
            (register_if_due node retried.1 random now unix_now))

  unfoldable pub step : RelayNode → RelayClient → Event → RelayClient
  step node client (wrapping destination payload now utc) =
      (wrap node client destination payload now utc).1
  step node client (receiving datagram now unix_now) =
      (handle_datagram g node client datagram now unix_now).1
  step node client (active now) = authenticate_activity client now
  step node client (maintaining random now unix_now utc) =
      (maintain node client random now unix_now utc).client

  abbrev pub run : RelayNode → RelayClient → List Event → RelayClient
  run node client [] = client
  run node client (event ∷ events) = run node (step node client event) events
