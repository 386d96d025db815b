-- ===== src/AgentRelay/Framing.antt =====
-- What a relay client wraps and what it takes (apps/agent/src/relay.rs).
use xs_nexus.Base.{
  ℕ, get_or, ◌≤◌, ◌+◌, ◌<◌, ◌≡◌, inl, inr, refl, sym, ap, ◌∙◌, false, ◌||◌, Option, none, some,
  List, leb, Bool-cases, arith,
}
use mathlib.Core.Path.{subst}
use xs_nexus.Relay.{RelayFrame}
use xs_nexus.Relay.Frames.{encode_relay_frame}
use xs_nexus.AgentRelay.{
  RelayLease, RelayClient, RelayNode, Wrapped, unwrapped, framed, as_wrapped, next_of, next_frame,
  wrap_under, wrap_by, wrap, PendingRegistration, registered, response_for,
  handle_register_response, handle_datagram,
}
use xs_nexus.Credential.{Signing, IsSigning}
use xs_nexus.Relay.{register_response_type, encode_common}
use xs_nexus.Relay.Leases.{
  RelayRegisterResponse, response_body, sign_relay_register_response,
  verify_relay_register_response,
}
use xs_nexus.Relay.Leases.RoundTrip.{IsResponse, verify_relay_register_response-sign}

-- The frame that carries a payload under a lease.
abbrev pub frame_under : RelayNode → RelayClient → RelayLease → ℕ → List ℕ → RelayFrame
frame_under node client lease destination payload = record {
  network_id = node.network_id;
  relay_id = client.relay_id;
  source_node_id = node.node_id;
  destination_node_id = destination;
  lease_id = lease.lease_id;
  sequence = lease.next_sequence;
  payload = payload;
}

-- What holds of a wrapped payload.
pub record IsFramed (node : RelayNode) (client : RelayClient) (destination : ℕ) (payload : List ℕ)
    (now utc : ℕ) (frame : List ℕ) (after : RelayClient) : Type 0 where
  pub lease : RelayLease
  pub held : client.lease ≡ some lease
  pub live : (leb lease.expires_at now || leb client.config_expires_at utc) ≡ false
  pub written : encode_relay_frame (frame_under node client lease destination payload) ≡ some frame
  pub moved_on :
      after
      ≡ record client { lease = some (record lease { next_sequence = lease.next_sequence + 1 }) }

as_framed : (o : Option (List ℕ)) (frame : List ℕ) → as_wrapped o ≡ framed frame → o ≡ some frame
as_framed none frame e = absurd (cc)
as_framed (some _) frame e = cc

next_is : (sequence next : ℕ) → next_of sequence ≡ some next → next ≡ sequence + 1
next_is sequence next e = ground arith

next_frame-IsFramed :
    (node : RelayNode) (client : RelayClient) (lease : RelayLease) (destination : ℕ)
    (payload : List ℕ) (now utc : ℕ) (frame : List ℕ) (next : Option ℕ)
    → client.lease ≡ some lease
    → (leb lease.expires_at now || leb client.config_expires_at utc) ≡ false
    → next_of lease.next_sequence ≡ next
    → (next_frame node client lease destination payload next).0 ≡ framed frame
    → IsFramed node client destination payload now utc frame
        (next_frame node client lease destination payload next).1
next_frame-IsFramed node client lease destination payload now utc frame none held live more e =
    absurd (cc)
next_frame-IsFramed node client lease destination payload now utc frame (some next) held live more
      e =
    record {
      lease = lease;
      held = held;
      live = live;
      written = as_framed _ frame e;
      moved_on =
          ap (λ (n : ℕ). record client { lease = some (record lease { next_sequence = n }) })
            (next_is lease.next_sequence next more);
    }

under-IsFramed :
    (node : RelayNode) (client : RelayClient) (lease : RelayLease) (destination : ℕ)
    (payload : List ℕ) (now utc : ℕ) (frame : List ℕ)
    → client.lease ≡ some lease
    → (wrap_under node client lease destination payload now utc).0 ≡ framed frame
    → IsFramed node client destination payload now utc frame
        (wrap_under node client lease destination payload now utc).1
unfolding wrap_under
under-IsFramed node client lease destination payload now utc frame held e =
    elim (Bool-cases (leb lease.expires_at now || leb client.config_expires_at utc)) [
      | inl over ↦
          let dropped : wrap_under node client lease destination payload now utc
              ≡ (unwrapped, record client { lease = none }) =
            rw (over, wrap_under) refl in
          absurd (let x = ap (λ (r : Wrapped × RelayClient). r.0) dropped in cc)
      | inr live ↦
          let taken : wrap_under node client lease destination payload now utc
              ≡ next_frame node client lease destination payload (next_of lease.next_sequence) =
            rw (live, wrap_under) refl in
          subst
            (λ (r : Wrapped × RelayClient).
              r.0 ≡ framed frame → IsFramed node client destination payload now utc frame r.1)
            (sym taken)
            (next_frame-IsFramed node client lease destination payload now utc frame
              (next_of lease.next_sequence) held live refl)
            e
    ]

by-IsFramed :
    (node : RelayNode) (client : RelayClient) (held : Option RelayLease) (destination : ℕ)
    (payload : List ℕ) (now utc : ℕ) (frame : List ℕ)
    → client.lease ≡ held
    → (wrap_by node client held destination payload now utc).0 ≡ framed frame
    → IsFramed node client destination payload now utc frame
        (wrap_by node client held destination payload now utc).1
by-IsFramed node client none destination payload now utc frame held e = absurd (cc)
by-IsFramed node client (some lease) destination payload now utc frame held e =
    under-IsFramed node client lease destination payload now utc frame held e

-- A client wraps a payload only under a lease that has not run out, with the lease's next sequence
-- number, and moves on to the number behind it.
pub wrap-IsFramed :
    (node : RelayNode) (client : RelayClient) (destination : ℕ) (payload : List ℕ) (now utc : ℕ)
    (frame : List ℕ)
    → (wrap node client destination payload now utc).0 ≡ framed frame
    → IsFramed node client destination payload now utc frame
        (wrap node client destination payload now utc).1
unfolding wrap
wrap-IsFramed node client destination payload now utc frame e =
    by-IsFramed node client client.lease destination payload now utc frame refl e

module _ (g : Signing) (laws : IsSigning g) where
  response_type :
      (r : RelayRegisterResponse) (key : ℕ)
      → get_or (sign_relay_register_response g r key) 5 0 ≡ register_response_type
  unfolding sign_relay_register_response response_body encode_common
  response_type r key = refl

  -- A client whose registration waits takes the lease that the relay signs, with the key that the
  -- client knows it by, in answer to it, when the
  -- answer carries the client's network, node, relay and request ids in fields that fit, its lease
  -- id is not 0, and the lease has not run out and ends within 300 seconds: the client then holds
  -- that lease with 0 as its next sequence number, used just now, nothing waits any more, no failure
  -- is counted, and the next registration may be made from now on.
  pub handle_datagram-registered :
      (node : RelayNode) (client : RelayClient) (pending : PendingRegistration)
      (r : RelayRegisterResponse) (key now unix_now : ℕ)
      → client.pending ≡ some pending
      → client.verifying_key ≡ g.verifying_key key
      → IsResponse r
      → r.network_id ≡ node.network_id
      → r.node_id ≡ node.node_id
      → r.relay_id ≡ client.relay_id
      → r.request_id ≡ pending.request_id
      → 0 < r.lease_id
      → unix_now < r.expires_at
      → r.expires_at ≤ unix_now + 300
      → (handle_datagram g node client (sign_relay_register_response g r key) now unix_now).1
        ≡ record client {
          lease = some (record {
            lease_id = r.lease_id;
            expires_at = r.expires_at;
            next_sequence = 0;
            last_keepalive_at = now;
            last_authenticated_activity = now;
          });
          pending = none;
          failures = 0;
          next_registration_at = now;
        }
  unfolding handle_datagram handle_register_response
  handle_datagram-registered node client pending r key now unix_now waits known v network own relay
        request lease live short =
      let taken = verify_relay_register_response-sign g laws r key unix_now v lease live short in
      let answer = sign_relay_register_response g r key in
      let verified : verify_relay_register_response g answer client.verifying_key node.network_id
            node.node_id client.relay_id pending.request_id unix_now
          ≡ some r =
        rw (known, sym network, sym own, sym relay, sym request) taken in
      rw (response_type r key) (
        ap (λ (o : Option PendingRegistration). response_for g node client o answer now unix_now)
          waits
        ∙ ap (registered g client now) verified)
