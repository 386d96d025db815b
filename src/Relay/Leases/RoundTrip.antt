-- ===== src/Relay/Leases/RoundTrip.antt =====
-- The signed messages of crates/protocol/src/relay.rs between a node and a relay: what one signs,
-- the other verifies.
use xs_nexus.Base.{
  ℕ, ◌+◌, ◌-◌, ◌^◌, ◌<◌, ◌≤◌, ◌≡◌, refl, sym, true, false, some, List, ◌++◌, leb, ◌==◌, ==_self,
  nonzero, length, take, saturating_add, arith, lt→ltb, le→leb,
}
use mathlib.Core.Path.{subst}
use xs_nexus.Base.Bytes.{be, from_be, from_be-be, slice, bytes_eq, length-be}
use xs_nexus.Credential.{
  Signing, IsSigning, CredentialClaims, acceptable, sign_credential, node_id, controller_key_id,
  credential_body,
}
use xs_nexus.Credential.RoundTrip.{
  node_id-range, IsClaims, granted, verify_credential-sign_credential,
}
use xs_nexus.Relay.{
  encode_common, valid_common, valid_zero_payload_message, time_is_fresh, sign_bytes,
  verify_signature,
}
use xs_nexus.Relay.Leases.{
  RelayRegisterRequest, RelayRegisterResponse, RelayKeepaliveResponse, request_at, response_at,
  keepalive_response_at, request_body, response_body, keepalive_response_body,
  sign_relay_register_request, verify_relay_register_request, sign_relay_register_response,
  verify_relay_register_response, sign_relay_keepalive_response, verify_relay_keepalive_response,
  register_response_domain, register_request_domain, keepalive_response_domain,
}

-- The fields of a response fit their widths.
pub record IsResponse (r : RelayRegisterResponse) : Type 0 where
  pub network_id : r.network_id < 2 ^ 128
  pub node_id : r.node_id < 2 ^ 128
  pub relay_id : r.relay_id < 2 ^ 128
  pub request_id : r.request_id < 2 ^ 128
  pub lease_id : r.lease_id < 2 ^ 128
  pub expires_at : r.expires_at < 2 ^ 64

pub record IsAcknowledgement (r : RelayKeepaliveResponse) : Type 0 where
  pub network_id : r.network_id < 2 ^ 128
  pub relay_id : r.relay_id < 2 ^ 128
  pub node_id : r.node_id < 2 ^ 128
  pub lease_id : r.lease_id < 2 ^ 128
  pub server_time : r.server_time < 2 ^ 64

response_at-body :
    (r : RelayRegisterResponse) (rest : List ℕ)
    → IsResponse r
    → response_at (response_body r ++ rest) ≡ r
unfolding response_at response_body be encode_common
response_at-body r rest v = λ i. record {
  network_id = from_be-be 16 r.network_id v.network_id i;
  node_id = from_be-be 16 r.node_id v.node_id i;
  relay_id = from_be-be 16 r.relay_id v.relay_id i;
  request_id = from_be-be 16 r.request_id v.request_id i;
  lease_id = from_be-be 16 r.lease_id v.lease_id i;
  expires_at = from_be-be 8 r.expires_at v.expires_at i;
}

keepalive_response_at-body :
    (r : RelayKeepaliveResponse) (rest : List ℕ)
    → IsAcknowledgement r
    → keepalive_response_at (keepalive_response_body r ++ rest) ≡ r
unfolding keepalive_response_at keepalive_response_body be encode_common
keepalive_response_at-body r rest v = λ i. record {
  network_id = from_be-be 16 r.network_id v.network_id i;
  relay_id = from_be-be 16 r.relay_id v.relay_id i;
  node_id = from_be-be 16 r.node_id v.node_id i;
  lease_id = from_be-be 16 r.lease_id v.lease_id i;
  server_time = from_be-be 8 r.server_time v.server_time i;
}

module _ (g : Signing) (laws : IsSigning g) where
  verify_signature-sign :
      (domain body : List ℕ) (key : ℕ)
      → verify_signature g domain body (sign_bytes g domain body key) (g.verifying_key key)
        ≡ some tt
  unfolding verify_signature sign_bytes
  verify_signature-sign domain body key =
      rw
        (
          length-be 64 (g.sign key (domain ++ body)),
          from_be-be 64 (g.sign key (domain ++ body)) (laws.signature_range _ _),
        )
        (rw (laws.verifies key (domain ++ body)) refl)

  response_framing :
      (r : RelayRegisterResponse) (key : ℕ)
      → let encoded = sign_relay_register_response g r key in
        (length encoded ≡ 168)
        × (valid_zero_payload_message encoded 2 168 ≡ true)
        × (take 104 encoded ≡ response_body r)
        × (slice 104 168 encoded ≡ sign_bytes g register_response_domain (response_body r) key)
  unfolding sign_relay_register_response response_body be encode_common valid_zero_payload_message
      valid_common bytes_eq from_be sign_bytes
  response_framing r key = (refl, refl, refl, refl)

  response_at_sign :
      (r : RelayRegisterResponse) (key : ℕ)
      → IsResponse r
      → response_at (sign_relay_register_response g r key) ≡ r
  unfolding sign_relay_register_response
  response_at_sign r key v = response_at-body r _ v

  acknowledgement_at_sign :
      (r : RelayKeepaliveResponse) (key : ℕ)
      → IsAcknowledgement r
      → keepalive_response_at (sign_relay_keepalive_response g r key) ≡ r
  unfolding sign_relay_keepalive_response
  acknowledgement_at_sign r key v = keepalive_response_at-body r _ v

  acknowledgement_framing :
      (r : RelayKeepaliveResponse) (key : ℕ)
      → let encoded = sign_relay_keepalive_response g r key in
        (length encoded ≡ 152)
        × (valid_zero_payload_message encoded 5 152 ≡ true)
        × (take 88 encoded ≡ keepalive_response_body r)
        × (slice 88 152 encoded
            ≡ sign_bytes g keepalive_response_domain (keepalive_response_body r) key)
  unfolding sign_relay_keepalive_response keepalive_response_body be encode_common
      valid_zero_payload_message valid_common bytes_eq from_be sign_bytes
  acknowledgement_framing r key = (refl, refl, refl, refl)

  -- A node takes the lease response that a relay signs for its registration, as long as the lease is
  -- not over and not longer than 300 seconds, the lease id is not 0 and the fields fit their widths.
  pub verify_relay_register_response-sign :
      (r : RelayRegisterResponse) (key now : ℕ)
      → IsResponse r
      → 0 < r.lease_id
      → now < r.expires_at
      → r.expires_at ≤ now + 300
      → verify_relay_register_response g
          (sign_relay_register_response g r key)
          (g.verifying_key key)
          r.network_id
          r.node_id
          r.relay_id
          r.request_id
          now
        ≡ some r
  unfolding verify_relay_register_response
  verify_relay_register_response-sign r key now v lease live short =
      let (long, framed, body, signature) = response_framing r key in
      let same : response_at (sign_relay_register_response g r key) ≡ r =
        response_at_sign r key v in
      let positive : (r.lease_id == 0) ≡ false = nonzero r.lease_id lease in
      let bound : leb r.expires_at (saturating_add (2 ^ 64 - 1) now 300) ≡ true =
        le→leb _ _ (omega (arith, v.expires_at)) in
      rw
        (
          long,
          framed,
          body,
          signature,
          verify_signature-sign register_response_domain (response_body r) key,
        )
        (rw
          (same, ==_self r.network_id, ==_self r.node_id, ==_self r.relay_id, ==_self r.request_id)
          (rw (positive, lt→ltb _ _ live, bound) refl))

  -- A node takes the acknowledgement that a relay signs for its lease, as long as the clocks differ
  -- by no more than 300 seconds, the lease id is not 0 and the fields fit their widths.
  pub verify_relay_keepalive_response-sign :
      (r : RelayKeepaliveResponse) (key now : ℕ)
      → IsAcknowledgement r
      → 0 < r.lease_id
      → time_is_fresh r.server_time now ≡ true
      → verify_relay_keepalive_response g
          (sign_relay_keepalive_response g r key)
          (g.verifying_key key)
          r.network_id
          r.relay_id
          r.node_id
          r.lease_id
          now
        ≡ some r
  unfolding verify_relay_keepalive_response
  verify_relay_keepalive_response-sign r key now v lease fresh =
      let (long, framed, body, signature) = acknowledgement_framing r key in
      let same : keepalive_response_at (sign_relay_keepalive_response g r key) ≡ r =
        acknowledgement_at_sign r key v in
      let positive : (r.lease_id == 0) ≡ false = nonzero r.lease_id lease in
      rw
        (
          long,
          framed,
          body,
          signature,
          verify_signature-sign keepalive_response_domain (keepalive_response_body r) key,
        )
        (rw (same, ==_self r.network_id, ==_self r.node_id, ==_self r.relay_id, ==_self r.lease_id)
          (rw (positive, fresh) refl))

  -- The request that a node makes with a credential from the controller.
  abbrev pub request_with : ℕ → ℕ → ℕ → CredentialClaims → ℕ → RelayRegisterRequest
  request_with relay_id request_id client_time claims controller_key = record {
    network_id = claims.network_id;
    node_id = node_id g claims.identity_public_key;
    relay_id = relay_id;
    request_id = request_id;
    client_time = client_time;
    credential = sign_credential g claims controller_key;
  }

  request_framing :
      (relay_id request_id client_time : ℕ) (claims : CredentialClaims) (controller_key key : ℕ)
      → let r = request_with relay_id request_id client_time claims controller_key in
        let encoded = sign_relay_register_request g r key in
        (length encoded ≡ 352)
        × (valid_zero_payload_message encoded 1 352 ≡ true)
        × (take 288 encoded ≡ request_body r)
        × (slice 288 352 encoded ≡ sign_bytes g register_request_domain (request_body r) key)
  unfolding sign_relay_register_request request_body be encode_common valid_zero_payload_message
      valid_common bytes_eq from_be sign_bytes sign_credential credential_body
  request_framing relay_id request_id client_time claims controller_key key =
      (refl, refl, refl, refl)

  request_at_sign :
      (relay_id request_id client_time : ℕ) (claims : CredentialClaims) (controller_key key : ℕ)
      → IsClaims claims
      → relay_id < 2 ^ 128
      → request_id < 2 ^ 128
      → client_time < 2 ^ 64
      → let r = request_with relay_id request_id client_time claims controller_key in
        request_at (sign_relay_register_request g r key) ≡ r
  unfolding request_at sign_relay_register_request request_body be encode_common sign_bytes
      sign_credential credential_body
  request_at_sign relay_id request_id client_time claims controller_key key v hr hq ht = λ i.
      record {
        network_id = from_be-be 16 claims.network_id v.network_id i;
        node_id = from_be-be 16 _ (node_id-range g laws claims.identity_public_key) i;
        relay_id = from_be-be 16 relay_id hr i;
        request_id = from_be-be 16 request_id hq i;
        client_time = from_be-be 8 client_time ht i;
        credential = sign_credential g claims controller_key;
      }

  -- A relay takes the registration request that a node signs with its identity key, when the node's
  -- credential is the controller's over claims with that key and is acceptable now, the clocks
  -- differ by no more than 300 seconds, the relay and request ids are not 0 and all fits its width.
  pub verify_relay_register_request-sign :
      (relay_id request_id client_time : ℕ) (claims : CredentialClaims) (controller_key key now : ℕ)
      → IsClaims claims
      → relay_id < 2 ^ 128
      → request_id < 2 ^ 128
      → client_time < 2 ^ 64
      → 0 < relay_id
      → 0 < request_id
      → claims.identity_public_key ≡ g.verifying_key key
      → time_is_fresh client_time now ≡ true
      → acceptable
          (granted g laws claims controller_key)
          (node_id g claims.identity_public_key)
          (controller_key_id g (g.verifying_key controller_key))
          now
        ≡ true
      → let r = request_with relay_id request_id client_time claims controller_key in
        verify_relay_register_request g
          (sign_relay_register_request g r key)
          (g.verifying_key controller_key)
          now
        ≡ some (record { request = r; credential = granted g laws claims controller_key })
  unfolding verify_relay_register_request
  verify_relay_register_request-sign relay_id request_id client_time claims controller_key key now v
        hr hq ht relay request own fresh ok =
      let r = request_with relay_id request_id client_time claims controller_key in
      let (long, framed, body, signature) =
        request_framing relay_id request_id client_time claims controller_key key in
      let same =
        request_at_sign relay_id request_id client_time claims controller_key key v hr hq ht in
      let valid : g.valid_key claims.identity_public_key ≡ true =
        subst (λ k. g.valid_key k ≡ true) (sym own) (laws.key_is_valid key) in
      let signed =
        subst
          (λ k.
            verify_signature g register_request_domain (request_body r)
              (sign_bytes g register_request_domain (request_body r) key) k
            ≡ some tt)
          (sym own) (verify_signature-sign register_request_domain (request_body r) key) in
      rw
        (
          long,
          framed,
          same,
          body,
          signature,
          verify_credential-sign_credential g laws claims controller_key now v ok,
          ==_self claims.network_id,
          ==_self (node_id g claims.identity_public_key),
        )
        (rw (nonzero relay_id relay, nonzero request_id request, fresh, valid, signed) refl)
