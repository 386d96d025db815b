-- ===== src/Relay/Leases.antt =====
-- Registration with a relay and the acknowledgement of a keepalive: the signed messages of
-- crates/protocol/src/relay.rs.
pub mod RoundTrip
use xs_nexus.Base.{
  ℕ, ◌+◌, ◌-◌, ◌^◌, ◌<◌, ◌≤◌, ◌≡◌, Bool, true, false, not, ◌&&◌, Option, none, some, List, [], ◌∷◌,
  ◌++◌, ltb, leb, ◌==◌, ◌>>=◌, ◌>>◌, ensure, length, take, drop, saturating_add,
}
use xs_nexus.Base.Bytes.{be, from_be, slice, bytes_eq}
use xs_nexus.Base.Text.{codes}
use xs_nexus.Credential.{Signing, VerifiedCredential, verify_credential}
use xs_nexus.Relay.{
  encode_common, valid_zero_payload_message, time_is_fresh, sign_bytes, verify_signature,
  register_request_length, register_response_length, keepalive_response_length,
  register_request_type, register_response_type, keepalive_response_type, max_lease_seconds,
}

abbrev pub register_request_domain : List ℕ
register_request_domain = codes "XSR/1 register request v1"

abbrev pub register_response_domain : List ℕ
register_response_domain = codes "XSR/1 register response v1"

abbrev pub keepalive_response_domain : List ℕ
keepalive_response_domain = codes "XSR/1 keepalive response v1"

pub record RelayRegisterRequest : Type 0 where
  pub network_id : ℕ
  pub node_id : ℕ
  pub relay_id : ℕ
  pub request_id : ℕ
  pub client_time : ℕ
  pub credential : List ℕ

pub record VerifiedRelayRegisterRequest : Type 0 where
  pub request : RelayRegisterRequest
  pub credential : VerifiedCredential

pub record RelayRegisterResponse : Type 0 where
  pub network_id : ℕ
  pub node_id : ℕ
  pub relay_id : ℕ
  pub request_id : ℕ
  pub lease_id : ℕ
  pub expires_at : ℕ

pub record RelayKeepaliveResponse : Type 0 where
  pub network_id : ℕ
  pub relay_id : ℕ
  pub node_id : ℕ
  pub lease_id : ℕ
  pub server_time : ℕ

-- The records that the verifiers build, from the slices at fixed places.
unfoldable pub request_at : List ℕ → RelayRegisterRequest
request_at encoded = record {
  network_id = from_be (slice 16 32 encoded);
  node_id = from_be (slice 32 48 encoded);
  relay_id = from_be (slice 48 64 encoded);
  request_id = from_be (slice 64 80 encoded);
  client_time = from_be (slice 80 88 encoded);
  credential = slice 88 288 encoded;
}

unfoldable pub response_at : List ℕ → RelayRegisterResponse
response_at encoded = record {
  network_id = from_be (slice 16 32 encoded);
  node_id = from_be (slice 32 48 encoded);
  relay_id = from_be (slice 48 64 encoded);
  request_id = from_be (slice 64 80 encoded);
  lease_id = from_be (slice 80 96 encoded);
  expires_at = from_be (slice 96 104 encoded);
}

unfoldable pub keepalive_response_at : List ℕ → RelayKeepaliveResponse
keepalive_response_at encoded = record {
  network_id = from_be (slice 16 32 encoded);
  relay_id = from_be (slice 32 48 encoded);
  node_id = from_be (slice 48 64 encoded);
  lease_id = from_be (slice 64 80 encoded);
  server_time = from_be (slice 80 88 encoded);
}

-- The bytes that are signed.
unfoldable pub request_body : RelayRegisterRequest → List ℕ
unfolding encode_common
request_body request =
    encode_common register_request_type register_request_length 0
    ++ (be 16 request.network_id
        ++ (be 16 request.node_id
            ++ (be 16 request.relay_id
                ++ (be 16 request.request_id ++ (be 8 request.client_time ++ request.credential)))))

unfoldable pub response_body : RelayRegisterResponse → List ℕ
unfolding encode_common
response_body response =
    encode_common register_response_type register_response_length 0
    ++ (be 16 response.network_id
        ++ (be 16 response.node_id
            ++ (be 16 response.relay_id
                ++ (be 16 response.request_id
                    ++ (be 16 response.lease_id ++ be 8 response.expires_at)))))

unfoldable pub keepalive_response_body : RelayKeepaliveResponse → List ℕ
unfolding encode_common
keepalive_response_body response =
    encode_common keepalive_response_type keepalive_response_length 0
    ++ (be 16 response.network_id
        ++ (be 16 response.relay_id
            ++ (be 16 response.node_id ++ (be 16 response.lease_id ++ be 8 response.server_time))))

module _ (g : Signing) where
  unfoldable pub sign_relay_register_request : RelayRegisterRequest → ℕ → List ℕ
  sign_relay_register_request request identity_key =
      request_body request
      ++ sign_bytes g register_request_domain (request_body request) identity_key

  unfoldable pub verify_relay_register_request :
      List ℕ → ℕ → ℕ → Option VerifiedRelayRegisterRequest
  verify_relay_register_request encoded controller_key now = do
    ensure (
        length encoded == register_request_length
        && valid_zero_payload_message encoded register_request_type register_request_length)
    credential ← verify_credential g (request_at encoded).credential controller_key now
    ensure (
        credential.network_id == (request_at encoded).network_id
        && credential.node_id == (request_at encoded).node_id
        && not ((request_at encoded).relay_id == 0)
        && not ((request_at encoded).request_id == 0)
        && time_is_fresh (request_at encoded).client_time now)
    ensure (g.valid_key credential.identity_public_key)
    verify_signature g register_request_domain (take 288 encoded) (slice 288 352 encoded)
        credential.identity_public_key
    some (record { request = request_at encoded; credential = credential })

  unfoldable pub sign_relay_register_response : RelayRegisterResponse → ℕ → List ℕ
  sign_relay_register_response response relay_key =
      response_body response
      ++ sign_bytes g register_response_domain (response_body response) relay_key

  unfoldable pub verify_relay_register_response :
      List ℕ → ℕ → ℕ → ℕ → ℕ → ℕ → ℕ → Option RelayRegisterResponse
  verify_relay_register_response encoded relay_key network_id node_id relay_id request_id now = do
    ensure (
        length encoded == register_response_length
        && valid_zero_payload_message encoded register_response_type register_response_length)
    verify_signature g register_response_domain (take 104 encoded) (slice 104 168 encoded) relay_key
    ensure (
        (response_at encoded).network_id == network_id
        && (response_at encoded).node_id == node_id
        && (response_at encoded).relay_id == relay_id
        && (response_at encoded).request_id == request_id
        && not ((response_at encoded).lease_id == 0)
        && ltb now (response_at encoded).expires_at
        && leb (response_at encoded).expires_at (saturating_add (2 ^ 64 - 1) now max_lease_seconds))
    some (response_at encoded)

  unfoldable pub sign_relay_keepalive_response : RelayKeepaliveResponse → ℕ → List ℕ
  sign_relay_keepalive_response response relay_key =
      keepalive_response_body response
      ++ sign_bytes g keepalive_response_domain (keepalive_response_body response) relay_key

  unfoldable pub verify_relay_keepalive_response :
      List ℕ → ℕ → ℕ → ℕ → ℕ → ℕ → ℕ → Option RelayKeepaliveResponse
  verify_relay_keepalive_response encoded relay_key network_id relay_id node_id lease_id now = do
    ensure (
        length encoded == keepalive_response_length
        && valid_zero_payload_message encoded keepalive_response_type keepalive_response_length)
    verify_signature g keepalive_response_domain (take 88 encoded) (slice 88 152 encoded) relay_key
    ensure (
        (keepalive_response_at encoded).network_id == network_id
        && (keepalive_response_at encoded).relay_id == relay_id
        && (keepalive_response_at encoded).node_id == node_id
        && (keepalive_response_at encoded).lease_id == lease_id
        && not ((keepalive_response_at encoded).lease_id == 0)
        && time_is_fresh (keepalive_response_at encoded).server_time now)
    some (keepalive_response_at encoded)
