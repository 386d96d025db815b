-- ===== src/Discovery.antt =====
-- Discovery of the address that a controller sees: the signed request and response of
-- crates/protocol/src/discovery.rs.
pub mod Endpoint
pub mod Request
pub mod Response
pub mod Tests
use xs_nexus.Base.{
  ℕ, ◌+◌, ◌-◌, ◌*◌, ◌/◌, ◌^◌, ◌<◌, ◌≤◌, ◌≡◌, Bool, true, false, not, ◌&&◌, ◌||◌, Option, none, some,
  List, [], ◌∷◌, ◌++◌, leb, ◌==◌, if◌then◌else◌, ◌>>=◌, ◌>>◌, ensure, length, get_or, take, drop,
  replicate,
}
use xs_nexus.Base.Bytes.{be, from_be, slice, bytes_eq}
use xs_nexus.Base.Text.{codes}
use xs_nexus.Credential.{
  Signing, VerifiedCredential, verify_credential, node_id, is_reserved, credential_length,
}

abbrev pub discovery_request_length : ℕ
discovery_request_length = 334

abbrev pub discovery_response_length : ℕ
discovery_response_length = 188

abbrev pub discovery_magic : List ℕ
discovery_magic = codes "XSD1"

abbrev pub discovery_version : ℕ
discovery_version = 1

abbrev pub request_type : ℕ
request_type = 1

abbrev pub response_type : ℕ
response_type = 2

abbrev pub request_signed_length : ℕ
request_signed_length = discovery_request_length - 64

abbrev pub response_signed_length : ℕ
response_signed_length = discovery_response_length - 64

abbrev pub request_domain : List ℕ
request_domain = codes "XS Nexus discovery request v1"

abbrev pub response_domain : List ℕ
response_domain = codes "XS Nexus discovery response v1"

-- An address by the number that its 4 or 16 bytes spell.
pub data IpAddr : Type 0 where
  v4 v6 : ℕ → IpAddr

pub record SocketAddr : Type 0 where
  pub ip : IpAddr
  pub port : ℕ

pub record DiscoveryRequest : Type 0 where
  pub encoded : List ℕ
  pub network_id : ℕ
  pub node_id : ℕ
  pub request_id : ℕ

pub record VerifiedDiscoveryRequest : Type 0 where
  pub network_id : ℕ
  pub node_id : ℕ
  pub identity_public_key : ℕ
  pub credential_serial : ℕ
  pub request_id : ℕ
  pub request_hash : ℕ

pub record VerifiedDiscoveryResponse : Type 0 where
  pub observed_endpoint : SocketAddr
  pub server_time : ℕ

-- The header, whose other bytes are 0.
unfoldable pub encode_header : ℕ → ℕ → List ℕ
encode_header packet_type length =
    discovery_magic ++ (discovery_version ∷ packet_type ∷ 0 ∷ 0 ∷ (be 2 length ++ (0 ∷ 0 ∷ [])))

unfoldable pub valid_header : List ℕ → ℕ → ℕ → Bool
valid_header encoded packet_type expected_length =
    length encoded == expected_length
    && bytes_eq (slice 0 4 encoded) discovery_magic
    && get_or encoded 4 0 == discovery_version
    && get_or encoded 5 0 == packet_type
    && bytes_eq (slice 6 8 encoded) (0 ∷ 0 ∷ [])
    && from_be (slice 8 10 encoded) == expected_length
    && bytes_eq (slice 10 12 encoded) (0 ∷ 0 ∷ [])

-- `is_unspecified` and `is_multicast`, and `BROADCAST` of an IPv4 address.
unfoldable pub usable_ip : IpAddr → Bool
unfolding is_reserved
usable_ip (v4 address) = not (is_reserved address)
usable_ip (v6 address) = not (address == 0) && not (address / 2 ^ 120 == 255)

unfoldable pub valid_observed_endpoint : SocketAddr → Bool
unfolding usable_ip
valid_observed_endpoint endpoint = not (endpoint.port == 0) && usable_ip endpoint.ip

-- The tag, three zeros and the 16 bytes of the address, in front of the rest; an IPv4 address fills
-- the first 4.
unfoldable pub ip_bytes : IpAddr → List ℕ → List ℕ
ip_bytes (v4 address) rest = 4 ∷ 0 ∷ 0 ∷ 0 ∷ (be 4 address ++ (replicate 12 0 ++ rest))
ip_bytes (v6 address) rest = 6 ∷ 0 ∷ 0 ∷ 0 ∷ (be 16 address ++ rest)

unfoldable pub encode_endpoint : SocketAddr → Option (List ℕ)
unfolding ip_bytes
encode_endpoint endpoint =
    ensure (valid_observed_endpoint endpoint)
    >> some (ip_bytes endpoint.ip (be 2 endpoint.port ++ (0 ∷ 0 ∷ [])))

unfoldable pub decode_ip : List ℕ → Option IpAddr
decode_ip encoded =
    if get_or encoded 0 0 == 4 && bytes_eq (slice 8 20 encoded) (replicate 12 0)
    then some (v4 (from_be (slice 4 8 encoded)))
    else if get_or encoded 0 0 == 6
    then some (v6 (from_be (slice 4 20 encoded)))
    else none

unfoldable pub decode_endpoint : List ℕ → Option SocketAddr
decode_endpoint encoded = do
  ensure (
      length encoded == 24
      && bytes_eq (slice 1 4 encoded) (0 ∷ 0 ∷ 0 ∷ [])
      && bytes_eq (slice 22 24 encoded) (0 ∷ 0 ∷ []))
  address ← decode_ip encoded
  some (record { ip = address; port = from_be (slice 20 22 encoded) })

-- `encoded.abs_diff(now) <= MAX_CLOCK_SKEW_SECONDS`
abbrev pub is_recent : ℕ → ℕ → Bool
is_recent time now = leb (time - now + (now - time)) 300

-- The guards of `verify_discovery_request` on the fields.
unfoldable pub acceptable_request : List ℕ → ℕ → Bool
acceptable_request encoded now =
    not (from_be (slice 12 28 encoded) == 0)
    && not (from_be (slice 28 44 encoded) == 0)
    && not (from_be (slice 44 60 encoded) == 0)
    && not (from_be (slice 60 68 encoded) == 0)
    && is_recent (from_be (slice 60 68 encoded)) now
    && from_be (slice 68 70 encoded) == credential_length

module _ (g : Signing) where
  abbrev pub sign : List ℕ → List ℕ → ℕ → List ℕ
  sign domain message key = be 64 (g.sign key (domain ++ message))

  unfoldable pub verify_signed : List ℕ → List ℕ → List ℕ → ℕ → Option (Unit {0})
  verify_signed domain message encoded_signature key = do
    ensure (length encoded_signature == 64)
    ensure (g.verify_strict key (domain ++ message) (from_be encoded_signature))

  abbrev pub validate_request_identity : ℕ → ℕ → VerifiedCredential → Option (Unit {0})
  validate_request_identity network_id encoded_node_id claims = ensure (
      claims.network_id == network_id
      && claims.node_id == encoded_node_id
      && node_id g claims.identity_public_key == encoded_node_id)

  -- The signed bytes of a request.
  unfoldable pub request_body : ℕ → ℕ → ℕ → ℕ → List ℕ → List ℕ
  unfolding encode_header
  request_body network_id node_id request_id client_time credential =
      encode_header request_type discovery_request_length
      ++ (be 16 network_id
          ++ (be 16 node_id
              ++ (be 16 request_id
                  ++ (be 8 client_time ++ (be 2 credential_length ++ credential)))))

  unfoldable pub signed_request : ℕ → ℕ → ℕ → ℕ → List ℕ → ℕ → List ℕ
  signed_request network node request_id client_time credential identity_key =
      let body = request_body network node request_id client_time credential in
      body ++ sign request_domain body identity_key

  unfoldable pub new_request : ℕ → ℕ → ℕ → ℕ → List ℕ → ℕ → Option DiscoveryRequest
  new_request network node request_id client_time credential identity_key = do
    ensure (
        not (network == 0)
        && not (node == 0)
        && not (request_id == 0)
        && not (client_time == 0)
        && node == node_id g (g.verifying_key identity_key))
    some (record {
      encoded = signed_request network node request_id client_time credential identity_key;
      network_id = network;
      node_id = node;
      request_id = request_id;
    })

  unfoldable pub verify_discovery_request : List ℕ → ℕ → ℕ → Option VerifiedDiscoveryRequest
  verify_discovery_request encoded credential_key now = do
    ensure (valid_header encoded request_type discovery_request_length)
    ensure (acceptable_request encoded now)
    claims ← verify_credential g (slice 70 270 encoded) credential_key now
    validate_request_identity (from_be (slice 12 28 encoded)) (from_be (slice 28 44 encoded)) claims
    ensure (g.valid_key claims.identity_public_key)
    verify_signed request_domain (take request_signed_length encoded)
        (drop request_signed_length encoded) claims.identity_public_key
    some (record {
      network_id = from_be (slice 12 28 encoded);
      node_id = from_be (slice 28 44 encoded);
      identity_public_key = claims.identity_public_key;
      credential_serial = claims.serial;
      request_id = from_be (slice 44 60 encoded);
      request_hash = g.sha256 encoded;
    })

  -- The signed bytes of a response, with its 24 bytes for the endpoint.
  unfoldable pub response_body : VerifiedDiscoveryRequest → ℕ → List ℕ → List ℕ
  unfolding encode_header
  response_body request server_time endpoint =
      encode_header response_type discovery_response_length
      ++ (be 16 request.network_id
          ++ (be 16 request.node_id
              ++ (be 16 request.request_id
                  ++ (be 8 server_time ++ (endpoint ++ be 32 request.request_hash)))))

  unfoldable pub discovery_response :
      VerifiedDiscoveryRequest → SocketAddr → ℕ → ℕ → Option (List ℕ)
  discovery_response request observed_endpoint server_time signing_key = do
    ensure (not (server_time == 0) && valid_observed_endpoint observed_endpoint)
    endpoint ← encode_endpoint observed_endpoint
    let body = response_body request server_time endpoint
    some (body ++ sign response_domain body signing_key)

  -- The guards of `verify_discovery_response` on the fields.
  unfoldable pub acceptable_response : List ℕ → DiscoveryRequest → SocketAddr → ℕ → Bool
  acceptable_response encoded request observed_endpoint now =
      from_be (slice 12 28 encoded) == request.network_id
      && from_be (slice 28 44 encoded) == request.node_id
      && from_be (slice 44 60 encoded) == request.request_id
      && from_be (slice 92 124 encoded) == g.sha256 request.encoded
      && is_recent (from_be (slice 60 68 encoded)) now
      && valid_observed_endpoint observed_endpoint

  unfoldable pub verify_discovery_response :
      List ℕ → DiscoveryRequest → ℕ → ℕ → Option VerifiedDiscoveryResponse
  verify_discovery_response encoded request configuration_key now = do
    ensure (valid_header encoded response_type discovery_response_length)
    observed_endpoint ← decode_endpoint (slice 68 92 encoded)
    ensure (acceptable_response encoded request observed_endpoint now)
    verify_signed response_domain (take response_signed_length encoded)
        (drop response_signed_length encoded) configuration_key
    some (record {
      observed_endpoint = observed_endpoint;
      server_time = from_be (slice 60 68 encoded);
    })
