-- ===== src/Discovery/Response.antt =====
-- The node takes the discovery response that the controller signs to its request, and no other
-- (crates/protocol/src/discovery.rs).
use xs_nexus.Base.{
  ℕ, ◌^◌, ◌<◌, ◌≡◌, refl, Bool, true, false, Option, some, List, ◌++◌, ◌==◌, ==_iff, nonzero,
  &&-true, ensure-passed, then-passed, bind-passed, some-eq, ◌>>=◌, ensure, length, take, drop,
}
use mathlib.Core.Path.{subst}
use xs_nexus.Base.Bytes.{be, from_be, from_be-be, slice, bytes_eq}
use xs_nexus.Credential.{Signing, IsSigning, CredentialClaims, sign_credential, node_id}
use xs_nexus.Credential.RoundTrip.{node_id-range}
use xs_nexus.Discovery.{
  IpAddr, v4, v6, SocketAddr, DiscoveryRequest, VerifiedDiscoveryRequest, VerifiedDiscoveryResponse,
  encode_header, valid_header, ip_bytes, valid_observed_endpoint, encode_endpoint, decode_endpoint,
  is_recent, acceptable_response, verify_signed, sign, new_request, verify_discovery_request,
  response_body, discovery_response, verify_discovery_response, response_domain,
}
use xs_nexus.Discovery.Endpoint.{IsSocketAddr, endpoint_bytes, decode_endpoint-encode_endpoint}
use xs_nexus.Discovery.Request.{
  verify_signed-sign, IsAsking, request_of, verified_of, new_request_asking, verify_asking,
}

module _ (g : Signing) (laws : IsSigning g) where
  abbrev pub response : VerifiedDiscoveryRequest → SocketAddr → ℕ → ℕ → List ℕ
  response v endpoint server_time key =
      let body = response_body g v server_time (endpoint_bytes endpoint) in
      body ++ sign g response_domain body key

  response_framing :
      (v : VerifiedDiscoveryRequest) (ip : IpAddr) (port server_time key : ℕ)
      → let endpoint : SocketAddr = record { ip = ip; port = port } in
        let body = response_body g v server_time (endpoint_bytes endpoint) in
        let encoded = response v endpoint server_time key in
        (valid_header encoded 2 188 ≡ true)
        × (slice 12 28 encoded ≡ be 16 v.network_id)
        × (slice 28 44 encoded ≡ be 16 v.node_id)
        × (slice 44 60 encoded ≡ be 16 v.request_id)
        × (slice 60 68 encoded ≡ be 8 server_time)
        × (slice 68 92 encoded ≡ endpoint_bytes endpoint)
        × (slice 92 124 encoded ≡ be 32 v.request_hash)
        × (take 124 encoded ≡ body)
        × (drop 124 encoded ≡ sign g response_domain body key)
  unfolding response_body encode_header ip_bytes be valid_header bytes_eq from_be
  response_framing v (v4 address) port server_time key =
      (refl, refl, refl, refl, refl, refl, refl, refl, refl)
  response_framing v (v6 address) port server_time key =
      (refl, refl, refl, refl, refl, refl, refl, refl, refl)

  -- The verified request is the one that the node remembers.
  pub record IsAsked (r : DiscoveryRequest) (v : VerifiedDiscoveryRequest) : Type 0 where
    pub network_id : v.network_id ≡ r.network_id
    pub network_fits : v.network_id < 2 ^ 128
    pub node_id : v.node_id ≡ r.node_id
    pub node_fits : v.node_id < 2 ^ 128
    pub request_id : v.request_id ≡ r.request_id
    pub request_fits : v.request_id < 2 ^ 128
    pub request_hash : v.request_hash ≡ g.sha256 r.encoded

  pub answer_taken :
      (r : DiscoveryRequest) (v : VerifiedDiscoveryRequest) (endpoint : SocketAddr)
      (server_time key now : ℕ)
      → IsAsked r v
      → IsSocketAddr endpoint
      → valid_observed_endpoint endpoint ≡ true
      → server_time < 2 ^ 64
      → is_recent server_time now ≡ true
      → verify_discovery_response g
          (response v endpoint server_time key)
          r
          (g.verifying_key key)
          now
        ≡ some (record { observed_endpoint = endpoint; server_time = server_time })
  unfolding verify_discovery_response acceptable_response
  answer_taken r v endpoint server_time key now a fits valid time recent =
      let p = response_framing v endpoint.ip endpoint.port server_time key in
      let body = response_body g v server_time (endpoint_bytes endpoint) in
      let encoded : encode_endpoint endpoint ≡ some (endpoint_bytes endpoint) =
        unfold encode_endpoint in rw valid refl in
      rw
        (
          p.0,
          p.5,
          decode_endpoint-encode_endpoint endpoint (endpoint_bytes endpoint) fits encoded,
          p.1,
          p.2,
          p.3,
          p.4,
          p.6,
          p.7,
          p.8,
          from_be-be 16 v.network_id a.network_fits,
          from_be-be 16 v.node_id a.node_fits,
          from_be-be 16 v.request_id a.request_fits,
          from_be-be 8 server_time time,
          from_be-be 32 v.request_hash (rw a.request_hash (laws.digest_range r.encoded)),
        )
        (rw
          (
            (==_iff v.network_id r.network_id).1 a.network_id,
            (==_iff v.node_id r.node_id).1 a.node_id,
            (==_iff v.request_id r.request_id).1 a.request_id,
            (==_iff v.request_hash (g.sha256 r.encoded)).1 a.request_hash,
            recent,
            valid,
            verify_signed-sign g laws response_domain body key,
          )
          refl)

  -- A request, its check, the answer and its check.
  unfoldable pub discover :
      CredentialClaims
      → ℕ
      → ℕ
      → ℕ
      → ℕ
      → SocketAddr
      → ℕ
      → ℕ
      → ℕ
      → ℕ
      → Option VerifiedDiscoveryResponse
  discover claims request_id client_time controller_key identity_key observed server_time
        signing_key controller_now node_now =
      do
        request ←
            new_request g claims.network_id (node_id g claims.identity_public_key) request_id
              client_time (sign_credential g claims controller_key) identity_key
        verified ←
            verify_discovery_request g request.encoded (g.verifying_key controller_key)
              controller_now
        answer ← discovery_response g verified observed server_time signing_key
        verify_discovery_response g answer request (g.verifying_key signing_key) node_now

  -- The controller takes a node's signed request and answers the endpoint it observed, and the node
  -- takes the answer to its request with that endpoint and the controller's time: when the node's
  -- credential is the controller's, is of the node's own key and is acceptable to it, each message's
  -- time is within 300 seconds of the clock of the end that takes it, the network, node and request
  -- ids and both times are not 0, the endpoint may be observed (its port is not 0 and its address
  -- usable), and all fields fit their widths.
  pub discover-observed :
      (claims : CredentialClaims) (request_id client_time controller_key identity_key : ℕ)
      (observed : SocketAddr) (server_time signing_key controller_now node_now : ℕ)
      → IsAsking g laws claims request_id client_time controller_key identity_key controller_now
      → IsSocketAddr observed
      → valid_observed_endpoint observed ≡ true
      → 0 < server_time
      → server_time < 2 ^ 64
      → is_recent server_time node_now ≡ true
      → discover claims request_id client_time controller_key identity_key observed server_time
          signing_key controller_now node_now
        ≡ some (record { observed_endpoint = observed; server_time = server_time })
  unfolding discover discovery_response encode_endpoint
  discover-observed claims request_id client_time controller_key identity_key observed server_time
        signing_key controller_now node_now a fits valid some_time time recent =
      let request = request_of g laws claims request_id client_time controller_key identity_key in
      let verified = verified_of g laws claims request_id client_time controller_key identity_key in
      let asked : IsAsked request verified = record {
        network_id = refl;
        network_fits = a.claims_fit.network_id;
        node_id = refl;
        node_fits = node_id-range g laws claims.identity_public_key;
        request_id = refl;
        request_fits = a.request_fits;
        request_hash = refl;
      } in
      rw
        (
          new_request_asking g laws claims request_id client_time controller_key identity_key
              controller_now a,
          verify_asking g laws claims request_id client_time controller_key identity_key
              controller_now a,
          nonzero server_time some_time,
          valid,
        )
        (answer_taken request verified observed server_time signing_key node_now asked fits valid
          time recent)

  -- A response that a node takes is recent, carries the hash of the node's own request and a signature
  -- of the controller over it, and its endpoint is the one that was signed.
  pub record Answered (encoded : List ℕ) (r : DiscoveryRequest) (key now : ℕ)
      (answer : VerifiedDiscoveryResponse) : Type 0 where
    pub request_hash : from_be (slice 92 124 encoded) ≡ g.sha256 r.encoded
    pub request_id : from_be (slice 44 60 encoded) ≡ r.request_id
    pub recent : is_recent answer.server_time now ≡ true
    pub signed :
        g.verify_strict key (response_domain ++ take 124 encoded) (from_be (drop 124 encoded))
        ≡ true
    pub endpoint : decode_endpoint (slice 68 92 encoded) ≡ some answer.observed_endpoint
    pub server_time : answer.server_time ≡ from_be (slice 60 68 encoded)
    pub usable : valid_observed_endpoint answer.observed_endpoint ≡ true

  ensured : (b : Bool) → ensure b ≡ some tt → b ≡ true
  ensured true h = refl
  ensured false h = cc

  signature_checked :
      (domain message signature : List ℕ) (key : ℕ)
      → verify_signed g domain message signature key ≡ some tt
      → g.verify_strict key (domain ++ message) (from_be signature) ≡ true
  unfolding verify_signed
  signature_checked domain message signature key h =
      ensured _ (ensure-passed (length signature == 64) _ h).1

  response_checks :
      (encoded : List ℕ) (r : DiscoveryRequest) (endpoint : SocketAddr) (now : ℕ)
      → acceptable_response g encoded r endpoint now ≡ true
      → (from_be (slice 44 60 encoded) ≡ r.request_id)
        × (from_be (slice 92 124 encoded) ≡ g.sha256 r.encoded)
        × (is_recent (from_be (slice 60 68 encoded)) now ≡ true)
        × (valid_observed_endpoint endpoint ≡ true)
  unfolding acceptable_response
  response_checks encoded r endpoint now h =
      let (h, usable) = &&-true _ (valid_observed_endpoint endpoint) h in
      let (h, recent) = &&-true _ (is_recent (from_be (slice 60 68 encoded)) now) h in
      let (h, hash) = &&-true _ (from_be (slice 92 124 encoded) == g.sha256 r.encoded) h in
      let (_, request) = &&-true _ (from_be (slice 44 60 encoded) == r.request_id) h in
      ((==_iff _ _).0 request, (==_iff _ _).0 hash, recent, usable)

  -- A response that a node takes carries the hash and the id of its own request, is signed with the
  -- controller's key and fresh, and its endpoint may be observed.
  pub verify_discovery_response-Answered :
      (encoded : List ℕ) (r : DiscoveryRequest) (key now : ℕ) (answer : VerifiedDiscoveryResponse)
      → verify_discovery_response g encoded r key now ≡ some answer
      → Answered encoded r key now answer
  unfolding verify_discovery_response
  verify_discovery_response-Answered encoded r key now answer h =
      let (_, h) = ensure-passed (valid_header encoded 2 188) _ h in
      let (endpoint, decoded, h) = bind-passed (decode_endpoint (slice 68 92 encoded)) _ h in
      let (checks, h) = ensure-passed (acceptable_response g encoded r endpoint now) _ h in
      let (signed, h) =
        then-passed (verify_signed g response_domain (take 124 encoded) (drop 124 encoded) key) _
          h in
      let (request, hash, recent, usable) = response_checks encoded r endpoint now checks in
      let seen : VerifiedDiscoveryResponse = record {
        observed_endpoint = endpoint;
        server_time = from_be (slice 60 68 encoded);
      } in
      let answered : Answered encoded r key now seen = record {
        request_hash = hash;
        request_id = request;
        recent = recent;
        signed = signature_checked response_domain (take 124 encoded) (drop 124 encoded) key signed;
        endpoint = decoded;
        server_time = refl;
        usable = usable;
      } in
      subst (Answered encoded r key now) (some-eq h) answered
