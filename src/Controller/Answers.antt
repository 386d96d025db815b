-- ===== src/Controller/Answers.antt =====
-- What the controller's discovery service answers (apps/controller/src/discovery.rs).
use xs_nexus.Base.{
  ℕ, ◌+◌, ◌<◌, ◌≡◌, refl, sym, ap, ◌∙◌, Bool, true, false, not, ◌&&◌, Option, some, List, [], ◌∷◌,
  ◌++◌, ensure-passed, bind-passed, some-eq, length, length-append, ◌==◌, ==_iff, arith,
}
use xs_nexus.Base.Bytes.{be, length-be}
use xs_nexus.Credential.{Signing}
use xs_nexus.Discovery.{
  IpAddr, v4, v6, SocketAddr, VerifiedDiscoveryRequest, verify_discovery_request,
  discovery_response, response_body, sign, encode_header, encode_endpoint, ip_bytes,
  valid_observed_endpoint, response_domain, discovery_response_length, discovery_request_length,
}
use xs_nexus.Controller.{RateLimiter, allow, outcome, answer, receive}

length-ip_bytes :
    (address : IpAddr) (rest : List ℕ) → length (ip_bytes address rest) ≡ 20 + length rest
unfolding ip_bytes
length-ip_bytes (v4 address) rest = omega (
  arith,
  length-append (be 4 address) (0 ∷ 0 ∷ 0 ∷ 0 ∷ 0 ∷ 0 ∷ 0 ∷ 0 ∷ 0 ∷ 0 ∷ 0 ∷ 0 ∷ rest),
  length-be 4 address,
)
length-ip_bytes (v6 address) rest =
    omega (arith, length-append (be 16 address) rest, length-be 16 address)

length-encode_endpoint :
    (endpoint : SocketAddr) (encoded : List ℕ)
    → encode_endpoint endpoint ≡ some encoded
    → length encoded ≡ 24
unfolding encode_endpoint
length-encode_endpoint endpoint encoded e =
    let (_, e) = ensure-passed (valid_observed_endpoint endpoint) _ e in
    ap (λ (l : List ℕ). length l) (sym (some-eq e))
    ∙ (length-ip_bytes endpoint.ip (be 2 endpoint.port ++ (0 ∷ 0 ∷ []))
        ∙ omega (arith, length-append (be 2 endpoint.port) (0 ∷ 0 ∷ []), length-be 2 endpoint.port))

-- An answer comes only of a datagram that is long enough and let through.
sent :
    (long allowed : Bool) (answered : Option (List ℕ)) (s s' : RateLimiter) (response : List ℕ)
    → (outcome long allowed answered s s').0 ≡ some response
    → (long ≡ true) × (allowed ≡ true) × (answered ≡ some response)
sent true true answered s s' response e = (refl, refl, e)
sent true false answered s s' response e = absurd (cc)
sent false allowed answered s s' response e = absurd (cc)

module _ (g : Signing) where
  length-response_body :
      (request : VerifiedDiscoveryRequest) (time : ℕ) (endpoint : List ℕ)
      → length endpoint ≡ 24
      → length (response_body g request time endpoint) ≡ 124
  unfolding response_body encode_header
  length-response_body request time endpoint e =
      rw
        (
          length-append (be 2 188 ++ (0 ∷ 0 ∷ [])) (
              be 16 request.network_id
              ++ (be 16 request.node_id
                  ++ (be 16 request.request_id
                      ++ (be 8 time ++ (endpoint ++ be 32 request.request_hash))))),
          length-append (be 16 request.network_id) (
              be 16 request.node_id
              ++ (be 16 request.request_id
                  ++ (be 8 time ++ (endpoint ++ be 32 request.request_hash)))),
          length-append (be 16 request.node_id)
              (be 16 request.request_id ++ (be 8 time ++ (endpoint ++ be 32 request.request_hash))),
          length-append (be 16 request.request_id)
              (be 8 time ++ (endpoint ++ be 32 request.request_hash)),
          length-append (be 8 time) (endpoint ++ be 32 request.request_hash),
          length-append endpoint (be 32 request.request_hash),
          e,
        )
        (omega (
          arith,
          length-append (be 2 188) (0 ∷ 0 ∷ []),
          length-be 2 188,
          length-be 16 request.network_id,
          length-be 16 request.node_id,
          length-be 16 request.request_id,
          length-be 8 time,
          length-be 32 request.request_hash,
        ))

  length-discovery_response :
      (request : VerifiedDiscoveryRequest) (observed : SocketAddr) (time key : ℕ) (encoded : List ℕ)
      → discovery_response g request observed time key ≡ some encoded
      → length encoded ≡ discovery_response_length
  unfolding discovery_response
  length-discovery_response request observed time key encoded e =
      let (_, e) = ensure-passed (not (time == 0) && valid_observed_endpoint observed) _ e in
      let (endpoint, made, e) = bind-passed (encode_endpoint observed) _ e in
      let body = response_body g request time endpoint in
      ap (λ (l : List ℕ). length l) (sym (some-eq e))
      ∙ omega (
        arith,
        length-append body (sign g response_domain body key),
        length-be 64 (g.sign key (response_domain ++ body)),
        length-response_body request time endpoint (length-encode_endpoint observed endpoint made),
      )

  -- What holds of an answer.
  pub record Answered (active_node : VerifiedDiscoveryRequest → Bool) (credential_key : ℕ)
      (s : RateLimiter) (datagram : List ℕ) (source : SocketAddr) (now time : ℕ) (response : List ℕ)
      : Type 0 where
    pub allowed : (allow s source.ip now).0 ≡ true
    pub request : VerifiedDiscoveryRequest
    pub verified :
        verify_discovery_request g datagram (g.verifying_key credential_key) time ≡ some request
    pub active : active_node request ≡ true
    pub smaller : length response < length datagram

  -- A datagram is answered only if the limiter lets its source through, it verifies under the
  -- controller's credential key and its node is active; and the answer is shorter than the datagram.
  pub receive-Answered :
      (active_node : VerifiedDiscoveryRequest → Bool) (credential_key config_key : ℕ)
      (s : RateLimiter) (datagram : List ℕ) (source : SocketAddr) (now time : ℕ) (response : List ℕ)
      → (receive g active_node credential_key config_key s datagram source now time).0
        ≡ some response
      → Answered active_node credential_key s datagram source now time response
  unfolding receive answer
  receive-Answered active_node credential_key config_key s datagram source now time response e =
      let now_allowed = allow s source.ip now in
      let (long, allowed, e) =
        sent (length datagram == discovery_request_length) now_allowed.0
          (answer g active_node credential_key config_key datagram source time) s now_allowed.1
          response e in
      let (request, verified, e) =
        bind-passed (verify_discovery_request g datagram (g.verifying_key credential_key) time) _
          e in
      let (active, e) = ensure-passed (active_node request) _ e in
      let short = length-discovery_response request source time config_key response e in
      let size = (==_iff (length datagram) discovery_request_length).0 long in
      record {
        allowed = allowed;
        request = request;
        verified = verified;
        active = active;
        smaller = omega arith;
      }
