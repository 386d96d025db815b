-- ===== src/Discovery/Tests.antt =====
-- Discovery (crates/protocol/src/discovery.rs) at a concrete node, with a signature that says nothing.
use xs_nexus.Base.{ℕ, ◌+◌, ◌*◌, ◌^◌, ◌≡◌, refl, true, some, List, [], ◌∷◌, arith}
use xs_nexus.Base.Bytes.{be, from_be, bytes_eq, bytes_checked}
use xs_nexus.Credential.{node_id}
use xs_nexus.Credential.Tests.{toy, toy-IsSigning, claims, claims-IsClaims, acceptable-claims}
use xs_nexus.Discovery.{
  v4, SocketAddr, DiscoveryRequest, VerifiedDiscoveryRequest, VerifiedDiscoveryResponse,
  valid_observed_endpoint, encode_endpoint, decode_endpoint, verify_discovery_response,
}
use xs_nexus.Discovery.Endpoint.{
  IsSocketAddr, decode_endpoint-encode_endpoint, encode_endpoint-decode_endpoint,
}
use xs_nexus.Discovery.Request.{IsAsking, request_of, verified_of}
use xs_nexus.Discovery.Response.{
  IsAsked, Answered, response, answer_taken, discover, discover-observed,
  verify_discovery_response-Answered,
}

abbrev pub endpoint : SocketAddr
endpoint = record { ip = v4 (192 * 2 ^ 24 + 7); port = 5000 }

pub endpoint-IsSocketAddr : IsSocketAddr endpoint
endpoint-IsSocketAddr = record { ip = omega arith; port = omega arith }

pub usable : valid_observed_endpoint endpoint ≡ true
unfolding valid_observed_endpoint
usable = refl

abbrev bytes : List ℕ
bytes =
    4 ∷ 0 ∷ 0 ∷ 0 ∷ 192 ∷ 0 ∷ 0 ∷ 7 ∷ 0 ∷ 0 ∷ 0 ∷ 0 ∷ 0 ∷ 0 ∷ 0 ∷ 0 ∷ 0 ∷ 0 ∷ 0 ∷ 0 ∷ 19 ∷ 136 ∷ 0
    ∷ 0 ∷ []

written : encode_endpoint endpoint ≡ some bytes
unfolding encode_endpoint valid_observed_endpoint be
written = refl

read : decode_endpoint bytes ≡ some endpoint
unfolding decode_endpoint xs_nexus.Discovery.decode_ip bytes_eq from_be
read = refl

endpoint_read : decode_endpoint bytes ≡ some endpoint
endpoint_read = decode_endpoint-encode_endpoint endpoint bytes endpoint-IsSocketAddr written

encode_endpoint-decode_endpoint_example : encode_endpoint endpoint ≡ some bytes
encode_endpoint-decode_endpoint_example =
    encode_endpoint-decode_endpoint bytes endpoint (bytes_checked bytes refl) read usable

pub derived_id : node_id toy 9 ≡ 7
unfolding node_id from_be be
derived_id = refl

pub asking : IsAsking toy toy-IsSigning claims 3 190 5 9 200
asking = record {
  claims_fit = claims-IsClaims;
  own = refl;
  some_network = omega arith;
  some_node = omega (arith, derived_id);
  some_request = omega arith;
  request_fits = omega arith;
  some_time = omega arith;
  time_fits = omega arith;
  recent = refl;
  accepted = acceptable-claims;
}

discover-observed_example :
    discover toy toy-IsSigning claims 3 190 5 9 endpoint 205 6 200 210
    ≡ some (record { observed_endpoint = endpoint; server_time = 205 })
discover-observed_example =
    discover-observed toy toy-IsSigning claims 3 190 5 9 endpoint 205 6 200 210 asking
      endpoint-IsSocketAddr usable (omega arith) (omega arith) refl

abbrev request : DiscoveryRequest
request = request_of toy toy-IsSigning claims 3 190 5 9

abbrev verified : VerifiedDiscoveryRequest
verified = verified_of toy toy-IsSigning claims 3 190 5 9

asked : IsAsked toy toy-IsSigning request verified
asked = record {
  network_id = refl;
  network_fits = omega arith;
  node_id = refl;
  node_fits = omega (arith, derived_id);
  request_id = refl;
  request_fits = omega arith;
  request_hash = refl;
}

verify_discovery_response-Answered_example :
    Answered toy toy-IsSigning
      (response toy toy-IsSigning verified endpoint 205 6)
      request
      6
      210
      (record { observed_endpoint = endpoint; server_time = 205 })
verify_discovery_response-Answered_example =
    verify_discovery_response-Answered toy toy-IsSigning
      (response toy toy-IsSigning verified endpoint 205 6) request 6 210
      (record { observed_endpoint = endpoint; server_time = 205 })
      (answer_taken toy toy-IsSigning request verified endpoint 205 6 210 asked
        endpoint-IsSocketAddr usable (omega arith) refl)
