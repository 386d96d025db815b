-- ===== src/Controller/Tests.antt =====
-- The controller's discovery service (apps/controller/src/discovery.rs) at concrete sources.
use xs_nexus.Base.{
  ℕ, ◌≡◌, refl, Bool, true, some, List, [], ◌∷◌, ◌==◌, length, &&-true, lookup, arith,
}
use xs_nexus.Credential.Tests.{toy, toy-IsSigning, claims}
use xs_nexus.Discovery.{
  v4, valid_header, VerifiedDiscoveryRequest, discovery_response, encode_endpoint,
}
use xs_nexus.Discovery.Request.{node_request, verified_of, verify_asking, request_framing}
use xs_nexus.Discovery.Response.{response}
use xs_nexus.Discovery.Tests.{endpoint, usable, asking}
use xs_nexus.Controller.{new_limiter, ip_key, allow, track, answer, receive}
use xs_nexus.Controller.Quota.{allowed_of, allowed_of-quota}
use xs_nexus.Controller.Answers.{Answered, receive-Answered}

allowed_of-quota_example : allowed_of new_limiter (v4 1) (5 ∷ 6 ∷ 7 ∷ []) ≡ 3
unfolding lookup
allowed_of-quota_example =
    allowed_of-quota new_limiter (v4 1) 5 (6 ∷ 7 ∷ []) refl (omega arith, (omega arith, tt))

abbrev datagram : List ℕ
datagram = node_request toy toy-IsSigning claims 3 190 5 9

abbrev reply : List ℕ
reply = response toy toy-IsSigning (verified_of toy toy-IsSigning claims 3 190 5 9) endpoint 200 6

all_active : VerifiedDiscoveryRequest → Bool
all_active request = true

-- The length is the header's first check.
framed :
    (encoded : List ℕ) (packet_type expected : ℕ)
    → valid_header encoded packet_type expected ≡ true
    → (length encoded == expected) ≡ true
unfolding valid_header
framed encoded packet_type expected e =
    (&&-true _ _
      (&&-true _ _ (&&-true _ _ (&&-true _ _ (&&-true _ _ (&&-true _ _ e).0).0).0).0).0).0

long_enough : (length datagram == 334) ≡ true
long_enough = framed datagram 1 334 (request_framing toy toy-IsSigning claims 3 190 5 9).0

let_through : (allow new_limiter endpoint.ip 1000).0 ≡ true
unfolding allow lookup track
let_through = refl

answered : answer toy all_active 5 6 datagram endpoint 200 ≡ some reply
unfolding answer all_active discovery_response encode_endpoint
answered = rw (verify_asking toy toy-IsSigning claims 3 190 5 9 200 asking, usable) refl

sent : (receive toy all_active 5 6 new_limiter datagram endpoint 1000 200).0 ≡ some reply
unfolding receive
sent = rw (long_enough, let_through) answered

receive-Answered_example : Answered toy all_active 5 new_limiter datagram endpoint 1000 200 reply
receive-Answered_example =
    receive-Answered toy all_active 5 6 new_limiter datagram endpoint 1000 200 reply sent
