-- ===== src/Controller.antt =====
-- The controller's discovery service: `RateLimiter` and the datagram arm of `serve` of
-- apps/controller/src/discovery.rs. A clock is in milliseconds; the query for an active node is a
-- parameter, and a datagram comes with the two clocks that the arm reads.
pub mod Order
pub mod Limits
pub mod Quota
pub mod Answers
pub mod Tests
use xs_nexus.Base.{
  ℕ, ◌+◌, ◌-◌, ◌<◌, ◌≤◌, ◌≡◌, ◌↔◌, Bool, true, false, Option, none, some, List, [], ◌∷◌, ◌++◌, refl,
  ap, ltb, leb, ◌==◌, ==_iff, if◌then◌else◌, ensure, ◌>>=◌, ◌>>◌, length, Eq, lookup, insert,
  remove, min,
}
use xs_nexus.Credential.{Signing}
use xs_nexus.Discovery.{
  IpAddr, v4, v6, SocketAddr, VerifiedDiscoveryRequest, discovery_request_length,
  verify_discovery_request, discovery_response,
}

abbrev pub max_tracked_sources : ℕ
max_tracked_sources = 1024

abbrev pub source_window : ℕ
source_window = 60000

abbrev pub max_requests_per_source : ℕ
max_requests_per_source = 30

pub record SourceBudget : Type 0 where
  pub window_started : ℕ
  pub requests : ℕ

pub record RateLimiter : Type 0 where
  pub budgets : List (IpAddr × SourceBudget)
  pub order : List IpAddr

abbrev pub same_ip : IpAddr → IpAddr → Bool
same_ip (v4 a) (v4 b) = a == b
same_ip (v6 a) (v6 b) = a == b
same_ip (v4 a) (v6 b) = false
same_ip (v6 a) (v4 b) = false

pub same_ip_iff : (a b : IpAddr) → (same_ip a b ≡ true) ↔ (a ≡ b)
same_ip_iff (v4 a) (v4 b) = (λ e. ap v4 ((==_iff a b).0 e), λ e. (==_iff a b).1 (cc))
same_ip_iff (v6 a) (v6 b) = (λ e. ap v6 ((==_iff a b).0 e), λ e. (==_iff a b).1 (cc))
same_ip_iff (v4 a) (v6 b) = (λ e. cc, λ e. cc)
same_ip_iff (v6 a) (v4 b) = (λ e. cc, λ e. cc)

instance abbrev pub ip_key : Eq IpAddr
ip_key = record { matches = same_ip; decides = same_ip_iff }

abbrev pub new_limiter : RateLimiter
new_limiter = record { budgets = []; order = [] }

-- A known source: a new window, a refusal, or one more request.
unfoldable pub renew : RateLimiter → IpAddr → ℕ → SourceBudget → Bool × RateLimiter
renew s source now budget =
    if leb source_window (now - budget.window_started)
    then (
      true,
      record s {
        budgets = insert source (record { window_started = now; requests = 1 }) s.budgets;
      },
    )
    else if leb max_requests_per_source budget.requests
    then (false, s)
    else (
      true,
      record s {
        budgets =
            insert source (record budget { requests = min 65535 (budget.requests + 1) }) s.budgets;
      },
    )

abbrev pub evict : RateLimiter → List IpAddr → RateLimiter
evict s [] = s
evict s (oldest ∷ order) = record { budgets = remove oldest s.budgets; order = order }

-- The oldest source makes room when there are too many.
unfoldable pub make_room : RateLimiter → RateLimiter
make_room s = if leb max_tracked_sources (length s.budgets) then evict s s.order else s

unfoldable pub track : RateLimiter → IpAddr → ℕ → Bool × RateLimiter
track s source now = (
  true,
  record {
    budgets = insert source (record { window_started = now; requests = 1 }) s.budgets;
    order = s.order ++ (source ∷ []);
  },
)

unfoldable pub allow : RateLimiter → IpAddr → ℕ → Bool × RateLimiter
allow s source now = elim (lookup source s.budgets) [
  | some budget ↦ renew s source now budget
  | none ↦ track (make_room s) source now
]

-- A datagram of another length is dropped before the limiter sees it, and one that the limiter
-- refuses after that.
abbrev pub outcome :
    Bool → Bool → Option (List ℕ) → RateLimiter → RateLimiter → Option (List ℕ) × RateLimiter
outcome false allowed answered before limited = (none, before)
outcome true false answered before limited = (none, limited)
outcome true true answered before limited = (answered, limited)

module _ (g : Signing) (active_node : VerifiedDiscoveryRequest → Bool)
    (credential_key config_key : ℕ) where
  -- What is sent back, once the limiter lets a datagram through.
  unfoldable pub answer : List ℕ → SocketAddr → ℕ → Option (List ℕ)
  answer datagram source now = do
    request ← verify_discovery_request g datagram (g.verifying_key credential_key) now
    ensure (active_node request)
    discovery_response g request source now config_key

  -- The arm for a datagram: `now` is the monotonic clock, `time` the time of day.
  unfoldable pub receive : RateLimiter → List ℕ → SocketAddr → ℕ → ℕ → Option (List ℕ) × RateLimiter
  receive s datagram source now time =
      let allowed = allow s source.ip now in
      outcome (length datagram == discovery_request_length) allowed.0 (answer datagram source time)
        s allowed.1
