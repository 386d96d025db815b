-- ===== src/Controller/Limits.antt =====
-- The rate limiter of apps/controller/src/discovery.rs: what it keeps, and how many requests of one
-- source it lets through.
use xs_nexus.Base.{ℕ, ◌<◌, ◌≡◌, none, List, [], ◌∷◌, length, lookup}
use xs_nexus.Discovery.{IpAddr}
use xs_nexus.Controller.{max_tracked_sources, RateLimiter, ip_key, allow}
use xs_nexus.Controller.Order.{WellFormed}

-- With room the limiter is well formed and tracks less than it may.
abbrev HasRoom : RateLimiter → RateLimiter → Type 0
HasRoom s s' =
    WellFormed s'
    × (length s'.budgets < max_tracked_sources)
    × ((source : IpAddr) → lookup source s.budgets ≡ none → lookup source s'.budgets ≡ none)

-- The limiter after a series of requests.
abbrev pub after : RateLimiter → List (IpAddr × ℕ) → RateLimiter
after s [] = s
after s ((source, now) ∷ requests) = after (allow s source now).1 requests
