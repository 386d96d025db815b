-- ===== src/Controller/Quota.antt =====
-- How many requests of one source the rate limiter of apps/controller/src/discovery.rs lets through.
use xs_nexus.Base.{
  ℕ, suc, ◌+◌, ◌-◌, ◌<◌, ◌≤◌, ◌≡◌, inl, inr, false, none, some, List, [], ◌∷◌, leb, leb→le,
  Bool-cases, if◌then◌else◌, length, lookup, insert, min, All, lookup-insert_self, arith,
}
use xs_nexus.Discovery.{IpAddr}
use xs_nexus.Controller.{
  source_window, max_requests_per_source, SourceBudget, RateLimiter, ip_key, renew, make_room,
  track, allow,
}

-- How many of a source's requests are let through, one after the other.
abbrev pub allowed_of : RateLimiter → IpAddr → List ℕ → ℕ
allowed_of s source [] = 0
allowed_of s source (now ∷ times) =
    (if (allow s source now).0 then 1 else 0) + allowed_of (allow s source now).1 source times

-- The times fall into the window.
abbrev pub AreWithin : ℕ → List ℕ → Type 0
AreWithin started times = All (λ (now : ℕ). now - started < source_window) times

running : (a b : ℕ) → b < a → leb a b ≡ false
running a b h = ground arith

not_full : (a b : ℕ) → leb a b ≡ false → b < a
not_full a b h = ground arith

allowed_of_budget :
    (s : RateLimiter) (source : IpAddr) (budget : SourceBudget) (times : List ℕ)
    → lookup source s.budgets ≡ some budget
    → budget.requests ≤ max_requests_per_source
    → AreWithin budget.window_started times
    → allowed_of s source times ≡ min (length times) (max_requests_per_source - budget.requests)
unfolding allow renew
allowed_of_budget s source budget [] found few within = omega arith
allowed_of_budget s source budget (now ∷ times) found few (early, within) =
    let in_window = running source_window (now - budget.window_started) early in
    elim (Bool-cases (leb max_requests_per_source budget.requests)) [
      | inl full ↦
          let rest = allowed_of_budget s source budget times found few within in
          let many = leb→le max_requests_per_source budget.requests full in
          rw (found, allow, in_window, full, renew) (omega arith)
      | inr free ↦
          let fewer = not_full max_requests_per_source budget.requests free in
          let more : SourceBudget = record budget { requests = min 65535 (budget.requests + 1) } in
          let rest =
            allowed_of_budget (record s { budgets = insert source more s.budgets }) source more
              times (lookup-insert_self source more s.budgets) (omega arith) within in
          rw (found, allow, in_window, free, renew) (omega arith)
    ]

-- Of the requests of a source that has no budget yet, that come within 60 seconds of the first and
-- with no other source's in between, the first 30 are let through and no others.
pub allowed_of-quota :
    (s : RateLimiter) (source : IpAddr) (now : ℕ) (times : List ℕ)
    → lookup source s.budgets ≡ none
    → AreWithin now times
    → allowed_of s source (now ∷ times) ≡ min (suc (length times)) max_requests_per_source
unfolding allow track
allowed_of-quota s source now times new within =
    let budget : SourceBudget = record { window_started = now; requests = 1 } in
    let rest =
      allowed_of_budget (track (make_room s) source now).1 source budget times
        (lookup-insert_self source budget (make_room s).budgets) (omega arith) within in
    rw (new, allow) (omega arith)
