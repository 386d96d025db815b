-- ===== src/Controller/Order.antt =====
-- The tables of the rate limiter of apps/controller/src/discovery.rs and how they hang together.
use xs_nexus.Base.{
  ◌≤◌, ◌≡◌, ◌⊎◌, inl, inr, some, List, [], ◌∷◌, ◌++◌, refl, sym, ap, ◌∙◌, length, lookup, insert,
  remove, lookup-insert_self, lookup-insert_ne, lookup-remove_ne, same_key,
}
use mathlib.Core.Path.{subst}
use xs_nexus.Discovery.{IpAddr}
use xs_nexus.Controller.{
  max_tracked_sources, max_requests_per_source, SourceBudget, RateLimiter, ip_key,
}

abbrev pub Queued : IpAddr → List IpAddr → Type 0
Queued source [] = ⊥
Queued source (first ∷ order) = (source ≡ first) ⊎ Queued source order

-- Each source of the order has a budget and stands in it once.
abbrev pub AreKnown : List (IpAddr × SourceBudget) → List IpAddr → Type 0
AreKnown budgets [] = Unit {0}
AreKnown budgets (first ∷ order) =
    ((budget : SourceBudget) × (lookup first budgets ≡ some budget))
    × (Queued first order → ⊥)
    × AreKnown budgets order

-- There are no more budgets than may be tracked, their sources are those of the order, and each
-- budget has let 1 to 30 requests through.
pub record WellFormed (s : RateLimiter) : Type 0 where
  pub bounded : length s.budgets ≤ max_tracked_sources
  pub queued :
      (source : IpAddr) (budget : SourceBudget)
      → lookup source s.budgets ≡ some budget
      → Queued source s.order
  pub known : AreKnown s.budgets s.order
  pub counted :
      (source : IpAddr) (budget : SourceBudget)
      → lookup source s.budgets ≡ some budget
      → (1 ≤ budget.requests) × (budget.requests ≤ max_requests_per_source)

pub AreKnown-insert :
    (source : IpAddr) (budget : SourceBudget) (budgets : List (IpAddr × SourceBudget))
    (order : List IpAddr)
    → AreKnown budgets order
    → AreKnown (insert source budget budgets) order
AreKnown-insert source budget budgets [] k = tt
AreKnown-insert source budget budgets (first ∷ order) ((b, found), once, k) = (
  elim (same_key source first) [
    | inl same ↦ (
      budget,
      subst (λ (x : IpAddr). lookup x (insert source budget budgets) ≡ some budget) same
          (lookup-insert_self source budget budgets),
    )
    | inr other ↦ (b, lookup-insert_ne source first budget budgets other ∙ found)
  ],
  once,
  AreKnown-insert source budget budgets order k,
)

pub AreKnown-remove :
    (oldest : IpAddr) (budgets : List (IpAddr × SourceBudget)) (order : List IpAddr)
    → (Queued oldest order → ⊥)
    → AreKnown budgets order
    → AreKnown (remove oldest budgets) order
AreKnown-remove oldest budgets [] out k = tt
AreKnown-remove oldest budgets (first ∷ order) out ((b, found), once, k) = (
  (b, lookup-remove_ne oldest first budgets (λ same. out (inl same)) ∙ found),
  once,
  AreKnown-remove oldest budgets order (λ q. out (inr q)) k,
)

pub Queued-append :
    (source last : IpAddr) (order : List IpAddr)
    → Queued source order
    → Queued source (order ++ (last ∷ []))
Queued-append source last [] q = absurd q
Queued-append source last (first ∷ order) (inl same) = inl same
Queued-append source last (first ∷ order) (inr q) = inr (Queued-append source last order q)

pub last_waits : (source : IpAddr) (order : List IpAddr) → Queued source (order ++ (source ∷ []))
last_waits source [] = inl refl
last_waits source (first ∷ order) = inr (last_waits source order)

Queued-append_cases :
    (source last : IpAddr) (order : List IpAddr)
    → Queued source (order ++ (last ∷ []))
    → Queued source order ⊎ (source ≡ last)
Queued-append_cases source last [] (inl same) = inr same
Queued-append_cases source last [] (inr q) = absurd q
Queued-append_cases source last (first ∷ order) (inl same) = inl (inl same)
Queued-append_cases source last (first ∷ order) (inr q) =
    elim (Queued-append_cases source last order q) [
      | inl there ↦ inl (inr there)
      | inr same ↦ inr same
    ]

pub AreKnown-append :
    (source : IpAddr) (budget : SourceBudget) (budgets : List (IpAddr × SourceBudget))
    (order : List IpAddr)
    → lookup source budgets ≡ some budget
    → (Queued source order → ⊥)
    → AreKnown budgets order
    → AreKnown budgets (order ++ (source ∷ []))
AreKnown-append source budget budgets [] found out k = ((budget, found), (λ q. q), tt)
AreKnown-append source budget budgets (first ∷ order) found out (there, once, k) = (
  there,
  λ q. elim (Queued-append_cases first source order q) [
    | inl again ↦ once again
    | inr same ↦ out (inl (sym same))
  ],
  AreKnown-append source budget budgets order found (λ q. out (inr q)) k,
)

-- A source of the order has a budget.
pub known_of :
    (source : IpAddr) (budgets : List (IpAddr × SourceBudget)) (order : List IpAddr)
    → AreKnown budgets order
    → Queued source order
    → (budget : SourceBudget) × (lookup source budgets ≡ some budget)
known_of source budgets [] k q = absurd q
known_of source budgets (first ∷ order) ((b, found), once, k) (inl same) =
    (b, ap (λ (x : IpAddr). lookup x budgets) same ∙ found)
known_of source budgets (first ∷ order) (there, once, k) (inr q) = known_of source budgets order k q
