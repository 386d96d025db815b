-- ===== src/Acl/Order.antt =====
-- The order of the rules that `compile` of crates/core/src/acl.rs accepts.
use xs_nexus.Base.{
  ℕ, ◌<◌, ◌≡◌, ◌⊎◌, inl, inr, refl, ◌∙◌, Bool, true, not, ◌&&◌, ◌||◌, Option, none, some, List, [],
  ◌∷◌, ltb, ◌==◌, All, arith, length, leb, any,
}
use mathlib.Core.Path.{subst}
use xs_nexus.Base.Bytes.{bytes_eq}
use xs_nexus.Base.Results.{ok, require-passed, bind-passed, ok-eq}
use xs_nexus.Configuration.{ConfigurationPayload, AclRule, string_lt}
use xs_nexus.Routes.{Networks, SubnetRoutePolicy}
use xs_nexus.Routes
use xs_nexus.Acl.{
  AclPolicy, out_of_order, follows, validate_rule, validate_rules, compile, collect_subjects,
  collect_subnets, as_selector_error,
}

pub string_lt_trans :
    (a b c : List ℕ) → string_lt a b ≡ true → string_lt b c ≡ true → string_lt a c ≡ true
unfolding string_lt
string_lt_trans a b [] h k = absurd (cc)
string_lt_trans a [] (z ∷ c) h k = absurd (cc)
string_lt_trans [] (y ∷ b) (z ∷ c) h k = refl
string_lt_trans (x ∷ a) (y ∷ b) (z ∷ c) h k = ground (arith, string_lt_trans a b c)

-- A higher priority, or an equal one and an id that comes before.
abbrev pub Outranks : AclRule → AclRule → Type 0
Outranks a b = (b.priority < a.priority) ⊎ (a.priority ≡ b.priority) × (string_lt a.id b.id ≡ true)

abbrev pub Sorted : List AclRule → Type 0
Sorted [] = Unit {0}
Sorted (a ∷ rules) = All (Outranks a) rules × Sorted rules

Outranks-trans : (a b c : AclRule) → Outranks a b → Outranks b c → Outranks a c
Outranks-trans a b c (inl h) (inl k) = inl (omega arith)
Outranks-trans a b c (inl h) (inr k) = inl (omega (arith, k.0))
Outranks-trans a b c (inr h) (inl k) = inl (omega (arith, h.0))
Outranks-trans a b c (inr h) (inr k) = inr (h.0 ∙ k.0, string_lt_trans a.id b.id c.id h.1 k.1)

ordered_numbers :
    (p q : ℕ) (lt : Bool)
    → not (ltb p q || p == q && not lt) ≡ true
    → (q < p) ⊎ (p ≡ q) × (lt ≡ true)
ordered_numbers p q lt h = ground arith

follows-Outranks : (a b : AclRule) → follows (some a) b ≡ true → Outranks a b
unfolding out_of_order
follows-Outranks a b h = ordered_numbers a.priority b.priority (string_lt a.id b.id) h

module _ (n : Networks) where
  -- Whatever the rule before outranks, an earlier one outranks too.
  outranked :
      (routes : SubnetRoutePolicy n) (a b : AclRule) (ids : List (List ℕ)) (rules : List AclRule)
      → ((c : AclRule) → Outranks b c → Outranks a c)
      → validate_rules n routes (some b) ids rules ≡ ok tt
      → All (Outranks a) rules
  unfolding validate_rules
  outranked routes a b ids [] over h = tt
  outranked routes a b ids (c ∷ rules) over h =
      let (next, h) = require-passed (follows (some b) c) _ _ h in
      let (_, h) = require-passed (not (any (bytes_eq c.id) ids)) _ _ h in
      let (_, _, h) = bind-passed (validate_rule n c routes) _ h in
      let here = over c (follows-Outranks b c next) in
      (here, outranked routes a c (c.id ∷ ids) rules (λ d k. Outranks-trans a c d here k) h)

  validated-Sorted :
      (routes : SubnetRoutePolicy n) (previous : Option AclRule) (ids : List (List ℕ))
      (rules : List AclRule)
      → validate_rules n routes previous ids rules ≡ ok tt
      → Sorted rules
  unfolding validate_rules
  validated-Sorted routes previous ids [] h = tt
  validated-Sorted routes previous ids (a ∷ rules) h =
      let (_, h) = require-passed (follows previous a) _ _ h in
      let (_, h) = require-passed (not (any (bytes_eq a.id) ids)) _ _ h in
      let (_, _, h) = bind-passed (validate_rule n a routes) _ h in
      (
        outranked routes a a (a.id ∷ ids) rules (λ c k. k) h,
        validated-Sorted routes (some a) (a.id ∷ ids) rules h,
      )

  -- The rules of a compiled policy are sorted: each has a higher priority than the rules behind it, or
  -- an equal one and an id that comes before theirs.
  pub compile-Sorted :
      (configuration : ConfigurationPayload) (policy : AclPolicy n)
      → compile n configuration ≡ ok policy
      → Sorted policy.rules
  unfolding compile
  compile-Sorted configuration policy h =
      let (_, h) = require-passed (not (configuration.policy_version == 0)) _ _ h in
      let (_, h) = require-passed (leb (length configuration.policies) 4096) _ _ h in
      let (subjects, _, h) = bind-passed (collect_subjects n [] configuration.nodes) _ h in
      let (routes, _, h) = bind-passed (as_selector_error n (Routes.compile n configuration)) _ h in
      let (subnets, _, h) = bind-passed (collect_subnets n [] configuration.subnet_routes) _ h in
      let (_, valid, h) =
        bind-passed (validate_rules n routes none [] configuration.policies) _ h in
      subst (λ (p : AclPolicy n). Sorted p.rules) (ok-eq h)
        (validated-Sorted routes none [] configuration.policies valid)
