-- ===== src/RouteManager/Reconcile.antt =====
-- What a reconciliation makes of the host's table (`plan_reconcile`, then `execute_plan` of
-- crates/windows-route-manager/src/lib.rs).
use xs_nexus.Base.{
  ℕ, ◌≡◌, ◌⊎◌, inl, inr, refl, sym, ap, ◌∙◌, Bool, true, false, not, ◌&&◌, ◌||◌, none, List, [],
  ◌∷◌, All, any, leb, length, Bool-cases, &&-true, if◌then◌else◌,
}
use mathlib.Core.Path.{subst}
use xs_nexus.Base.Results.{ok, require-passed, bind-passed, ok-eq}
use xs_nexus.Routes.{IsNetworks}
use xs_nexus.RouteManager.{
  HostNetworks, RouteKey, SystemRoute, max_system_routes, same_route, has, overlaps, route_before,
  insert_route, sort_routes,
}
use xs_nexus.RouteManager.Plan.{
  ReconcilePlan, project_all, require_unique, owned_in, all_owned, meets_foreign, without,
  plan_reconcile,
}
use xs_nexus.RouteManager.Execute.{RouteBackend, execute_plan}
use xs_nexus.RouteManager.Undo.{IsRouteBackend, at_key, or_false_left, or_false_right}
use xs_nexus.RouteManager.Outcome.{IsOutcome, execute_plan-IsOutcome}

swapped : (p q r : Bool) → (p || (q || r)) ≡ (q || (p || r))
swapped true true r = refl
swapped true false r = refl
swapped false true r = refl
swapped false false r = refl

without_out : (s p q : Bool) → (s ≡ true → q ≡ true) → (p && not q) ≡ ((s || p) && not q)
without_out false p q f = refl
without_out true true q f = refl
without_out true false true f = refl
without_out true false false f = f refl

without_kept : (s p q : Bool) → (s ≡ true → q ≡ false) → (s || (p && not q)) ≡ ((s || p) && not q)
without_kept false p q f = refl
without_kept true p false f = refl
without_kept true p true f = f refl

-- The table with the routes that are desired and new, and without those that are owned and not
-- desired.
exchanged :
    (t d o : Bool)
    → (o ≡ true → t ≡ true)
    → ((t || (d && not o)) && not (o && not d)) ≡ (d || (t && not o))
exchanged true true true f = refl
exchanged true true false f = refl
exchanged true false true f = refl
exchanged true false false f = refl
exchanged false true true f = f refl
exchanged false true false f = refl
exchanged false false true f = refl
exchanged false false false f = refl

skipped : (c b r : Bool) → c ≡ false → (if c then b else r) ≡ true → r ≡ true
skipped true b r e f = absurd (cc)
skipped false b r e f = f

unowned : (p q : Bool) → p ≡ false → (not p && q) ≡ false → q ≡ false
unowned false q e f = f
unowned true q e f = absurd (cc)

behind : (p q : Bool) → p ≡ false → (p || q) ≡ true → q ≡ true
behind true q e f = absurd (cc)
behind false q e f = f

unmet : (p : Bool) → not p ≡ true → p ≡ false
unmet false e = refl
unmet true e = absurd (cc)

module _ (h : HostNetworks) (laws : IsNetworks h.nets) where
  -- Sorting keeps the routes.
  has-insert_route :
      (a : RouteKey h) (routes : List (RouteKey h)) (key : RouteKey h)
      → has h (insert_route h a routes) key ≡ (same_route h a key || has h routes key)
  unfolding has insert_route
  has-insert_route a [] key = refl
  has-insert_route a (b ∷ routes) key = elim (Bool-cases (route_before h b a)) [
    | inl before ↦
        rw (before, insert_route, has-insert_route a routes key)
          (swapped (same_route h b key) (same_route h a key) (has h routes key))
    | inr after ↦ rw (after, insert_route) refl
  ]

  pub has-sort_routes :
      (routes : List (RouteKey h)) (key : RouteKey h)
      → has h (sort_routes h routes) key ≡ has h routes key
  unfolding has sort_routes
  has-sort_routes [] key = refl
  has-sort_routes (a ∷ routes) key =
      has-insert_route a (sort_routes h routes) key
      ∙ ap (λ (t : Bool). same_route h a key || t) (has-sort_routes routes key)

  pub has-without :
      (routes others : List (RouteKey h)) (key : RouteKey h)
      → has h (without h routes others) key ≡ (has h routes key && not (has h others key))
  unfolding has without
  has-without [] others key = refl
  has-without (a ∷ routes) others key = elim (Bool-cases (has h others a)) [
    | inl out ↦
        rw (out, has-without routes others key)
          (without_out (same_route h a key) (has h routes key) (has h others key)
            (λ same. at_key h laws (has h others) true a key same out))
    | inr kept ↦
        rw (kept, has-without routes others key)
          (without_kept (same_route h a key) (has h routes key) (has h others key)
            (λ same. at_key h laws (has h others) false a key same kept))
  ]

  -- What the table holds of the system's routes it holds of the owned ones.
  owned_in_table :
      (table : RouteKey h → Bool) (system : List (SystemRoute h)) (route : RouteKey h)
      → All (λ (entry : SystemRoute h). table entry.key ≡ true) system
      → owned_in h system route ≡ true
      → table route ≡ true
  unfolding owned_in
  owned_in_table table [] route seen e = absurd (cc)
  owned_in_table table (entry ∷ system) route (here, seen) e =
      elim (Bool-cases (same_route h entry.key route)) [
        | inl same ↦ at_key h laws table true entry.key route same here
        | inr differs ↦ owned_in_table table system route seen (
            skipped (same_route h entry.key route) entry.project_owned (owned_in h system route)
              differs e)
      ]

  all_owned_in_table :
      (table : RouteKey h → Bool) (interface_luid : ℕ) (system : List (SystemRoute h))
      (owned : List (RouteKey h)) (key : RouteKey h)
      → All (λ (entry : SystemRoute h). table entry.key ≡ true) system
      → all_owned h interface_luid system owned ≡ true
      → has h owned key ≡ true
      → table key ≡ true
  unfolding all_owned has
  all_owned_in_table table interface_luid system [] key seen e m = absurd (cc)
  all_owned_in_table table interface_luid system (route ∷ owned) key seen e m =
      let (e, rest) = &&-true _ (all_owned h interface_luid system owned) e in
      let (_, here) = &&-true _ (owned_in h system route) e in
      elim (Bool-cases (same_route h route key)) [
        | inl same ↦
            at_key h laws table true route key same (owned_in_table table system route seen here)
        | inr differs ↦
            all_owned_in_table table interface_luid system owned key seen rest
              (behind (same_route h route key) (has h owned key) differs m)
      ]

  apart_from :
      (system : List (SystemRoute h)) (wanted : RouteKey h)
      → meets_foreign h system wanted ≡ false
      → All
          (λ (entry : SystemRoute h).
            (entry.project_owned ≡ true) ⊎ (overlaps h entry.key.prefix wanted.prefix ≡ false))
          system
  unfolding meets_foreign
  apart_from [] wanted e = tt
  apart_from (entry ∷ system) wanted e =
      let here =
        or_false_left (not entry.project_owned && overlaps h entry.key.prefix wanted.prefix) _ e in
      (
        elim (Bool-cases entry.project_owned) [
          | inl ours ↦ inl ours
          | inr foreign ↦
              inr (
                unowned entry.project_owned (overlaps h entry.key.prefix wanted.prefix) foreign
                  here)
        ],
        apart_from system wanted (
            or_false_right (not entry.project_owned && overlaps h entry.key.prefix wanted.prefix) _
              e),
      )

  desired_apart :
      (system : List (SystemRoute h)) (desired : List (RouteKey h))
      → any (meets_foreign h system) desired ≡ false
      → All
          (λ (route : RouteKey h).
            All
              (λ (entry : SystemRoute h).
                (entry.project_owned ≡ true) ⊎ (overlaps h entry.key.prefix route.prefix ≡ false))
              system)
          desired
  desired_apart system [] e = tt
  desired_apart system (route ∷ desired) e = (
    apart_from system route (or_false_left (meets_foreign h system route) _ e),
    desired_apart system desired (or_false_right (meets_foreign h system route) _ e),
  )

  -- The table afterwards has the routes that are desired, and the others that were not owned; and no
  -- desired route overlaps a route of the system that is not the project's.
  pub record IsReconciled (interface_luid : ℕ) (prefixes : List h.nets.Ipv4Net)
      (owned : List (RouteKey h)) (system : List (SystemRoute h)) (before after : RouteKey h → Bool)
      : Type 0 where
    pub desired : List (RouteKey h)
    pub projected : project_all h interface_luid prefixes ≡ ok desired
    pub table :
        (key : RouteKey h)
        → after key ≡ (has h desired key || (before key && not (has h owned key)))
    pub apart :
        All
          (λ (route : RouteKey h).
            All
              (λ (entry : SystemRoute h).
                (entry.project_owned ≡ true) ⊎ (overlaps h entry.key.prefix route.prefix ≡ false))
              system)
          desired

  -- A plan of `plan_reconcile` that is executed without an error on a host that has the system's
  -- routes leaves the routes that are desired and those that were not owned, and no desired route
  -- overlaps a foreign one.
  pub execute_plan-IsReconciled :
      (b : RouteBackend h) (table : b.Host → RouteKey h → Bool)
      → IsRouteBackend h b table
      → (host after : b.Host) (interface_luid : ℕ) (prefixes : List h.nets.Ipv4Net)
        (owned : List (RouteKey h)) (system : List (SystemRoute h)) (plan : ReconcilePlan h)
      → All (λ (entry : SystemRoute h). table host entry.key ≡ true) system
      → plan_reconcile h interface_luid prefixes owned system ≡ ok plan
      → execute_plan b host plan ≡ (none, after)
      → IsReconciled interface_luid prefixes owned system (table host) (table after)
  unfolding plan_reconcile
  execute_plan-IsReconciled b table backend host after interface_luid prefixes owned system plan
        seen planned done =
      let (_, planned) = require-passed (leb (length system) max_system_routes) _ _ planned in
      let (desired, projected, planned) =
        bind-passed (project_all h interface_luid prefixes) _ planned in
      let (_, _, planned) = bind-passed (require_unique h desired) _ planned in
      let (_, _, planned) = bind-passed (require_unique h owned) _ planned in
      let (ours, planned) = require-passed (all_owned h interface_luid system owned) _ _ planned in
      let (apart, planned) =
        require-passed (not (any (meets_foreign h system) desired)) _ _ planned in
      let outcome = execute_plan-IsOutcome h laws b table backend host plan in
      let same = ok-eq planned in
      let added : (key : RouteKey h)
          → has h plan.additions key ≡ (has h desired key && not (has h owned key)) =
        λ key.
          ap (λ (p : ReconcilePlan h). has h p.additions key) (sym same)
          ∙ (has-sort_routes (without h desired owned) key ∙ has-without desired owned key) in
      let removed : (key : RouteKey h)
          → has h plan.removals key ≡ (has h owned key && not (has h desired key)) =
        λ key.
          ap (λ (p : ReconcilePlan h). has h p.removals key) (sym same)
          ∙ (has-sort_routes (without h owned desired) key ∙ has-without owned desired key) in
      let settled = subst (IsOutcome h laws b table backend (table host) plan) done outcome in
      record {
        desired = desired;
        projected = projected;
        table = λ key.
            settled key
            ∙ (ap (λ (t : Bool). (table host key || t) && not (has h plan.removals key)) (added key)
                ∙ (ap
                      (λ (t : Bool).
                        (table host key || (has h desired key && not (has h owned key))) && not t)
                      (removed key)
                    ∙ exchanged (table host key) (has h desired key) (has h owned key) (
                        all_owned_in_table (table host) interface_luid system owned key seen
                          ours)));
        apart = desired_apart system desired (unmet (any (meets_foreign h system) desired) apart);
      }
