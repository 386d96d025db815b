-- ===== src/RouteManager/Outcome.antt =====
-- What a route transaction leaves in the host's table (crates/windows-route-manager/src/lib.rs).
use xs_nexus.Base.{
  ◌≡◌, refl, sym, ap, ◌∙◌, Bool, true, false, not, ◌&&◌, ◌||◌, Option, none, some, List, [], ◌∷◌,
  Option-cases, inl, inr,
}
use xs_nexus.Routes.{IsNetworks}
use xs_nexus.RouteManager.{HostNetworks, RouteKey, same_route, has}
use xs_nexus.RouteManager.Plan.{ReconcilePlan}
use xs_nexus.RouteManager.Execute.{
  RouteBackend, ExecuteError, add, remove, add_failed, remove_failed, delete_all, create_all,
  add_routes, remove_routes, execute_plan,
}
use xs_nexus.RouteManager.Undo.{
  IsRouteBackend, AreFresh, AreKnown, routes_of, delete_all-undoes, create_all-undoes, and_true,
  or_nothing, or_false_left, or_false_right,
}

added_now : (p q r : Bool) → ((p || q) || r) ≡ (p || (r || q))
added_now true q r = refl
added_now false true true = refl
added_now false true false = refl
added_now false false true = refl
added_now false false false = refl

removed_now : (p q r : Bool) → ((p && not q) && not r) ≡ (p && not (r || q))
removed_now false q r = refl
removed_now true true true = refl
removed_now true true false = refl
removed_now true false true = refl
removed_now true false false = refl

regrouped_out : (p q r t : Bool) → ((p && not (q || r)) && not t) ≡ ((p && not r) && not (q || t))
regrouped_out false q r t = refl
regrouped_out true true true t = refl
regrouped_out true true false t = refl
regrouped_out true false true t = refl
regrouped_out true false false t = refl

kept_in : (p q : Bool) → (p && not q) ≡ true → (p ≡ true) × (q ≡ false)
kept_in true false e = (refl, refl)
kept_in true true e = absurd (cc)
kept_in false q e = absurd (cc)

regrouped : (p q r t : Bool) → ((p || (q || r)) || t) ≡ ((p || r) || (q || t))
regrouped true q r t = refl
regrouped false true true t = refl
regrouped false true false t = refl
regrouped false false r t = refl

module _ (h : HostNetworks) (laws : IsNetworks h.nets) (b : RouteBackend h)
    (table : b.Host → RouteKey h → Bool) (backend : IsRouteBackend h b table) where
  -- After the first loop the table has what is added so far and the rest; after a failure it is the
  -- table before, with the routes whose deletion failed.
  unfoldable IsAddOutcome :
      (RouteKey h → Bool)
      → List (RouteKey h)
      → List (RouteKey h)
      → Option (ExecuteError b) × b.Host
      → Type 0
  IsAddOutcome base added routes (none, after) =
      (key : RouteKey h) → table after key ≡ ((base key || has h added key) || has h routes key)
  IsAddOutcome base added routes (some (add route source failures), after) =
      (key : RouteKey h) → table after key ≡ (base key || has h (routes_of h b failures) key)
  IsAddOutcome base added routes (some (remove route source failures), after) = ⊥

  unfoldable IsRemoveOutcome :
      (RouteKey h → Bool)
      → List (RouteKey h)
      → List (RouteKey h)
      → Option (ExecuteError b) × b.Host
      → Type 0
  IsRemoveOutcome base removed routes (none, after) =
      (key : RouteKey h)
      → table after key ≡ ((base key && not (has h removed key)) && not (has h routes key))
  IsRemoveOutcome base removed routes (some (add route source failures), after) = ⊥
  IsRemoveOutcome base removed routes (some (remove route source failures), after) =
      (key : RouteKey h) → table after key ≡ (base key && not (has h (routes_of h b failures) key))

  all_added :
      (base : RouteKey h → Bool) (added : List (RouteKey h)) (after : b.Host)
      → ((key : RouteKey h) → table after key ≡ (base key || has h added key))
      → IsAddOutcome base added [] (none, after)
  unfolding IsAddOutcome has
  all_added base added after held = λ key. held key ∙ sym (or_nothing (base key || has h added key))

  -- The step that adds a route.
  one_added :
      (base : RouteKey h → Bool) (route : RouteKey h) (added routes : List (RouteKey h))
      (result : Option (ExecuteError b) × b.Host)
      → IsAddOutcome base (route ∷ added) routes result
      → IsAddOutcome base added (route ∷ routes) result
  unfolding IsAddOutcome has
  one_added base route added routes (none, after) held = λ key.
      held key ∙ regrouped (base key) (same_route h route key) (has h added key) (has h routes key)
  one_added base route added routes (some (add at source failures), after) held = held
  one_added base route added routes (some (remove at source failures), after) held = held

  not_added :
      (base : RouteKey h → Bool) (route : RouteKey h) (source : b.Error)
      (added routes : List (RouteKey h)) (host : b.Host)
      → ((key : RouteKey h) → table host key ≡ (base key || has h added key))
      → AreFresh h laws base added
      → IsAddOutcome base added
          (route ∷ routes)
          (add_failed b route source (delete_all b host added))
  unfolding IsAddOutcome
  not_added base route source added routes host held fresh =
      delete_all-undoes h laws b table backend base host added held fresh

  add_routes-IsAddOutcome :
      (base : RouteKey h → Bool) (host : b.Host) (added routes : List (RouteKey h))
      → ((key : RouteKey h) → table host key ≡ (base key || has h added key))
      → AreFresh h laws base added
      → IsAddOutcome base added routes (add_routes b host added routes)
  unfolding add_routes has
  add_routes-IsAddOutcome base host added [] held fresh = all_added base added host held
  add_routes-IsAddOutcome base host added (route ∷ routes) held fresh =
      elim (Option-cases (b.create host route).0) [
        | inl done ↦
            let (unknown, there) = backend.created host route done in
            let absent = sym (held route) ∙ unknown in
            rw (done, add_routes)
              (one_added base route added routes _ (
                add_routes-IsAddOutcome base (b.create host route).1 (route ∷ added) routes
                  (λ key.
                    there key
                    ∙ (ap (λ (t : Bool). t || same_route h route key) (held key)
                        ∙ added_now (base key) (has h added key) (same_route h route key)))
                  (
                    or_false_left (base route) _ absent,
                    or_false_right (base route) _ absent,
                    fresh,
                  )))
        | inr (e, failed) ↦
            rw (failed, add_routes)
              (not_added base route e added routes (b.create host route).1
                (λ key. backend.not_created host route e failed key ∙ held key) fresh)
      ]

  all_removed :
      (base : RouteKey h → Bool) (removed : List (RouteKey h)) (after : b.Host)
      → ((key : RouteKey h) → table after key ≡ (base key && not (has h removed key)))
      → IsRemoveOutcome base removed [] (none, after)
  unfolding IsRemoveOutcome has
  all_removed base removed after held =
      λ key. held key ∙ sym (and_true (base key && not (has h removed key)))

  -- The step that removes a route.
  one_removed :
      (base : RouteKey h → Bool) (route : RouteKey h) (removed routes : List (RouteKey h))
      (result : Option (ExecuteError b) × b.Host)
      → IsRemoveOutcome base (route ∷ removed) routes result
      → IsRemoveOutcome base removed (route ∷ routes) result
  unfolding IsRemoveOutcome has
  one_removed base route removed routes (none, after) held = λ key.
      held key
      ∙ regrouped_out (base key) (same_route h route key) (has h removed key) (has h routes key)
  one_removed base route removed routes (some (add at source failures), after) held = held
  one_removed base route removed routes (some (remove at source failures), after) held = held

  not_removed :
      (base : RouteKey h → Bool) (route : RouteKey h) (source : b.Error)
      (removed routes : List (RouteKey h)) (host : b.Host)
      → ((key : RouteKey h) → table host key ≡ (base key && not (has h removed key)))
      → AreKnown h laws base removed
      → IsRemoveOutcome base removed
          (route ∷ routes)
          (remove_failed b route source (create_all b host removed))
  unfolding IsRemoveOutcome
  not_removed base route source removed routes host held known =
      create_all-undoes h laws b table backend base host removed held known

  remove_routes-IsRemoveOutcome :
      (base : RouteKey h → Bool) (host : b.Host) (removed routes : List (RouteKey h))
      → ((key : RouteKey h) → table host key ≡ (base key && not (has h removed key)))
      → AreKnown h laws base removed
      → IsRemoveOutcome base removed routes (remove_routes b host removed routes)
  unfolding remove_routes has
  remove_routes-IsRemoveOutcome base host removed [] held known = all_removed base removed host held
  remove_routes-IsRemoveOutcome base host removed (route ∷ routes) held known =
      elim (Option-cases (b.delete host route).0) [
        | inl done ↦
            let (present, gone) = backend.deleted host route done in
            let (there, single) =
              kept_in (base route) (has h removed route) (sym (held route) ∙ present) in
            rw (done, remove_routes)
              (one_removed base route removed routes _ (
                remove_routes-IsRemoveOutcome base (b.delete host route).1 (route ∷ removed) routes
                  (λ key.
                    gone key
                    ∙ (ap (λ (t : Bool). t && not (same_route h route key)) (held key)
                        ∙ removed_now (base key) (has h removed key) (same_route h route key)))
                  (there, single, known)))
        | inr (e, failed) ↦
            rw (failed, remove_routes)
              (not_removed base route e removed routes (b.delete host route).1
                (λ key. backend.not_deleted host route e failed key ∙ held key) known)
      ]

  -- The table after a transaction with a plan.
  abbrev pub IsOutcome :
      (RouteKey h → Bool) → ReconcilePlan h → Option (ExecuteError b) × b.Host → Type 0
  IsOutcome base plan (none, after) =
      (key : RouteKey h)
      → table after key ≡ ((base key || has h plan.additions key) && not (has h plan.removals key))
  IsOutcome base plan (some (add route source failures), after) =
      (key : RouteKey h) → table after key ≡ (base key || has h (routes_of h b failures) key)
  IsOutcome base plan (some (remove route source failures), after) =
      (key : RouteKey h)
      → table after key
        ≡ ((base key || has h plan.additions key) && not (has h (routes_of h b failures) key))

  add_stopped :
      (base : RouteKey h → Bool) (plan : ReconcilePlan h) (error : ExecuteError b) (after : b.Host)
      → IsAddOutcome base [] plan.additions (some error, after)
      → IsOutcome base plan (some error, after)
  unfolding IsAddOutcome
  add_stopped base plan (add route source failures) after held = held
  add_stopped base plan (remove route source failures) after held = absurd held

  all_settled :
      (base present : RouteKey h → Bool) (plan : ReconcilePlan h)
      (result : Option (ExecuteError b) × b.Host)
      → ((key : RouteKey h) → present key ≡ (base key || has h plan.additions key))
      → IsRemoveOutcome present [] plan.removals result
      → IsOutcome base plan result
  unfolding IsRemoveOutcome has
  all_settled base present plan (none, after) added held = λ key.
      held key
      ∙ ap (λ (t : Bool). t && not (has h plan.removals key)) (and_true (present key) ∙ added key)
  all_settled base present plan (some (add route source failures), after) added held = absurd held
  all_settled base present plan (some (remove route source failures), after) added held =
      λ key. held key ∙ ap (λ (t : Bool). t && not (has h (routes_of h b failures) key)) (added key)

  -- From the first loop's outcome to the whole transaction's.
  settled :
      (base : RouteKey h → Bool) (plan : ReconcilePlan h) (added : Option (ExecuteError b) × b.Host)
      → IsAddOutcome base [] plan.additions added
      → IsOutcome base plan (elim (added.0) [
        | none ↦ remove_routes b added.1 [] plan.removals
        | some error ↦ (some error, added.1)
      ])
  unfolding IsAddOutcome has
  settled base plan (none, host) adding =
      all_settled base (table host) plan (remove_routes b host [] plan.removals)
        (λ key.
          adding key ∙ ap (λ (t : Bool). t || has h plan.additions key) (or_nothing (base key)))
        (remove_routes-IsRemoveOutcome (table host) host [] plan.removals
          (λ key. sym (and_true (table host key))) tt)
  settled base plan (some error, host) adding = add_stopped base plan error host adding

  -- A transaction that succeeds leaves the table with the additions and without the removals. When
  -- an addition fails, the table is the old one and the routes whose compensation failed; when a
  -- removal fails, it is the old one with the additions, without the routes whose restoration failed.
  pub execute_plan-IsOutcome :
      (host : b.Host) (plan : ReconcilePlan h)
      → IsOutcome (table host) plan (execute_plan b host plan)
  unfolding execute_plan has
  execute_plan-IsOutcome host plan =
      settled (table host) plan (add_routes b host [] plan.additions) (
        add_routes-IsAddOutcome (table host) host [] plan.additions
          (λ key. sym (or_nothing (table host key))) tt)
