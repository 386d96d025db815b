-- ===== src/RouteManager/Keys.antt =====
-- Sets of routes as lists: `has` through the list functions, and the table after `delete_all`
-- (crates/windows-route-manager/src/lib.rs).
use xs_nexus.Base.{
  ◌≡◌, inl, inr, refl, sym, ap, ◌∙◌, Bool, true, false, not, ◌&&◌, ◌||◌, Option, none, some, List,
  [], ◌∷◌, ◌++◌, Bool-cases,
}
use xs_nexus.Routes.{IsNetworks}
use xs_nexus.RouteManager.{HostNetworks, RouteKey, same_route, has}
use xs_nexus.RouteManager.Plan.{reverse, dedup, dedup_after}
use xs_nexus.RouteManager.Execute.{RouteBackend, noted, delete_all}
use xs_nexus.RouteManager.Undo.{IsRouteBackend, same_route-eq, and_true, moved}

cleared : (t a r : Bool) → ((t && not a) && not r) ≡ (t && not (a || r))
cleared false a r = refl
cleared true true r = refl
cleared true false r = refl

turned : (p q : Bool) → (q || (p || false)) ≡ (p || q)
turned true true = refl
turned true false = refl
turned false true = refl
turned false false = refl

twice : (p q : Bool) → (p || (p || q)) ≡ (p || q)
twice true q = refl
twice false q = refl

module _ (h : HostNetworks) (laws : IsNetworks h.nets) where
  pub has-append :
      (xs ys : List (RouteKey h)) (key : RouteKey h)
      → has h (xs ++ ys) key ≡ (has h xs key || has h ys key)
  unfolding has
  has-append [] ys key = refl
  has-append (x ∷ xs) ys key =
      ap (λ (t : Bool). same_route h x key || t) (has-append xs ys key)
      ∙ moved (same_route h x key) (has h xs key) (has h ys key)

  pub has-reverse :
      (routes : List (RouteKey h)) (key : RouteKey h)
      → has h (reverse h routes) key ≡ has h routes key
  unfolding has
  has-reverse [] key = refl
  has-reverse (route ∷ routes) key =
      has-append (reverse h routes) (route ∷ []) key
      ∙ (ap (λ (t : Bool). t || (same_route h route key || false)) (has-reverse routes key)
          ∙ turned (same_route h route key) (has h routes key))

  has-dedup_after :
      (previous : RouteKey h) (routes : List (RouteKey h)) (key : RouteKey h)
      → (same_route h previous key || has h (dedup_after h previous routes) key)
        ≡ (same_route h previous key || has h routes key)
  unfolding has dedup_after
  has-dedup_after previous [] key = refl
  has-dedup_after previous (route ∷ routes) key = elim (Bool-cases (same_route h previous route)) [
    | inl same ↦
        rw (same, dedup_after)
          (has-dedup_after previous routes key
            ∙ (sym (twice (same_route h previous key) (has h routes key))
                ∙ ap
                    (λ (r : RouteKey h).
                      same_route h previous key || (same_route h r key || has h routes key))
                    (same_route-eq h laws previous route same)))
    | inr differs ↦
        rw (differs, dedup_after)
          (ap (λ (t : Bool). same_route h previous key || t) (has-dedup_after route routes key))
  ]

  pub has-dedup :
      (routes : List (RouteKey h)) (key : RouteKey h)
      → has h (dedup h routes) key ≡ has h routes key
  unfolding has
  has-dedup [] key = refl
  has-dedup (route ∷ routes) key = has-dedup_after route routes key

  nothing_noted :
      (b : RouteBackend h) (route : RouteKey h) (o : Option b.Error)
      (failures : List (RouteKey h × b.Error))
      → noted b route o failures ≡ []
      → (o ≡ none) × (failures ≡ [])
  nothing_noted b route none failures e = (refl, e)
  nothing_noted b route (some error) failures e = absurd (cc)

  -- Deleting routes without a failure leaves the others.
  pub delete_all-clears :
      (b : RouteBackend h) (table : b.Host → RouteKey h → Bool)
      → IsRouteBackend h b table
      → (host : b.Host) (routes : List (RouteKey h)) → (delete_all b host routes).0 ≡ []
      → (key : RouteKey h)
      → table (delete_all b host routes).1 key ≡ (table host key && not (has h routes key))
  unfolding delete_all has
  delete_all-clears b table backend host [] e key = sym (and_true (table host key))
  delete_all-clears b table backend host (route ∷ routes) e key =
      let (done, rest) = nothing_noted b route (b.delete host route).0 _ e in
      let (_, gone) = backend.deleted host route done in
      delete_all-clears b table backend (b.delete host route).1 routes rest key
      ∙ (ap (λ (t : Bool). t && not (has h routes key)) (gone key)
          ∙ cleared (table host key) (same_route h route key) (has h routes key))
