-- ===== src/RouteManager/Undo.antt =====
-- How a route transaction is undone (crates/windows-route-manager/src/lib.rs): the host's table after
-- the loops that compensate.
use xs_nexus.Base.{
  ◌≡◌, refl, sym, ap, ◌∙◌, Bool, true, false, not, ◌&&◌, ◌||◌, none, some, List, [], ◌∷◌,
  Bool-cases, inl, inr, &&-true, ==_iff, ==_self, Option-cases, ◌==◌,
}
use xs_nexus.Routes.{IsNetworks}
use xs_nexus.RouteManager.{HostNetworks, RouteKey, same_route, has}
use xs_nexus.RouteManager.Execute.{RouteBackend, delete_all, create_all}

module _ (h : HostNetworks) (laws : IsNetworks h.nets) where
  pub same_route-eq : (a b : RouteKey h) → same_route h a b ≡ true → a ≡ b
  unfolding same_route
  same_route-eq a b e =
      let (e, m) = &&-true _ (a.metric == b.metric) e in
      let (e, n) = &&-true _ (a.next_hop == b.next_hop) e in
      let (p, l) =
        &&-true (h.nets.same_net a.prefix b.prefix) (a.interface_luid == b.interface_luid) e in
      let p' = (laws.same_net_iff a.prefix b.prefix).0 p in
      let l' = (==_iff a.interface_luid b.interface_luid).0 l in
      let n' = (==_iff a.next_hop b.next_hop).0 n in
      let m' = (==_iff a.metric b.metric).0 m in
      λ i. record { prefix = p' i; interface_luid = l' i; next_hop = n' i; metric = m' i }

  pub same_route_self : (a : RouteKey h) → same_route h a a ≡ true
  unfolding same_route
  same_route_self a =
      rw
        (
          (laws.same_net_iff a.prefix a.prefix).1 refl,
          ==_self a.interface_luid,
          ==_self a.next_hop,
          ==_self a.metric,
        )
        refl

  same_route_comm : (a b : RouteKey h) → same_route h a b ≡ same_route h b a
  same_route_comm a b = elim (Bool-cases (same_route h a b)) [
    | inl e ↦ rw (same_route-eq a b e) refl
    | inr e ↦ elim (Bool-cases (same_route h b a)) [
      | inl f ↦ rw (same_route-eq b a f) refl
      | inr f ↦ e ∙ sym f
    ]
  ]

-- What the functions of the platform promise of the table: a call that fails changes nothing, a route
-- that is created was not there, and a route that is deleted was.
pub record IsRouteBackend (h : HostNetworks) (b : RouteBackend h)
    (table : b.Host → RouteKey h → Bool) : Type 0 where
  pub created :
      (host : b.Host) (route : RouteKey h)
      → (b.create host route).0 ≡ none
      → (table host route ≡ false)
        × ((key : RouteKey h)
            → table (b.create host route).1 key ≡ (table host key || same_route h route key))
  pub not_created :
      (host : b.Host) (route : RouteKey h) (error : b.Error)
      → (b.create host route).0 ≡ some error
      → (key : RouteKey h) → table (b.create host route).1 key ≡ table host key
  pub deleted :
      (host : b.Host) (route : RouteKey h)
      → (b.delete host route).0 ≡ none
      → (table host route ≡ true)
        × ((key : RouteKey h)
            → table (b.delete host route).1 key ≡ (table host key && not (same_route h route key)))
  pub not_deleted :
      (host : b.Host) (route : RouteKey h) (error : b.Error)
      → (b.delete host route).0 ≡ some error
      → (key : RouteKey h) → table (b.delete host route).1 key ≡ table host key

pub or_false_left : (p q : Bool) → (p || q) ≡ false → p ≡ false
or_false_left true q e = e
or_false_left false q e = refl

pub or_false_right : (p q : Bool) → (p || q) ≡ false → q ≡ false
or_false_right true q e = absurd (cc)
or_false_right false q e = e

pub and_true : (p : Bool) → (p && true) ≡ p
and_true true = refl
and_true false = refl

pub or_nothing : (p : Bool) → (p || false) ≡ p
or_nothing true = refl
or_nothing false = refl

pub moved : (p q r : Bool) → (p || (q || r)) ≡ ((p || q) || r)
moved true q r = refl
moved false q r = refl

pub moved_out : (p q r : Bool) → (p && not (q || r)) ≡ ((p && not q) && not r)
moved_out true true r = refl
moved_out true false r = refl
moved_out false q r = refl

abbrev pub routes_of :
    (h : HostNetworks) (b : RouteBackend h) → List (RouteKey h × b.Error) → List (RouteKey h)
routes_of h b [] = []
routes_of h b ((route, error) ∷ failures) = route ∷ routes_of h b failures

-- The table holds what `base` does and the routes.
module _ (h : HostNetworks) (laws : IsNetworks h.nets) where
  -- No route is in `base`, and none stands twice.
  abbrev pub AreFresh : (RouteKey h → Bool) → List (RouteKey h) → Type 0
  AreFresh base [] = Unit {0}
  AreFresh base (route ∷ routes) =
      (base route ≡ false) × (has h routes route ≡ false) × AreFresh base routes

  AreFresh-with :
      (base : RouteKey h → Bool) (a : RouteKey h) (routes : List (RouteKey h))
      → AreFresh base routes
      → has h routes a ≡ false
      → AreFresh (λ key. base key || same_route h a key) routes
  unfolding has
  AreFresh-with base a [] fresh out = tt
  AreFresh-with base a (route ∷ routes) (unknown, single, fresh) out =
      let c = same_route_comm h laws a route in
      let differs : same_route h route a ≡ false = or_false_left (same_route h route a) _ out in
      (
        rw (unknown, c, differs) refl,
        single,
        AreFresh-with base a routes fresh (or_false_right (same_route h route a) _ out),
      )

  -- What holds of a route holds of a key that is the same.
  pub at_key :
      (test : RouteKey h → Bool) (value : Bool) (route key : RouteKey h)
      → same_route h route key ≡ true
      → test route ≡ value
      → test key ≡ value
  at_key test value route key same e = rw (sym (same_route-eq h laws route key same)) e

  taken_out :
      (base : RouteKey h → Bool) (route : RouteKey h) (routes : List (RouteKey h))
      (key : RouteKey h)
      → base route ≡ false
      → has h routes route ≡ false
      → ((base key || (same_route h route key || has h routes key)) && not (same_route h route key))
        ≡ (base key || has h routes key)
  taken_out base route routes key unknown single = elim (Bool-cases (same_route h route key)) [
    | inl same ↦
        rw
          (
            same,
            at_key base false route key same unknown,
            at_key (has h routes) false route key same single,
          )
          refl
    | inr differs ↦ rw differs (and_true (base key || has h routes key))
  ]

  put_back :
      (base : RouteKey h → Bool) (route : RouteKey h) (routes : List (RouteKey h))
      (key : RouteKey h)
      → base route ≡ true
      → has h routes route ≡ false
      → ((base key && not (same_route h route key || has h routes key)) || same_route h route key)
        ≡ (base key && not (has h routes key))
  put_back base route routes key known single = elim (Bool-cases (same_route h route key)) [
    | inl same ↦
        rw
          (
            same,
            at_key base true route key same known,
            at_key (has h routes) false route key same single,
          )
          refl
    | inr differs ↦ rw differs (or_nothing (base key && not (has h routes key)))
  ]

  -- Deleting what was added to `base` leaves `base`, and the routes whose deletion failed.
  pub delete_all-undoes :
      (b : RouteBackend h) (table : b.Host → RouteKey h → Bool)
      → IsRouteBackend h b table
      → (base : RouteKey h → Bool) (host : b.Host) (added : List (RouteKey h))
      → ((key : RouteKey h) → table host key ≡ (base key || has h added key))
      → AreFresh base added
      → (key : RouteKey h)
      → table (delete_all b host added).1 key
        ≡ (base key || has h (routes_of h b (delete_all b host added).0) key)
  unfolding has delete_all
  delete_all-undoes b table backend base host [] held fresh key = held key
  delete_all-undoes b table backend base host (route ∷ added) held (unknown, single, fresh) key =
      elim (Option-cases (b.delete host route).0) [
        | inl done ↦
            let (_, gone) = backend.deleted host route done in
            rw done (
              delete_all-undoes b table backend base (b.delete host route).1 added
                (λ key.
                  gone key
                  ∙ (ap (λ (t : Bool). t && not (same_route h route key)) (held key)
                      ∙ taken_out base route added key unknown single))
                fresh key)
        | inr (e, failed) ↦
            let kept = backend.not_deleted host route e failed in
            rw failed (
              delete_all-undoes b table backend (λ key. base key || same_route h route key)
                (b.delete host route).1 added
                (λ key.
                  kept key
                  ∙ (held key ∙ moved (base key) (same_route h route key) (has h added key)))
                (AreFresh-with base route added fresh single) key
              ∙ sym (moved (base key) (same_route h route key) _))
      ]

  -- Every route is in `base`, and none stands twice.
  abbrev pub AreKnown : (RouteKey h → Bool) → List (RouteKey h) → Type 0
  AreKnown base [] = Unit {0}
  AreKnown base (route ∷ routes) =
      (base route ≡ true) × (has h routes route ≡ false) × AreKnown base routes

  AreKnown-without :
      (base : RouteKey h → Bool) (a : RouteKey h) (routes : List (RouteKey h))
      → AreKnown base routes
      → has h routes a ≡ false
      → AreKnown (λ key. base key && not (same_route h a key)) routes
  unfolding has
  AreKnown-without base a [] known out = tt
  AreKnown-without base a (route ∷ routes) (held, single, known) out =
      let c = same_route_comm h laws a route in
      let differs : same_route h route a ≡ false = or_false_left (same_route h route a) _ out in
      (
        rw (held, c, differs) refl,
        single,
        AreKnown-without base a routes known (or_false_right (same_route h route a) _ out),
      )

  -- Creating what was removed from `base` leaves `base`, without the routes whose creation failed.
  pub create_all-undoes :
      (b : RouteBackend h) (table : b.Host → RouteKey h → Bool)
      → IsRouteBackend h b table
      → (base : RouteKey h → Bool) (host : b.Host) (removed : List (RouteKey h))
      → ((key : RouteKey h) → table host key ≡ (base key && not (has h removed key)))
      → AreKnown base removed
      → (key : RouteKey h)
      → table (create_all b host removed).1 key
        ≡ (base key && not (has h (routes_of h b (create_all b host removed).0) key))
  unfolding has create_all
  create_all-undoes b table backend base host [] held known key = held key
  create_all-undoes b table backend base host (route ∷ removed) held (present, single, known) key =
      elim (Option-cases (b.create host route).0) [
        | inl done ↦
            let (_, back) = backend.created host route done in
            rw done (
              create_all-undoes b table backend base (b.create host route).1 removed
                (λ key.
                  back key
                  ∙ (ap (λ (t : Bool). t || same_route h route key) (held key)
                      ∙ put_back base route removed key present single))
                known key)
        | inr (e, failed) ↦
            let kept = backend.not_created host route e failed in
            rw failed (
              create_all-undoes b table backend (λ key. base key && not (same_route h route key))
                (b.create host route).1 removed
                (λ key.
                  kept key
                  ∙ (held key ∙ moved_out (base key) (same_route h route key) (has h removed key)))
                (AreKnown-without base route removed known single) key
              ∙ sym (moved_out (base key) (same_route h route key) _))
      ]
