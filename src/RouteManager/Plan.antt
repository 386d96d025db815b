-- ===== src/RouteManager/Plan.antt =====
-- `plan_reconcile` and `plan_recovery` of crates/windows-route-manager/src/lib.rs.
use xs_nexus.Base.{
  ℕ, Bool, true, false, not, ◌&&◌, ◌||◌, List, [], ◌∷◌, ◌++◌, leb, if◌then◌else◌, length, any,
}
use xs_nexus.Base.Results.{Result, ok, ◌>>=◌, ◌>>◌, require}
use xs_nexus.RouteManager.{
  HostNetworks, RouteKey, SystemRoute, NetworkManifest, ManifestError, size, RoutePlanError,
  route_table_limit, foreign_overlap, max_system_routes, same_route, has, overlaps, project,
  is_project_shape, sort_routes, validate,
}

module _ (h : HostNetworks) where
  -- `compensation` are the additions in reverse.
  pub record ReconcilePlan : Type 0 where
    pub additions : List (RouteKey h)
    pub compensation : List (RouteKey h)
    pub removals : List (RouteKey h)

  pub record RecoveryPlan : Type 0 where
    pub routes : List (RouteKey h)
    pub delete_address : Bool

  abbrev pub reverse : List (RouteKey h) → List (RouteKey h)
  reverse [] = []
  reverse (route ∷ routes) = reverse routes ++ (route ∷ [])

  unfoldable pub project_all : ℕ → List h.nets.Ipv4Net → Result RoutePlanError (List (RouteKey h))
  project_all interface_luid [] = ok []
  project_all interface_luid (prefix ∷ prefixes) = do
    route ← project h prefix interface_luid
    routes ← project_all interface_luid prefixes
    ok (route ∷ routes)

  unfoldable pub unique_beside : List (RouteKey h) → List (RouteKey h) → Bool
  unique_beside unique [] = true
  unique_beside unique (route ∷ routes) =
      not (has h unique route) && unique_beside (route ∷ unique) routes

  abbrev pub require_unique : List (RouteKey h) → Result RoutePlanError (Unit {0})
  require_unique routes = require (unique_beside [] routes) RoutePlanError.duplicate_route

  -- The first system route with the key, if there is one, is the project's.
  unfoldable pub owned_in : List (SystemRoute h) → RouteKey h → Bool
  owned_in [] route = false
  owned_in (entry ∷ system) route =
      let rest = owned_in system route in
      if same_route h entry.key route then entry.project_owned else rest

  unfoldable pub all_owned : ℕ → List (SystemRoute h) → List (RouteKey h) → Bool
  all_owned interface_luid system [] = true
  all_owned interface_luid system (route ∷ owned) =
      is_project_shape h route interface_luid
      && owned_in system route
      && all_owned interface_luid system owned

  unfoldable pub meets_foreign : List (SystemRoute h) → RouteKey h → Bool
  meets_foreign [] wanted = false
  meets_foreign (existing ∷ system) wanted =
      not existing.project_owned && overlaps h existing.key.prefix wanted.prefix
      || meets_foreign system wanted

  -- `difference`
  unfoldable pub without : List (RouteKey h) → List (RouteKey h) → List (RouteKey h)
  without [] others = []
  without (route ∷ routes) others =
      let rest = without routes others in if has h others route then rest else route ∷ rest

  unfoldable pub plan_reconcile :
      ℕ
      → List h.nets.Ipv4Net
      → List (RouteKey h)
      → List (SystemRoute h)
      → Result RoutePlanError ReconcilePlan
  plan_reconcile interface_luid desired_prefixes owned system = do
    require (leb (length system) max_system_routes) route_table_limit
    desired ← project_all interface_luid desired_prefixes
    require_unique desired
    require_unique owned
    require (all_owned interface_luid system owned) RoutePlanError.ownership_drift
    require (not (any (meets_foreign system) desired)) foreign_overlap
    let additions = sort_routes h (without desired owned)
    let removals = sort_routes h (without owned desired)
    ok (record { additions = additions; compensation = reverse additions; removals = removals })

  -- The inner loop of `plan_recovery`: one system route that overlaps and is not the recorded one
  -- stops it.
  unfoldable pub recorded_in :
      RouteKey h → List (SystemRoute h) → Result ManifestError (List (RouteKey h))
  recorded_in recorded [] = ok []
  recorded_in recorded (current ∷ system) = do
    require
        (not (overlaps h current.key.prefix recorded.prefix)
          || same_route h current.key recorded && current.project_owned)
        ManifestError.ownership_drift
    rest ← recorded_in recorded system
    ok (if overlaps h current.key.prefix recorded.prefix then recorded ∷ rest else rest)

  unfoldable pub recorded_routes :
      List (SystemRoute h) → List (RouteKey h) → Result ManifestError (List (RouteKey h))
  recorded_routes system [] = ok []
  recorded_routes system (recorded ∷ routes) = do
    found ← recorded_in recorded system
    rest ← recorded_routes system routes
    ok (found ++ rest)

  -- `dedup`, which drops a route that is equal to the one before it.
  unfoldable pub dedup_after : RouteKey h → List (RouteKey h) → List (RouteKey h)
  dedup_after previous [] = []
  dedup_after previous (route ∷ routes) =
      let same = dedup_after previous routes in
      let next = dedup_after route routes in
      if same_route h previous route then same else route ∷ next

  abbrev pub dedup : List (RouteKey h) → List (RouteKey h)
  dedup [] = []
  dedup (route ∷ routes) = route ∷ dedup_after route routes

  unfoldable pub plan_recovery :
      NetworkManifest h → List (SystemRoute h) → Bool → Result ManifestError RecoveryPlan
  plan_recovery manifest system exact_address_present = do
    validate h manifest
    require (leb (length system) max_system_routes) size
    routes ← recorded_routes system manifest.routes
    ok (record { routes = dedup (sort_routes h routes); delete_address = exact_address_present })
