-- ===== src/RouteManager/Execute.antt =====
-- The route transaction and the clean-up of crates/windows-route-manager/src/lib.rs: `execute_plan`
-- and `execute_recovery`, on any implementation of the backend's traits. The backend's calls are
-- functions of the host's state; a call's error is `some`, `Ok(())` is `none`.
use xs_nexus.Base.{
  ◌⊎◌, ℕ, Bool, true, false, ◌&&◌, Option, none, some, List, [], ◌∷◌, is_empty, if◌then◌else◌,
}
use xs_nexus.RouteManager.{HostNetworks, RouteKey, NetworkManifest, DadState}
use xs_nexus.RouteManager.Plan.{ReconcilePlan, RecoveryPlan, reverse}

-- The trait `RouteBackend`.
pub record RouteBackend (h : HostNetworks) : Type 1 where
  pub Host : Type 0
  pub Error : Type 0
  pub create : Host → RouteKey h → Option Error × Host
  pub delete : Host → RouteKey h → Option Error × Host

-- The trait `HostNetworkBackend`: addresses are named by interface, address and length, and a query
-- of the DAD state may fail.
pub record HostNetworkBackend (h : HostNetworks) : Type 1 where
  pub backend : RouteBackend h
  pub create_address : backend.Host → ℕ → ℕ → ℕ → Option backend.Error × backend.Host
  pub delete_address : backend.Host → ℕ → ℕ → ℕ → Option backend.Error × backend.Host
  pub dad_state : backend.Host → ℕ → ℕ → ℕ → (backend.Error ⊎ DadState) × backend.Host
  pub wait_dad_poll : backend.Host → backend.Host

module _ {h : HostNetworks} (b : RouteBackend h) where
  pub data ExecuteError : Type 0 where
    add remove :
        (route : RouteKey h) (source : b.Error) (failures : List (RouteKey h × b.Error))
        → ExecuteError

  abbrev pub noted :
      RouteKey h → Option b.Error → List (RouteKey h × b.Error) → List (RouteKey h × b.Error)
  noted route none failures = failures
  noted route (some error) failures = (route, error) ∷ failures

  -- The loops that compensate: every route is tried, and the failures are collected.
  unfoldable pub delete_all : b.Host → List (RouteKey h) → List (RouteKey h × b.Error) × b.Host
  delete_all host [] = ([], host)
  delete_all host (route ∷ routes) =
      let deleted = b.delete host route in
      let rest = delete_all deleted.1 routes in (noted route deleted.0 rest.0, rest.1)

  unfoldable pub create_all : b.Host → List (RouteKey h) → List (RouteKey h × b.Error) × b.Host
  create_all host [] = ([], host)
  create_all host (route ∷ routes) =
      let created = b.create host route in
      let rest = create_all created.1 routes in (noted route created.0 rest.0, rest.1)

  abbrev pub add_failed :
      RouteKey h → b.Error → List (RouteKey h × b.Error) × b.Host → Option ExecuteError × b.Host
  add_failed route source undone = (some (add route source undone.0), undone.1)

  abbrev pub remove_failed :
      RouteKey h → b.Error → List (RouteKey h × b.Error) × b.Host → Option ExecuteError × b.Host
  remove_failed route source undone = (some (remove route source undone.0), undone.1)

  -- The two loops of `execute_plan`, after the routes of `added` or `removed`, the latest first.
  unfoldable pub add_routes :
      b.Host → List (RouteKey h) → List (RouteKey h) → Option ExecuteError × b.Host
  add_routes host added [] = (none, host)
  add_routes host added (route ∷ routes) =
      let created = b.create host route in
      elim (created.0) [
        | none ↦ add_routes created.1 (route ∷ added) routes
        | some source ↦ add_failed route source (delete_all created.1 added)
      ]

  unfoldable pub remove_routes :
      b.Host → List (RouteKey h) → List (RouteKey h) → Option ExecuteError × b.Host
  remove_routes host removed [] = (none, host)
  remove_routes host removed (route ∷ routes) =
      let deleted = b.delete host route in
      elim (deleted.0) [
        | none ↦ remove_routes deleted.1 (route ∷ removed) routes
        | some source ↦ remove_failed route source (create_all deleted.1 removed)
      ]

  unfoldable pub execute_plan : b.Host → ReconcilePlan h → Option ExecuteError × b.Host
  execute_plan host plan =
      let added = add_routes host [] plan.additions in
      elim (added.0) [
        | none ↦ remove_routes added.1 [] plan.removals
        | some error ↦ (some error, added.1)
      ]

module _ {h : HostNetworks} (b : HostNetworkBackend h) where
  pub record RecoveryError : Type 0 where
    pub route_failures : List (RouteKey h × b.backend.Error)
    pub address_failure : Option b.backend.Error

  abbrev pub no_failure : Option b.backend.Error → Bool
  no_failure none = true
  no_failure (some error) = false

  -- The address is deleted behind the routes, if the plan says so.
  unfoldable pub delete_planned_address :
      b.backend.Host → NetworkManifest h → RecoveryPlan h → Option b.backend.Error × b.backend.Host
  delete_planned_address host manifest plan =
      if plan.delete_address
      then b.delete_address host manifest.interface_luid manifest.address manifest.prefix_length
      else (none, host)

  unfoldable pub execute_recovery :
      b.backend.Host → NetworkManifest h → RecoveryPlan h → Option RecoveryError × b.backend.Host
  execute_recovery host manifest plan =
      let routes = delete_all b.backend host (reverse h plan.routes) in
      let address = delete_planned_address routes.1 manifest plan in
      (
        if is_empty routes.0 && no_failure address.0
            then none
            else some (record { route_failures = routes.0; address_failure = address.0 }),
        address.1,
      )
