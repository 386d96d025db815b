-- ===== src/RouteManager/Tests.antt =====
-- The host routes of crates/windows-route-manager/src/lib.rs on a host whose table is a list of
-- routes, with one address that is there or is not.
use xs_nexus.Base.{
  ℕ, ◌+◌, ◌-◌, ◌*◌, ◌/◌, ◌^◌, ◌≡◌, inr, refl, ap, ◌∙◌, Bool, true, false, not, ◌&&◌, ◌||◌, Option,
  none, some, List, [], ◌∷◌, All, min,
}
use xs_nexus.Base.Results.{ok}
use xs_nexus.Routes.{networks_overlap}
use xs_nexus.Routes.Tests.{toy, toy-IsNetworks}
use xs_nexus.RouteManager.{
  HostNetworks, RouteKey, SystemRoute, NetworkManifest, preferred, active, same_route, has,
  reserved, safe_prefix, project, is_project_shape, route_before, insert_route, sort_routes,
  safe_host, validate_routes, validate,
}
use xs_nexus.RouteManager.Plan.{
  ReconcilePlan, RecoveryPlan, project_all, unique_beside, owned_in, all_owned, meets_foreign,
  without, plan_reconcile, recorded_in, recorded_routes, dedup_after, plan_recovery,
}
use xs_nexus.RouteManager.Execute.{
  RouteBackend, HostNetworkBackend, delete_all, add_routes, remove_routes, execute_plan,
  delete_planned_address, execute_recovery,
}
use xs_nexus.RouteManager.Provision.{provision_network}
use xs_nexus.RouteManager.Undo.{IsRouteBackend}
use xs_nexus.RouteManager.Outcome.{IsOutcome, execute_plan-IsOutcome}
use xs_nexus.RouteManager.Reconcile.{has-without, IsReconciled, execute_plan-IsReconciled}
use xs_nexus.RouteManager.Addresses.{
  IsAddressBackend, IsProvisioned, provision_network-IsProvisioned,
}
use xs_nexus.RouteManager.Recovery.{keys, execute_recovery-clears}

abbrev host_bits : ℕ → ℕ
host_bits len = 32 - min 32 len

abbrev nets : HostNetworks
nets = record {
  nets = toy;
  addr = λ p. p.0;
  broadcast = λ p. p.0 + 2 ^ host_bits p.1 - 1;
  new_net = λ address len. some (address / 2 ^ host_bits len * 2 ^ host_bits len, len);
}

abbrev Host : Type 0
Host = List (RouteKey nets) × Bool

-- A call that fails, or one that changes the host, by a test.
abbrev fail_if : Bool → Host → Host → Option (Unit {0}) × Host
fail_if true before after = (some tt, before)
fail_if false before after = (none, after)

abbrev done_if : Bool → Host → Host → Option (Unit {0}) × Host
done_if true before after = (none, after)
done_if false before after = (some tt, before)

abbrev create_route : Host → RouteKey nets → Option (Unit {0}) × Host
create_route host route = fail_if (has nets host.0 route) host (route ∷ host.0, host.1)

abbrev delete_route : Host → RouteKey nets → Option (Unit {0}) × Host
delete_route host route =
    done_if (has nets host.0 route) host (without nets host.0 (route ∷ []), host.1)

abbrev routes : RouteBackend nets
routes = record { Host = Host; Error = Unit {0}; create = create_route; delete = delete_route }

abbrev backend : HostNetworkBackend nets
backend = record {
  backend = routes;
  create_address = λ host luid address len. fail_if host.1 host (host.0, true);
  delete_address = λ host luid address len. (none, (host.0, false));
  dad_state = λ host luid address len. (inr preferred, host);
  wait_dad_poll = λ host. host;
}

abbrev table : Host → RouteKey nets → Bool
table host key = has nets host.0 key

abbrev there : Host → ℕ → ℕ → ℕ → Bool
there host luid address len = host.1

or_comm : (p q : Bool) → (p || q) ≡ (q || p)
or_comm true true = refl
or_comm true false = refl
or_comm false true = refl
or_comm false false = refl

or_last : (p : Bool) → (p || false) ≡ p
or_last true = refl
or_last false = refl

-- Which branch a call took.
refused_none : (c : Bool) (x y : Host) → (fail_if c x y).0 ≡ none → c ≡ false
refused_none true x y e = absurd (cc)
refused_none false x y e = refl

refused_some :
    (c : Bool) (x y : Host) (error : Unit {0}) → (fail_if c x y).0 ≡ some error → c ≡ true
refused_some true x y error e = refl
refused_some false x y error e = absurd (cc)

taken_none : (c : Bool) (x y : Host) → (done_if c x y).0 ≡ none → c ≡ true
taken_none true x y e = refl
taken_none false x y e = absurd (cc)

taken_some : (c : Bool) (x y : Host) (error : Unit {0}) → (done_if c x y).0 ≡ some error → c ≡ false
taken_some true x y error e = absurd (cc)
taken_some false x y error e = refl

same_address :
    (c : Bool) (host : Host) (left : List (RouteKey nets))
    → (done_if c host (left, host.1)).1.1 ≡ host.1
same_address true host left = refl
same_address false host left = refl

routes-IsRouteBackend : IsRouteBackend nets routes table
unfolding has
routes-IsRouteBackend = record {
  created = λ host route e.
      let unknown = refused_none (has nets host.0 route) _ _ e in
      (unknown, λ key. rw unknown (or_comm (same_route nets route key) (has nets host.0 key)));
  not_created = λ host route error e key.
      let known = refused_some (has nets host.0 route) _ _ error e in rw known refl;
  deleted = λ host route e.
      let known = taken_none (has nets host.0 route) _ _ e in
      (
        known,
        λ key. rw known (
            has-without nets toy-IsNetworks host.0 (route ∷ []) key
            ∙ ap (λ (t : Bool). has nets host.0 key && not t)
                (or_last (same_route nets route key))),
      );
  not_deleted = λ host route error e key.
      let unknown = taken_some (has nets host.0 route) _ _ error e in rw unknown refl;
}

backend-IsAddressBackend : IsAddressBackend backend table there
backend-IsAddressBackend = record {
  deleted = λ host luid address len e. refl;
  not_created =
      λ host luid address len error e. let known = refused_some host.1 _ _ error e in rw known refl;
  keeps_routes = λ host luid address len key. refl;
  keeps_addresses = λ host route luid address len. same_address (has nets host.0 route) host _;
}

abbrev key_of : ℕ → RouteKey nets
key_of byte = record { prefix = (byte * 2 ^ 24, 8); interface_luid = 5; next_hop = 0; metric = 32 }

abbrev host : Host
host = (key_of 10 ∷ [], true)

abbrev system : List (SystemRoute nets)
system = record { key = key_of 10; project_owned = true } ∷ []

abbrev plan : ReconcilePlan nets
plan = record {
  additions = key_of 11 ∷ [];
  compensation = key_of 11 ∷ [];
  removals = key_of 10 ∷ [];
}

planned : plan_reconcile nets 5 ((11 * 2 ^ 24, 8) ∷ []) (key_of 10 ∷ []) system ≡ ok plan
unfolding plan_reconcile project_all project safe_prefix reserved networks_overlap unique_beside
    all_owned owned_in is_project_shape meets_foreign without sort_routes insert_route route_before
    has same_route
planned = refl

executed : execute_plan routes host plan ≡ (none, (key_of 11 ∷ [], true))
unfolding execute_plan add_routes remove_routes has same_route without
executed = refl

seen : All (λ (entry : SystemRoute nets). table host entry.key ≡ true) system
unfolding has same_route
seen = (refl, tt)

execute_plan-IsOutcome_example :
    IsOutcome nets toy-IsNetworks routes table routes-IsRouteBackend
      (table host)
      plan
      (execute_plan routes host plan)
execute_plan-IsOutcome_example =
    execute_plan-IsOutcome nets toy-IsNetworks routes table routes-IsRouteBackend host plan

execute_plan-IsReconciled_example :
    IsReconciled nets toy-IsNetworks 5
      ((11 * 2 ^ 24, 8) ∷ [])
      (key_of 10 ∷ [])
      system
      (table host)
      (table (key_of 11 ∷ [], true))
execute_plan-IsReconciled_example =
    execute_plan-IsReconciled nets toy-IsNetworks routes table routes-IsRouteBackend host
      (key_of 11 ∷ [], true) 5 ((11 * 2 ^ 24, 8) ∷ []) (key_of 10 ∷ []) system plan seen planned
      executed

provision_network-IsProvisioned_example :
    IsProvisioned backend table there backend-IsAddressBackend 5
      (100 * 2 ^ 24 + 1)
      10
      ([], false)
      plan
      (provision_network backend 5 (100 * 2 ^ 24 + 1) 10 ([], false) 3 plan)
provision_network-IsProvisioned_example =
    provision_network-IsProvisioned backend table there backend-IsAddressBackend 5
      (100 * 2 ^ 24 + 1) 10 ([], false) 3 plan

abbrev manifest : NetworkManifest nets
manifest = record {
  schema_version = 1;
  state = active;
  interface_luid = 5;
  address = 100 * 2 ^ 24 + 1;
  prefix_length = 10;
  routes = key_of 10 ∷ [];
}

abbrev recovery : RecoveryPlan nets
recovery = record { routes = key_of 10 ∷ []; delete_address = true }

recovery_planned : plan_recovery nets manifest system true ≡ ok recovery
unfolding plan_recovery validate validate_routes safe_host is_project_shape project safe_prefix
    reserved networks_overlap recorded_routes recorded_in sort_routes insert_route route_before
    dedup_after has same_route
recovery_planned = refl

recovered : execute_recovery backend host manifest recovery ≡ (none, ([], false))
unfolding execute_recovery delete_all delete_planned_address has same_route without
recovered = refl

snapshot : (key : RouteKey nets) → table host key ≡ has nets (keys system) key
snapshot key = refl

execute_recovery-clears_example :
    ((key : RouteKey nets)
      → table ([], false) key ≡ (table host key && not (has nets manifest.routes key)))
    × (there ([], false) 5 (100 * 2 ^ 24 + 1) 10 ≡ false)
execute_recovery-clears_example =
    execute_recovery-clears nets toy-IsNetworks backend table there backend-IsAddressBackend
      routes-IsRouteBackend host ([], false) manifest system recovery snapshot recovery_planned
      recovered
