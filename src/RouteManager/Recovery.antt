-- ===== src/RouteManager/Recovery.antt =====
-- What a recovery leaves in the host's table (`plan_recovery`, then `execute_recovery` of
-- crates/windows-route-manager/src/lib.rs).
use xs_nexus.Base.{
  ℕ, ◌≡◌, inl, inr, refl, sym, ap, ◌∙◌, Bool, true, false, not, ◌&&◌, ◌||◌, Option, none, some,
  List, [], ◌∷◌, leb, length, is_empty, Bool-cases, if◌then◌else◌,
}
use mathlib.Core.Path.{subst}
use xs_nexus.Base.Results.{ok, require-passed, bind-passed, ok-eq}
use xs_nexus.Routes.{IsNetworks, networks_overlap}
use xs_nexus.Routes.Overlap.{contains-network}
use xs_nexus.RouteManager.{
  HostNetworks, RouteKey, SystemRoute, NetworkManifest, max_system_routes, same_route, has,
  overlaps, sort_routes, validate,
}
use xs_nexus.RouteManager.Plan.{RecoveryPlan, reverse, recorded_in, recorded_routes, plan_recovery}
use xs_nexus.RouteManager.Execute.{
  HostNetworkBackend, RecoveryError, delete_all, no_failure, delete_planned_address,
  execute_recovery,
}
use xs_nexus.RouteManager.Undo.{IsRouteBackend, same_route-eq}
use xs_nexus.RouteManager.Keys.{has-append, has-reverse, has-dedup, delete_all-clears}
use xs_nexus.RouteManager.Addresses.{IsAddressBackend, delete_all-keeps_addresses}
use xs_nexus.RouteManager.Reconcile.{has-sort_routes}

abbrev pub keys : {h : HostNetworks} → List (SystemRoute h) → List (RouteKey h)
keys [] = []
keys (entry ∷ system) = entry.key ∷ keys system

and_nothing : (p : Bool) → false ≡ (p && false)
and_nothing true = refl
and_nothing false = refl

or_both : (p q : Bool) → (p || (p && q)) ≡ (p && (p || q))
or_both true q = refl
or_both false q = refl

left_over : (t m : Bool) → (t && not (m && t)) ≡ (t && not m)
left_over true true = refl
left_over true false = refl
left_over false m = refl

not_both : (p q s : Bool) → (p ≡ true → q ≡ true → ⊥) → (p && s) ≡ (p && (q || s))
not_both false q s f = refl
not_both true false s f = refl
not_both true true s f = absurd (f refl refl)

common : (p q s : Bool) → ((p && s) || (q && s)) ≡ ((p || q) && s)
common true true true = refl
common true true false = refl
common true false true = refl
common true false false = refl
common false q s = refl

passed_same : (o s p : Bool) → o ≡ true → (not o || (s && p)) ≡ true → s ≡ true
passed_same false s p e f = absurd (cc)
passed_same true true p e f = refl
passed_same true false p e f = absurd (cc)

module _ (h : HostNetworks) (laws : IsNetworks h.nets) where
  self-overlaps : (route : RouteKey h) → overlaps h route.prefix route.prefix ≡ true
  unfolding networks_overlap
  self-overlaps route = rw (contains-network h.nets laws route.prefix) refl

  -- A recorded route is in the plan if the system has its key.
  has-recorded_in :
      (recorded : RouteKey h) (system : List (SystemRoute h)) (found : List (RouteKey h))
      → recorded_in h recorded system ≡ ok found
      → (key : RouteKey h)
      → has h found key ≡ (same_route h recorded key && has h (keys system) key)
  unfolding recorded_in has
  has-recorded_in recorded [] found e key =
      ap (λ (l : List (RouteKey h)). has h l key) (sym (ok-eq e))
      ∙ and_nothing (same_route h recorded key)
  has-recorded_in recorded (current ∷ system) found e key =
      let (allowed, e) =
        require-passed
          (not (overlaps h current.key.prefix recorded.prefix)
            || same_route h current.key recorded && current.project_owned)
          _ _ e in
      let (rest, before, e) = bind-passed (recorded_in h recorded system) _ e in
      let behind = has-recorded_in recorded system rest before key in
      let result = ap (λ (l : List (RouteKey h)). has h l key) (sym (ok-eq e)) in
      result ∙ elim (Bool-cases (overlaps h current.key.prefix recorded.prefix)) [
        | inl meets ↦
            let same =
              passed_same (overlaps h current.key.prefix recorded.prefix)
                (same_route h current.key recorded) current.project_owned meets allowed in
            rw (meets, behind, same_route-eq h laws current.key recorded same)
              (or_both (same_route h recorded key) (has h (keys system) key))
        | inr apart ↦
            rw (apart, behind)
              (not_both (same_route h recorded key) (same_route h current.key key)
                (has h (keys system) key)
                (λ p q.
                  let one =
                    same_route-eq h laws current.key key q
                    ∙ sym (same_route-eq h laws recorded key p) in
                  let meets : overlaps h current.key.prefix recorded.prefix ≡ true =
                    ap (λ (r : RouteKey h). overlaps h r.prefix recorded.prefix) one
                    ∙ self-overlaps recorded in
                  cc))
      ]

  has-recorded_routes :
      (system : List (SystemRoute h)) (routes found : List (RouteKey h))
      → recorded_routes h system routes ≡ ok found
      → (key : RouteKey h) → has h found key ≡ (has h routes key && has h (keys system) key)
  unfolding recorded_routes has
  has-recorded_routes system [] found e key =
      ap (λ (l : List (RouteKey h)). has h l key) (sym (ok-eq e))
  has-recorded_routes system (recorded ∷ routes) found e key =
      let (one, first, e) = bind-passed (recorded_in h recorded system) _ e in
      let (rest, before, e) = bind-passed (recorded_routes h system routes) _ e in
      ap (λ (l : List (RouteKey h)). has h l key) (sym (ok-eq e))
      ∙ (has-append h laws one rest key
          ∙ (ap (λ (t : Bool). t || has h rest key) (has-recorded_in recorded system one first key)
              ∙ (ap (λ (t : Bool). (same_route h recorded key && has h (keys system) key) || t)
                    (has-recorded_routes system routes rest before key)
                  ∙ common (same_route h recorded key) (has h routes key)
                      (has h (keys system) key))))

  -- A plan of `plan_recovery` has the recorded routes that the system has.
  pub has-plan_recovery :
      (manifest : NetworkManifest h) (system : List (SystemRoute h)) (present : Bool)
      (plan : RecoveryPlan h)
      → plan_recovery h manifest system present ≡ ok plan
      → (key : RouteKey h)
      → has h plan.routes key ≡ (has h manifest.routes key && has h (keys system) key)
  unfolding plan_recovery
  has-plan_recovery manifest system present plan e key =
      let (_, _, e) = bind-passed (validate h manifest) _ e in
      let (_, e) = require-passed (leb (length system) max_system_routes) _ _ e in
      let (routes, recorded, e) = bind-passed (recorded_routes h system manifest.routes) _ e in
      ap (λ (p : RecoveryPlan h). has h p.routes key) (sym (ok-eq e))
      ∙ (has-dedup h laws (sort_routes h routes) key
          ∙ (has-sort_routes h laws routes key
              ∙ has-recorded_routes system manifest.routes routes recorded key))

  plan_recovery-address :
      (manifest : NetworkManifest h) (system : List (SystemRoute h)) (present : Bool)
      (plan : RecoveryPlan h)
      → plan_recovery h manifest system present ≡ ok plan
      → plan.delete_address ≡ present
  unfolding plan_recovery
  plan_recovery-address manifest system present plan e =
      let (_, _, e) = bind-passed (validate h manifest) _ e in
      let (_, e) = require-passed (leb (length system) max_system_routes) _ _ e in
      let (routes, _, e) = bind-passed (recorded_routes h system manifest.routes) _ e in
      ap (λ (p : RecoveryPlan h). p.delete_address) (sym (ok-eq e))

  nothing_failed :
      (b : HostNetworkBackend h) (failures : List (RouteKey h × b.backend.Error))
      (o : Option b.backend.Error) (error : RecoveryError b)
      → (if is_empty failures && no_failure b o then none else some error) ≡ none
      → (failures ≡ []) × (o ≡ none)
  nothing_failed b [] none error e = (refl, refl)
  nothing_failed b [] (some _) error e = absurd (cc)
  nothing_failed b (failure ∷ failures) o error e = absurd (cc)

  module _ (b : HostNetworkBackend h) (table : b.backend.Host → RouteKey h → Bool)
      (there : b.backend.Host → ℕ → ℕ → ℕ → Bool) (addresses : IsAddressBackend b table there) where
    planned_address-keeps_routes :
        (host : b.backend.Host) (manifest : NetworkManifest h) (plan : RecoveryPlan h)
        (key : RouteKey h)
        → table (delete_planned_address b host manifest plan).1 key ≡ table host key
    unfolding delete_planned_address
    planned_address-keeps_routes host manifest plan key = elim (Bool-cases plan.delete_address) [
      | inl planned ↦
          rw (planned, delete_planned_address)
            (addresses.keeps_routes host manifest.interface_luid manifest.address
              manifest.prefix_length key)
      | inr kept ↦ rw (kept, delete_planned_address) refl
    ]

    planned_address-clears :
        (host : b.backend.Host) (manifest : NetworkManifest h) (plan : RecoveryPlan h)
        → there host manifest.interface_luid manifest.address manifest.prefix_length
          ≡ plan.delete_address
        → (delete_planned_address b host manifest plan).0 ≡ none
        → there
            (delete_planned_address b host manifest plan).1
            manifest.interface_luid
            manifest.address
            manifest.prefix_length
          ≡ false
    unfolding delete_planned_address
    planned_address-clears host manifest plan seen done = elim (Bool-cases plan.delete_address) [
      | inl planned ↦
          let done : (b.delete_address host manifest.interface_luid manifest.address
                manifest.prefix_length).0
              ≡ none =
            subst
              (λ (c : Bool).
                (if c
                  then b.delete_address host manifest.interface_luid manifest.address
                      manifest.prefix_length
                  else (none, host)).0
                ≡ none)
              planned done in
          rw (planned, delete_planned_address)
            (addresses.deleted host manifest.interface_luid manifest.address manifest.prefix_length
              done)
      | inr kept ↦ rw (kept, delete_planned_address) (seen ∙ kept)
    ]

    -- A recovery that succeeds, after a snapshot of the host's routes and of the recorded address, leaves
    -- the routes that the manifest does not record and no others, and the recorded address is gone.
    pub execute_recovery-clears :
        IsRouteBackend h b.backend table
        → (host after : b.backend.Host) (manifest : NetworkManifest h)
          (system : List (SystemRoute h)) (plan : RecoveryPlan h)
        → ((key : RouteKey h) → table host key ≡ has h (keys system) key)
        → plan_recovery h manifest system
            (there host manifest.interface_luid manifest.address manifest.prefix_length)
          ≡ ok plan
        → execute_recovery b host manifest plan ≡ (none, after)
        → ((key : RouteKey h)
            → table after key ≡ (table host key && not (has h manifest.routes key)))
          × (there after manifest.interface_luid manifest.address manifest.prefix_length ≡ false)
    unfolding execute_recovery
    execute_recovery-clears backend host after manifest system plan snapshot planned done =
        let routes = delete_all b.backend host (reverse h plan.routes) in
        let address = delete_planned_address b routes.1 manifest plan in
        let (no_routes, no_address) = nothing_failed b routes.0 address.0 _ (λ i. (done i).0) in
        let same : address.1 ≡ after = λ i. (done i).1 in
        let seen =
          delete_all-keeps_addresses b table there addresses host (reverse h plan.routes)
            manifest.interface_luid manifest.address manifest.prefix_length in
        (
          λ key.
              ap (λ (s : b.backend.Host). table s key) (sym same)
              ∙ (planned_address-keeps_routes routes.1 manifest plan key
                  ∙ (delete_all-clears h laws b.backend table backend host (reverse h plan.routes)
                        no_routes key
                      ∙ (ap (λ (t : Bool). table host key && not t)
                            (has-reverse h laws plan.routes key
                              ∙ (has-plan_recovery manifest system _ plan planned key
                                  ∙ ap (λ (t : Bool). has h manifest.routes key && t)
                                      (sym (snapshot key))))
                          ∙ left_over (table host key) (has h manifest.routes key)))),
          ap
                (λ (s : b.backend.Host).
                  there s manifest.interface_luid manifest.address manifest.prefix_length)
                (sym same)
              ∙ planned_address-clears routes.1 manifest plan
                  (seen ∙ sym (plan_recovery-address manifest system _ plan planned)) no_address,
        )
