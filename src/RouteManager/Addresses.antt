-- ===== src/RouteManager/Addresses.antt =====
-- What a provisioned or a refused network leaves of its address (`provision_network` of
-- crates/windows-route-manager/src/lib.rs).
use xs_nexus.Base.{
  ℕ, zero, suc, ◌≡◌, ◌⊎◌, inl, inr, refl, ◌∙◌, Bool, false, Option, none, some, List, [], ◌∷◌,
  Option-cases, Bool-cases, ◌==◌,
}
use xs_nexus.RouteManager.{
  HostNetworks, RouteKey, DadState, invalid, tentative, duplicate, deprecated, preferred, unknown,
}
use xs_nexus.RouteManager.Plan.{ReconcilePlan}
use xs_nexus.RouteManager.Execute.{HostNetworkBackend, ExecuteError, delete_all, execute_plan}
use xs_nexus.RouteManager.Provision.{
  ProvisionError, address_create, dad_query, dad_rejected, dad_timeout, routes_failed, cleaned_up,
  provision_routes, poll_dad, provision_network,
}

-- What the functions of the platform promise of the addresses: a deleted one is not there, one that
-- is not created is there only if it was, and routes and addresses leave each other alone.
pub record IsAddressBackend {h : HostNetworks} (b : HostNetworkBackend h)
    (table : b.backend.Host → RouteKey h → Bool) (there : b.backend.Host → ℕ → ℕ → ℕ → Bool)
    : Type 0 where
  pub deleted :
      (host : b.backend.Host) (luid address len : ℕ)
      → (b.delete_address host luid address len).0 ≡ none
      → there (b.delete_address host luid address len).1 luid address len ≡ false
  pub not_created :
      (host : b.backend.Host) (luid address len : ℕ) (error : b.backend.Error)
      → (b.create_address host luid address len).0 ≡ some error
      → there (b.create_address host luid address len).1 luid address len
        ≡ there host luid address len
  pub keeps_routes :
      (host : b.backend.Host) (luid address len : ℕ) (key : RouteKey h)
      → table (b.delete_address host luid address len).1 key ≡ table host key
  pub keeps_addresses :
      (host : b.backend.Host) (route : RouteKey h) (luid address len : ℕ)
      → there (b.backend.delete host route).1 luid address len ≡ there host luid address len

module _ {h : HostNetworks} (b : HostNetworkBackend h) (table : b.backend.Host → RouteKey h → Bool)
    (there : b.backend.Host → ℕ → ℕ → ℕ → Bool) (backend : IsAddressBackend b table there) where
  pub delete_all-keeps_addresses :
      (host : b.backend.Host) (routes : List (RouteKey h)) (luid address len : ℕ)
      → there (delete_all b.backend host routes).1 luid address len ≡ there host luid address len
  unfolding delete_all
  delete_all-keeps_addresses host [] luid address len = refl
  delete_all-keeps_addresses host (route ∷ routes) luid address len =
      delete_all-keeps_addresses (b.backend.delete host route).1 routes luid address len
      ∙ backend.keeps_addresses host route luid address len

  module _ (luid address len : ℕ) where
    -- The address is gone unless the error says that its deletion failed.
    abbrev pub IsCleaned : Option b.backend.Error → b.backend.Host → Type 0
    IsCleaned none after = there after luid address len ≡ false
    IsCleaned (some error) after =
        (host : b.backend.Host) × (b.delete_address host luid address len ≡ (some error, after))

    -- A success follows a preferred state and the transaction's success; an error that says no more
    -- leaves the address gone, and a refused creation leaves it as it was.
    unfoldable pub IsProvisioned :
        b.backend.Host → ReconcilePlan h → Option (ProvisionError b) × b.backend.Host → Type 0
    IsProvisioned host routes (none, after) =
        (asked : b.backend.Host) × ((b.dad_state asked luid address len).0 ≡ inr preferred)
        × (execute_plan b.backend (b.dad_state asked luid address len).1 routes ≡ (none, after))
    IsProvisioned host routes (some (address_create source), after) =
        there after luid address len ≡ there host luid address len
    IsProvisioned host routes (some (dad_query source cleanup), after) = IsCleaned cleanup after
    IsProvisioned host routes (some (dad_rejected state cleanup), after) = IsCleaned cleanup after
    IsProvisioned host routes (some (dad_timeout cleanup), after) = IsCleaned cleanup after
    IsProvisioned host routes (some (routes_failed source cleanup), after) = IsCleaned cleanup after

    cleaned :
        (host : b.backend.Host)
        → IsCleaned
            (b.delete_address host luid address len).0
            (b.delete_address host luid address len).1
    cleaned host = elim (Option-cases (b.delete_address host luid address len).0) [
      | inl done ↦ rw done (backend.deleted host luid address len done)
      | inr (error, failed) ↦
          rw failed (host, λ i. (failed i, (b.delete_address host luid address len).1))
    ]

    timed_out :
        (start host : b.backend.Host) (routes : ReconcilePlan h)
        → IsProvisioned start routes (cleaned_up b luid address len host dad_timeout)
    unfolding IsProvisioned cleaned_up
    timed_out start host routes = cleaned host

    refused :
        (start host : b.backend.Host) (routes : ReconcilePlan h) (state : DadState)
        → IsProvisioned start routes (cleaned_up b luid address len host (dad_rejected state))
    unfolding IsProvisioned cleaned_up
    refused start host routes state = cleaned host

    unanswered :
        (start host : b.backend.Host) (routes : ReconcilePlan h) (source : b.backend.Error)
        → IsProvisioned start routes (cleaned_up b luid address len host (dad_query source))
    unfolding IsProvisioned cleaned_up
    unanswered start host routes source = cleaned host

    withdrawn :
        (start host : b.backend.Host) (routes : ReconcilePlan h) (source : ExecuteError b.backend)
        → IsProvisioned start routes (cleaned_up b luid address len host (routes_failed source))
    unfolding IsProvisioned cleaned_up
    withdrawn start host routes source = cleaned host

    in_place :
        (start asked : b.backend.Host) (routes : ReconcilePlan h)
        → (b.dad_state asked luid address len).0 ≡ inr preferred
        → (execute_plan b.backend (b.dad_state asked luid address len).1 routes).0 ≡ none
        → IsProvisioned start routes
            (none, (execute_plan b.backend (b.dad_state asked luid address len).1 routes).1)
    unfolding IsProvisioned
    in_place start asked routes ready done = (
      asked,
      ready,
      λ i. (done i, (execute_plan b.backend (b.dad_state asked luid address len).1 routes).1),
    )

    not_made :
        (host : b.backend.Host) (routes : ReconcilePlan h) (error : b.backend.Error)
        → (b.create_address host luid address len).0 ≡ some error
        → IsProvisioned host routes
            (some (address_create error), (b.create_address host luid address len).1)
    unfolding IsProvisioned
    not_made host routes error failed = backend.not_created host luid address len error failed

    routed :
        (start asked : b.backend.Host) (routes : ReconcilePlan h)
        → (b.dad_state asked luid address len).0 ≡ inr preferred
        → IsProvisioned start routes
            (provision_routes b luid address len (b.dad_state asked luid address len).1 routes)
    unfolding provision_routes
    routed start asked routes ready =
        let host = (b.dad_state asked luid address len).1 in
        elim (Option-cases (execute_plan b.backend host routes).0) [
          | inl done ↦ rw (done, provision_routes) (in_place start asked routes ready done)
          | inr (error, failed) ↦
              rw (failed, provision_routes)
                (withdrawn start (execute_plan b.backend host routes).1 routes error)
        ]

    polled :
        (start host : b.backend.Host) (polls : ℕ) (routes : ReconcilePlan h)
        (answer : b.backend.Error ⊎ DadState)
        → (b.dad_state host luid address len).0 ≡ answer
        → IsProvisioned start routes (
            poll_dad b luid address len polls
              (b.wait_dad_poll (b.dad_state host luid address len).1)
              routes)
        → IsProvisioned start routes (poll_dad b luid address len (suc polls) host routes)
    unfolding poll_dad
    polled start host polls routes (inl source) e again =
        rw (e, poll_dad) (unanswered start _ routes source)
    polled start host polls routes (inr preferred) e again =
        rw (e, poll_dad) (routed start host routes e)
    polled start host polls routes (inr tentative) e again = elim (Bool-cases (polls == 0)) [
      | inl last ↦ rw (e, last, poll_dad) (timed_out start _ routes)
      | inr more ↦ rw (e, more, poll_dad) again
    ]
    polled start host polls routes (inr invalid) e again =
        rw (e, poll_dad) (refused start _ routes invalid)
    polled start host polls routes (inr duplicate) e again =
        rw (e, poll_dad) (refused start _ routes duplicate)
    polled start host polls routes (inr deprecated) e again =
        rw (e, poll_dad) (refused start _ routes deprecated)
    polled start host polls routes (inr (unknown code)) e again =
        rw (e, poll_dad) (refused start _ routes (unknown code))

    poll_dad-IsProvisioned :
        (start host : b.backend.Host) (polls : ℕ) (routes : ReconcilePlan h)
        → IsProvisioned start routes (poll_dad b luid address len polls host routes)
    unfolding poll_dad
    poll_dad-IsProvisioned start host zero routes = timed_out start host routes
    poll_dad-IsProvisioned start host (suc polls) routes =
        polled start host polls routes (b.dad_state host luid address len).0 refl (
          poll_dad-IsProvisioned start (b.wait_dad_poll (b.dad_state host luid address len).1) polls
            routes)

    -- A network is provisioned only after its address is preferred and its routes are all in place.
    -- Otherwise the address is deleted again, or the error names the failure of that; and if it was not
    -- created, it is there only if it was before.
    pub provision_network-IsProvisioned :
        (host : b.backend.Host) (maximum_dad_polls : ℕ) (routes : ReconcilePlan h)
        → IsProvisioned host routes
            (provision_network b luid address len host maximum_dad_polls routes)
    unfolding provision_network
    provision_network-IsProvisioned host maximum_dad_polls routes =
        elim (Option-cases (b.create_address host luid address len).0) [
          | inl created ↦
              rw (created, provision_network)
                (poll_dad-IsProvisioned host (b.create_address host luid address len).1
                  maximum_dad_polls routes)
          | inr (error, failed) ↦ rw (failed, provision_network) (not_made host routes error failed)
        ]
