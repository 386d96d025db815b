-- ===== src/RouteManager/Provision.antt =====
-- `provision_network` of crates/windows-route-manager/src/lib.rs.
use xs_nexus.Base.{ℕ, zero, suc, Option, none, some, inl, inr, ◌==◌, if◌then◌else◌}
use xs_nexus.RouteManager.{HostNetworks, DadState, tentative, preferred}
use xs_nexus.RouteManager.Plan.{ReconcilePlan}
use xs_nexus.RouteManager.Execute.{HostNetworkBackend, ExecuteError, execute_plan}

module _ {h : HostNetworks} (b : HostNetworkBackend h) where
  pub data ProvisionError : Type 0 where
    address_create : (source : b.backend.Error) → ProvisionError
    dad_query : (source : b.backend.Error) (cleanup : Option b.backend.Error) → ProvisionError
    dad_rejected : (state : DadState) (cleanup : Option b.backend.Error) → ProvisionError
    dad_timeout : (cleanup : Option b.backend.Error) → ProvisionError
    routes_failed :
        (source : ExecuteError b.backend) (cleanup : Option b.backend.Error) → ProvisionError

  module _ (interface_luid address prefix_length : ℕ) where
    -- The address is deleted, and the error carries what that gave.
    unfoldable pub cleaned_up :
        b.backend.Host
        → (Option b.backend.Error → ProvisionError)
        → Option ProvisionError × b.backend.Host
    cleaned_up host error =
        let deleted = b.delete_address host interface_luid address prefix_length in
        (some (error deleted.0), deleted.1)

    unfoldable pub provision_routes :
        b.backend.Host → ReconcilePlan h → Option ProvisionError × b.backend.Host
    provision_routes host routes =
        let done = execute_plan b.backend host routes in
        elim (done.0) [
          | none ↦ (none, done.1)
          | some source ↦ cleaned_up done.1 (routes_failed source)
        ]

    -- A tentative state ends the loop at the last poll; every other state but the preferred one and
    -- every failed query end it at once.
    unfoldable pub poll_dad :
        ℕ → b.backend.Host → ReconcilePlan h → Option ProvisionError × b.backend.Host
    poll_dad zero host routes = cleaned_up host dad_timeout
    poll_dad (suc polls) host routes =
        let asked = b.dad_state host interface_luid address prefix_length in
        let again = poll_dad polls (b.wait_dad_poll asked.1) routes in
        elim (asked.0) [
          | inl source ↦ cleaned_up asked.1 (dad_query source)
          | inr preferred ↦ provision_routes asked.1 routes
          | inr tentative ↦ if polls == 0 then cleaned_up asked.1 dad_timeout else again
          | inr state ↦ cleaned_up asked.1 (dad_rejected state)
        ]

    unfoldable pub provision_network :
        b.backend.Host → ℕ → ReconcilePlan h → Option ProvisionError × b.backend.Host
    provision_network host maximum_dad_polls routes =
        let created = b.create_address host interface_luid address prefix_length in
        elim (created.0) [
          | some source ↦ (some (address_create source), created.1)
          | none ↦ poll_dad maximum_dad_polls created.1 routes
        ]
