-- ===== src/AgentRelay/Runs.antt =====
-- A relay client's counters through a series of calls (apps/agent/src/relay.rs).
use xs_nexus.Base.{
  ℕ, ◌-◌, ◌^◌, ◌<◌, ◌≤◌, ◌≡◌, inl, inr, Bool, false, not, ◌&&◌, ◌||◌, Option, none, some, List, [],
  ◌∷◌, ◌++◌, ltb, leb, ◌==◌, Bool-cases, Option-cases, arith,
}
use mathlib.Core.Path.{subst}
use xs_nexus.Credential.{Signing}
use xs_nexus.AgentRelay.{
  RelayLease, PendingRegistration, RelayClient, RelayNode, registration_max_attempts,
  registration_retry_interval, relay_keepalive_interval, is_some, next_of,
}
use xs_nexus.AgentRelay.Upkeep.{
  is_dead, drop_dead, retry_pending, maintain_pending, registration_due, begin_registration,
  register_if_due, keepalive_under, send_keepalive, with_keepalive, with_registration, maintain,
  Event, wrapping, receiving, active, maintaining, step, run,
}
use xs_nexus.AgentRelay.Bounds.{
  IsPending, IsLease, WellFormed, next_fits, authenticated-WellFormed, wrap-WellFormed, handled,
}

-- What a step that may fail leaves.
abbrev Leaves : Option (List (List ℕ) × RelayClient) → Type 0
Leaves none = Unit {0}
Leaves (some done) = WellFormed done.1

not_full : (a b : ℕ) → leb a b ≡ false → b < a
not_full a b h = ground arith

module _ (g : Signing) where
  dropped :
      (client : RelayClient) (now unix_now : ℕ)
      → WellFormed client
      → WellFormed (drop_dead g client now unix_now).1
  unfolding drop_dead
  dropped client now unix_now w = elim (Option-cases client.lease) [
    | inl none_held ↦ rw (none_held, drop_dead) w
    | inr (lease, held) ↦ elim (Bool-cases (is_dead g lease now unix_now)) [
      | inl dead ↦ rw (held, dead, drop_dead) (tt, tt)
      | inr alive ↦ rw (held, alive, drop_dead) w
    ]
  ]

  retried :
      (client : RelayClient) (pending : PendingRegistration) (now : ℕ)
      → WellFormed client
      → 1 ≤ pending.attempts
      → WellFormed (retry_pending g client pending now).1
  unfolding retry_pending
  retried client pending now (p, l) once =
      elim (Bool-cases (ltb (now - pending.last_sent) registration_retry_interval)) [
        | inl early ↦ rw (early, retry_pending) (p, l)
        | inr due ↦ elim (Bool-cases (leb registration_max_attempts pending.attempts)) [
          | inl exhausted ↦ rw (due, exhausted, retry_pending) (tt, l)
          | inr fewer ↦
              let small = not_full registration_max_attempts pending.attempts fewer in
              rw (due, fewer, retry_pending) ((omega arith, omega arith), l)
        ]
      ]

  pending_maintained :
      (client : RelayClient) (now : ℕ)
      → WellFormed client
      → WellFormed (maintain_pending g client now).1
  unfolding maintain_pending
  pending_maintained client now (p, l) = elim (Option-cases client.pending) [
    | inl idle ↦ rw (idle, maintain_pending) (p, l)
    | inr (pending, waits) ↦
        let bounds = subst IsPending waits p in
        rw (waits, maintain_pending) (retried client pending now (p, l) bounds.0)
  ]

  begun :
      (node : RelayNode) (client : RelayClient) (random : Option ℕ) (now unix_now : ℕ)
      → WellFormed client
      → Leaves (begin_registration g node client random now unix_now)
  unfolding begin_registration
  begun node client random now unix_now (p, l) =
      elim (Bool-cases (is_some client.pending || ltb now client.next_registration_at)) [
        | inl early ↦ rw (early, begin_registration) (p, l)
        | inr due ↦ elim (Option-cases random) [
          | inl nothing ↦ rw (due, nothing, begin_registration) tt
          | inr (id, drawn) ↦ elim (Bool-cases (id == 0)) [
            | inl zero_id ↦ rw (due, drawn, zero_id, begin_registration) tt
            | inr some_id ↦
                rw (due, drawn, some_id, begin_registration) ((omega arith, omega arith), l)
          ]
        ]
      ]

  registered_if_due :
      (node : RelayNode) (client : RelayClient) (random : Option ℕ) (now unix_now : ℕ)
      → WellFormed client
      → Leaves (register_if_due g node client random now unix_now)
  unfolding register_if_due
  registered_if_due node client random now unix_now w =
      elim (Bool-cases (not (is_some client.pending) && registration_due g client now unix_now)) [
        | inl due ↦ rw (due, register_if_due) (begun node client random now unix_now w)
        | inr later ↦ rw (later, register_if_due) w
      ]

  kept_under :
      (node : RelayNode) (client : RelayClient) (lease : RelayLease) (now : ℕ)
      → WellFormed client
      → lease.next_sequence < 2 ^ 64
      → Leaves (keepalive_under g node client lease now)
  unfolding keepalive_under
  kept_under node client lease now (p, l) small =
      elim (Bool-cases (ltb (now - lease.last_keepalive_at) relay_keepalive_interval)) [
        | inl early ↦ rw (early, keepalive_under) (p, l)
        | inr due ↦ elim (Option-cases (next_of lease.next_sequence)) [
          | inl last ↦ rw (due, last, keepalive_under) tt
          | inr (next, more) ↦
              rw (due, more, keepalive_under) (p, next_fits lease.next_sequence next small more)
        ]
      ]

  kept_alive :
      (node : RelayNode) (client : RelayClient) (now : ℕ)
      → WellFormed client
      → Leaves (send_keepalive g node client now)
  unfolding send_keepalive
  kept_alive node client now (p, l) = elim (Option-cases client.lease) [
    | inl none_held ↦ rw (none_held, send_keepalive) (p, l)
    | inr (lease, held) ↦
        rw (held, send_keepalive) (kept_under node client lease now (p, l) (subst IsLease held l))
  ]

  with_keepalive-WellFormed :
      (dead : Bool) (outbound : List (List ℕ)) (client : RelayClient)
      (kept : Option (List (List ℕ) × RelayClient))
      → WellFormed client
      → Leaves kept
      → WellFormed (with_keepalive g dead outbound client kept).client
  with_keepalive-WellFormed dead outbound client none w left = w
  with_keepalive-WellFormed dead outbound client (some kept) w left = left

  with_registration-WellFormed :
      (node : RelayNode) (dead : Bool) (outbound : List (List ℕ)) (client : RelayClient) (now : ℕ)
      (done : Option (List (List ℕ) × RelayClient))
      → WellFormed client
      → Leaves done
      → WellFormed (with_registration g node dead outbound client now done).client
  with_registration-WellFormed node dead outbound client now none w left = w
  with_registration-WellFormed node dead outbound client now (some done) w left =
      with_keepalive-WellFormed dead (outbound ++ done.0) done.1 (send_keepalive g node done.1 now)
        left (kept_alive node done.1 now left)

  maintained :
      (node : RelayNode) (client : RelayClient) (random : Option ℕ) (now unix_now utc : ℕ)
      → WellFormed client
      → WellFormed (maintain g node client random now unix_now utc).client
  unfolding maintain
  maintained node client random now unix_now utc w =
      elim (Bool-cases (leb client.config_expires_at utc)) [
        | inl over ↦ rw (over, maintain) (tt, tt)
        | inr current ↦
            let dropped_client = (drop_dead g client now unix_now).1 in
            let well = pending_maintained dropped_client now (dropped client now unix_now w) in
            let retried_client = (maintain_pending g dropped_client now).1 in
            rw (current, maintain)
              (with_registration-WellFormed node (drop_dead g client now unix_now).0
                (maintain_pending g dropped_client now).0 retried_client now
                (register_if_due g node retried_client random now unix_now) well
                (registered_if_due node retried_client random now unix_now well))
      ]

  step-WellFormed :
      (node : RelayNode) (client : RelayClient) (event : Event)
      → WellFormed client
      → WellFormed (step g node client event)
  unfolding step
  step-WellFormed node client (wrapping destination payload now utc) w =
      wrap-WellFormed node client destination payload now utc w
  step-WellFormed node client (receiving datagram now unix_now) w =
      handled g node client datagram now unix_now w
  step-WellFormed node client (active now) w = authenticated-WellFormed client now w
  step-WellFormed node client (maintaining random now unix_now utc) w =
      maintained node client random now unix_now utc w

  -- Through any series of calls the attempts that are counted for a registration stay within 1 to
  -- 6, and the sequence numbers of a lease below 2 ^ 64.
  pub run-WellFormed :
      (node : RelayNode) (client : RelayClient) (events : List Event)
      → WellFormed client
      → WellFormed (run g node client events)
  run-WellFormed node client [] w = w
  run-WellFormed node client (event ∷ events) w =
      run-WellFormed node (step g node client event) events (step-WellFormed node client event w)
