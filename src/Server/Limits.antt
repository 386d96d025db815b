-- ===== src/Server/Limits.antt =====
-- What the limits of apps/relay/src/server.rs limit: the traffic that a lease's budget lets through.
use xs_nexus.Base.{
  ℕ, ◌+◌, ◌-◌, ◌^◌, ◌<◌, ◌≤◌, ◌≡◌, true, false, ◌&&◌, ltb, leb, saturating_add, arith, Bool-cases,
  inl, inr, refl, leb→le,
}
use xs_nexus.Server.{TrafficBudget}
use xs_nexus.Server.Budgets.{can_accept, commit_traffic, traffic_window}

-- The budget is within its limits.
pub record Within (packet_limit byte_limit : ℕ) (t : TrafficBudget) : Type 0 where
  pub packets : t.packets ≤ packet_limit
  pub bytes : t.bytes ≤ byte_limit

admitted :
    (packets packet_limit total bytes byte_limit : ℕ)
    → byte_limit < 2 ^ 64 - 1
    → (ltb packets packet_limit && leb (saturating_add (2 ^ 64 - 1) total bytes) byte_limit) ≡ true
    → (packets < packet_limit) × (total + bytes ≤ byte_limit)
admitted packets packet_limit total bytes byte_limit few h = ground arith

-- A datagram that is let through leaves the budget within its limits,
-- counted by one packet and by its bytes, in the window it had or in a new one; a new one starts
-- only when the second of the last is over.
pub commit_traffic-Within :
    (t : TrafficBudget) (now bytes packet_limit byte_limit : ℕ)
    → Within packet_limit byte_limit t
    → 0 < packet_limit
    → packet_limit < 2 ^ 32
    → byte_limit < 2 ^ 64 - 1
    → can_accept t now bytes packet_limit byte_limit ≡ true
    → let t' = commit_traffic t now bytes in
      Within packet_limit byte_limit t'
      × (leb traffic_window (now - t.window_started) ≡ true
          → (t'.window_started ≡ now) × (t'.packets ≡ 1) × (t'.bytes ≡ bytes))
      × (leb traffic_window (now - t.window_started) ≡ false
          → (t'.window_started ≡ t.window_started)
            × (t'.packets ≡ t.packets + 1)
            × (t'.bytes ≡ t.bytes + bytes))
unfolding can_accept commit_traffic
commit_traffic-Within t now bytes packet_limit byte_limit h some_packets small few p =
    elim (Bool-cases (leb traffic_window (now - t.window_started))) [
      | inl over ↦
          let fits : bytes ≤ byte_limit = leb→le _ _ (rw over at p) in
          let size : saturating_add (2 ^ 64 - 1) 0 bytes ≡ bytes = omega (arith, few) in
          rw over (
            record { packets = some_packets; bytes = omega (arith, size) },
            λ _. (refl, refl, size),
            λ e. absurd (cc),
          )
      | inr running ↦
          let (fewer, fits) =
            admitted t.packets packet_limit t.bytes bytes byte_limit few (rw running at p) in
          let count : saturating_add (2 ^ 32 - 1) t.packets 1 ≡ t.packets + 1 =
            omega (arith, small, fewer) in
          let size : saturating_add (2 ^ 64 - 1) t.bytes bytes ≡ t.bytes + bytes =
            omega (arith, fits, few) in
          rw running (
            record { packets = omega (arith, count, fewer); bytes = omega (arith, size, fits) },
            λ e. absurd (cc),
            λ _. (refl, count, size),
          )
    ]
