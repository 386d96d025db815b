-- ===== src/Server/Invariant/Queues.antt =====
-- The queues of `RelayServer` (apps/relay/src/server.rs): their counts, their limits and their
-- place among the active queues.
use xs_nexus.Base.{
  ℕ, suc, ◌+◌, ◌-◌, ◌<◌, ◌≤◌, ◌≡◌, ◌≢◌, ◌^◌, inl, inr, refl, ap, ◌∙◌, true, false, ◌||◌, Option,
  none, some, List, [], ◌∷◌, ◌++◌, length, is_empty, nat_key, insert, remove, insert_cases,
  remove_cases, arith, ◌==◌, ltb, leb, saturating_add, length-append,
}
use mathlib.Core.Path.{subst}
use xs_nexus.Server.{Lease, QueuedDatagram, RelayServer, usize_max}
use xs_nexus.Server.Registration.{drop_previous}
use xs_nexus.Server.Forwarding.{enqueue, popped, queue_is_full}
use xs_nexus.Server.Invariant.{IsQueue, Queued, waits, total_bytes}

-- One lease is written, and the ids of the others still wait.
pub update-Queued :
    (packets bytes : ℕ) (active active' : List ℕ) (leases : List (ℕ × Lease)) (id : ℕ)
    (lease : Lease)
    → Queued packets bytes active leases
    → IsQueue packets bytes lease
    → (lease.queue_scheduled ≡ true → waits id active' ≡ true)
    → ((other : ℕ) → id ≢ other → waits other active ≡ true → waits other active' ≡ true)
    → Queued packets bytes active' (insert id lease leases)
update-Queued packets bytes active active' leases id lease q good scheduled keep other l at =
    elim (insert_cases id other lease l leases at) [
      | inl (e, one) ↦
          subst
            (λ (m : Lease).
              IsQueue packets bytes m × (m.queue_scheduled ≡ true → waits other active' ≡ true))
            one (good, λ h. subst (λ i. waits i active' ≡ true) e (scheduled h))
      | inr (ne, held) ↦
          let (fine, waiting) = q other l held in (fine, λ h. keep other ne (waiting h))
    ]

pub remove-Queued :
    (packets bytes : ℕ) (active : List ℕ) (leases : List (ℕ × Lease)) (id : ℕ)
    → Queued packets bytes active leases
    → Queued packets bytes active (remove id leases)
remove-Queued packets bytes active leases id q other l at =
    q other l (remove_cases id other l leases at).1

pub drop_previous-Queued :
    (packets bytes : ℕ) (active : List ℕ) (leases : List (ℕ × Lease)) (o : Option ℕ)
    → Queued packets bytes active leases
    → Queued packets bytes active (drop_previous o leases)
drop_previous-Queued packets bytes active leases none q = q
drop_previous-Queued packets bytes active leases (some id) q =
    remove-Queued packets bytes active leases id q

-- An id goes to the end.
pub waits-append :
    (id x : ℕ) (active : List ℕ) → waits id (active ++ (x ∷ [])) ≡ (waits id active || x == id)
waits-append id x [] = ground arith
waits-append id x (y ∷ active) = ground (arith, waits-append id x active)

total_bytes-append :
    (queue : List QueuedDatagram) (d : QueuedDatagram)
    → total_bytes (queue ++ (d ∷ [])) ≡ total_bytes queue + length d.bytes
total_bytes-append [] d = omega arith
total_bytes-append (x ∷ queue) d = omega (arith, total_bytes-append queue d)

room_left :
    (expires now packets n bytes total m : ℕ)
    → (leb expires now || leb packets n || ltb bytes (saturating_add (2 ^ 64 - 1) total m)) ≡ false
    → bytes < 2 ^ 64 - 1
    → (total + m ≤ bytes) × (n < packets)
room_left expires now packets n bytes total m free room = ground arith

-- A datagram that the queue has room for.
pub enqueue-IsQueue :
    (s : RelayServer) (lease : Lease) (d : QueuedDatagram) (unix_now : ℕ)
    → IsQueue s.queue_packets_per_node s.queue_bytes_per_node lease
    → s.queue_bytes_per_node < usize_max
    → queue_is_full s lease unix_now (length d.bytes) ≡ false
    → IsQueue s.queue_packets_per_node s.queue_bytes_per_node (enqueue lease d)
unfolding enqueue queue_is_full
enqueue-IsQueue s lease d unix_now q room free =
    let (small, few) =
      room_left lease.expires_at unix_now s.queue_packets_per_node (length lease.queue)
        s.queue_bytes_per_node lease.queued_bytes (length d.bytes) free room in
    record {
      counted = omega (arith, total_bytes-append lease.queue d, q.counted, small);
      bytes_bound = omega (arith, small);
      packets_bound = omega (arith, length-append lease.queue (d ∷ []), few);
      scheduled = λ _. refl;
    }

-- The front leaves the queue.
pub popped-IsQueue :
    (packets bytes : ℕ) (lease : Lease) (d : QueuedDatagram) (queue : List QueuedDatagram)
    → IsQueue packets bytes lease
    → lease.queue ≡ d ∷ queue
    → IsQueue packets bytes (popped lease d queue)
popped-IsQueue packets bytes lease d queue q e =
    let counted : lease.queued_bytes ≡ length d.bytes + total_bytes queue =
      q.counted ∙ ap total_bytes e in
    let longer : length lease.queue ≡ suc (length queue) = ap length e in
    record {
      counted = omega (arith, counted);
      bytes_bound = omega (arith, q.bytes_bound);
      packets_bound = omega (arith, q.packets_bound, longer);
      scheduled = λ h. rw h (q.scheduled (ap is_empty e));
    }
