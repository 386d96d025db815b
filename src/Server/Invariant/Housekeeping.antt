-- ===== src/Server/Invariant/Housekeeping.antt =====
-- Flushing and cleaning up keep the tables of `RelayServer` (apps/relay/src/server.rs) in step.
use xs_nexus.Base.{
  ℕ, zero, suc, ◌≡◌, ◌≢◌, ◌⊎◌, inl, inr, refl, sym, ap, ◌∙◌, Bool, true, false, Option, none, some,
  List, [], ◌∷◌, length, is_empty, nat_key, lookup, remove, arith, if◌then◌else◌, ◌==◌, ==_self,
  Bool-cases, remove-Unique, length-remove, same_key, lookup-remove_self, lookup-remove_ne,
  AreFound, Unique-AreFound,
}
use mathlib.Core.Path.{subst}
use xs_nexus.Server.{
  NodeKey, Lease, QueuedDatagram, SendResult, sent, would_block, send_error, RelayServer, node_key,
  request_key, try_send_to,
}
use xs_nexus.Server.Forwarding.{
  popped, requeued, sent_metric, after_front, flush_front, flush_queue, flush_lease, flush_id,
  flush_loop, flush_queues, max_flush_per_tick,
}
use xs_nexus.Server.Service.{
  is_expired, expired_leases, names, remove_lease, remove_leases, cleanup,
}
use xs_nexus.Server.Invariant.{Indexed, IsTables, WellFormed, waits}
use xs_nexus.Server.Invariant.Tables.{remove-Indexed, remove_gone-Indexed, none-some}
use xs_nexus.Server.Invariant.Queues.{remove-Queued, popped-IsQueue, waits-append}
use xs_nexus.Server.Invariant.Traffic.{update-IsTables, if-WellFormed, or_true}

-- The id at the front leaves; the others still wait.
behind :
    (id other : ℕ) (active : List ℕ)
    → id ≢ other
    → waits other (id ∷ active) ≡ true
    → waits other active ≡ true
behind id other active ne h = ground arith

behind_requeued :
    (id other : ℕ) (queue : List QueuedDatagram) (active : List ℕ)
    → waits other active ≡ true
    → waits other (requeued id queue active) ≡ true
behind_requeued id other [] active h = h
behind_requeued id other (d ∷ queue) active h = rw (waits-append other id active, h) refl

requeued-waits :
    (id : ℕ) (queue : List QueuedDatagram) (active : List ℕ) (scheduled : Bool)
    → (if is_empty queue then false else scheduled) ≡ true
    → waits id (requeued id queue active) ≡ true
requeued-waits id [] active scheduled h = absurd (cc)
requeued-waits id (d ∷ queue) active scheduled h =
    rw (waits-append id id active, ==_self id) (or_true (waits id active))

-- One datagram left the front of the first queue.
after_front-WellFormed :
    (s : RelayServer) (id : ℕ) (active : List ℕ) (lease : Lease) (d : QueuedDatagram)
    (queue : List QueuedDatagram)
    → WellFormed s
    → s.active_queues ≡ id ∷ active
    → lookup id s.leases ≡ some lease
    → lease.queue ≡ d ∷ queue
    → WellFormed (after_front s id lease d queue active)
after_front-WellFormed s id active lease d queue w first found front =
    let (good, _) = w.queued id lease found in
    update-IsTables s (requeued id queue active) id lease (popped lease d queue) w found refl
      (popped-IsQueue s.queue_packets_per_node s.queue_bytes_per_node lease d queue good front)
      (requeued-waits id queue active lease.queue_scheduled)
      (λ other ne h.
        behind_requeued id other queue active (behind id other active ne (rw first at h)))

sent_metric-WellFormed : (n m : ℕ) (s : RelayServer) → WellFormed s → WellFormed (sent_metric n m s)
sent_metric-WellFormed n m s w = if-WellFormed (n == m) _ _ (λ _. w) (λ _. w)

flush_front-WellFormed :
    (s : RelayServer) (id : ℕ) (active : List ℕ) (lease : Lease) (d : QueuedDatagram)
    (queue : List QueuedDatagram)
    → WellFormed s
    → s.active_queues ≡ id ∷ active
    → lookup id s.leases ≡ some lease
    → lease.queue ≡ d ∷ queue
    → (result : SendResult)
    → WellFormed
        (flush_front (try_send_to d.bytes lease.endpoint s) id lease d queue active result).0
flush_front-WellFormed s id active lease d queue w first found front (sent n) =
    sent_metric-WellFormed n (length d.bytes) _
      (after_front-WellFormed s id active lease d queue w first found front)
flush_front-WellFormed s id active lease d queue w first found front would_block =
    subst
      (λ a.
        IsTables s.max_leases s.queue_packets_per_node s.queue_bytes_per_node s.nodes s.leases a)
      first w
flush_front-WellFormed s id active lease d queue w first found front send_error =
    after_front-WellFormed s id active lease d queue w first found front

flush_queue-WellFormed :
    (s : RelayServer) (id : ℕ) (active : List ℕ) (lease : Lease) (result : SendResult)
    → WellFormed s
    → s.active_queues ≡ id ∷ active
    → lookup id s.leases ≡ some lease
    → (queue : List QueuedDatagram) → lease.queue ≡ queue
    → WellFormed (flush_queue s id lease queue active result).0
flush_queue-WellFormed s id active lease result w first found [] e =
    let (good, _) = w.queued id lease found in
    update-IsTables s active id lease (record lease { queue_scheduled = false }) w found refl
      (record {
        counted = good.counted;
        bytes_bound = good.bytes_bound;
        packets_bound = good.packets_bound;
        scheduled = λ h. sym h ∙ ap is_empty e;
      })
      (λ h. absurd (cc)) (λ other ne h. behind id other active ne (rw first at h))
flush_queue-WellFormed s id active lease result w first found (d ∷ queue) e =
    flush_front-WellFormed s id active lease d queue w first found e result

flush_lease-WellFormed :
    (s : RelayServer) (id : ℕ) (active : List ℕ) (result : SendResult)
    → WellFormed s
    → s.active_queues ≡ id ∷ active
    → (o : Option Lease) → lookup id s.leases ≡ o
    → WellFormed (flush_lease s id active result o).0
flush_lease-WellFormed s id active result w first none p = record {
  indexed = w.indexed;
  unique = w.unique;
  bounded = w.bounded;
  queued = λ other l at.
      let (good, waiting) = w.queued other l at in
      let ne : id ≢ other =
        λ e. none-some (sym p ∙ subst (λ i. lookup i s.leases ≡ some l) (sym e) at) in
      (good, λ h. behind id other active ne (rw first at (waiting h)));
  room = w.room;
}
flush_lease-WellFormed s id active result w first (some lease) p =
    flush_queue-WellFormed s id active lease result w first p lease.queue refl

flush_id-WellFormed :
    (s : RelayServer) (result : SendResult)
    → WellFormed s
    → (active : List ℕ) → s.active_queues ≡ active
    → WellFormed (flush_id s result active).0
flush_id-WellFormed s result w [] e = w
flush_id-WellFormed s result w (id ∷ active) e =
    flush_lease-WellFormed s id active result w e (lookup id s.leases) refl

flush_loop-WellFormed :
    (rounds : ℕ) (s : RelayServer) (results : ℕ → SendResult)
    → WellFormed s
    → WellFormed (flush_loop rounds s results)
unfolding flush_loop
flush_loop-WellFormed zero s results w = w
flush_loop-WellFormed (suc rounds) s results w =
    let step = flush_id s (results rounds) s.active_queues in
    let good = flush_id-WellFormed s (results rounds) w s.active_queues refl in
    if-WellFormed step.1 _ _ (λ _. flush_loop-WellFormed rounds step.0 results good) (λ _. good)

-- A flush.
pub flush_queues-WellFormed :
    (s : RelayServer) (results : ℕ → SendResult)
    → WellFormed s
    → WellFormed (flush_queues s results)
unfolding flush_queues
flush_queues-WellFormed s results w = flush_loop-WellFormed max_flush_per_tick s results w

-- What the loop of `cleanup` knows of a pair: the id's lease is gone, or it is the node's.
abbrev IsEntry : List (ℕ × Lease) → ℕ × NodeKey → Type 0
IsEntry leases (id, node) =
    (lookup id leases ≡ none)
    ⊎ ((lease : Lease) × (lookup id leases ≡ some lease) × (lease.node ≡ node))

abbrev AreEntries : List (ℕ × Lease) → List (ℕ × NodeKey) → Type 0
AreEntries leases [] = Unit {0}
AreEntries leases (pair ∷ pairs) = IsEntry leases pair × AreEntries leases pairs

-- Nothing is removed for a lease that is gone.
names_gone :
    (nodes : List (NodeKey × ℕ)) (leases : List (ℕ × Lease)) (id : ℕ) (node : NodeKey)
    → Indexed nodes leases
    → lookup id leases ≡ none
    → (o : Option ℕ) → lookup node nodes ≡ o
    → names id o ≡ false
names_gone nodes leases id node x gone none p = refl
names_gone nodes leases id node x gone (some other) p =
    let (l, held, _) = x.lease_of node other p in
    let ne : other ≢ id =
      λ e. none-some (sym gone ∙ subst (λ i. lookup i leases ≡ some l) e held) in
    ground arith

remove_lease-WellFormed :
    (s : RelayServer) (id : ℕ) (node : NodeKey)
    → WellFormed s
    → IsEntry s.leases (id, node)
    → WellFormed (remove_lease s id node)
unfolding remove_lease
remove_lease-WellFormed s id node w (inl gone) =
    rw (names_gone s.nodes s.leases id node w.indexed gone (lookup node s.nodes) refl) (record {
      indexed = remove_gone-Indexed s.nodes s.leases id w.indexed gone;
      unique = remove-Unique id s.leases w.unique;
      bounded = omega (arith, w.bounded, length-remove id s.leases);
      queued =
          remove-Queued s.queue_packets_per_node s.queue_bytes_per_node s.active_queues s.leases id
            w.queued;
      room = w.room;
    })
remove_lease-WellFormed s id node w (inr (lease, held, of)) =
    let named : lookup node s.nodes ≡ some id =
      subst (λ n. lookup n s.nodes ≡ some id) of (w.indexed.node_of id lease held) in
    rw (named, ==_self id)
      (record {
        indexed = remove-Indexed s.nodes s.leases id node w.indexed named;
        unique = remove-Unique id s.leases w.unique;
        bounded = omega (arith, w.bounded, length-remove id s.leases);
        queued =
            remove-Queued s.queue_packets_per_node s.queue_bytes_per_node s.active_queues s.leases
              id w.queued;
        room = w.room;
      })

kept-IsEntry :
    (leases : List (ℕ × Lease)) (gone : ℕ) (pair : ℕ × NodeKey)
    → IsEntry leases pair
    → IsEntry (remove gone leases) pair
kept-IsEntry leases gone (id, node) h = elim (same_key gone id) [
  | inl e ↦
      inl (subst (λ i. lookup i (remove gone leases) ≡ none) e (lookup-remove_self gone leases))
  | inr ne ↦ rw (lookup-remove_ne gone id leases ne) h
]

kept-AreEntries :
    (leases : List (ℕ × Lease)) (gone : ℕ) (pairs : List (ℕ × NodeKey))
    → AreEntries leases pairs
    → AreEntries (remove gone leases) pairs
kept-AreEntries leases gone [] h = tt
kept-AreEntries leases gone (pair ∷ pairs) h =
    (kept-IsEntry leases gone pair h.0, kept-AreEntries leases gone pairs h.1)

remove_leases-WellFormed :
    (s : RelayServer) (pairs : List (ℕ × NodeKey))
    → WellFormed s
    → AreEntries s.leases pairs
    → WellFormed (remove_leases s pairs)
unfolding remove_leases remove_lease
remove_leases-WellFormed s [] w h = w
remove_leases-WellFormed s ((id, node) ∷ pairs) w h =
    remove_leases-WellFormed (remove_lease s id node) pairs
      (remove_lease-WellFormed s id node w h.0) (kept-AreEntries s.leases id pairs h.1)

expired-AreEntries :
    (leases entries : List (ℕ × Lease)) (idle_timeout now unix_now : ℕ)
    → AreFound leases entries
    → AreEntries leases (expired_leases idle_timeout now unix_now entries)
unfolding expired_leases
expired-AreEntries leases [] idle_timeout now unix_now h = tt
expired-AreEntries leases ((id, lease) ∷ entries) idle_timeout now unix_now (found, h) =
    let rest = expired-AreEntries leases entries idle_timeout now unix_now h in
    elim (Bool-cases (is_expired idle_timeout now unix_now lease)) [
      | inl over ↦ rw over (inr (lease, found, refl), rest)
      | inr live ↦ rw live rest
    ]

-- A clean-up.
pub cleanup-WellFormed :
    (s : RelayServer) (now unix_now : ℕ) → WellFormed s → WellFormed (cleanup s now unix_now)
unfolding cleanup
cleanup-WellFormed s now unix_now w =
    remove_leases-WellFormed s (expired_leases s.idle_timeout now unix_now s.leases) w (
      expired-AreEntries s.leases s.leases s.idle_timeout now unix_now
        (Unique-AreFound s.leases w.unique))
