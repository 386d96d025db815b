-- ===== src/Server/Invariant/Traffic.antt =====
-- Data frames and keepalives keep the tables of `RelayServer` (apps/relay/src/server.rs) in step.
use xs_nexus.Base.{
  ℕ, ◌≡◌, ◌≢◌, inl, inr, refl, sym, ◌∙◌, Bool, true, false, not, ◌||◌, Option, none, some, List, [],
  ◌∷◌, ◌++◌, length, nat_key, lookup, insert, arith, if◌then◌else◌, ◌==◌, ==_self, some-eq,
  insert-Unique, length-insert_known, insert_cases,
}
use mathlib.Core.Path.{subst}
use xs_nexus.Credential.{Signing}
use xs_nexus.Replay.{ReplayWindow}
use xs_nexus.Replay
use xs_nexus.Relay.{RelayFrame}
use xs_nexus.Relay.Frames.{parse_relay_frame, parse_relay_keepalive}
use xs_nexus.Server.{
  SocketAddr, Lease, QueuedDatagram, SendResult, sent, would_block, send_error, RelayServer,
  node_key, request_key, lease_matches,
}
use xs_nexus.Server.Forwarding.{
  Clock, is_error, touch, enqueue, queue_is_full, within_limits, deliver, commit_data, to_lease,
  to_destination, from_lease, data_frame, handle_data, acknowledged, commit_keepalive,
  keepalive_from, keepalive_frame, handle_keepalive,
}
use xs_nexus.Server.Invariant.{IsQueue, IsTables, WellFormed, waits}
use xs_nexus.Server.Invariant.Tables.{update-Indexed}
use xs_nexus.Server.Invariant.Queues.{update-Queued, waits-append, enqueue-IsQueue}

-- One lease is changed, but for its node.
pub update-IsTables :
    (s : RelayServer) (active : List ℕ) (id : ℕ) (lease lease' : Lease)
    → WellFormed s
    → lookup id s.leases ≡ some lease
    → lease'.node ≡ lease.node
    → IsQueue s.queue_packets_per_node s.queue_bytes_per_node lease'
    → (lease'.queue_scheduled ≡ true → waits id active ≡ true)
    → ((other : ℕ) → id ≢ other → waits other s.active_queues ≡ true → waits other active ≡ true)
    → IsTables s.max_leases s.queue_packets_per_node s.queue_bytes_per_node s.nodes
        (insert id lease' s.leases)
        active
update-IsTables s active id lease lease' w found same good scheduled keep = record {
  indexed = update-Indexed s.nodes s.leases id lease lease' w.indexed found same;
  unique = insert-Unique id lease' s.leases w.unique;
  bounded = omega (arith, length-insert_known id lease' lease s.leases found, w.bounded);
  queued =
      update-Queued s.queue_packets_per_node s.queue_bytes_per_node s.active_queues active s.leases
        id lease' w.queued good scheduled keep;
  room = w.room;
}

touch-IsQueue :
    (packets bytes : ℕ) (lease : Lease) (clock : Clock) (n : ℕ) (replay : ReplayWindow)
    → IsQueue packets bytes lease
    → IsQueue packets bytes (touch lease clock n replay)
touch-IsQueue packets bytes lease clock n replay q = record {
  counted = q.counted;
  bytes_bound = q.bytes_bound;
  packets_bound = q.packets_bound;
  scheduled = q.scheduled;
}

-- The sender's lease is touched.
touch-WellFormed :
    (s : RelayServer) (id : ℕ) (lease : Lease) (clock : Clock) (n : ℕ) (replay : ReplayWindow)
    → WellFormed s
    → lookup id s.leases ≡ some lease
    → WellFormed (record s { leases = insert id (touch lease clock n replay) s.leases })
touch-WellFormed s id lease clock n replay w found =
    let (good, waiting) = w.queued id lease found in
    update-IsTables s s.active_queues id lease (touch lease clock n replay) w found refl
      (touch-IsQueue s.queue_packets_per_node s.queue_bytes_per_node lease clock n replay good)
      waiting (λ other ne h. h)

pub or_true : (b : Bool) → (b || true) ≡ true
or_true true = refl
or_true false = refl

-- Both branches of a test.
pub if-WellFormed :
    (b : Bool) (x y : RelayServer)
    → (b ≡ true → WellFormed x)
    → (b ≡ false → WellFormed y)
    → WellFormed (if b then x else y)
if-WellFormed true x y hx hy = hx refl
if-WellFormed false x y hx hy = hy refl

-- A datagram is queued for a lease that has room.
deliver-WellFormed :
    (s : RelayServer) (id : ℕ) (d : QueuedDatagram) (unix_now : ℕ)
    → WellFormed s
    → (o : Option Lease) → lookup id s.leases ≡ o
    → ((lease : Lease) → o ≡ some lease → queue_is_full s lease unix_now (length d.bytes) ≡ false)
    → WellFormed (deliver s id d o)
unfolding enqueue
deliver-WellFormed s id d unix_now w none p free = w
deliver-WellFormed s id d unix_now w (some lease) p free =
    let (good, waiting) = w.queued id lease p in
    let fits = enqueue-IsQueue s lease d unix_now good w.room (free lease refl) in
    if-WellFormed lease.queue_scheduled _ _
      (λ scheduled.
        update-IsTables s s.active_queues id lease (enqueue lease d) w p refl fits
          (λ _. waiting scheduled) (λ other ne h. h))
      (λ idle.
        update-IsTables s (s.active_queues ++ (id ∷ [])) id lease (enqueue lease d) w p refl fits
          (λ _.
            rw (waits-append id id s.active_queues, ==_self id)
              (or_true (waits id s.active_queues)))
          (λ other ne h. rw (waits-append other id s.active_queues, h) refl))

-- The touched sender is no obstacle to the room that the destination has.
still_free :
    (s : RelayServer) (clock : Clock) (n id destination_id : ℕ) (lease target : Lease)
    (replay : ReplayWindow)
    → lookup id s.leases ≡ some lease
    → lookup destination_id s.leases ≡ some target
    → queue_is_full s target clock.unix_now n ≡ false
    → (after : Lease)
    → lookup destination_id (insert id (touch lease clock n replay) s.leases) ≡ some after
    → queue_is_full s after clock.unix_now n ≡ false
unfolding queue_is_full
still_free s clock n id destination_id lease target replay found there free after at =
    elim (insert_cases id destination_id (touch lease clock n replay) after s.leases at) [
      | inl (e, one) ↦
          let same : lease ≡ target =
            some-eq (sym found ∙ subst (λ i. lookup i s.leases ≡ some target) (sym e) there) in
          subst (λ (l : Lease). queue_is_full s l clock.unix_now n ≡ false) one
            (subst (λ (l : Lease). queue_is_full s l clock.unix_now n ≡ false) (sym same) free)
      | inr (ne, held) ↦
          subst (λ (l : Lease). queue_is_full s l clock.unix_now n ≡ false)
            (some-eq (sym there ∙ held)) free
    ]

commit_data-WellFormed :
    (s : RelayServer) (clock : Clock) (datagram : List ℕ) (id destination_id : ℕ)
    (lease target : Lease)
    → WellFormed s
    → lookup id s.leases ≡ some lease
    → lookup destination_id s.leases ≡ some target
    → queue_is_full s target clock.unix_now (length datagram) ≡ false
    → (o : Option ReplayWindow)
    → WellFormed (commit_data s clock datagram id destination_id lease o)
unfolding queue_is_full
commit_data-WellFormed s clock datagram id destination_id lease target w found there free none = w
commit_data-WellFormed s clock datagram id destination_id lease target w found there free
      (some replay) =
    let leases = insert id (touch lease clock (length datagram) replay) s.leases in
    deliver-WellFormed (record s { leases = leases }) destination_id
      (record { bytes = datagram; enqueued_at = clock.instant }) clock.unix_now
      (touch-WellFormed s id lease clock (length datagram) replay w found)
      (lookup destination_id leases) refl
      (still_free s clock (length datagram) id destination_id lease target replay found there free)

to_lease-WellFormed :
    (s : RelayServer) (clock : Clock) (datagram : List ℕ) (frame : RelayFrame) (lease : Lease)
    (destination_id : ℕ)
    → WellFormed s
    → lookup frame.lease_id s.leases ≡ some lease
    → (o : Option Lease) → lookup destination_id s.leases ≡ o
    → WellFormed (to_lease s clock datagram frame lease destination_id o)
to_lease-WellFormed s clock datagram frame lease destination_id w found none p = w
to_lease-WellFormed s clock datagram frame lease destination_id w found (some target) p =
    if-WellFormed (queue_is_full s target clock.unix_now (length datagram)) _ _ (λ _. w)
      (λ free.
        commit_data-WellFormed s clock datagram frame.lease_id destination_id lease target w found p
          free (Replay.commit lease.replay frame.sequence))

to_destination-WellFormed :
    (s : RelayServer) (clock : Clock) (datagram : List ℕ) (frame : RelayFrame) (lease : Lease)
    → WellFormed s
    → lookup frame.lease_id s.leases ≡ some lease
    → (o : Option ℕ) → WellFormed (to_destination s clock datagram frame lease o)
to_destination-WellFormed s clock datagram frame lease w found none = w
to_destination-WellFormed s clock datagram frame lease w found (some id) =
    to_lease-WellFormed s clock datagram frame lease id w found (lookup id s.leases) refl

from_lease-WellFormed :
    (s : RelayServer) (clock : Clock) (datagram : List ℕ) (source : SocketAddr) (frame : RelayFrame)
    → WellFormed s
    → (o : Option Lease) → lookup frame.lease_id s.leases ≡ o
    → WellFormed (from_lease s clock datagram source frame o)
from_lease-WellFormed s clock datagram source frame w none p = w
from_lease-WellFormed s clock datagram source frame w (some lease) p =
    if-WellFormed
      (not (lease_matches lease frame.network_id frame.source_node_id source clock.unix_now)) _ _
      (λ _. w)
      (λ _.
        if-WellFormed (is_error (Replay.precheck lease.replay frame.sequence)) _ _ (λ _. w)
          (λ _.
            if-WellFormed (not (within_limits s lease clock (length datagram))) _ _ (λ _. w)
              (λ _. to_destination-WellFormed s clock datagram frame lease w p (
                lookup
                  (record { network_id = frame.network_id; node_id = frame.destination_node_id })
                  s.nodes))))

data_frame-WellFormed :
    (s : RelayServer) (clock : Clock) (datagram : List ℕ) (source : SocketAddr)
    → WellFormed s
    → (o : Option RelayFrame) → WellFormed (data_frame s clock datagram source o)
data_frame-WellFormed s clock datagram source w none = w
data_frame-WellFormed s clock datagram source w (some frame) =
    if-WellFormed (frame.relay_id == s.relay_id) _ _
      (λ _.
        from_lease-WellFormed s clock datagram source frame w (lookup frame.lease_id s.leases) refl)
      (λ _. w)

-- A data frame.
pub handle_data-WellFormed :
    (s : RelayServer) (clock : Clock) (datagram : List ℕ) (source : SocketAddr)
    → WellFormed s
    → WellFormed (handle_data s clock datagram source)
unfolding handle_data
handle_data-WellFormed s clock datagram source w =
    data_frame-WellFormed s clock datagram source w (parse_relay_frame datagram)

acknowledged-WellFormed :
    (result : SendResult) (s : RelayServer) → WellFormed s → WellFormed (acknowledged result s)
acknowledged-WellFormed (sent n) s w = w
acknowledged-WellFormed would_block s w = w
acknowledged-WellFormed send_error s w = w

module _ (g : Signing) where
  commit_keepalive-WellFormed :
      (s : RelayServer) (clock : Clock) (result : SendResult) (datagram : List ℕ)
      (source : SocketAddr) (frame : RelayFrame) (lease : Lease)
      → WellFormed s
      → lookup frame.lease_id s.leases ≡ some lease
      → (o : Option ReplayWindow)
      → WellFormed (commit_keepalive g s clock result datagram source frame lease o)
  commit_keepalive-WellFormed s clock result datagram source frame lease w found none = w
  commit_keepalive-WellFormed s clock result datagram source frame lease w found (some replay) =
      acknowledged-WellFormed result _
        (touch-WellFormed s frame.lease_id lease clock (length datagram) replay w found)

  keepalive_from-WellFormed :
      (s : RelayServer) (clock : Clock) (result : SendResult) (datagram : List ℕ)
      (source : SocketAddr) (frame : RelayFrame)
      → WellFormed s
      → (o : Option Lease) → lookup frame.lease_id s.leases ≡ o
      → WellFormed (keepalive_from g s clock result datagram source frame o)
  keepalive_from-WellFormed s clock result datagram source frame w none p = w
  keepalive_from-WellFormed s clock result datagram source frame w (some lease) p =
      if-WellFormed
        (not (lease_matches lease frame.network_id frame.source_node_id source clock.unix_now)) _ _
        (λ _. w)
        (λ _.
          if-WellFormed (is_error (Replay.precheck lease.replay frame.sequence)) _ _ (λ _. w)
            (λ _.
              if-WellFormed (not (within_limits s lease clock (length datagram))) _ _ (λ _. w)
                (λ _.
                  commit_keepalive-WellFormed s clock result datagram source frame lease w p
                    (Replay.commit lease.replay frame.sequence))))

  keepalive_frame-WellFormed :
      (s : RelayServer) (clock : Clock) (result : SendResult) (datagram : List ℕ)
      (source : SocketAddr)
      → WellFormed s
      → (o : Option RelayFrame) → WellFormed (keepalive_frame g s clock result datagram source o)
  keepalive_frame-WellFormed s clock result datagram source w none = w
  keepalive_frame-WellFormed s clock result datagram source w (some frame) =
      if-WellFormed (frame.relay_id == s.relay_id) _ _
        (λ _.
          keepalive_from-WellFormed s clock result datagram source frame w
            (lookup frame.lease_id s.leases) refl)
        (λ _. w)

  -- A keepalive.
  pub handle_keepalive-WellFormed :
      (s : RelayServer) (clock : Clock) (result : SendResult) (datagram : List ℕ)
      (source : SocketAddr)
      → WellFormed s
      → WellFormed (handle_keepalive g s clock result datagram source)
  unfolding handle_keepalive
  handle_keepalive-WellFormed s clock result datagram source w =
      keepalive_frame-WellFormed s clock result datagram source w (parse_relay_keepalive datagram)
