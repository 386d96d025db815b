-- ===== src/Server/Forwarding.antt =====
-- The relay's traffic: `handle_data`, `handle_keepalive` and `flush_queues` of
-- apps/relay/src/server.rs.
use xs_nexus.Base.{
  ℕ, suc, zero, ◌-◌, Bool, true, false, not, ◌||◌, Option, none, some, List, [], ◌∷◌, ◌++◌, ltb,
  leb, ◌==◌, if◌then◌else◌, length, is_empty, nat_key, lookup, insert, saturating_add,
}
use xs_nexus.Credential.{Signing}
use xs_nexus.Replay.{ReplayWindow}
use xs_nexus.Replay
use xs_nexus.Relay.{RelayFrame}
use xs_nexus.Relay.Frames.{parse_relay_frame, parse_relay_keepalive}
use xs_nexus.Relay.Leases.{RelayKeepaliveResponse, sign_relay_keepalive_response}
use xs_nexus.Server.{
  SocketAddr, Lease, QueuedDatagram, SendResult, sent, would_block, send_error, RelayServer,
  node_key, usize_max, count, try_send_to, lease_matches, invalid_drop, authentication_drop,
  replay_drop, rate_limit_drop, destination_drop, queue_drop, send_drop, keepalive_accepted,
  forwarded,
}
use xs_nexus.Server.Budgets.{can_accept, commit_traffic}

abbrev pub max_flush_per_tick : ℕ
max_flush_per_tick = 256

-- The two clocks.
pub record Clock : Type 0 where
  pub instant : ℕ
  pub unix_now : ℕ

-- `precheck(..).is_err()`, and the traffic limit's test.
abbrev pub is_error : {A : Type 0} → Option A → Bool
is_error none = true
is_error (some a) = false

unfoldable pub within_limits : RelayServer → Lease → Clock → ℕ → Bool
within_limits s lease clock bytes =
    can_accept lease.traffic clock.instant bytes s.packets_per_lease_per_second
      s.bytes_per_lease_per_second

-- The sender's lease after an accepted datagram.
abbrev pub touch : Lease → Clock → ℕ → ReplayWindow → Lease
touch lease clock bytes replay = record lease {
  replay = replay;
  traffic = commit_traffic lease.traffic clock.instant bytes;
  last_activity = clock.instant;
}

unfoldable pub enqueue : Lease → QueuedDatagram → Lease
enqueue lease datagram = record lease {
  queued_bytes = saturating_add usize_max lease.queued_bytes (length datagram.bytes);
  queue = lease.queue ++ (datagram ∷ []);
  queue_scheduled = true;
}

unfoldable pub queue_is_full : RelayServer → Lease → ℕ → ℕ → Bool
queue_is_full s lease unix_now bytes =
    leb lease.expires_at unix_now
    || leb s.queue_packets_per_node (length lease.queue)
    || ltb s.queue_bytes_per_node (saturating_add usize_max lease.queued_bytes bytes)

-- The destination's lease, looked up again behind the write to the sender's: the two may be one.
abbrev pub deliver : RelayServer → ℕ → QueuedDatagram → Option Lease → RelayServer
deliver s destination_id datagram none = count destination_drop s
deliver s destination_id datagram (some lease) =
    let queued = record s { leases = insert destination_id (enqueue lease datagram) s.leases } in
    if lease.queue_scheduled
    then queued
    else record queued { active_queues = s.active_queues ++ (destination_id ∷ []) }

abbrev pub commit_data :
    RelayServer → Clock → List ℕ → ℕ → ℕ → Lease → Option ReplayWindow → RelayServer
commit_data s clock datagram lease_id destination_id source_lease none = count replay_drop s
commit_data s clock datagram lease_id destination_id source_lease (some replay) =
    let leases = insert lease_id (touch source_lease clock (length datagram) replay) s.leases in
    deliver (record s { leases = leases }) destination_id
      (record { bytes = datagram; enqueued_at = clock.instant }) (lookup destination_id leases)

abbrev pub to_lease :
    RelayServer → Clock → List ℕ → RelayFrame → Lease → ℕ → Option Lease → RelayServer
to_lease s clock datagram frame source_lease destination_id none = count destination_drop s
to_lease s clock datagram frame source_lease destination_id (some lease) =
    if queue_is_full s lease clock.unix_now (length datagram)
    then count queue_drop s
    else commit_data s clock datagram frame.lease_id destination_id source_lease
        (Replay.commit source_lease.replay frame.sequence)

abbrev pub to_destination :
    RelayServer → Clock → List ℕ → RelayFrame → Lease → Option ℕ → RelayServer
to_destination s clock datagram frame source_lease none = count destination_drop s
to_destination s clock datagram frame source_lease (some destination_id) =
    to_lease s clock datagram frame source_lease destination_id (lookup destination_id s.leases)

abbrev pub from_lease :
    RelayServer → Clock → List ℕ → SocketAddr → RelayFrame → Option Lease → RelayServer
from_lease s clock datagram source frame none = count authentication_drop s
from_lease s clock datagram source frame (some lease) =
    if not (lease_matches lease frame.network_id frame.source_node_id source clock.unix_now)
    then count authentication_drop s
    else if is_error (Replay.precheck lease.replay frame.sequence)
    then count replay_drop s
    else if not (within_limits s lease clock (length datagram))
    then count rate_limit_drop s
    else to_destination s clock datagram frame lease (
        lookup (record { network_id = frame.network_id; node_id = frame.destination_node_id })
          s.nodes)

abbrev pub data_frame : RelayServer → Clock → List ℕ → SocketAddr → Option RelayFrame → RelayServer
data_frame s clock datagram source none = count invalid_drop s
data_frame s clock datagram source (some frame) =
    if frame.relay_id == s.relay_id
    then from_lease s clock datagram source frame (lookup frame.lease_id s.leases)
    else count authentication_drop s

unfoldable pub handle_data : RelayServer → Clock → List ℕ → SocketAddr → RelayServer
handle_data s clock datagram source =
    data_frame s clock datagram source (parse_relay_frame datagram)

abbrev pub acknowledged : SendResult → RelayServer → RelayServer
acknowledged (sent taken) s = count keepalive_accepted s
acknowledged would_block s = count send_drop s
acknowledged send_error s = count send_drop s

abbrev pub acknowledgement_for : RelayServer → RelayFrame → ℕ → RelayKeepaliveResponse
acknowledgement_for s frame unix_now = record {
  network_id = frame.network_id;
  relay_id = s.relay_id;
  node_id = frame.source_node_id;
  lease_id = frame.lease_id;
  server_time = unix_now;
}

module _ (g : Signing) where
  abbrev pub commit_keepalive :
      RelayServer
      → Clock
      → SendResult
      → List ℕ
      → SocketAddr
      → RelayFrame
      → Lease
      → Option ReplayWindow
      → RelayServer
  commit_keepalive s clock result datagram source frame lease none = count replay_drop s
  commit_keepalive s clock result datagram source frame lease (some replay) =
      let touched = record s {
        leases = insert frame.lease_id (touch lease clock (length datagram) replay) s.leases;
      } in
      let response =
        sign_relay_keepalive_response g (acknowledgement_for s frame clock.unix_now)
          s.identity_key in
      acknowledged result (try_send_to response source touched)

  abbrev pub keepalive_from :
      RelayServer
      → Clock
      → SendResult
      → List ℕ
      → SocketAddr
      → RelayFrame
      → Option Lease
      → RelayServer
  keepalive_from s clock result datagram source frame none = count authentication_drop s
  keepalive_from s clock result datagram source frame (some lease) =
      if not (lease_matches lease frame.network_id frame.source_node_id source clock.unix_now)
      then count authentication_drop s
      else if is_error (Replay.precheck lease.replay frame.sequence)
      then count replay_drop s
      else if not (within_limits s lease clock (length datagram))
      then count rate_limit_drop s
      else commit_keepalive s clock result datagram source frame lease
          (Replay.commit lease.replay frame.sequence)

  abbrev pub keepalive_frame :
      RelayServer → Clock → SendResult → List ℕ → SocketAddr → Option RelayFrame → RelayServer
  keepalive_frame s clock result datagram source none = count invalid_drop s
  keepalive_frame s clock result datagram source (some frame) =
      if frame.relay_id == s.relay_id
      then keepalive_from s clock result datagram source frame (lookup frame.lease_id s.leases)
      else count authentication_drop s

  unfoldable pub handle_keepalive :
      RelayServer → Clock → SendResult → List ℕ → SocketAddr → RelayServer
  handle_keepalive s clock result datagram source =
      keepalive_frame s clock result datagram source (parse_relay_keepalive datagram)

-- The lease behind one datagram that left its queue, and where the lease's id goes.
abbrev pub popped : Lease → QueuedDatagram → List QueuedDatagram → Lease
popped lease datagram queue = record lease {
  queue = queue;
  queued_bytes = lease.queued_bytes - length datagram.bytes;
  queue_scheduled = if is_empty queue then false else lease.queue_scheduled;
}

abbrev pub requeued : ℕ → List QueuedDatagram → List ℕ → List ℕ
requeued id queue active = if is_empty queue then active else active ++ (id ∷ [])

abbrev pub sent_metric : ℕ → ℕ → RelayServer → RelayServer
sent_metric taken bytes s = if taken == bytes then count (forwarded taken) s else count send_drop s

abbrev pub after_front :
    RelayServer → ℕ → Lease → QueuedDatagram → List QueuedDatagram → List ℕ → RelayServer
after_front s id lease datagram queue active = record s {
  leases = insert id (popped lease datagram queue) s.leases;
  active_queues = requeued id queue active;
}

-- The `match` on `try_send_to`; the Boolean says whether the loop goes on.
abbrev pub flush_front :
    RelayServer
    → ℕ
    → Lease
    → QueuedDatagram
    → List QueuedDatagram
    → List ℕ
    → SendResult
    → RelayServer × Bool
flush_front s id lease datagram queue active (sent n) =
    (sent_metric n (length datagram.bytes) (after_front s id lease datagram queue active), true)
flush_front s id lease datagram queue active would_block =
    (record s { active_queues = id ∷ active }, false)
flush_front s id lease datagram queue active send_error =
    (count send_drop (after_front s id lease datagram queue active), true)

abbrev pub flush_queue :
    RelayServer → ℕ → Lease → List QueuedDatagram → List ℕ → SendResult → RelayServer × Bool
flush_queue s id lease [] active result = (
  record s {
    leases = insert id (record lease { queue_scheduled = false }) s.leases;
    active_queues = active;
  },
  true,
)
flush_queue s id lease (datagram ∷ queue) active result =
    flush_front (try_send_to datagram.bytes lease.endpoint s) id lease datagram queue active result

abbrev pub flush_lease : RelayServer → ℕ → List ℕ → SendResult → Option Lease → RelayServer × Bool
flush_lease s id active result none = (record s { active_queues = active }, true)
flush_lease s id active result (some lease) = flush_queue s id lease lease.queue active result

-- One round of the loop.
abbrev pub flush_id : RelayServer → SendResult → List ℕ → RelayServer × Bool
flush_id s result [] = (s, false)
flush_id s result (id ∷ active) = flush_lease s id active result (lookup id s.leases)

unfoldable pub flush_loop : ℕ → RelayServer → (ℕ → SendResult) → RelayServer
flush_loop zero s results = s
flush_loop (suc rounds) s results =
    let step = flush_id s (results rounds) s.active_queues in
    let rest = flush_loop rounds step.0 results in if step.1 then rest else step.0

unfoldable pub flush_queues : RelayServer → (ℕ → SendResult) → RelayServer
unfolding flush_loop
flush_queues s results = flush_loop max_flush_per_tick s results
