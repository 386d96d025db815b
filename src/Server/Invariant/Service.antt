-- ===== src/Server/Invariant/Service.antt =====
-- Whatever happens to the relay, the tables of `RelayServer` (apps/relay/src/server.rs) stay in step.
use xs_nexus.Base.{
  ℕ, ◌<◌, not, ◌||◌, List, [], ◌∷◌, length, nat_key, lookup-empty, sym, ◌∙◌, arith, ◌==◌, ltb,
  get_or,
}
use xs_nexus.Base.Bytes.{slice, bytes_eq}
use xs_nexus.Credential.{Signing}
use xs_nexus.Relay.{relay_magic, max_frame_length, register_request_type, data_type, keepalive_type}
use xs_nexus.Server.{
  SocketAddr, RelayConfig, RelayServer, SendResult, node_key, new, usize_max, count, received,
}
use xs_nexus.Server.Registration.{Outside}
use xs_nexus.Server.Service.{
  Event, cleanup_tick, flush_tick, datagram_received, dispatch, handle_datagram, serve_event, serve,
  clock_of,
}
use xs_nexus.Server.Invariant.{WellFormed}
use xs_nexus.Server.Invariant.Tables.{none-some}
use xs_nexus.Server.Invariant.Traffic.{
  if-WellFormed, handle_data-WellFormed, handle_keepalive-WellFormed,
}
use xs_nexus.Server.Invariant.Admission.{handle_registration-WellFormed}
use xs_nexus.Server.Invariant.Housekeeping.{flush_queues-WellFormed, cleanup-WellFormed}

-- A new server has no lease.
pub new-WellFormed :
    (config : RelayConfig) → config.queue_bytes_per_node < usize_max → WellFormed (new config)
new-WellFormed config room = record {
  indexed = record {
    lease_of = λ node id h. absurd (none-some (sym (lookup-empty node) ∙ h));
    node_of = λ id lease h. absurd (none-some (sym (lookup-empty id) ∙ h));
  };
  unique = tt;
  bounded = omega arith;
  queued = λ id lease h. absurd (none-some (sym (lookup-empty id) ∙ h));
  room = room;
}

module _ (g : Signing) where
  pub handle_datagram-WellFormed :
      (s : RelayServer) (outside : Outside) (result : SendResult) (datagram : List ℕ)
      (source : SocketAddr)
      → WellFormed s
      → WellFormed (handle_datagram g s outside result datagram source)
  unfolding handle_datagram dispatch
  handle_datagram-WellFormed s outside result datagram source w =
      if-WellFormed
        (ltb (length datagram) 6
          || ltb max_frame_length (length datagram)
          || not (bytes_eq (slice 0 4 datagram) relay_magic))
        _ _ (λ _. w)
        (λ _.
          if-WellFormed (get_or datagram 5 0 == register_request_type) _ _
            (λ _. handle_registration-WellFormed g s outside datagram source w)
            (λ _.
              if-WellFormed (get_or datagram 5 0 == data_type) _ _
                (λ _. handle_data-WellFormed s (clock_of outside) datagram source w)
                (λ _.
                  if-WellFormed (get_or datagram 5 0 == keepalive_type) _ _
                    (λ _.
                      handle_keepalive-WellFormed g s (clock_of outside) result datagram source w)
                    (λ _. w))))

  pub serve_event-WellFormed :
      (s : RelayServer) (event : Event) → WellFormed s → WellFormed (serve_event g s event)
  unfolding serve_event
  serve_event-WellFormed s (cleanup_tick now unix_now) w = cleanup-WellFormed s now unix_now w
  serve_event-WellFormed s (flush_tick results) w = flush_queues-WellFormed s results w
  serve_event-WellFormed s (datagram_received datagram source outside result results) w =
      flush_queues-WellFormed
        (handle_datagram g (count (received (length datagram)) s) outside result datagram source)
        results
        (handle_datagram-WellFormed (count (received (length datagram)) s) outside result datagram
          source w)

  serve_from :
      (s : RelayServer) (events : List Event) → WellFormed s → WellFormed (serve g s events)
  unfolding serve
  serve_from s [] w = w
  serve_from s (event ∷ events) w =
      serve_from (serve_event g s event) events (serve_event-WellFormed s event w)

  -- From its start on, through any series of datagrams, flushes and clean-ups, whatever the clocks,
  -- the random source and the socket do, the relay's tables are in step: `nodes` and `leases` name
  -- each other, there are no more leases than `max_leases`, each queue keeps within its limits and
  -- counts its bytes, and each queue that is not empty waits among the active ones. The limit on the
  -- bytes of a queue is below the largest `usize`.
  pub serve-WellFormed :
      (config : RelayConfig) (events : List Event)
      → config.queue_bytes_per_node < usize_max
      → WellFormed (serve g (new config) events)
  serve-WellFormed config events room = serve_from (new config) events (new-WellFormed config room)
