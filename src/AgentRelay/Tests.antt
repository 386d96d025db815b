-- ===== src/AgentRelay/Tests.antt =====
-- A relay client (apps/agent/src/relay.rs) at concrete numbers, with a signature that says nothing.
use xs_nexus.Base.{◌*◌, ◌≤◌, ◌≡◌, refl, List, none, some, [], ◌∷◌, arith}
use xs_nexus.Credential.Tests.{toy, toy-IsSigning}
use xs_nexus.Relay.Tests.{response, response-IsResponse, frame, encoded_frame}
use xs_nexus.Relay.{data_type}
use xs_nexus.Relay.Frames.{frame_bytes}
use xs_nexus.Relay.Leases.{sign_relay_register_response, sign_relay_register_request, request_body}
use xs_nexus.AgentRelay.{
  RelayLease, PendingRegistration, RelayClient, RelayNode, framed, wrap, wrap_under,
  handle_datagram, authenticate_activity,
}
use xs_nexus.AgentRelay.Upkeep.{
  Event, active, maintaining, run, maintain, register_if_due, maintain_pending, drop_dead,
  begin_registration, send_keepalive, step, retry_pending,
}
use xs_nexus.AgentRelay.Bounds.{WellFormed}
use xs_nexus.AgentRelay.Sends.{requests, draws, is_request}
use xs_nexus.AgentRelay.Attempts.{upkeep_sent, upkeep-IsBounded}
use xs_nexus.Base.Bytes.{be, bytes_eq}
use xs_nexus.AgentRelay.Framing.{IsFramed, wrap-IsFramed, handle_datagram-registered}

abbrev node : RelayNode
node = record { network_id = 1; node_id = 2; credential = []; identity_key = 9 }

abbrev waiting : PendingRegistration
waiting = record { request_id = 4; encoded = []; last_sent = 10; attempts = 1 }

abbrev client : RelayClient
client = record {
  relay_id = 8;
  verifying_key = 5;
  priority = 1;
  config_expires_at = 9000;
  lease = none;
  pending = some waiting;
  next_registration_at = 0;
  failures = 0;
}

handle_datagram-registered_example :
    (handle_datagram toy node client (sign_relay_register_response toy response 5) 20 200).1
    ≡ record client {
      lease = some (record {
        lease_id = response.lease_id;
        expires_at = response.expires_at;
        next_sequence = 0;
        last_keepalive_at = 20;
        last_authenticated_activity = 20;
      });
      pending = none;
      failures = 0;
      next_registration_at = 20;
    }
handle_datagram-registered_example =
    handle_datagram-registered toy toy-IsSigning node client waiting response 5 20 200 refl refl
      response-IsResponse refl refl refl refl (omega arith) (omega arith) (omega arith)

-- The generator gives 7 once, and no answer comes.
abbrev unanswered : List Event
unanswered =
    maintaining (some 7) 600 200 300
    ∷ maintaining none 1200 200 300
    ∷ maintaining none 1800 201 301
    ∷ active 1900
    ∷ maintaining none 2400 202 302
    ∷ maintaining none 3000 202 302
    ∷ maintaining none 3600 203 303
    ∷ maintaining none 4200 203 303
    ∷ []

abbrev idle : RelayClient
idle = record client { pending = none }

sent_six : requests (be 16 7) (upkeep_sent toy node idle unanswered) ≡ 6
unfolding be bytes_eq sign_relay_register_request request_body authenticate_activity maintain
    register_if_due maintain_pending drop_dead begin_registration send_keepalive step retry_pending
    is_request
sent_six = refl

upkeep-IsBounded_example :
    (requests (be 16 7) (upkeep_sent toy node idle unanswered) ≤ 6 * draws (be 16 7) unanswered)
    × WellFormed (run toy node idle unanswered)
upkeep-IsBounded_example = upkeep-IsBounded toy node idle unanswered (be 16 7) refl tt

abbrev lease : RelayLease
lease = record {
  lease_id = 6;
  expires_at = 500;
  next_sequence = 5;
  last_keepalive_at = 20;
  last_authenticated_activity = 20;
}

abbrev leased : RelayClient
leased = record client { lease = some lease; pending = none }

wrapped : (wrap node leased 3 frame.payload 200 300).0 ≡ framed (frame_bytes data_type frame)
unfolding wrap wrap_under
wrapped = rw encoded_frame refl

wrap-IsFramed_example :
    IsFramed node leased 3 frame.payload 200 300
      (frame_bytes data_type frame)
      (wrap node leased 3 frame.payload 200 300).1
wrap-IsFramed_example =
    wrap-IsFramed node leased 3 frame.payload 200 300 (frame_bytes data_type frame) wrapped
