-- ===== src/Relay/Tests.antt =====
-- The relay protocol of crates/protocol/src/relay.rs at concrete messages.
use xs_nexus.Base.{
  ℕ, ◌+◌, ◌*◌, ◌^◌, ◌<◌, ◌≤◌, ◌≡◌, refl, Bool, true, false, Option, some, List, [], ◌∷◌, ◌++◌,
  replicate, arith,
}
use xs_nexus.Packet.{DataHeader, keepalive, encode}
use xs_nexus.Credential.RoundTrip.{granted}
use xs_nexus.Credential.Tests.{toy, toy-IsSigning, claims, claims-IsClaims, acceptable-claims}
use xs_nexus.Relay.{RelayFrame, time_is_fresh, data_type}
use xs_nexus.Relay.Frames.{
  encode_relay_frame, parse_relay_frame, frame_bytes, keepalive_frame, encode_relay_keepalive,
  parse_relay_keepalive,
}
use xs_nexus.Relay.Frames.RoundTrip.{
  IsFrame, parse_relay_frame-encode_relay_frame, parse_relay_keepalive-encode_relay_keepalive,
}
use xs_nexus.Relay.Leases.{
  RelayRegisterResponse, RelayKeepaliveResponse, sign_relay_register_request,
  verify_relay_register_request, sign_relay_register_response, verify_relay_register_response,
  sign_relay_keepalive_response, verify_relay_keepalive_response,
}
use xs_nexus.Relay.Leases.RoundTrip.{
  IsResponse, IsAcknowledgement, request_with, verify_relay_register_response-sign,
  verify_relay_keepalive_response-sign, verify_relay_register_request-sign,
}

-- An empty keepalive of a session, with a tag of zeros.
abbrev inner : DataHeader
inner = record {
  packet_type = keepalive;
  flags = 0;
  payload_length = 0;
  network_id = 1;
  source_node_id = 2;
  destination_node_id = 3;
  session_id = 4;
  key_epoch = 0;
  sequence = 0;
  path_id = 0;
}

abbrev pub frame : RelayFrame
frame = record {
  network_id = 1;
  relay_id = 8;
  source_node_id = 2;
  destination_node_id = 3;
  lease_id = 6;
  sequence = 5;
  payload = encode inner ++ replicate 16 0;
}

frame-IsFrame : IsFrame frame
frame-IsFrame = record {
  network_id = omega arith;
  relay_id = omega arith;
  source_node_id = omega arith;
  destination_node_id = omega arith;
  lease_id = omega arith;
  sequence = omega arith;
}

pub encoded_frame : encode_relay_frame frame ≡ some (frame_bytes data_type frame)
unfolding encode_relay_frame encode xs_nexus.Relay.Frames.valid_identifiers xs_nexus.Base.Bytes.be
    xs_nexus.Relay.Frames.validate_relay_payload xs_nexus.Base.Bytes.bytes_eq xs_nexus.Packet.parse
    xs_nexus.Base.Bytes.from_be xs_nexus.Packet.packet_type_of xs_nexus.Packet.valid_flags
    xs_nexus.Packet.fields_at
encoded_frame = refl

parse_relay_frame-encode_relay_frame_example :
    parse_relay_frame (frame_bytes data_type frame) ≡ some frame
parse_relay_frame-encode_relay_frame_example =
    parse_relay_frame-encode_relay_frame frame (frame_bytes data_type frame) frame-IsFrame
      encoded_frame

beat-IsFrame : IsFrame (keepalive_frame 1 8 2 6 5)
beat-IsFrame = record {
  network_id = omega arith;
  relay_id = omega arith;
  source_node_id = omega arith;
  destination_node_id = omega arith;
  lease_id = omega arith;
  sequence = omega arith;
}

beat_read :
    parse_relay_keepalive (encode_relay_keepalive 1 8 2 6 5) ≡ some (keepalive_frame 1 8 2 6 5)
beat_read =
    parse_relay_keepalive-encode_relay_keepalive 1 8 2 6 5 beat-IsFrame (omega arith) (omega arith)
      (omega arith) (omega arith)

abbrev pub response : RelayRegisterResponse
response = record {
  network_id = 1;
  node_id = 2;
  relay_id = 8;
  request_id = 4;
  lease_id = 6;
  expires_at = 320;
}

pub response-IsResponse : IsResponse response
response-IsResponse = record {
  network_id = omega arith;
  node_id = omega arith;
  relay_id = omega arith;
  request_id = omega arith;
  lease_id = omega arith;
  expires_at = omega arith;
}

response_taken :
    verify_relay_register_response toy (sign_relay_register_response toy response 5) 5 1 2 8 4 200
    ≡ some response
response_taken =
    verify_relay_register_response-sign toy toy-IsSigning response 5 200 response-IsResponse
      (omega arith) (omega arith) (omega arith)

abbrev acknowledgement : RelayKeepaliveResponse
acknowledgement = record {
  network_id = 1;
  relay_id = 8;
  node_id = 2;
  lease_id = 6;
  server_time = 190;
}

acknowledgement-IsAcknowledgement : IsAcknowledgement acknowledgement
acknowledgement-IsAcknowledgement = record {
  network_id = omega arith;
  relay_id = omega arith;
  node_id = omega arith;
  lease_id = omega arith;
  server_time = omega arith;
}

timely : time_is_fresh 190 200 ≡ true
unfolding time_is_fresh
timely = refl

acknowledgement_taken :
    verify_relay_keepalive_response toy
      (sign_relay_keepalive_response toy acknowledgement 5)
      5
      1
      8
      2
      6
      200
    ≡ some acknowledgement
acknowledgement_taken =
    verify_relay_keepalive_response-sign toy toy-IsSigning acknowledgement 5 200
      acknowledgement-IsAcknowledgement (omega arith) timely

verify_relay_register_request-sign_example :
    verify_relay_register_request toy
      (sign_relay_register_request toy (request_with toy toy-IsSigning 8 4 190 claims 5) 9)
      5
      200
    ≡ some (record {
      request = request_with toy toy-IsSigning 8 4 190 claims 5;
      credential = granted toy toy-IsSigning claims 5;
    })
verify_relay_register_request-sign_example =
    verify_relay_register_request-sign toy toy-IsSigning 8 4 190 claims 5 9 200 claims-IsClaims
      (omega arith) (omega arith) (omega arith) (omega arith) (omega arith) refl timely
      acceptable-claims
