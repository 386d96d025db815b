-- ===== src/Relay/Frames.antt =====
-- The data envelope and the keepalive of crates/protocol/src/relay.rs, and the checks on the
-- datagram inside the envelope.
pub mod RoundTrip
use xs_nexus.Base.{
  ℕ, suc, ◌+◌, ◌-◌, ◌*◌, ◌^◌, ◌<◌, ◌≤◌, ◌≡◌, Bool, true, false, not, ◌&&◌, ◌||◌, Option, none, some,
  List, [], ◌∷◌, ◌++◌, ltb, leb, ◌==◌, if◌then◌else◌, ◌>>=◌, ◌>>◌, ensure, length, get_or, take,
  drop, is_empty,
}
use xs_nexus.Base.Bytes.{be, from_be, slice, bytes_eq}
use xs_nexus.Base.Text.{codes}
use xs_nexus.Packet.{DataHeader, parse, data_header_length, data_tag_length}
use xs_nexus.Relay.{
  RelayFrame, encode_common, valid_common, valid_zero_payload_message, data_type, keepalive_type,
  frame_header_length, max_frame_length, common_header_length,
}

abbrev pub client_hello_body_length : ℕ
client_hello_body_length = 389

abbrev pub server_hello_body_length : ℕ
server_hello_body_length = 468

abbrev pub finish_body_length : ℕ
finish_body_length = 76

abbrev pub client_hello_type : ℕ
client_hello_type = 0x10

abbrev pub server_hello_type : ℕ
server_hello_type = 0x11

abbrev pub client_finish_type : ℕ
client_finish_type = 0x12

abbrev pub server_finish_type : ℕ
server_finish_type = 0x13

unfoldable pub validate_data_payload : RelayFrame → Option (Unit {0})
validate_data_payload frame = do
  header ← parse frame.payload
  ensure (
      length frame.payload == data_header_length + header.payload_length + data_tag_length
      && header.network_id == frame.network_id
      && header.source_node_id == frame.source_node_id
      && header.destination_node_id == frame.destination_node_id)

unfoldable pub validate_handshake_payload : List ℕ → ℕ → Option (Unit {0})
validate_handshake_payload payload expected_body_length = ensure (
    bytes_eq (slice 6 8 payload) (0 ∷ 0 ∷ [])
    && from_be (slice 8 12 payload) == expected_body_length
    && length payload == common_header_length + expected_body_length)

unfoldable pub validate_visible_route : RelayFrame → Option (Unit {0})
validate_visible_route frame = ensure (
    from_be (slice 16 32 frame.payload) == frame.network_id
    && from_be (slice 32 48 frame.payload) == frame.source_node_id
    && from_be (slice 48 64 frame.payload) == frame.destination_node_id)

-- The `match payload[5]` of `validate_relay_payload`.
unfoldable pub validate_payload_type : RelayFrame → ℕ → Option (Unit {0})
unfolding validate_data_payload validate_handshake_payload validate_visible_route
validate_payload_type frame kind =
    if leb 1 kind && leb kind 7
    then validate_data_payload frame
    else if kind == client_hello_type
    then validate_handshake_payload frame.payload client_hello_body_length
      >> validate_visible_route frame
    else if kind == server_hello_type
    then validate_handshake_payload frame.payload server_hello_body_length
      >> validate_visible_route frame
    else if kind == client_finish_type || kind == server_finish_type
    then validate_handshake_payload frame.payload finish_body_length
    else none

unfoldable pub validate_relay_payload : RelayFrame → Option (Unit {0})
unfolding validate_payload_type
validate_relay_payload frame = do
  ensure (
      leb common_header_length (length frame.payload)
      && bytes_eq (slice 0 4 frame.payload) (codes "XSP1")
      && get_or frame.payload 4 0 == 1)
  validate_payload_type frame (get_or frame.payload 5 0)

-- The identifiers' checks of `encode_relay_frame` and of `parse_relay_frame`.
unfoldable pub valid_identifiers : RelayFrame → Bool
valid_identifiers frame =
    not (frame.network_id == 0)
    && not (frame.relay_id == 0)
    && not (frame.source_node_id == 0)
    && not (frame.destination_node_id == 0)
    && not (frame.source_node_id == frame.destination_node_id)
    && not (frame.lease_id == 0)
    && not (is_empty frame.payload)

-- What is written for a data frame or a keepalive, once it is accepted.
unfoldable pub frame_bytes : ℕ → RelayFrame → List ℕ
unfolding encode_common
frame_bytes message_type frame =
    encode_common message_type frame_header_length (length frame.payload)
    ++ (be 16 frame.network_id
        ++ (be 16 frame.relay_id
            ++ (be 16 frame.source_node_id
                ++ (be 16 frame.destination_node_id
                    ++ (be 16 frame.lease_id ++ (be 8 frame.sequence ++ frame.payload))))))

-- The record that the parsers build, from the slices at fixed places.
unfoldable pub frame_at : List ℕ → RelayFrame
frame_at encoded = record {
  network_id = from_be (slice 16 32 encoded);
  relay_id = from_be (slice 32 48 encoded);
  source_node_id = from_be (slice 48 64 encoded);
  destination_node_id = from_be (slice 64 80 encoded);
  lease_id = from_be (slice 80 96 encoded);
  sequence = from_be (slice 96 104 encoded);
  payload = drop 104 encoded;
}

unfoldable pub encode_relay_frame : RelayFrame → Option (List ℕ)
encode_relay_frame frame = do
  ensure (
      valid_identifiers frame
      && leb (length frame.payload) (max_frame_length - frame_header_length))
  validate_relay_payload frame
  ensure (ltb (length frame.payload) (2 ^ 16))
  some (frame_bytes data_type frame)

unfoldable pub parse_relay_frame : List ℕ → Option RelayFrame
parse_relay_frame encoded = do
  ensure (
      leb frame_header_length (length encoded)
      && leb (length encoded) max_frame_length
      && valid_common encoded data_type frame_header_length)
  ensure (length encoded == frame_header_length + from_be (slice 10 12 encoded))
  ensure (valid_identifiers (frame_at encoded))
  validate_relay_payload (frame_at encoded)
  some (frame_at encoded)

abbrev pub keepalive_frame : ℕ → ℕ → ℕ → ℕ → ℕ → RelayFrame
keepalive_frame network_id relay_id node_id lease_id sequence = record {
  network_id = network_id;
  relay_id = relay_id;
  source_node_id = node_id;
  destination_node_id = 0;
  lease_id = lease_id;
  sequence = sequence;
  payload = [];
}

unfoldable pub encode_relay_keepalive : ℕ → ℕ → ℕ → ℕ → ℕ → List ℕ
encode_relay_keepalive network_id relay_id node_id lease_id sequence =
    frame_bytes keepalive_type (keepalive_frame network_id relay_id node_id lease_id sequence)

unfoldable pub parse_relay_keepalive : List ℕ → Option RelayFrame
parse_relay_keepalive encoded = do
  ensure (
      length encoded == frame_header_length
      && valid_zero_payload_message encoded keepalive_type frame_header_length)
  let frame =
      keepalive_frame (from_be (slice 16 32 encoded)) (from_be (slice 32 48 encoded))
        (from_be (slice 48 64 encoded)) (from_be (slice 80 96 encoded))
        (from_be (slice 96 104 encoded))
  ensure (
      not (frame.network_id == 0)
      && not (frame.relay_id == 0)
      && not (frame.source_node_id == 0)
      && not (frame.lease_id == 0)
      && from_be (slice 64 80 encoded) == 0)
  some frame
