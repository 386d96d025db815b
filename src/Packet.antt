-- ===== src/Packet.antt =====
-- XSP/1 data packets: the header, its flags, and the payload and IPv4 checks of
-- crates/protocol/src/data.rs. An identifier `[u8; 16]` is a number below 2 ^ 128 (`Base.Bytes`),
-- and `Err(InvalidProtocolMessage)` is `none`.
pub mod Codec
pub mod Canonical
mod Tests
use xs_nexus.Base.{
  ℕ, zero, suc, ◌+◌, ◌-◌, ◌*◌, ◌/◌, ◌%◌, ◌^◌, ◌<◌, ◌≡◌, bit_and, Bool, true, false, not, ◌&&◌, ◌||◌,
  Option, none, some, List, [], ◌∷◌, ◌++◌, ltb, leb, ◌==◌, if◌then◌else◌, ◌>>=◌, ◌>>◌, ensure,
  get_or, length, is_empty,
}
use xs_nexus.Base.Bytes.{be, from_be, slice, bytes_eq}

abbrev pub data_header_length : ℕ
data_header_length = 96

abbrev pub data_tag_length : ℕ
data_tag_length = 16

abbrev pub max_datagram_length : ℕ
max_datagram_length = 1500

abbrev pub max_encrypted_payload_length : ℕ
max_encrypted_payload_length = max_datagram_length - data_header_length - data_tag_length

abbrev pub magic : List ℕ
magic = b'X' ∷ b'S' ∷ b'P' ∷ b'1' ∷ []

abbrev pub version : ℕ
version = 1

pub data PacketType : Type 0 where
  data_packet keepalive path_challenge path_response key_update key_update_ack close : PacketType

-- `packet_type as u8`
abbrev pub type_code : PacketType → ℕ
type_code data_packet = 0x01
type_code keepalive = 0x02
type_code path_challenge = 0x03
type_code path_response = 0x04
type_code key_update = 0x05
type_code key_update_ack = 0x06
type_code close = 0x07

-- `PacketType::try_from`
unfoldable pub packet_type_of : ℕ → Option PacketType
packet_type_of value =
    if value == 0x01
    then some data_packet
    else if value == 0x02
    then some keepalive
    else if value == 0x03
    then some path_challenge
    else if value == 0x04
    then some path_response
    else if value == 0x05
    then some key_update
    else if value == 0x06
    then some key_update_ack
    else if value == 0x07
    then some close
    else none

-- `DataFlags`, by its bits.
abbrev pub ack_eliciting : ℕ
ack_eliciting = 0x0001

abbrev pub control : ℕ
control = 0x0002

abbrev pub path_probe : ℕ
path_probe = 0x0004

-- The `match` of `valid_flags`.
unfoldable pub type_flags : PacketType → ℕ → Bool
type_flags data_packet bits = bit_and bits (0xffff - ack_eliciting) == 0
type_flags keepalive bits = bit_and bits (0xffff - ack_eliciting) == 0
type_flags path_challenge bits = not (bit_and bits path_probe == 0) && bit_and bits control == 0
type_flags path_response bits = not (bit_and bits path_probe == 0) && bit_and bits control == 0
type_flags key_update bits = not (bit_and bits control == 0) && bit_and bits path_probe == 0
type_flags key_update_ack bits = not (bit_and bits control == 0) && bit_and bits path_probe == 0
type_flags close bits = not (bit_and bits control == 0) && bit_and bits path_probe == 0

-- `!x` of a `u16` is `0xffff - x`.
unfoldable pub valid_flags : PacketType → ℕ → Bool
unfolding type_flags
valid_flags packet_type bits =
    if not (bit_and bits (0xffff - 0x0007) == 0) then false else type_flags packet_type bits

pub record DataHeader : Type 0 where
  pub packet_type : PacketType
  pub flags : ℕ
  pub payload_length : ℕ
  pub network_id : ℕ
  pub source_node_id : ℕ
  pub destination_node_id : ℕ
  pub session_id : ℕ
  pub key_epoch : ℕ
  pub sequence : ℕ
  pub path_id : ℕ

-- The fields fill the 96 bytes from the front; the last four stay 0.
unfoldable pub encode : DataHeader → List ℕ
encode h =
    magic
    ++ (version
        ∷ type_code h.packet_type
        ∷ (be 2 h.flags
            ++ (be 2 data_header_length
                ++ (be 2 h.payload_length
                    ++ (be 16 h.network_id
                        ++ (be 16 h.source_node_id
                            ++ (be 16 h.destination_node_id
                                ++ (be 16 h.session_id
                                    ++ (be 4 h.key_epoch
                                        ++ (be 8 h.sequence ++ (be 4 h.path_id ++ be 4 0)))))))))))

-- The record that `parse` builds, from the slices at fixed places.
unfoldable pub fields_at : List ℕ → PacketType → DataHeader
fields_at encoded t = record {
  packet_type = t;
  flags = from_be (slice 6 8 encoded);
  payload_length = from_be (slice 10 12 encoded);
  network_id = from_be (slice 12 28 encoded);
  source_node_id = from_be (slice 28 44 encoded);
  destination_node_id = from_be (slice 44 60 encoded);
  session_id = from_be (slice 60 76 encoded);
  key_epoch = from_be (slice 76 80 encoded);
  sequence = from_be (slice 80 88 encoded);
  path_id = from_be (slice 88 92 encoded);
}

unfoldable pub parse : List ℕ → Option DataHeader
parse encoded = do
  ensure (leb data_header_length (length encoded))
  ensure (bytes_eq (slice 0 4 encoded) magic)
  ensure (get_or encoded 4 0 == version)
  ensure (from_be (slice 8 10 encoded) == data_header_length)
  ensure (bytes_eq (slice 92 96 encoded) (0 ∷ 0 ∷ 0 ∷ 0 ∷ []))
  packet_type ← packet_type_of (get_or encoded 5 0)
  ensure (valid_flags packet_type (from_be (slice 6 8 encoded)))
  some (fields_at encoded packet_type)

-- The `match` of `validate_payload`, over the payload's length.
unfoldable pub valid_payload_length : PacketType → ℕ → Bool
valid_payload_length data_packet n = not (n == 0)
valid_payload_length keepalive n = n == 0
valid_payload_length path_challenge n = n == 8
valid_payload_length path_response n = n == 8
valid_payload_length key_update n = n == 36
valid_payload_length key_update_ack n = n == 36
valid_payload_length close n = leb 2 n && leb n 258

unfoldable pub validate_payload : PacketType → List ℕ → Option (Unit {0})
unfolding valid_payload_length
validate_payload packet_type payload = ensure (valid_payload_length packet_type (length payload))

-- Source and destination of a canonical unfragmented IPv4 packet.
unfoldable pub validate_ipv4_packet : List ℕ → Option (ℕ × ℕ)
validate_ipv4_packet packet = do
  ensure (leb 20 (length packet))
  ensure (get_or packet 0 0 / 2 ^ 4 == 4)
  let header_length = bit_and (get_or packet 0 0) 0x0f * 4
  let total_length = from_be (slice 2 4 packet)
  let fragment = from_be (slice 6 8 packet)
  ensure (leb 20 header_length)
  ensure (leb header_length (length packet))
  ensure (total_length == length packet)
  ensure (bit_and fragment 0x3fff == 0)
  some (from_be (slice 12 16 packet), from_be (slice 16 20 packet))

unfoldable pub validate_ipv4 : List ℕ → ℕ → ℕ → Option (Unit {0})
validate_ipv4 packet expected_source expected_destination = do
  (source, destination) ← validate_ipv4_packet packet
  ensure (source == expected_source && destination == expected_destination)
