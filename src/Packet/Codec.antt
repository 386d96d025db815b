-- ===== src/Packet/Codec.antt =====
-- The header round trip of crates/protocol/src/data.rs: `parse` reads back what `encode` wrote.
use xs_nexus.Base.{
  ℕ, ◌^◌, ◌<◌, ◌≡◌, refl, true, some, List, [], ◌∷◌, ◌++◌, length, arith, leb, le→leb,
  length-append, get_or, ap,
}
use xs_nexus.Base.Bytes.{be, from_be, from_be-be, slice, bytes_eq}
use xs_nexus.Packet.{
  PacketType, DataHeader, type_code, packet_type_of, valid_flags, encode, parse, fields_at,
  data_packet, keepalive, path_challenge, path_response, key_update, key_update_ack, close, magic,
}

-- The fields fit their widths, and the flags suit the packet type.
pub record IsHeader (h : DataHeader) : Type 0 where
  pub flags : h.flags < 2 ^ 16
  pub payload_length : h.payload_length < 2 ^ 16
  pub network_id : h.network_id < 2 ^ 128
  pub source_node_id : h.source_node_id < 2 ^ 128
  pub destination_node_id : h.destination_node_id < 2 ^ 128
  pub session_id : h.session_id < 2 ^ 128
  pub key_epoch : h.key_epoch < 2 ^ 32
  pub sequence : h.sequence < 2 ^ 64
  pub path_id : h.path_id < 2 ^ 32
  pub suits : valid_flags h.packet_type h.flags ≡ true

packet_type_of-type_code : (t : PacketType) → packet_type_of (type_code t) ≡ some t
unfolding packet_type_of
packet_type_of-type_code data_packet = refl
packet_type_of-type_code keepalive = refl
packet_type_of-type_code path_challenge = refl
packet_type_of-type_code path_response = refl
packet_type_of-type_code key_update = refl
packet_type_of-type_code key_update_ack = refl
packet_type_of-type_code close = refl

pub length-encode : (h : DataHeader) → length (encode h) ≡ 96
unfolding encode be
length-encode h = refl

fields_at-encode :
    (h : DataHeader) (rest : List ℕ) → IsHeader h → fields_at (encode h ++ rest) h.packet_type ≡ h
unfolding fields_at encode be
fields_at-encode h rest v = λ i. record {
  packet_type = h.packet_type;
  flags = from_be-be 2 h.flags v.flags i;
  payload_length = from_be-be 2 h.payload_length v.payload_length i;
  network_id = from_be-be 16 h.network_id v.network_id i;
  source_node_id = from_be-be 16 h.source_node_id v.source_node_id i;
  destination_node_id = from_be-be 16 h.destination_node_id v.destination_node_id i;
  session_id = from_be-be 16 h.session_id v.session_id i;
  key_epoch = from_be-be 4 h.key_epoch v.key_epoch i;
  sequence = from_be-be 8 h.sequence v.sequence i;
  path_id = from_be-be 4 h.path_id v.path_id i;
}

length_prefixed : (h : DataHeader) (rest : List ℕ) → leb 96 (length (encode h ++ rest)) ≡ true
length_prefixed h rest =
    le→leb 96 _ (omega (arith, length-append {0} (encode h) rest, length-encode h))

-- What the guards of `parse` look at.
framing :
    (h : DataHeader) (rest : List ℕ)
    → (bytes_eq (slice 0 4 (encode h ++ rest)) magic ≡ true)
      × (get_or (encode h ++ rest) 4 0 ≡ 1)
      × (from_be (slice 8 10 (encode h ++ rest)) ≡ 96)
      × (bytes_eq (slice 92 96 (encode h ++ rest)) (0 ∷ 0 ∷ 0 ∷ 0 ∷ []) ≡ true)
      × (get_or (encode h ++ rest) 5 0 ≡ type_code h.packet_type)
unfolding encode be bytes_eq from_be
framing h rest = (refl, refl, refl, refl, refl)

flags_at :
    (h : DataHeader) (rest : List ℕ) → IsHeader h → from_be (slice 6 8 (encode h ++ rest)) ≡ h.flags
unfolding encode be
flags_at h rest v = from_be-be 2 h.flags v.flags

-- A header in range is read back from the front of any packet that begins with its encoding,
-- whatever bytes follow.
pub parse-encode : (h : DataHeader) (rest : List ℕ) → IsHeader h → parse (encode h ++ rest) ≡ some h
unfolding parse
parse-encode h rest v =
    let (tag, one, size, zeros, kind) = framing h rest in
    rw (length_prefixed h rest, tag, one, size, zeros, kind)
      (rw (packet_type_of-type_code h.packet_type)
        (rw (flags_at h rest v, v.suits) (ap some (fields_at-encode h rest v))))
