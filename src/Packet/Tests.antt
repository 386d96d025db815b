-- ===== src/Packet/Tests.antt =====
-- The header codec of crates/protocol/src/data.rs at concrete packets.
use xs_nexus.Base.{
  ℕ, ◌≡◌, refl, Bool, true, false, Option, some, none, List, [], ◌∷◌, ◌++◌, All, arith, replicate,
  take, ◌*◌, ◌^◌,
}
use xs_nexus.Base.Bytes.{IsByte, be, bytes_checked}
use xs_nexus.Packet.{
  DataHeader, data_packet, keepalive, close, encode, parse, valid_flags, validate_ipv4_packet,
}
use xs_nexus.Packet.Codec.{IsHeader, parse-encode}
use xs_nexus.Packet.Canonical.{parse_canonical}

abbrev header : DataHeader
header = record {
  packet_type = data_packet;
  flags = 0;
  payload_length = 20;
  network_id = 1;
  source_node_id = 2;
  destination_node_id = 3;
  session_id = 4;
  key_epoch = 5;
  sequence = 6;
  path_id = 7;
}

header-IsHeader : IsHeader header
unfolding valid_flags
header-IsHeader = record {
  flags = omega arith;
  payload_length = omega arith;
  network_id = omega arith;
  source_node_id = omega arith;
  destination_node_id = omega arith;
  session_id = omega arith;
  key_epoch = omega arith;
  sequence = omega arith;
  path_id = omega arith;
  suits = refl;
}

header_bytes : All IsByte (encode header)
unfolding encode be
header_bytes = bytes_checked (encode header) refl

parse-encode_example : parse (encode header ++ (9 ∷ [])) ≡ some header
parse-encode_example = parse-encode header (9 ∷ []) header-IsHeader

parsed : parse (encode header) ≡ some header
unfolding parse encode be xs_nexus.Base.Bytes.bytes_eq xs_nexus.Base.Bytes.from_be
    xs_nexus.Packet.packet_type_of valid_flags xs_nexus.Packet.fields_at
parsed = refl

parse_canonical_example : IsHeader header × (take 96 (encode header) ≡ encode header)
parse_canonical_example = parse_canonical (encode header) header header_bytes parsed
