-- ===== src/Relay/Frames/RoundTrip.antt =====
-- The relay reads the data frames and keepalives of crates/protocol/src/relay.rs that a node writes.
use xs_nexus.Base.{
  ℕ, ◌+◌, ◌-◌, ◌^◌, ◌<◌, ◌≡◌, refl, true, ◌&&◌, some, List, [], ltb, leb, ensure-passed,
  then-passed, some-eq, length, arith, leb→le, le→leb, &&-true, ==_self, nonzero,
}
use xs_nexus.Base.Bytes.{be, from_be, from_be-be, slice, bytes_eq}
use xs_nexus.Relay.{
  RelayFrame, encode_common, valid_common, valid_zero_payload_message, frame_header_length,
  max_frame_length,
}
use xs_nexus.Relay.Frames.{
  valid_identifiers, validate_relay_payload, frame_bytes, frame_at, encode_relay_frame,
  parse_relay_frame, keepalive_frame, encode_relay_keepalive, parse_relay_keepalive,
}

-- The fields fit their widths.
pub record IsFrame (f : RelayFrame) : Type 0 where
  pub network_id : f.network_id < 2 ^ 128
  pub relay_id : f.relay_id < 2 ^ 128
  pub source_node_id : f.source_node_id < 2 ^ 128
  pub destination_node_id : f.destination_node_id < 2 ^ 128
  pub lease_id : f.lease_id < 2 ^ 128
  pub sequence : f.sequence < 2 ^ 64

length-frame_bytes : (t : ℕ) (f : RelayFrame) → length (frame_bytes t f) ≡ 104 + length f.payload
unfolding frame_bytes be encode_common
length-frame_bytes t f = omega arith

frame_at-frame_bytes : (t : ℕ) (f : RelayFrame) → IsFrame f → frame_at (frame_bytes t f) ≡ f
unfolding frame_at frame_bytes be encode_common
frame_at-frame_bytes t f v = λ i. record {
  network_id = from_be-be 16 f.network_id v.network_id i;
  relay_id = from_be-be 16 f.relay_id v.relay_id i;
  source_node_id = from_be-be 16 f.source_node_id v.source_node_id i;
  destination_node_id = from_be-be 16 f.destination_node_id v.destination_node_id i;
  lease_id = from_be-be 16 f.lease_id v.lease_id i;
  sequence = from_be-be 8 f.sequence v.sequence i;
  payload = f.payload;
}

data-valid_common : (f : RelayFrame) → valid_common (frame_bytes 3 f) 3 104 ≡ true
unfolding valid_common frame_bytes be encode_common bytes_eq from_be
data-valid_common f = ground arith

payload_length-frame_bytes :
    (t : ℕ) (f : RelayFrame)
    → length f.payload < 2 ^ 16
    → from_be (slice 10 12 (frame_bytes t f)) ≡ length f.payload
unfolding frame_bytes be encode_common
payload_length-frame_bytes t f h = from_be-be 2 (length f.payload) h

-- What `encode_relay_frame` writes, `parse_relay_frame` reads back, for fields that fit their widths.
pub parse_relay_frame-encode_relay_frame :
    (f : RelayFrame) (encoded : List ℕ)
    → IsFrame f
    → encode_relay_frame f ≡ some encoded
    → parse_relay_frame encoded ≡ some f
unfolding encode_relay_frame parse_relay_frame
parse_relay_frame-encode_relay_frame f encoded v p =
    let (ok, p1) =
      ensure-passed
        (valid_identifiers f && leb (length f.payload) (max_frame_length - frame_header_length)) _
        p in
    let (valid, small) = &&-true (valid_identifiers f) _ ok in
    let (inner, p2) = then-passed (validate_relay_payload f) _ p1 in
    let (short, p3) = ensure-passed (ltb (length f.payload) (2 ^ 16)) _ p2 in
    let le = leb→le _ _ small in
    let long = length-frame_bytes 3 f in
    let bytes : List ℕ = frame_bytes 3 f in
    let from : leb 104 (length bytes) ≡ true = le→leb _ _ (omega (arith, long)) in
    let upto : leb (length bytes) 1500 ≡ true = le→leb _ _ (omega (arith, long)) in
    rw (← some-eq p3) (
      rw (from, upto, data-valid_common f)
        (rw (payload_length-frame_bytes 3 f (omega arith), long, ==_self (104 + length f.payload))
          (rw (frame_at-frame_bytes 3 f v, valid, inner) refl)))

keepalive_fields :
    (network_id relay_id node_id lease_id sequence : ℕ)
    → IsFrame (keepalive_frame network_id relay_id node_id lease_id sequence)
    → let bytes = frame_bytes 4 (keepalive_frame network_id relay_id node_id lease_id sequence) in
      (from_be (slice 16 32 bytes) ≡ network_id)
      × (from_be (slice 32 48 bytes) ≡ relay_id)
      × (from_be (slice 48 64 bytes) ≡ node_id)
      × (from_be (slice 64 80 bytes) ≡ 0)
      × (from_be (slice 80 96 bytes) ≡ lease_id)
      × (from_be (slice 96 104 bytes) ≡ sequence)
unfolding frame_bytes be encode_common
keepalive_fields network_id relay_id node_id lease_id sequence v = (
  from_be-be 16 network_id v.network_id,
  from_be-be 16 relay_id v.relay_id,
  from_be-be 16 node_id v.source_node_id,
  from_be-be 16 0 v.destination_node_id,
  from_be-be 16 lease_id v.lease_id,
  from_be-be 8 sequence v.sequence,
)

keepalive_framing :
    (f : RelayFrame) → f.payload ≡ [] → valid_zero_payload_message (frame_bytes 4 f) 4 104 ≡ true
unfolding valid_zero_payload_message valid_common frame_bytes be encode_common bytes_eq from_be
keepalive_framing f e = rw e refl

-- A keepalive with nonzero identifiers that fit their widths is read back.
pub parse_relay_keepalive-encode_relay_keepalive :
    (network_id relay_id node_id lease_id sequence : ℕ)
    → IsFrame (keepalive_frame network_id relay_id node_id lease_id sequence)
    → 0 < network_id
    → 0 < relay_id
    → 0 < node_id
    → 0 < lease_id
    → parse_relay_keepalive (encode_relay_keepalive network_id relay_id node_id lease_id sequence)
      ≡ some (keepalive_frame network_id relay_id node_id lease_id sequence)
unfolding parse_relay_keepalive encode_relay_keepalive
parse_relay_keepalive-encode_relay_keepalive network_id relay_id node_id lease_id sequence v hn hr
      hs hl =
    let (network, relay, node, zero, lease, number) =
      keepalive_fields network_id relay_id node_id lease_id sequence v in
    let f = keepalive_frame network_id relay_id node_id lease_id sequence in
    rw (keepalive_framing f refl, length-frame_bytes 4 f)
      (rw
        (
          network,
          relay,
          node,
          zero,
          lease,
          number,
          nonzero _ hn,
          nonzero _ hr,
          nonzero _ hs,
          nonzero _ hl,
        )
        refl)
