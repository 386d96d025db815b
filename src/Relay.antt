-- ===== src/Relay.antt =====
-- The relay protocol XSR/1: the messages of crates/protocol/src/relay.rs. An identifier is the
-- number its 16 bytes spell; a missing slice cannot occur behind the length checks.
pub mod Frames
pub mod Leases
pub mod Tests
use xs_nexus.Base.{
  ℕ, suc, ◌+◌, ◌-◌, ◌*◌, ◌^◌, ◌<◌, ◌≤◌, ◌≡◌, Bool, true, false, not, ◌&&◌, ◌||◌, Option, none, some,
  List, [], ◌∷◌, ◌++◌, ltb, leb, ◌==◌, if◌then◌else◌, ◌>>=◌, ◌>>◌, ensure, length, get_or, take,
  drop, is_empty, saturating_add,
}
use xs_nexus.Base.Bytes.{be, from_be, slice, bytes_eq}
use xs_nexus.Base.Text.{codes}
use xs_nexus.Packet.{DataHeader, parse, data_header_length, data_tag_length}
use xs_nexus.Credential.{Signing}

abbrev pub register_request_length : ℕ
register_request_length = 352

abbrev pub register_response_length : ℕ
register_response_length = 168

abbrev pub frame_header_length : ℕ
frame_header_length = 104

abbrev pub keepalive_response_length : ℕ
keepalive_response_length = 152

abbrev pub max_frame_length : ℕ
max_frame_length = 1500

abbrev pub max_lease_seconds : ℕ
max_lease_seconds = 300

abbrev pub register_request_type : ℕ
register_request_type = 1

abbrev pub register_response_type : ℕ
register_response_type = 2

abbrev pub data_type : ℕ
data_type = 3

abbrev pub keepalive_type : ℕ
keepalive_type = 4

abbrev pub keepalive_response_type : ℕ
keepalive_response_type = 5

abbrev pub relay_magic : List ℕ
relay_magic = codes "XSR1"

abbrev pub relay_version : ℕ
relay_version = 1

abbrev pub common_header_length : ℕ
common_header_length = 16

pub record RelayFrame : Type 0 where
  pub network_id : ℕ
  pub relay_id : ℕ
  pub source_node_id : ℕ
  pub destination_node_id : ℕ
  pub lease_id : ℕ
  pub sequence : ℕ
  pub payload : List ℕ

-- The first 16 bytes of every message.
unfoldable pub encode_common : ℕ → ℕ → ℕ → List ℕ
encode_common message_type header_length payload_length =
    relay_magic
    ++ (relay_version
        ∷ message_type
        ∷ (be 2 0 ++ (be 2 header_length ++ (be 2 payload_length ++ (0 ∷ 0 ∷ 0 ∷ 0 ∷ [])))))

unfoldable pub valid_common : List ℕ → ℕ → ℕ → Bool
valid_common encoded message_type header_length =
    leb common_header_length (length encoded)
    && bytes_eq (slice 0 4 encoded) relay_magic
    && get_or encoded 4 0 == relay_version
    && get_or encoded 5 0 == message_type
    && bytes_eq (slice 6 8 encoded) (0 ∷ 0 ∷ [])
    && from_be (get_or encoded 8 0 ∷ get_or encoded 9 0 ∷ []) == header_length
    && bytes_eq (slice 12 16 encoded) (0 ∷ 0 ∷ 0 ∷ 0 ∷ [])

unfoldable pub valid_zero_payload_message : List ℕ → ℕ → ℕ → Bool
unfolding valid_common
valid_zero_payload_message encoded message_type header_length =
    valid_common encoded message_type header_length && bytes_eq (slice 10 12 encoded) (0 ∷ 0 ∷ [])

-- `value.abs_diff(now) <= 300`
unfoldable pub time_is_fresh : ℕ → ℕ → Bool
time_is_fresh value now = leb (value - now + (now - value)) 300

module _ (g : Signing) where
  unfoldable pub sign_bytes : List ℕ → List ℕ → ℕ → List ℕ
  sign_bytes domain encoded signing_key = be 64 (g.sign signing_key (domain ++ encoded))

  unfoldable pub verify_signature : List ℕ → List ℕ → List ℕ → ℕ → Option (Unit {0})
  verify_signature domain encoded signature verifying_key = do
    ensure (length signature == 64)
    ensure (g.verify_strict verifying_key (domain ++ encoded) (from_be signature))
