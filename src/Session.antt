-- ===== src/Session.antt =====
-- The two ends of an XSP/1 session: `DataSender` and `DataReceiver` of
-- crates/protocol/src/data.rs. A method that mutates `self` returns the new state beside its
-- result; on an error (`none`) the code leaves `self` as it was.
pub mod Laws
pub mod Once
pub mod Delivery
pub mod Nonces
pub mod Freshness
pub mod Tests
use xs_nexus.Base.{
  ℕ, zero, suc, ◌+◌, ◌-◌, ◌*◌, ◌^◌, ◌<◌, ◌≤◌, ◌≡◌, Bool, true, false, not, ◌&&◌, ◌||◌, Option, none,
  some, List, [], ◌∷◌, ◌++◌, ltb, leb, ◌==◌, if◌then◌else◌, ◌>>=◌, ◌>>◌, ensure, length, take, drop,
}
use xs_nexus.Base.Bytes.{be, from_be, slice, bytes_eq}
use xs_nexus.Base.Text.{codes}
use xs_nexus.Replay.{ReplayWindow}
use xs_nexus.Replay
use xs_nexus.Packet.{
  PacketType, data_packet, keepalive, path_challenge, path_response, key_update, key_update_ack,
  close, DataHeader, encode, parse, valid_flags, validate_payload, validate_ipv4,
  validate_ipv4_packet, data_header_length, data_tag_length, max_datagram_length,
  max_encrypted_payload_length,
}

-- The cryptographic libraries that the code calls: HKDF-SHA256 expansion to a number of bytes,
-- ChaCha20-Poly1305 with the tag apart, and SHA-256.
pub record Crypto : Type 0 where
  pub expand : ℕ → ℕ → List ℕ → Option ℕ
  pub encrypt : ℕ → List ℕ → List ℕ → List ℕ → Option (List ℕ × List ℕ)
  pub decrypt : ℕ → List ℕ → List ℕ → List ℕ → List ℕ → Option (List ℕ)
  pub sha256 : List ℕ → ℕ

-- Their documented behaviour.
pub record IsCrypto (c : Crypto) : Type 0 where
  pub expand_range :
      (n secret : ℕ) (info : List ℕ) (v : ℕ) → c.expand n secret info ≡ some v → v < 256 ^ n
  pub cipher_length :
      (key : ℕ) (nonce aad text cipher tag : List ℕ)
      → c.encrypt key nonce aad text ≡ some (cipher, tag)
      → length cipher ≡ length text
  pub tag_length :
      (key : ℕ) (nonce aad text cipher tag : List ℕ)
      → c.encrypt key nonce aad text ≡ some (cipher, tag)
      → length tag ≡ 16
  pub decrypts :
      (key : ℕ) (nonce aad text cipher tag : List ℕ)
      → c.encrypt key nonce aad text ≡ some (cipher, tag)
      → c.decrypt key nonce aad cipher tag ≡ some text
  pub digest_range : (input : List ℕ) → c.sha256 input < 256 ^ 32

abbrev pub u64_max : ℕ
u64_max = 2 ^ 64 - 1

-- `epoch.checked_add(1) != Some(next)`, of a `u32`.
unfoldable pub is_next_epoch : ℕ → ℕ → Bool
is_next_epoch epoch next = ltb (epoch + 1) (2 ^ 32) && epoch + 1 == next

pub record EpochCipher : Type 0 where
  pub epoch : ℕ
  pub key : ℕ
  pub nonce_salt : ℕ
  pub replay : ReplayWindow

pub record DataSender : Type 0 where
  pub direction_secret : ℕ
  pub cipher : EpochCipher
  pub next_sequence : ℕ
  pub network_id : ℕ
  pub source_node_id : ℕ
  pub destination_node_id : ℕ
  pub session_id : ℕ
  pub source_virtual_ip : ℕ
  pub destination_virtual_ip : ℕ

pub record DataReceiver : Type 0 where
  pub direction_secret : ℕ
  pub current : EpochCipher
  pub previous : Option EpochCipher
  pub network_id : ℕ
  pub source_node_id : ℕ
  pub destination_node_id : ℕ
  pub session_id : ℕ
  pub source_virtual_ip : ℕ
  pub destination_virtual_ip : ℕ

pub record OpenedPacket : Type 0 where
  pub packet_type : PacketType
  pub flags : ℕ
  pub key_epoch : ℕ
  pub sequence : ℕ
  pub path_id : ℕ
  pub plaintext : List ℕ

unfoldable pub packet_nonce : ℕ → ℕ → List ℕ
packet_nonce nonce_salt sequence = be 4 nonce_salt ++ be 8 sequence

abbrev pub is_data : PacketType → Bool
is_data data_packet = true
is_data _ = false

-- Which of the receiver's two states a packet belongs to.
pub data Slot : Type 0 where
  current_slot previous_slot : Slot

unfoldable pub select_previous : Option EpochCipher → ℕ → Option (Slot × EpochCipher)
select_previous none epoch = none
select_previous (some previous) epoch =
    if previous.epoch == epoch then some (previous_slot, previous) else none

unfoldable pub select : DataReceiver → ℕ → Option (Slot × EpochCipher)
unfolding select_previous
select r epoch =
    if epoch == r.current.epoch
    then some (current_slot, r.current)
    else select_previous r.previous epoch

-- `state` is a `&mut` into the receiver: what is written to it stands there.
abbrev pub store : DataReceiver → Slot → EpochCipher → DataReceiver
store r current_slot state = record r { current = state }
store r previous_slot state = record r { previous = some state }

-- The checks of `open` on the header against the receiver's session.
unfoldable pub belongs : DataReceiver → DataHeader → List ℕ → Bool
belongs r header encoded =
    data_header_length + header.payload_length + data_tag_length == length encoded
    && header.network_id == r.network_id
    && header.source_node_id == r.source_node_id
    && header.destination_node_id == r.destination_node_id
    && header.session_id == r.session_id

-- The checks on the decrypted IPv4 packet.
unfoldable pub validate_inner : DataReceiver → Bool → PacketType → List ℕ → Option (Unit {0})
validate_inner r allow_routed packet_type plaintext =
    if is_data packet_type
    then if allow_routed
      then validate_ipv4_packet plaintext >>= (λ _. some tt)
      else validate_ipv4 plaintext r.source_virtual_ip r.destination_virtual_ip
    else some tt

abbrev pub opened : DataHeader → List ℕ → OpenedPacket
opened header plaintext = record {
  packet_type = header.packet_type;
  flags = header.flags;
  key_epoch = header.key_epoch;
  sequence = header.sequence;
  path_id = header.path_id;
  plaintext = plaintext;
}

-- The header that `seal` writes.
abbrev pub seal_header : DataSender → PacketType → ℕ → ℕ → List ℕ → DataHeader
seal_header s packet_type flags path_id plaintext = record {
  packet_type = packet_type;
  flags = flags;
  payload_length = length plaintext;
  network_id = s.network_id;
  source_node_id = s.source_node_id;
  destination_node_id = s.destination_node_id;
  session_id = s.session_id;
  key_epoch = s.cipher.epoch;
  sequence = s.next_sequence;
  path_id = path_id;
}

module _ (c : Crypto) where
  unfoldable pub derive_epoch : ℕ → ℕ → Option EpochCipher
  derive_epoch direction_secret epoch = do
    key ← c.expand 32 direction_secret (codes "XSP/1 traffic key v1" ++ be 4 epoch)
    salt ← c.expand 4 direction_secret (codes "XSP/1 nonce salt v1" ++ be 4 epoch)
    some (record { epoch = epoch; key = key; nonce_salt = salt; replay = Replay.new })

  unfoldable pub new_sender : ℕ → ℕ → ℕ → ℕ → ℕ → ℕ → ℕ → Option DataSender
  new_sender secret network source destination session source_ip destination_ip = do
    cipher ← derive_epoch secret 0
    some (record {
      direction_secret = secret;
      cipher = cipher;
      next_sequence = 0;
      network_id = network;
      source_node_id = source;
      destination_node_id = destination;
      session_id = session;
      source_virtual_ip = source_ip;
      destination_virtual_ip = destination_ip;
    })

  unfoldable pub new_receiver : ℕ → ℕ → ℕ → ℕ → ℕ → ℕ → ℕ → Option DataReceiver
  new_receiver secret network source destination session source_ip destination_ip = do
    current ← derive_epoch secret 0
    some (record {
      direction_secret = secret;
      current = current;
      previous = none;
      network_id = network;
      source_node_id = source;
      destination_node_id = destination;
      session_id = session;
      source_virtual_ip = source_ip;
      destination_virtual_ip = destination_ip;
    })

  unfoldable pub seal : DataSender → PacketType → ℕ → ℕ → List ℕ → Option (DataSender × List ℕ)
  seal s packet_type flags path_id plaintext = do
    ensure (valid_flags packet_type flags)
    ensure (leb (length plaintext) max_encrypted_payload_length)
    ensure (not (s.next_sequence == u64_max))
    validate_payload packet_type plaintext
    ensure (ltb (length plaintext) (2 ^ 16))
    let header = encode (seal_header s packet_type flags path_id plaintext)
    (cipher, tag) ←
        c.encrypt s.cipher.key (packet_nonce s.cipher.nonce_salt s.next_sequence) header plaintext
    some (record s { next_sequence = s.next_sequence + 1 }, header ++ (cipher ++ tag))

  unfoldable pub seal_ipv4 : DataSender → ℕ → ℕ → List ℕ → Option (DataSender × List ℕ)
  seal_ipv4 s flags path_id packet = do
    validate_ipv4 packet s.source_virtual_ip s.destination_virtual_ip
    seal s data_packet flags path_id packet

  unfoldable pub seal_routed_ipv4 : DataSender → ℕ → ℕ → List ℕ → Option (DataSender × List ℕ)
  seal_routed_ipv4 s flags path_id packet = do
    _ ← validate_ipv4_packet packet
    seal s data_packet flags path_id packet

  unfoldable pub seal_control :
      DataSender → PacketType → ℕ → ℕ → List ℕ → Option (DataSender × List ℕ)
  seal_control s packet_type flags path_id payload = do
    ensure (not (is_data packet_type))
    validate_payload packet_type payload
    seal s packet_type flags path_id payload

  unfoldable pub rotate_epoch : DataSender → ℕ → Option DataSender
  rotate_epoch s next_epoch = do
    ensure (is_next_epoch s.cipher.epoch next_epoch)
    cipher ← derive_epoch s.direction_secret next_epoch
    some (record s { cipher = cipher; next_sequence = 0 })

  -- The header is authenticated, the payload decrypted; the tag is what follows it.
  unfoldable pub decrypt_packet : EpochCipher → DataHeader → List ℕ → Option (List ℕ)
  decrypt_packet state header encoded =
      let ciphertext_end = data_header_length + header.payload_length in
      c.decrypt state.key (packet_nonce state.nonce_salt header.sequence)
        (take data_header_length encoded) (slice data_header_length ciphertext_end encoded)
        (drop ciphertext_end encoded)

  -- The part of `open` behind the choice of the epoch's state.
  unfoldable pub open_in :
      DataReceiver
      → Bool
      → DataHeader
      → List ℕ
      → Slot
      → EpochCipher
      → Option (DataReceiver × OpenedPacket)
  open_in r allow_routed header encoded slot state = do
    Replay.precheck state.replay header.sequence
    plaintext ← decrypt_packet state header encoded
    validate_payload header.packet_type plaintext
    validate_inner r allow_routed header.packet_type plaintext
    replay ← Replay.commit state.replay header.sequence
    some (store r slot (record state { replay = replay }), opened header plaintext)

  unfoldable pub open_with_routed_addresses :
      DataReceiver → List ℕ → Bool → Option (DataReceiver × OpenedPacket)
  open_with_routed_addresses r encoded allow_routed = do
    ensure (leb (data_header_length + data_tag_length) (length encoded))
    ensure (leb (length encoded) max_datagram_length)
    header ← parse encoded
    ensure (belongs r header encoded)
    (slot, state) ← select r header.key_epoch
    open_in r allow_routed header encoded slot state

  -- `open` and `open_routed`.
  abbrev pub open_packet : DataReceiver → List ℕ → Option (DataReceiver × OpenedPacket)
  open_packet r encoded = open_with_routed_addresses r encoded false

  abbrev pub open_routed : DataReceiver → List ℕ → Option (DataReceiver × OpenedPacket)
  open_routed r encoded = open_with_routed_addresses r encoded true

  unfoldable pub install_next_epoch : DataReceiver → ℕ → Option DataReceiver
  install_next_epoch r next_epoch = do
    ensure (is_next_epoch r.current.epoch next_epoch)
    next ← derive_epoch r.direction_secret next_epoch
    some (record r { current = next; previous = some r.current })

  -- The 36 bytes of a key update.
  unfoldable pub key_update_payload : ℕ → ℕ → ℕ → Option (List ℕ)
  key_update_payload session_id current_epoch next_epoch = do
    ensure (is_next_epoch current_epoch next_epoch)
    let digest = c.sha256 (
        codes "XSP/1 key update v1"
        ++ (be 16 session_id ++ (be 4 current_epoch ++ be 4 next_epoch)))
    some (be 4 next_epoch ++ be 32 digest)

  unfoldable pub verify_key_update_payload : List ℕ → ℕ → ℕ → Option ℕ
  verify_key_update_payload payload session_id current_epoch = do
    ensure (length payload == 36)
    let next_epoch = from_be (slice 0 4 payload)
    expected ← key_update_payload session_id current_epoch next_epoch
    ensure (bytes_eq payload expected)
    some next_epoch

abbrev pub retire_previous_epoch : DataReceiver → DataReceiver
retire_previous_epoch r = record r { previous = none }
