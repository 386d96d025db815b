-- ===== src/Handshake.antt =====
-- The XSP/1 handshake of crates/protocol/src/handshake.rs: its types, the header that its four
-- messages share, and the checks on contexts and credentials. A key, a nonce, a hash and an
-- identifier are the numbers that their bytes spell.
pub mod Hello
pub mod Finish
pub mod Steps
pub mod Agreement
pub mod Binding
pub mod Refusal
pub mod DataPlane
mod Tests
use xs_nexus.Base.{
  ℕ, ◌+◌, ◌-◌, ◌*◌, ◌^◌, ◌<◌, ◌≤◌, ◌≡◌, Bool, true, false, not, ◌&&◌, ◌||◌, Option, none, some,
  List, [], ◌∷◌, ◌++◌, leb, ◌==◌, ◌>>=◌, ◌>>◌, ensure, length, get_or, take, drop,
}
use xs_nexus.Base.Bytes.{be, from_be, slice, bytes_eq}
use xs_nexus.Base.Text.{codes}
use xs_nexus.Session.{Crypto, IsCrypto}
use xs_nexus.Credential.{
  Signing, IsSigning, VerifiedCredential, is_reserved, verify_credential, credential_length,
}

-- The cryptographic libraries that the code calls: those of the data sessions and of the
-- credentials, X25519 and the extraction of HKDF.
pub record Exchange : Type 0 where
  pub crypto : Crypto
  pub signing : Signing
  pub x25519 : ℕ → ℕ → ℕ
  pub basepoint : ℕ
  pub extract : ℕ → ℕ → ℕ

-- Their documented behaviour. HKDF expands to at most 255 digests; the cipher takes any text of less
-- than 256 GiB.
pub record IsExchange (x : Exchange) : Type 0 where
  pub crypto : IsCrypto x.crypto
  pub signing : IsSigning x.signing
  pub agrees : (a b : ℕ) → x.x25519 a (x.x25519 b x.basepoint) ≡ x.x25519 b (x.x25519 a x.basepoint)
  pub point_range : (a p : ℕ) → x.x25519 a p < 256 ^ 32
  pub expands :
      (n secret : ℕ) (info : List ℕ)
      → n ≤ 255 * 32
      → (v : ℕ) × (x.crypto.expand n secret info ≡ some v)
  pub encrypts :
      (key : ℕ) (nonce aad text : List ℕ)
      → length text < 2 ^ 38 - 64
      → (sealed : List ℕ × List ℕ) × (x.crypto.encrypt key nonce aad text ≡ some sealed)

abbrev pub handshake_magic : List ℕ
handshake_magic = codes "XSP1"

abbrev pub handshake_version : ℕ
handshake_version = 1

abbrev pub suite_id : ℕ
suite_id = 1

abbrev pub common_header_length : ℕ
common_header_length = 16

abbrev pub client_hello_body_length : ℕ
client_hello_body_length = 389

abbrev pub server_hello_body_length : ℕ
server_hello_body_length = 468

abbrev pub finish_body_length : ℕ
finish_body_length = 76

abbrev pub client_hello_type : ℕ
client_hello_type = 0x10

abbrev pub server_hello_type : ℕ
server_hello_type = 0x11

abbrev pub client_finish_type : ℕ
client_finish_type = 0x12

abbrev pub server_finish_type : ℕ
server_finish_type = 0x13

abbrev pub max_clock_skew_seconds : ℕ
max_clock_skew_seconds = 300

pub record HandshakeContext : Type 0 where
  pub network_id : ℕ
  pub local_node_id : ℕ
  pub local_virtual_ip : ℕ
  pub peer_node_id : ℕ
  pub peer_virtual_ip : ℕ

pub record ClientHandshakeParameters : Type 0 where
  pub context : HandshakeContext
  pub credential : List ℕ
  pub ephemeral_private_key : ℕ
  pub client_nonce : ℕ
  pub message_id : ℕ
  pub client_time : ℕ

pub record ServerHandshakeParameters : Type 0 where
  pub context : HandshakeContext
  pub credential : List ℕ
  pub ephemeral_private_key : ℕ
  pub server_nonce : ℕ
  pub session_id : ℕ
  pub server_time : ℕ

pub record HandshakeKeys : Type 0 where
  pub handshake_prk : ℕ
  pub client_key : ℕ
  pub server_key : ℕ
  pub client_nonce_salt : ℕ
  pub server_nonce_salt : ℕ
  pub hello_transcript_hash : ℕ

pub data SessionRole : Type 0 where
  client server : SessionRole

pub record EstablishedSession : Type 0 where
  pub role : SessionRole
  pub context : HandshakeContext
  pub session_id : ℕ
  pub client_to_server_secret : ℕ
  pub server_to_client_secret : ℕ

unfoldable pub invalid_virtual_ip : ℕ → Bool
unfolding is_reserved
invalid_virtual_ip address = is_reserved address

unfoldable pub validate_context : HandshakeContext → Option (Unit {0})
validate_context context = ensure (
    not (context.network_id == 0)
    && not (context.local_node_id == 0)
    && not (context.peer_node_id == 0)
    && not (context.local_node_id == context.peer_node_id)
    && not (invalid_virtual_ip context.local_virtual_ip)
    && not (invalid_virtual_ip context.peer_virtual_ip)
    && not (context.local_virtual_ip == context.peer_virtual_ip))

unfoldable pub encode_common_header : ℕ → ℕ → ℕ → List ℕ
encode_common_header message_type body_length message_id =
    handshake_magic
    ++ (handshake_version ∷ message_type ∷ 0 ∷ 0 ∷ (be 4 body_length ++ be 4 message_id))

unfoldable pub valid_common_header : List ℕ → ℕ → ℕ → Bool
valid_common_header encoded expected_type expected_body_length =
    length encoded == common_header_length + expected_body_length
    && bytes_eq (slice 0 4 encoded) handshake_magic
    && get_or encoded 4 0 == handshake_version
    && get_or encoded 5 0 == expected_type
    && bytes_eq (slice 6 8 encoded) (0 ∷ 0 ∷ [])
    && from_be (slice 8 12 encoded) == expected_body_length

unfoldable pub parse_common_header : List ℕ → ℕ → ℕ → Option ℕ
parse_common_header encoded expected_type expected_body_length =
    ensure (valid_common_header encoded expected_type expected_body_length)
    >> some (from_be (slice 12 16 encoded))

abbrev pub body_of : List ℕ → List ℕ
body_of encoded = drop common_header_length encoded

-- `time.abs_diff(now) <= MAX_CLOCK_SKEW_SECONDS`
abbrev pub is_near : ℕ → ℕ → Bool
is_near time now = leb (time - now + (now - time)) max_clock_skew_seconds

abbrev pub join : List (List ℕ) → List ℕ
join [] = []
join (part ∷ parts) = part ++ join parts

module _ (x : Exchange) where
  -- The checks on the node's own credential.
  unfoldable pub valid_local_credential : List ℕ → HandshakeContext → ℕ → Bool
  valid_local_credential credential context identity_key =
      get_or credential 0 0 == 1
      && bytes_eq (slice 1 4 credential) (0 ∷ 0 ∷ 0 ∷ [])
      && from_be (slice 4 20 credential) == context.network_id
      && from_be (slice 20 36 credential) == context.local_node_id
      && from_be (slice 36 68 credential) == x.signing.verifying_key identity_key
      && from_be (slice 68 72 credential) == context.local_virtual_ip

  abbrev pub validate_local_credential : List ℕ → HandshakeContext → ℕ → Option (Unit {0})
  validate_local_credential credential context identity_key =
      ensure (valid_local_credential credential context identity_key)

  unfoldable pub verify_peer_credential :
      List ℕ → HandshakeContext → ℕ → ℕ → Option VerifiedCredential
  verify_peer_credential credential context controller_key now = do
    verified ← verify_credential x.signing credential controller_key now
    ensure (
        verified.network_id == context.network_id
        && verified.node_id == context.peer_node_id
        && verified.virtual_ipv4 == context.peer_virtual_ip)
    some verified

  unfoldable pub transcript_hash : List ℕ → List (List ℕ) → ℕ
  transcript_hash domain parts = x.crypto.sha256 (domain ++ join parts)

  abbrev pub hkdf_expand : ℕ → ℕ → List ℕ → List ℕ → Option ℕ
  hkdf_expand n prk domain suffix = x.crypto.expand n prk (domain ++ suffix)

  abbrev pub public_key : ℕ → ℕ
  public_key ephemeral_private_key = x.x25519 ephemeral_private_key x.basepoint

  -- A shared secret of zeros is refused.
  unfoldable pub shared_secret : ℕ → ℕ → Option ℕ
  shared_secret ephemeral_private_key peer_public_key = do
    let shared = x.x25519 ephemeral_private_key peer_public_key
    ensure (not (shared == 0))
    some shared
