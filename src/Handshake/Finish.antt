-- ===== src/Handshake/Finish.antt =====
-- The keys of the handshake and its last two messages: `derive_handshake_keys`, `encode_finish`,
-- `decode_finish` and `established_session` of crates/protocol/src/handshake.rs.
pub mod RoundTrip
use xs_nexus.Base.{
  ℕ, ◌+◌, ◌-◌, ◌^◌, ◌≡◌, Bool, true, false, ◌&&◌, Option, none, some, List, [], ◌∷◌, ◌++◌, ◌==◌,
  ◌>>=◌, ◌>>◌, ensure, length, take, drop, replicate,
}
use xs_nexus.Base.Bytes.{be, from_be, slice, bytes_eq}
use xs_nexus.Base.Text.{codes}
use xs_nexus.Handshake.{
  Exchange, HandshakeContext, HandshakeKeys, SessionRole, client, server, EstablishedSession,
  common_header_length, finish_body_length, encode_common_header, parse_common_header, body_of,
  transcript_hash, hkdf_expand,
}

-- The node that began and the node that answered.
abbrev pub client_node_id : SessionRole → HandshakeContext → ℕ
client_node_id client context = context.local_node_id
client_node_id server context = context.peer_node_id

abbrev pub server_node_id : SessionRole → HandshakeContext → ℕ
server_node_id client context = context.peer_node_id
server_node_id server context = context.local_node_id

abbrev pub client_info : SessionRole → HandshakeContext → ℕ → List ℕ
client_info role context session_id =
    be 16 context.network_id
    ++ (be 16 session_id
        ++ (be 16 (client_node_id role context) ++ be 16 (server_node_id role context)))

abbrev pub server_info : SessionRole → HandshakeContext → ℕ → List ℕ
server_info role context session_id =
    be 16 context.network_id
    ++ (be 16 session_id
        ++ (be 16 (server_node_id role context) ++ be 16 (client_node_id role context)))

abbrev pub finish_nonce : ℕ → List ℕ
finish_nonce nonce_salt = be 4 nonce_salt ++ replicate 8 0

-- The header and the 28 bytes in front of the ciphertext: both are authenticated.
unfoldable pub finish_prefix : ℕ → ℕ → ℕ → List ℕ
unfolding encode_common_header
finish_prefix message_type message_id session_id =
    encode_common_header message_type finish_body_length message_id
    ++ (be 16 session_id ++ (be 8 0 ++ (be 2 32 ++ be 2 0)))

-- The guards of `decode_finish` on the body.
unfoldable pub valid_finish : List ℕ → ℕ → Bool
valid_finish body expected_session_id =
    from_be (slice 0 16 body) == expected_session_id
    && from_be (slice 16 24 body) == 0
    && from_be (slice 24 26 body) == 32
    && bytes_eq (slice 26 28 body) (0 ∷ 0 ∷ [])

module _ (x : Exchange) where
  unfoldable pub derive_handshake_keys : ℕ → ℕ → ℕ → ℕ → ℕ → Option HandshakeKeys
  derive_handshake_keys shared network_id client_nonce server_nonce hello_transcript_hash = do
    let handshake_salt =
        transcript_hash x (codes "XSP/1 handshake salt v1")
          (be 16 network_id ∷ be 32 client_nonce ∷ be 32 server_nonce ∷ [])
    let handshake_prk = x.extract handshake_salt shared
    let suffix = be 32 hello_transcript_hash
    client_key ← hkdf_expand x 32 handshake_prk (codes "XSP/1 client handshake key v1") suffix
    server_key ← hkdf_expand x 32 handshake_prk (codes "XSP/1 server handshake key v1") suffix
    client_salt ← hkdf_expand x 4 handshake_prk (codes "XSP/1 client handshake nonce v1") suffix
    server_salt ← hkdf_expand x 4 handshake_prk (codes "XSP/1 server handshake nonce v1") suffix
    some (record {
      handshake_prk = handshake_prk;
      client_key = client_key;
      server_key = server_key;
      client_nonce_salt = client_salt;
      server_nonce_salt = server_salt;
      hello_transcript_hash = hello_transcript_hash;
    })

  unfoldable pub established_session :
      SessionRole → HandshakeContext → ℕ → ℕ → ℕ → Option EstablishedSession
  established_session role context session_id handshake_prk full_transcript_hash = do
    let application_prk = x.extract full_transcript_hash handshake_prk
    client_to_server ←
        hkdf_expand x 32 application_prk (codes "XSP/1 client traffic secret v1")
          (client_info role context session_id)
    server_to_client ←
        hkdf_expand x 32 application_prk (codes "XSP/1 server traffic secret v1")
          (server_info role context session_id)
    some (record {
      role = role;
      context = context;
      session_id = session_id;
      client_to_server_secret = client_to_server;
      server_to_client_secret = server_to_client;
    })

  unfoldable pub encode_finish : ℕ → ℕ → ℕ → ℕ → ℕ → ℕ → Option (List ℕ)
  encode_finish message_type message_id session_id key nonce_salt plaintext = do
    let prefix = finish_prefix message_type message_id session_id
    (ciphertext, tag) ← x.crypto.encrypt key (finish_nonce nonce_salt) prefix (be 32 plaintext)
    some (prefix ++ (ciphertext ++ tag))

  unfoldable pub decode_finish : List ℕ → ℕ → ℕ → ℕ → ℕ → ℕ → Option ℕ
  decode_finish encoded expected_type expected_message_id expected_session_id key nonce_salt = do
    message_id ← parse_common_header encoded expected_type finish_body_length
    let body = body_of encoded
    ensure (message_id == expected_message_id && valid_finish body expected_session_id)
    plaintext ←
        x.crypto.decrypt key (finish_nonce nonce_salt) (take (common_header_length + 28) encoded)
          (slice 28 60 body) (slice 60 76 body)
    ensure (length plaintext == 32)
    some (from_be plaintext)
