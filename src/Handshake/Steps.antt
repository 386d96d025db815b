-- ===== src/Handshake/Steps.antt =====
-- The states of the two ends of a handshake and their steps: the methods of `ClientHelloSent`,
-- `ServerHelloSent`, `ClientFinishSent` and `EstablishedSession` of
-- crates/protocol/src/handshake.rs. A method consumes its state.
use xs_nexus.Base.{
  ℕ, ◌+◌, not, ◌&&◌, Option, some, List, [], ◌∷◌, ◌==◌, ◌>>=◌, ◌>>◌, ensure, length,
}
use xs_nexus.Base.Text.{codes}
use xs_nexus.Session.{DataSender, DataReceiver, new_sender, new_receiver}
use xs_nexus.Handshake.{
  Exchange, HandshakeContext, ClientHandshakeParameters, ServerHandshakeParameters, HandshakeKeys,
  SessionRole, client, server, EstablishedSession, common_header_length, client_hello_body_length,
  server_hello_body_length, client_finish_type, server_finish_type, validate_context,
  validate_local_credential, public_key, shared_secret, transcript_hash,
}
use xs_nexus.Handshake.Hello.{
  client_hello_body, server_hello_body, sign_client_hello, sign_server_hello, parse_client_hello,
  parse_server_hello,
}
use xs_nexus.Handshake.Finish.{
  derive_handshake_keys, established_session, encode_finish, decode_finish,
}

abbrev pub hello_transcript_domain : List ℕ
hello_transcript_domain = codes "XSP/1 hello transcript v1"

abbrev pub server_finish_domain : List ℕ
server_finish_domain = codes "XSP/1 server finish v1"

abbrev pub full_transcript_domain : List ℕ
full_transcript_domain = codes "XSP/1 full transcript v1"

pub record ClientHelloSent : Type 0 where
  pub context : HandshakeContext
  pub encoded : List ℕ
  pub ephemeral_private_key : ℕ
  pub client_nonce : ℕ

pub record ClientFinishSent : Type 0 where
  pub context : HandshakeContext
  pub encoded : List ℕ
  pub client_hello : List ℕ
  pub server_hello : List ℕ
  pub message_id : ℕ
  pub session_id : ℕ
  pub keys : HandshakeKeys

pub record ServerHelloSent : Type 0 where
  pub context : HandshakeContext
  pub encoded : List ℕ
  pub client_hello : List ℕ
  pub message_id : ℕ
  pub session_id : ℕ
  pub keys : HandshakeKeys

module _ (x : Exchange) where
  unfoldable pub start : ClientHandshakeParameters → ℕ → Option ClientHelloSent
  start p identity_key = do
    validate_context p.context
    validate_local_credential x p.credential p.context identity_key
    ensure (not (p.message_id == 0) && not (p.client_time == 0) && not (p.client_nonce == 0))
    let ephemeral_public_key = public_key x p.ephemeral_private_key
    ensure (not (ephemeral_public_key == 0))
    let encoded = sign_client_hello x (client_hello_body p ephemeral_public_key) identity_key
    ensure (length encoded == common_header_length + client_hello_body_length)
    some (record {
      context = p.context;
      encoded = encoded;
      ephemeral_private_key = p.ephemeral_private_key;
      client_nonce = p.client_nonce;
    })

  unfoldable pub accept : List ℕ → ServerHandshakeParameters → ℕ → ℕ → ℕ → Option ServerHelloSent
  accept client_hello q identity_key controller_key now = do
    validate_context q.context
    validate_local_credential x q.credential q.context identity_key
    ensure (not (q.server_nonce == 0) && not (q.session_id == 0) && not (q.server_time == 0))
    parsed ← parse_client_hello x client_hello q.context controller_key now
    let ephemeral_public_key = public_key x q.ephemeral_private_key
    ensure (not (ephemeral_public_key == 0))
    let client_hello_hash = x.crypto.sha256 client_hello
    let encoded =
        sign_server_hello x (server_hello_body q ephemeral_public_key parsed client_hello_hash)
          client_hello_hash identity_key
    ensure (length encoded == common_header_length + server_hello_body_length)
    let hello_transcript_hash =
        transcript_hash x hello_transcript_domain (client_hello ∷ encoded ∷ [])
    shared ← shared_secret x q.ephemeral_private_key parsed.ephemeral_public_key
    keys ←
        derive_handshake_keys x shared q.context.network_id parsed.client_nonce q.server_nonce
          hello_transcript_hash
    some (record {
      context = q.context;
      encoded = encoded;
      client_hello = client_hello;
      message_id = parsed.message_id;
      session_id = q.session_id;
      keys = keys;
    })

  unfoldable pub accept_server_hello : ClientHelloSent → List ℕ → ℕ → ℕ → Option ClientFinishSent
  accept_server_hello s server_hello controller_key now = do
    parsed ← parse_server_hello x server_hello s.context s.encoded s.client_nonce controller_key now
    let hello_transcript_hash =
        transcript_hash x hello_transcript_domain (s.encoded ∷ server_hello ∷ [])
    shared ← shared_secret x s.ephemeral_private_key parsed.ephemeral_public_key
    keys ←
        derive_handshake_keys x shared s.context.network_id s.client_nonce parsed.server_nonce
          hello_transcript_hash
    client_finish ←
        encode_finish x client_finish_type parsed.message_id parsed.session_id keys.client_key
          keys.client_nonce_salt keys.hello_transcript_hash
    some (record {
      context = s.context;
      encoded = client_finish;
      client_hello = s.encoded;
      server_hello = server_hello;
      message_id = parsed.message_id;
      session_id = parsed.session_id;
      keys = keys;
    })

  unfoldable pub accept_client_finish :
      ServerHelloSent → List ℕ → Option (EstablishedSession × List ℕ)
  accept_client_finish s client_finish = do
    plaintext ←
        decode_finish x client_finish client_finish_type s.message_id s.session_id s.keys.client_key
          s.keys.client_nonce_salt
    ensure (plaintext == s.keys.hello_transcript_hash)
    let server_plaintext =
        transcript_hash x server_finish_domain (s.client_hello ∷ s.encoded ∷ client_finish ∷ [])
    server_finish ←
        encode_finish x server_finish_type s.message_id s.session_id s.keys.server_key
          s.keys.server_nonce_salt server_plaintext
    let full_hash =
        transcript_hash x full_transcript_domain
          (s.client_hello ∷ s.encoded ∷ client_finish ∷ server_finish ∷ [])
    session ← established_session x server s.context s.session_id s.keys.handshake_prk full_hash
    some (session, server_finish)

  unfoldable pub accept_server_finish : ClientFinishSent → List ℕ → Option EstablishedSession
  accept_server_finish s server_finish = do
    let expected =
        transcript_hash x server_finish_domain (s.client_hello ∷ s.server_hello ∷ s.encoded ∷ [])
    plaintext ←
        decode_finish x server_finish server_finish_type s.message_id s.session_id s.keys.server_key
          s.keys.server_nonce_salt
    ensure (plaintext == expected)
    let full_hash =
        transcript_hash x full_transcript_domain
          (s.client_hello ∷ s.server_hello ∷ s.encoded ∷ server_finish ∷ [])
    established_session x client s.context s.session_id s.keys.handshake_prk full_hash

  abbrev pub sending_secret : EstablishedSession → SessionRole → ℕ
  sending_secret session client = session.client_to_server_secret
  sending_secret session server = session.server_to_client_secret

  abbrev pub receiving_secret : EstablishedSession → SessionRole → ℕ
  receiving_secret session client = session.server_to_client_secret
  receiving_secret session server = session.client_to_server_secret

  unfoldable pub into_data_plane : EstablishedSession → Option (DataSender × DataReceiver)
  into_data_plane session = do
    let context = session.context
    sender ←
        new_sender x.crypto (sending_secret session session.role) context.network_id
          context.local_node_id context.peer_node_id session.session_id context.local_virtual_ip
          context.peer_virtual_ip
    receiver ←
        new_receiver x.crypto (receiving_secret session session.role) context.network_id
          context.peer_node_id context.local_node_id session.session_id context.peer_virtual_ip
          context.local_virtual_ip
    some (sender, receiver)
