-- ===== src/Handshake/Hello.antt =====
-- The first two messages of the handshake: what `ClientHelloSent::start` and
-- `ServerHelloSent::accept` of crates/protocol/src/handshake.rs write, and how the peer parses it.
pub mod RoundTrip
pub mod Answer
use xs_nexus.Base.{
  ℕ, ◌+◌, ◌-◌, ◌^◌, ◌<◌, ◌≤◌, ◌≡◌, Bool, true, false, not, ◌&&◌, Option, none, some, List, [], ◌∷◌,
  ◌++◌, ◌==◌, ◌>>=◌, ◌>>◌, ensure, length, get_or, take, drop,
}
use xs_nexus.Base.Bytes.{be, from_be, slice}
use xs_nexus.Base.Text.{codes}
use xs_nexus.Credential.{credential_length}
use xs_nexus.Handshake.{
  Exchange, HandshakeContext, ClientHandshakeParameters, ServerHandshakeParameters, suite_id,
  client_hello_type, client_hello_body_length, server_hello_type, server_hello_body_length,
  encode_common_header, parse_common_header, body_of, is_near, verify_peer_credential, public_key,
}

abbrev pub client_auth_domain : List ℕ
client_auth_domain = codes "XSP/1 client auth v1"

abbrev pub server_auth_domain : List ℕ
server_auth_domain = codes "XSP/1 server auth v1"

pub record ParsedClientHello : Type 0 where
  pub message_id : ℕ
  pub client_nonce : ℕ
  pub ephemeral_public_key : ℕ

pub record ParsedServerHello : Type 0 where
  pub message_id : ℕ
  pub server_nonce : ℕ
  pub ephemeral_public_key : ℕ
  pub session_id : ℕ

-- The fields that the parsers read from the slices at fixed places.
pub record ClientHello : Type 0 where
  pub network_id : ℕ
  pub source_node_id : ℕ
  pub destination_node_id : ℕ
  pub client_nonce : ℕ
  pub ephemeral_public_key : ℕ
  pub client_time : ℕ
  pub credential_length : ℕ
  pub credential : List ℕ
  pub suites : ℕ
  pub suite_id : ℕ

pub record ServerHello : Type 0 where
  pub network_id : ℕ
  pub source_node_id : ℕ
  pub destination_node_id : ℕ
  pub client_nonce : ℕ
  pub server_nonce : ℕ
  pub ephemeral_public_key : ℕ
  pub client_hello_hash : ℕ
  pub session_id : ℕ
  pub server_time : ℕ
  pub suite_id : ℕ
  pub credential_length : ℕ
  pub credential : List ℕ

unfoldable pub client_hello_at : List ℕ → ClientHello
client_hello_at body = record {
  network_id = from_be (slice 0 16 body);
  source_node_id = from_be (slice 16 32 body);
  destination_node_id = from_be (slice 32 48 body);
  client_nonce = from_be (slice 48 80 body);
  ephemeral_public_key = from_be (slice 80 112 body);
  client_time = from_be (slice 112 120 body);
  credential_length = from_be (slice 120 122 body);
  credential = slice 122 322 body;
  suites = get_or body 322 0;
  suite_id = from_be (slice 323 325 body);
}

unfoldable pub server_hello_at : List ℕ → ServerHello
server_hello_at body = record {
  network_id = from_be (slice 0 16 body);
  source_node_id = from_be (slice 16 32 body);
  destination_node_id = from_be (slice 32 48 body);
  client_nonce = from_be (slice 48 80 body);
  server_nonce = from_be (slice 80 112 body);
  ephemeral_public_key = from_be (slice 112 144 body);
  client_hello_hash = from_be (slice 144 176 body);
  session_id = from_be (slice 176 192 body);
  server_time = from_be (slice 192 200 body);
  suite_id = from_be (slice 200 202 body);
  credential_length = from_be (slice 202 204 body);
  credential = slice 204 404 body;
}

-- The parsers' guards on the fields.
unfoldable pub acceptable_client_hello : ClientHello → HandshakeContext → ℕ → Bool
acceptable_client_hello hello context now =
    hello.network_id == context.network_id
    && hello.source_node_id == context.peer_node_id
    && hello.destination_node_id == context.local_node_id
    && not (hello.client_nonce == 0)
    && not (hello.ephemeral_public_key == 0)
    && hello.credential_length == credential_length
    && hello.suites == 1
    && hello.suite_id == suite_id
    && is_near hello.client_time now

unfoldable pub acceptable_server_hello : ServerHello → HandshakeContext → ℕ → ℕ → ℕ → Bool
acceptable_server_hello hello context client_nonce client_hello_hash now =
    hello.network_id == context.network_id
    && hello.source_node_id == context.peer_node_id
    && hello.destination_node_id == context.local_node_id
    && hello.client_nonce == client_nonce
    && not (hello.server_nonce == 0)
    && not (hello.ephemeral_public_key == 0)
    && hello.client_hello_hash == client_hello_hash
    && not (hello.session_id == 0)
    && is_near hello.server_time now
    && hello.suite_id == suite_id
    && hello.credential_length == credential_length

-- The bytes of a `ClientHello` in front of its signature.
unfoldable pub client_hello_body : ClientHandshakeParameters → ℕ → List ℕ
unfolding encode_common_header
client_hello_body p ephemeral_public_key =
    encode_common_header client_hello_type client_hello_body_length p.message_id
    ++ (be 16 p.context.network_id
        ++ (be 16 p.context.local_node_id
            ++ (be 16 p.context.peer_node_id
                ++ (be 32 p.client_nonce
                    ++ (be 32 ephemeral_public_key
                        ++ (be 8 p.client_time
                            ++ (be 2 credential_length
                                ++ (p.credential ++ (1 ∷ be 2 suite_id)))))))))

-- The bytes of a `ServerHello` in front of its signature.
unfoldable pub server_hello_body : ServerHandshakeParameters → ℕ → ParsedClientHello → ℕ → List ℕ
unfolding encode_common_header
server_hello_body q ephemeral_public_key parsed client_hello_hash =
    encode_common_header server_hello_type server_hello_body_length parsed.message_id
    ++ (be 16 q.context.network_id
        ++ (be 16 q.context.local_node_id
            ++ (be 16 q.context.peer_node_id
                ++ (be 32 parsed.client_nonce
                    ++ (be 32 q.server_nonce
                        ++ (be 32 ephemeral_public_key
                            ++ (be 32 client_hello_hash
                                ++ (be 16 q.session_id
                                    ++ (be 8 q.server_time
                                        ++ (be 2 suite_id
                                            ++ (be 2 credential_length ++ q.credential)))))))))))

module _ (x : Exchange) where
  unfoldable pub sign_client_hello : List ℕ → ℕ → List ℕ
  sign_client_hello body identity_key =
      body ++ be 64 (x.signing.sign identity_key (client_auth_domain ++ body))

  unfoldable pub sign_server_hello : List ℕ → ℕ → ℕ → List ℕ
  sign_server_hello body client_hello_hash identity_key =
      body
      ++ be 64
          (x.signing.sign identity_key (server_auth_domain ++ (be 32 client_hello_hash ++ body)))

  -- The check of a hello's signature by the key in the credential that it carries.
  unfoldable pub verify_hello : List ℕ → List ℕ → List ℕ → ℕ → Option (Unit {0})
  verify_hello credential domain encoded signature = do
    let peer_key = from_be (slice 36 68 credential)
    ensure (x.signing.valid_key peer_key)
    ensure
        (x.signing.verify_strict peer_key (domain ++ take (length encoded - 64) encoded) signature)

  unfoldable pub parse_client_hello : List ℕ → HandshakeContext → ℕ → ℕ → Option ParsedClientHello
  parse_client_hello encoded context controller_key now = do
    message_id ← parse_common_header encoded client_hello_type client_hello_body_length
    let hello = client_hello_at (body_of encoded)
    ensure (acceptable_client_hello hello context now)
    _ ← verify_peer_credential x hello.credential context controller_key now
    verify_hello hello.credential client_auth_domain encoded
        (from_be (slice 325 389 (body_of encoded)))
    some (record {
      message_id = message_id;
      client_nonce = hello.client_nonce;
      ephemeral_public_key = hello.ephemeral_public_key;
    })

  unfoldable pub parse_server_hello :
      List ℕ → HandshakeContext → List ℕ → ℕ → ℕ → ℕ → Option ParsedServerHello
  parse_server_hello encoded context client_hello client_nonce controller_key now = do
    message_id ← parse_common_header encoded server_hello_type server_hello_body_length
    expected ← parse_common_header client_hello client_hello_type client_hello_body_length
    let hello = server_hello_at (body_of encoded)
    let expected_client_hash = x.crypto.sha256 client_hello
    ensure (
        message_id == expected
        && acceptable_server_hello hello context client_nonce expected_client_hash now)
    _ ← verify_peer_credential x hello.credential context controller_key now
    verify_hello hello.credential (server_auth_domain ++ be 32 expected_client_hash) encoded
        (from_be (slice 404 468 (body_of encoded)))
    some (record {
      message_id = message_id;
      server_nonce = hello.server_nonce;
      ephemeral_public_key = hello.ephemeral_public_key;
      session_id = hello.session_id;
    })
