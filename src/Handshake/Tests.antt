-- ===== src/Handshake/Tests.antt =====
-- The handshake of crates/protocol/src/handshake.rs between two concrete nodes. The hash is the number
-- that the last 32 bytes spell, the cipher leaves the text as it is, and every signature passes.
use xs_nexus.Base.{
  ℕ, ◌+◌, ◌*◌, ◌%◌, ◌^◌, ◌<◌, ◌≡◌, ◌≢◌, refl, true, some, none, List, [], ◌∷◌, ◌++◌, replicate,
  arith,
}
use xs_nexus.Base.Bytes.{be, from_be, slice}
use xs_nexus.Credential.{
  Signing, IsSigning, CredentialClaims, acceptable, node_id, controller_key_id,
}
use xs_nexus.Credential.RoundTrip.{IsClaims}
use xs_nexus.Session.{DataSender, DataReceiver}
use xs_nexus.Session.Tests.{plain, plain-IsCrypto}
use xs_nexus.Session.Delivery.{IsPaired}
use xs_nexus.Handshake.{
  Exchange, IsExchange, HandshakeContext, ClientHandshakeParameters, ServerHandshakeParameters,
  HandshakeKeys, client, server, validate_context, transcript_hash, body_of,
}
use xs_nexus.Handshake.Hello.RoundTrip.{IsMirror, IsAcceptable, with_credential}
use xs_nexus.Handshake.Hello.Answer.{with_server_credential}
use xs_nexus.Handshake.Finish.{encode_finish, finish_prefix, decode_finish, derive_handshake_keys}
use xs_nexus.Handshake.Hello.{client_hello_at, client_auth_domain}
use xs_nexus.Handshake.Finish.RoundTrip.{session, decode_finish-encode_finish}
use xs_nexus.Handshake.Steps.{
  ServerHelloSent, ClientFinishSent, server_finish_domain, into_data_plane, accept_client_finish,
  accept_server_finish,
}
use xs_nexus.Handshake.Agreement.{
  handshake, IsReady, Derived, hello_bytes, answer_bytes, hello_sent, answer_sent, finish_sent,
  accept_ready, finish_ready, handshake-agrees,
}
use xs_nexus.Handshake.Binding.{
  Authenticated, ServerAuthenticated, accept-Authenticated, accept_server_hello-ServerAuthenticated,
}
use xs_nexus.Handshake.DataPlane.{into_data_plane-IsPaired}
use xs_nexus.Handshake.Refusal.{accept_client_finish_refuses, accept_server_finish_refuses}

abbrev signing : Signing
signing = record {
  verifying_key = λ key. key;
  valid_key = λ key. true;
  sign = λ key input. 0;
  verify_strict = λ key input signature. true;
  sha256 = λ input. from_be input % 256 ^ 32;
}

digest_range : (n : ℕ) → n % 256 ^ 32 < 256 ^ 32
digest_range n = omega arith

signing-IsSigning : IsSigning signing
signing-IsSigning = record {
  verifies = λ key input. refl;
  key_is_valid = λ key. refl;
  signature_range = λ key input. omega arith;
  digest_range = λ input. digest_range (from_be input);
}

abbrev exchange : Exchange
exchange = record {
  crypto = plain;
  signing = signing;
  x25519 = λ a p. 7;
  basepoint = 9;
  extract = λ salt input. 5;
}

exchange-IsExchange : IsExchange exchange
exchange-IsExchange = record {
  crypto = plain-IsCrypto;
  signing = signing-IsSigning;
  agrees = λ a b. refl;
  point_range = λ a p. omega arith;
  expands = λ n secret info h. (0, refl);
  encrypts = λ key nonce aad text h. ((text, replicate 16 0), refl);
}

abbrev context : ℕ → ℕ → HandshakeContext
context local peer = record {
  network_id = 1;
  local_node_id = local;
  local_virtual_ip = 10 * 2 ^ 24 + local;
  peer_node_id = peer;
  peer_virtual_ip = 10 * 2 ^ 24 + peer;
}

abbrev claims : ℕ → CredentialClaims
claims node = record {
  network_id = 1;
  identity_public_key = node * 256 ^ 16;
  virtual_ipv4 = 10 * 2 ^ 24 + node;
  serial = 1;
  not_before = 100;
  not_after = 1000;
  role_bitmap = 0;
  role_set_digest = 0;
}

claims-IsClaims : (node : ℕ) → node < 256 → IsClaims (claims node)
claims-IsClaims node h = record {
  network_id = omega arith;
  identity_public_key = omega arith;
  virtual_ipv4 = omega arith;
  serial = omega arith;
  not_before = omega arith;
  not_after = omega arith;
  role_bitmap = omega arith;
  role_set_digest = omega arith;
}

client_node_id : node_id signing (8 * 256 ^ 16) ≡ 8
unfolding node_id from_be be
client_node_id = refl

server_node_id : node_id signing (9 * 256 ^ 16) ≡ 9
unfolding node_id from_be be
server_node_id = refl

client-IsAcceptable : IsAcceptable exchange exchange-IsExchange (claims 8) 5 200
unfolding acceptable node_id controller_key_id from_be be
client-IsAcceptable = refl

server-IsAcceptable : IsAcceptable exchange exchange-IsExchange (claims 9) 5 200
unfolding acceptable node_id controller_key_id from_be be
server-IsAcceptable = refl

abbrev client_parameters : ClientHandshakeParameters
client_parameters = record {
  context = context 8 9;
  credential = [];
  ephemeral_private_key = 11;
  client_nonce = 12;
  message_id = 13;
  client_time = 200;
}

abbrev server_parameters : ServerHandshakeParameters
server_parameters = record {
  context = context 9 8;
  credential = [];
  ephemeral_private_key = 14;
  server_nonce = 15;
  session_id = 16;
  server_time = 201;
}

client_context : validate_context (context 8 9) ≡ some tt
unfolding validate_context xs_nexus.Handshake.invalid_virtual_ip
client_context = refl

server_context : validate_context (context 9 8) ≡ some tt
unfolding validate_context xs_nexus.Handshake.invalid_virtual_ip
server_context = refl

mirror : IsMirror (context 8 9) (context 9 8)
mirror = record {
  network_id = refl;
  node_id = refl;
  virtual_ip = refl;
  peer_node_id = refl;
  peer_virtual_ip = refl;
}

ready :
    IsReady exchange exchange-IsExchange client_parameters server_parameters
      (claims 8)
      (claims 9)
      5
      (8 * 256 ^ 16)
      (9 * 256 ^ 16)
      200
      200
ready = record {
  client_node = record {
    claims_fit = claims-IsClaims 8 (omega arith);
    network_id = refl;
    node_id = client_node_id;
    virtual_ip = refl;
    own = refl;
  };
  server_node = record {
    claims_fit = claims-IsClaims 9 (omega arith);
    network_id = refl;
    node_id = server_node_id;
    virtual_ip = refl;
    own = refl;
  };
  mirror = mirror;
  context = record {
    network_id = omega arith;
    local_node_id = omega arith;
    peer_node_id = omega arith;
  };
  client_context = client_context;
  server_context = server_context;
  client_acceptable = client-IsAcceptable;
  server_acceptable = server-IsAcceptable;
  some_id = omega arith;
  message_id = omega arith;
  some_time = omega arith;
  client_time = omega arith;
  near = refl;
  some_nonce = omega arith;
  client_nonce = omega arith;
  some_point = omega arith;
  answer = record {
    context = record {
      network_id = omega arith;
      local_node_id = omega arith;
      peer_node_id = omega arith;
    };
    some_nonce = omega arith;
    server_nonce = omega arith;
    some_session = omega arith;
    session_id = omega arith;
    some_time = omega arith;
    server_time = omega arith;
    near = refl;
    some_point = omega arith;
  };
  some_secret = omega arith;
}

handshake-agrees_example :
    (client_secret server_secret : ℕ) × (handshake exchange
        (with_credential exchange exchange-IsExchange client_parameters (claims 8) 5)
        (8 * 256 ^ 16)
        (with_server_credential exchange exchange-IsExchange server_parameters (claims 9) 5)
        (9 * 256 ^ 16)
        5
        200
        200
      ≡ some (
        session exchange exchange-IsExchange client (context 8 9) 16 client_secret server_secret,
        session exchange exchange-IsExchange server (context 9 8) 16 client_secret server_secret,
      ))
handshake-agrees_example =
    handshake-agrees exchange exchange-IsExchange client_parameters server_parameters (claims 8)
      (claims 9) 5 (8 * 256 ^ 16) (9 * 256 ^ 16) 200 200 ready

into_data_plane-IsPaired_example :
    (ours : DataSender × DataReceiver) × (theirs : DataSender × DataReceiver) × (into_data_plane
        exchange
        (session exchange exchange-IsExchange client (context 8 9) 16 3 4)
      ≡ some ours)
    × (into_data_plane exchange (session exchange exchange-IsExchange server (context 9 8) 16 3 4)
        ≡ some theirs)
    × IsPaired ours.0 theirs.1
    × IsPaired theirs.0 ours.1
into_data_plane-IsPaired_example =
    into_data_plane-IsPaired exchange exchange-IsExchange (context 8 9) (context 9 8) 16 3 4 mirror

abbrev keys : HandshakeKeys
keys = record {
  handshake_prk = 5;
  client_key = 1;
  server_key = 2;
  client_nonce_salt = 3;
  server_nonce_salt = 4;
  hello_transcript_hash = 6;
}

abbrev finish : ℕ → ℕ → List ℕ
finish message_type text = finish_prefix message_type 13 16 ++ (be 32 text ++ replicate 16 0)

sent :
    (message_type key salt text : ℕ)
    → encode_finish exchange message_type 13 16 key salt text ≡ some (finish message_type text)
unfolding encode_finish
sent message_type key salt text = refl

finish_opened : decode_finish exchange (finish 0x12 77) 0x12 13 16 1 3 ≡ some 77
finish_opened =
    decode_finish-encode_finish exchange exchange-IsExchange 0x12 13 16 1 3 77 (finish 0x12 77)
      (omega arith) (omega arith) (omega arith) (sent 0x12 1 3 77)

abbrev answered : ServerHelloSent
answered = record {
  context = context 9 8;
  encoded = 1 ∷ [];
  client_hello = 2 ∷ [];
  message_id = 13;
  session_id = 16;
  keys = keys;
}

accept_client_finish_refuses_example :
    accept_client_finish exchange answered (finish 0x12 77) ≡ none
accept_client_finish_refuses_example =
    accept_client_finish_refuses exchange exchange-IsExchange answered 77 (finish 0x12 77)
      (omega arith) (omega arith) (omega arith) (omega arith) (sent 0x12 1 3 77)

abbrev finished : ClientFinishSent
finished = record {
  context = context 8 9;
  encoded = 3 ∷ [];
  client_hello = 2 ∷ [];
  server_hello = 1 ∷ [];
  message_id = 13;
  session_id = 16;
  keys = keys;
}

other_text :
    77 ≢ transcript_hash exchange server_finish_domain ((2 ∷ []) ∷ (1 ∷ []) ∷ (3 ∷ []) ∷ [])
unfolding transcript_hash
other_text h = omega arith

accept_server_finish_refuses_example :
    accept_server_finish exchange finished (finish 0x13 77) ≡ none
accept_server_finish_refuses_example =
    accept_server_finish_refuses exchange exchange-IsExchange finished 77 (finish 0x13 77)
      (omega arith) (omega arith) (omega arith) other_text (sent 0x13 2 4 77)

abbrev zero_keys : HandshakeKeys
zero_keys = record {
  handshake_prk = 5;
  client_key = 0;
  server_key = 0;
  client_nonce_salt = 0;
  server_nonce_salt = 0;
  hello_transcript_hash = 0;
}

derived :
    Derived exchange exchange-IsExchange client_parameters server_parameters
      (claims 8)
      (claims 9)
      5
      (8 * 256 ^ 16)
      (9 * 256 ^ 16)
      200
      200
      zero_keys
unfolding derive_handshake_keys transcript_hash
derived = refl

abbrev hello : List ℕ
hello =
    hello_bytes exchange exchange-IsExchange client_parameters server_parameters (claims 8)
      (claims 9) 5 (8 * 256 ^ 16) (9 * 256 ^ 16) 200 200

abbrev answer : List ℕ
answer =
    answer_bytes exchange exchange-IsExchange client_parameters server_parameters (claims 8)
      (claims 9) 5 (8 * 256 ^ 16) (9 * 256 ^ 16) 200 200

accept-Authenticated_example :
    Authenticated exchange
      (context 9 8)
      (client_hello_at (body_of hello)).credential
      5
      200
      client_auth_domain
      hello
      (from_be (slice 325 389 (body_of hello)))
accept-Authenticated_example =
    accept-Authenticated exchange hello
      (with_server_credential exchange exchange-IsExchange server_parameters (claims 9) 5)
      (9 * 256 ^ 16) 5 200
      (answer_sent exchange exchange-IsExchange client_parameters server_parameters (claims 8)
        (claims 9) 5 (8 * 256 ^ 16) (9 * 256 ^ 16) 200 200 zero_keys)
      (accept_ready exchange exchange-IsExchange client_parameters server_parameters (claims 8)
        (claims 9) 5 (8 * 256 ^ 16) (9 * 256 ^ 16) 200 200 zero_keys ready derived)

accept_server_hello-ServerAuthenticated_example :
    ServerAuthenticated exchange
      (hello_sent exchange exchange-IsExchange client_parameters server_parameters
        (claims 8)
        (claims 9)
        5
        (8 * 256 ^ 16)
        (9 * 256 ^ 16)
        200
        200)
      answer
      5
      200
      (finish_sent exchange exchange-IsExchange client_parameters server_parameters
        (claims 8)
        (claims 9)
        5
        (8 * 256 ^ 16)
        (9 * 256 ^ 16)
        200
        200
        zero_keys
        (finish 0x12 0))
accept_server_hello-ServerAuthenticated_example =
    accept_server_hello-ServerAuthenticated exchange
      (hello_sent exchange exchange-IsExchange client_parameters server_parameters (claims 8)
        (claims 9) 5 (8 * 256 ^ 16) (9 * 256 ^ 16) 200 200)
      answer 5 200
      (finish_sent exchange exchange-IsExchange client_parameters server_parameters (claims 8)
        (claims 9) 5 (8 * 256 ^ 16) (9 * 256 ^ 16) 200 200 zero_keys (finish 0x12 0))
      (finish_ready exchange exchange-IsExchange client_parameters server_parameters (claims 8)
        (claims 9) 5 (8 * 256 ^ 16) (9 * 256 ^ 16) 200 200 zero_keys (finish 0x12 0) ready derived
        (sent 0x12 0 0 0))
