-- ===== src/Handshake/Hello/Answer.antt =====
-- What the server writes in its hello, the client parses (crates/protocol/src/handshake.rs).
use xs_nexus.Base.{
  ℕ, ◌-◌, ◌^◌, ◌<◌, ◌≡◌, refl, true, some, List, ◌++◌, ==_self, nonzero, length, take,
}
use xs_nexus.Base.Bytes.{be, from_be, from_be-be, slice, bytes_eq}
use xs_nexus.Credential.{CredentialClaims, sign_credential, credential_body}
use xs_nexus.Handshake.{
  Exchange, IsExchange, HandshakeContext, ServerHandshakeParameters, encode_common_header,
  valid_common_header, parse_common_header, body_of, is_near,
}
use xs_nexus.Handshake.Hello.{
  ParsedClientHello, server_hello_at, acceptable_server_hello, server_hello_body, sign_server_hello,
  parse_server_hello, server_auth_domain,
}
use xs_nexus.Handshake.Hello.RoundTrip.{
  IsMirror, IsContext, IsEndpoint, IsAcceptable, verify_peer_credential-sign, credential_fields,
  verify_hello-sign,
}

module _ (x : Exchange) (laws : IsExchange x) where
  abbrev pub with_server_credential :
      ServerHandshakeParameters → CredentialClaims → ℕ → ServerHandshakeParameters
  with_server_credential q claims controller_key = record q {
    credential = sign_credential x.signing claims controller_key;
  }

  abbrev pub server_hello :
      ServerHandshakeParameters → ℕ → ParsedClientHello → ℕ → CredentialClaims → ℕ → ℕ → List ℕ
  server_hello q point parsed hash claims controller_key identity_key =
      sign_server_hello x
        (server_hello_body (with_server_credential q claims controller_key) point parsed hash) hash
        identity_key

  server_hello_framing :
      (q : ServerHandshakeParameters) (point : ℕ) (parsed : ParsedClientHello) (hash : ℕ)
      (claims : CredentialClaims) (controller_key identity_key : ℕ)
      → let encoded = server_hello q point parsed hash claims controller_key identity_key in
        let body =
          server_hello_body (with_server_credential q claims controller_key) point parsed hash in
        (valid_common_header encoded 0x11 468 ≡ true)
        × (slice 12 16 encoded ≡ be 4 parsed.message_id)
        × (take (length encoded - 64) encoded ≡ body)
        × (slice 404 468 (body_of encoded)
            ≡ be 64 (x.signing.sign identity_key (server_auth_domain ++ (be 32 hash ++ body))))
  unfolding sign_server_hello server_hello_body encode_common_header be valid_common_header bytes_eq
      from_be sign_credential credential_body
  server_hello_framing q point parsed hash claims controller_key identity_key =
      (refl, refl, refl, refl)

  pub length-server_hello :
      (q : ServerHandshakeParameters) (point : ℕ) (parsed : ParsedClientHello) (hash : ℕ)
      (claims : CredentialClaims) (controller_key identity_key : ℕ)
      → length (server_hello q point parsed hash claims controller_key identity_key) ≡ 484
  unfolding sign_server_hello server_hello_body encode_common_header be sign_credential
      credential_body
  length-server_hello q point parsed hash claims controller_key identity_key = refl

  server_hello_fields :
      (q : ServerHandshakeParameters) (point : ℕ) (parsed : ParsedClientHello) (hash : ℕ)
      (claims : CredentialClaims) (controller_key identity_key : ℕ)
      → IsContext q.context
      → parsed.client_nonce < 256 ^ 32
      → q.server_nonce < 256 ^ 32
      → point < 256 ^ 32
      → hash < 256 ^ 32
      → q.session_id < 2 ^ 128
      → q.server_time < 2 ^ 64
      → server_hello_at
          (body_of (server_hello q point parsed hash claims controller_key identity_key))
        ≡ record {
          network_id = q.context.network_id;
          source_node_id = q.context.local_node_id;
          destination_node_id = q.context.peer_node_id;
          client_nonce = parsed.client_nonce;
          server_nonce = q.server_nonce;
          ephemeral_public_key = point;
          client_hello_hash = hash;
          session_id = q.session_id;
          server_time = q.server_time;
          suite_id = 1;
          credential_length = 200;
          credential = sign_credential x.signing claims controller_key;
        }
  unfolding sign_server_hello server_hello_body encode_common_header be server_hello_at
      sign_credential credential_body from_be
  server_hello_fields q point parsed hash claims controller_key identity_key v nonce server_nonce
        range digest session time =
      λ i. record {
        network_id = from_be-be 16 q.context.network_id v.network_id i;
        source_node_id = from_be-be 16 q.context.local_node_id v.local_node_id i;
        destination_node_id = from_be-be 16 q.context.peer_node_id v.peer_node_id i;
        client_nonce = from_be-be 32 parsed.client_nonce nonce i;
        server_nonce = from_be-be 32 q.server_nonce server_nonce i;
        ephemeral_public_key = from_be-be 32 point range i;
        client_hello_hash = from_be-be 32 hash digest i;
        session_id = from_be-be 16 q.session_id session i;
        server_time = from_be-be 8 q.server_time time i;
        suite_id = 1;
        credential_length = 200;
        credential = sign_credential x.signing claims controller_key;
      }

  -- The server's fields fit their widths and are not 0.
  pub record IsAnswer (q : ServerHandshakeParameters) (now : ℕ) : Type 0 where
    pub context : IsContext q.context
    pub some_nonce : 0 < q.server_nonce
    pub server_nonce : q.server_nonce < 256 ^ 32
    pub some_session : 0 < q.session_id
    pub session_id : q.session_id < 2 ^ 128
    pub some_time : 0 < q.server_time
    pub server_time : q.server_time < 2 ^ 64
    pub near : is_near q.server_time now ≡ true
    pub some_point : 0 < x.x25519 q.ephemeral_private_key x.basepoint

  pub parse_server_hello-sign :
      (q : ServerHandshakeParameters) (c : HandshakeContext) (parsed : ParsedClientHello)
      (hello : List ℕ) (claims : CredentialClaims) (controller_key identity_key now : ℕ)
      → let point = x.x25519 q.ephemeral_private_key x.basepoint in
        IsEndpoint x laws q.context claims identity_key
        → IsMirror q.context c
        → IsAnswer q now
        → IsAcceptable x laws claims controller_key now
        → parsed.client_nonce < 256 ^ 32
        → parsed.message_id < 2 ^ 32
        → parse_common_header hello 0x10 389 ≡ some parsed.message_id
        → parse_server_hello x
            (server_hello q point parsed (x.crypto.sha256 hello) claims controller_key identity_key)
            c
            hello
            parsed.client_nonce
            (x.signing.verifying_key controller_key)
            now
          ≡ some (record {
            message_id = parsed.message_id;
            server_nonce = q.server_nonce;
            ephemeral_public_key = point;
            session_id = q.session_id;
          })
  unfolding parse_server_hello acceptable_server_hello
  parse_server_hello-sign q c parsed hello claims controller_key identity_key now e m a ok nonce id
        asked =
      let point = x.x25519 q.ephemeral_private_key x.basepoint in
      let hash = x.crypto.sha256 hello in
      let encoded = server_hello q point parsed hash claims controller_key identity_key in
      let body =
        server_hello_body (with_server_credential q claims controller_key) point parsed hash in
      let domain = server_auth_domain ++ be 32 hash in
      let (framed, id_bytes, front, signature) =
        server_hello_framing q point parsed hash claims controller_key identity_key in
      let (_, _, key, _) =
        credential_fields x laws q.context claims identity_key controller_key e in
      let framing : parse_common_header encoded 0x11 468 ≡ some parsed.message_id =
        unfold parse_common_header in
        rw (framed, id_bytes, from_be-be 4 parsed.message_id id) refl in
      let fields =
        server_hello_fields q point parsed hash claims controller_key identity_key a.context nonce
          a.server_nonce (laws.point_range q.ephemeral_private_key x.basepoint)
          (laws.crypto.digest_range hello) a.session_id a.server_time in
      let signed =
        verify_hello-sign x laws (sign_credential x.signing claims controller_key) domain encoded
          body identity_key key front in
      rw
        (
          framing,
          asked,
          fields,
          signature,
          from_be-be 64 _ (
              laws.signing.signature_range identity_key
                (server_auth_domain ++ (be 32 hash ++ body))),
          verify_peer_credential-sign x laws q.context c claims identity_key controller_key now e m
              ok,
          ==_self parsed.message_id,
        )
        (rw
          (
            ← m.network_id,
            ← m.node_id,
            ← m.peer_node_id,
            ==_self q.context.network_id,
            ==_self q.context.local_node_id,
            ==_self q.context.peer_node_id,
            ==_self parsed.client_nonce,
            ==_self hash,
            nonzero q.server_nonce a.some_nonce,
            nonzero q.session_id a.some_session,
            nonzero point a.some_point,
            a.near,
            signed,
          )
          refl)
