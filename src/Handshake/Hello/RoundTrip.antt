-- ===== src/Handshake/Hello/RoundTrip.antt =====
-- What one end of the handshake writes in its hello, the other end parses
-- (crates/protocol/src/handshake.rs).
use xs_nexus.Base.{
  ℕ, ◌-◌, ◌^◌, ◌<◌, ◌≡◌, refl, ap, ◌∙◌, true, some, List, ◌++◌, ==_self, nonzero, length, take,
}
use xs_nexus.Base.Bytes.{be, from_be, from_be-be, slice, bytes_eq}
use xs_nexus.Credential.{
  CredentialClaims, VerifiedCredential, acceptable, decoded, sign_credential, credential_body,
  node_id, controller_key_id,
}
use xs_nexus.Credential.RoundTrip.{
  IsClaims, granted, decoded-sign, credential_framing, verify_credential-sign_credential,
}
use xs_nexus.Handshake.{
  Exchange, IsExchange, HandshakeContext, ClientHandshakeParameters, encode_common_header,
  valid_common_header, parse_common_header, body_of, is_near, verify_peer_credential,
  valid_local_credential,
}
use xs_nexus.Handshake.Hello.{
  client_hello_at, acceptable_client_hello, client_hello_body, sign_client_hello, verify_hello,
  parse_client_hello, client_auth_domain,
}

-- The two ends mean the same two nodes.
pub record IsMirror (c s : HandshakeContext) : Type 0 where
  pub network_id : c.network_id ≡ s.network_id
  pub node_id : c.local_node_id ≡ s.peer_node_id
  pub virtual_ip : c.local_virtual_ip ≡ s.peer_virtual_ip
  pub peer_node_id : c.peer_node_id ≡ s.local_node_id
  pub peer_virtual_ip : c.peer_virtual_ip ≡ s.local_virtual_ip

-- The nodes' identifiers fit their widths.
pub record IsContext (c : HandshakeContext) : Type 0 where
  pub network_id : c.network_id < 2 ^ 128
  pub local_node_id : c.local_node_id < 2 ^ 128
  pub peer_node_id : c.peer_node_id < 2 ^ 128

module _ (x : Exchange) (laws : IsExchange x) where
  abbrev pub with_credential :
      ClientHandshakeParameters → CredentialClaims → ℕ → ClientHandshakeParameters
  with_credential p claims controller_key = record p {
    credential = sign_credential x.signing claims controller_key;
  }

  abbrev pub client_hello : ClientHandshakeParameters → ℕ → CredentialClaims → ℕ → ℕ → List ℕ
  client_hello p point claims controller_key identity_key =
      sign_client_hello x (client_hello_body (with_credential p claims controller_key) point)
        identity_key

  pub client_hello_framing :
      (p : ClientHandshakeParameters) (point : ℕ) (claims : CredentialClaims)
      (controller_key identity_key : ℕ)
      → let encoded = client_hello p point claims controller_key identity_key in
        let body = client_hello_body (with_credential p claims controller_key) point in
        (valid_common_header encoded 0x10 389 ≡ true)
        × (slice 12 16 encoded ≡ be 4 p.message_id)
        × (take (length encoded - 64) encoded ≡ body)
        × (slice 325 389 (body_of encoded)
            ≡ be 64 (x.signing.sign identity_key (client_auth_domain ++ body)))
  unfolding sign_client_hello client_hello_body encode_common_header be valid_common_header bytes_eq
      from_be sign_credential credential_body client_hello_at
  client_hello_framing p point claims controller_key identity_key = (refl, refl, refl, refl)

  pub length-client_hello :
      (p : ClientHandshakeParameters) (point : ℕ) (claims : CredentialClaims)
      (controller_key identity_key : ℕ)
      → length (client_hello p point claims controller_key identity_key) ≡ 405
  unfolding sign_client_hello client_hello_body encode_common_header be sign_credential
      credential_body
  length-client_hello p point claims controller_key identity_key = refl

  client_hello_fields :
      (p : ClientHandshakeParameters) (point : ℕ) (claims : CredentialClaims)
      (controller_key identity_key : ℕ)
      → IsContext p.context
      → p.client_nonce < 256 ^ 32
      → point < 256 ^ 32
      → p.client_time < 2 ^ 64
      → client_hello_at (body_of (client_hello p point claims controller_key identity_key))
        ≡ record {
          network_id = p.context.network_id;
          source_node_id = p.context.local_node_id;
          destination_node_id = p.context.peer_node_id;
          client_nonce = p.client_nonce;
          ephemeral_public_key = point;
          client_time = p.client_time;
          credential_length = 200;
          credential = sign_credential x.signing claims controller_key;
          suites = 1;
          suite_id = 1;
        }
  unfolding sign_client_hello client_hello_body encode_common_header be client_hello_at
      sign_credential credential_body from_be
  client_hello_fields p point claims controller_key identity_key v nonce range time = λ i. record {
    network_id = from_be-be 16 p.context.network_id v.network_id i;
    source_node_id = from_be-be 16 p.context.local_node_id v.local_node_id i;
    destination_node_id = from_be-be 16 p.context.peer_node_id v.peer_node_id i;
    client_nonce = from_be-be 32 p.client_nonce nonce i;
    ephemeral_public_key = from_be-be 32 point range i;
    client_time = from_be-be 8 p.client_time time i;
    credential_length = 200;
    credential = sign_credential x.signing claims controller_key;
    suites = 1;
    suite_id = 1;
  }

  -- The node's context, identity key and credential belong together.
  pub record IsEndpoint (context : HandshakeContext) (claims : CredentialClaims) (identity_key : ℕ)
      : Type 0 where
    pub claims_fit : IsClaims claims
    pub network_id : claims.network_id ≡ context.network_id
    pub node_id : node_id x.signing claims.identity_public_key ≡ context.local_node_id
    pub virtual_ip : claims.virtual_ipv4 ≡ context.local_virtual_ip
    pub own : claims.identity_public_key ≡ x.signing.verifying_key identity_key

  -- The peer accepts the credential now.
  abbrev pub IsAcceptable : CredentialClaims → ℕ → ℕ → Type 0
  IsAcceptable claims controller_key now =
      acceptable (granted x.signing laws.signing claims controller_key)
        (node_id x.signing claims.identity_public_key)
        (controller_key_id x.signing (x.signing.verifying_key controller_key)) now
      ≡ true

  pub verify_peer_credential-sign :
      (c s : HandshakeContext) (claims : CredentialClaims) (identity_key controller_key now : ℕ)
      → IsEndpoint c claims identity_key
      → IsMirror c s
      → IsAcceptable claims controller_key now
      → verify_peer_credential x
          (sign_credential x.signing claims controller_key)
          s
          (x.signing.verifying_key controller_key)
          now
        ≡ some (granted x.signing laws.signing claims controller_key)
  unfolding verify_peer_credential
  verify_peer_credential-sign c s claims identity_key controller_key now e m ok =
      rw
        (
          verify_credential-sign_credential x.signing laws.signing claims controller_key now
              e.claims_fit ok,
          e.network_id,
          e.node_id,
          e.virtual_ip,
          ← m.network_id,
          ← m.node_id,
          ← m.virtual_ip,
          ==_self c.network_id,
          ==_self c.local_node_id,
          ==_self c.local_virtual_ip,
        )
        refl

  pub credential_fields :
      (c : HandshakeContext) (claims : CredentialClaims) (identity_key controller_key : ℕ)
      → IsEndpoint c claims identity_key
      → let bytes = sign_credential x.signing claims controller_key in
        (from_be (slice 4 20 bytes) ≡ c.network_id)
        × (from_be (slice 20 36 bytes) ≡ c.local_node_id)
        × (from_be (slice 36 68 bytes) ≡ x.signing.verifying_key identity_key)
        × (from_be (slice 68 72 bytes) ≡ c.local_virtual_ip)
  unfolding decoded
  credential_fields c claims identity_key controller_key e =
      let same = decoded-sign x.signing laws.signing claims controller_key e.claims_fit in
      (
        ap (λ (v : VerifiedCredential). v.network_id) same ∙ e.network_id,
        ap (λ (v : VerifiedCredential). v.node_id) same ∙ e.node_id,
        ap (λ (v : VerifiedCredential). v.identity_public_key) same ∙ e.own,
        ap (λ (v : VerifiedCredential). v.virtual_ipv4) same ∙ e.virtual_ip,
      )

  pub valid_local_credential-sign :
      (c : HandshakeContext) (claims : CredentialClaims) (identity_key controller_key : ℕ)
      → IsEndpoint c claims identity_key
      → valid_local_credential x (sign_credential x.signing claims controller_key) c identity_key
        ≡ true
  unfolding valid_local_credential
  valid_local_credential-sign c claims identity_key controller_key e =
      let (_, one, zeros, _, _) = credential_framing x.signing laws.signing claims controller_key in
      let (network, node, key, address) =
        credential_fields c claims identity_key controller_key e in
      rw
        (
          one,
          zeros,
          network,
          node,
          key,
          address,
          ==_self c.network_id,
          ==_self c.local_node_id,
          ==_self c.local_virtual_ip,
          ==_self (x.signing.verifying_key identity_key),
        )
        refl

  -- The signature of a hello is checked under the key in its credential.
  pub verify_hello-sign :
      (credential domain encoded body : List ℕ) (identity_key : ℕ)
      → from_be (slice 36 68 credential) ≡ x.signing.verifying_key identity_key
      → take (length encoded - 64) encoded ≡ body
      → verify_hello x credential domain encoded (x.signing.sign identity_key (domain ++ body))
        ≡ some tt
  unfolding verify_hello
  verify_hello-sign credential domain encoded body identity_key key front =
      rw (key, front, laws.signing.key_is_valid identity_key)
        (rw (laws.signing.verifies identity_key (domain ++ body)) refl)

  pub parse_client_hello-sign :
      (p : ClientHandshakeParameters) (s : HandshakeContext) (claims : CredentialClaims)
      (private controller_key identity_key now : ℕ)
      → let point = x.x25519 private x.basepoint in
        IsEndpoint p.context claims identity_key
        → IsMirror p.context s
        → IsContext p.context
        → IsAcceptable claims controller_key now
        → 0 < p.client_nonce
        → p.client_nonce < 256 ^ 32
        → 0 < point
        → p.message_id < 2 ^ 32
        → p.client_time < 2 ^ 64
        → is_near p.client_time now ≡ true
        → parse_client_hello x
            (client_hello p point claims controller_key identity_key)
            s
            (x.signing.verifying_key controller_key)
            now
          ≡ some (record {
            message_id = p.message_id;
            client_nonce = p.client_nonce;
            ephemeral_public_key = point;
          })
  unfolding parse_client_hello parse_common_header acceptable_client_hello
  parse_client_hello-sign p s claims private controller_key identity_key now e m v ok some_nonce
        nonce some_point id time near =
      let point = x.x25519 private x.basepoint in
      let encoded = client_hello p point claims controller_key identity_key in
      let body = client_hello_body (with_credential p claims controller_key) point in
      let (framed, id_bytes, front, signature) =
        client_hello_framing p point claims controller_key identity_key in
      let (_, _, key, _) = credential_fields p.context claims identity_key controller_key e in
      let fields =
        client_hello_fields p point claims controller_key identity_key v nonce
          (laws.point_range private x.basepoint) time in
      let signed =
        verify_hello-sign (sign_credential x.signing claims controller_key) client_auth_domain
          encoded body identity_key key front in
      rw
        (
          framed,
          id_bytes,
          from_be-be 4 p.message_id id,
          fields,
          signature,
          from_be-be 64 _ (laws.signing.signature_range identity_key (client_auth_domain ++ body)),
          signed,
          verify_peer_credential-sign p.context s claims identity_key controller_key now e m ok,
        )
        (rw
          (
            ← m.network_id,
            ← m.node_id,
            ← m.peer_node_id,
            ==_self p.context.network_id,
            ==_self p.context.local_node_id,
            ==_self p.context.peer_node_id,
            nonzero p.client_nonce some_nonce,
            nonzero point some_point,
            near,
          )
          refl)
