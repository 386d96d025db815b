-- ===== src/Handshake/Binding.antt =====
-- What a node of crates/protocol/src/handshake.rs has checked of its peer when it takes a hello, and
-- that it takes no finish of another transcript.
use xs_nexus.Base.{
  ℕ, ◌-◌, ◌≡◌, refl, sym, ap, ◌∙◌, Bool, true, false, not, ◌&&◌, some, List, [], ◌∷◌, ◌++◌, ◌==◌,
  ==_iff, ensure, ensure-passed, then-passed, bind-passed, some-eq, &&-true, length, take, drop,
  get_or,
}
use xs_nexus.Base.Bytes.{be, from_be, slice, bytes_eq}
use xs_nexus.Credential.{
  VerifiedCredential, verify_credential, decoded, acceptable, node_id, controller_key_id,
  credential_length, credential_domain, credential_signed_length,
}
use xs_nexus.Handshake.{
  Exchange, HandshakeContext, ServerHandshakeParameters, parse_common_header, body_of, is_near,
  suite_id, shared_secret, transcript_hash, validate_context, valid_local_credential,
  verify_peer_credential,
}
use xs_nexus.Handshake.Hello.{
  ParsedServerHello, ServerHello, client_hello_at, server_hello_at, acceptable_client_hello,
  acceptable_server_hello, verify_hello, parse_client_hello, parse_server_hello, client_auth_domain,
  server_auth_domain,
}
use xs_nexus.Handshake.Finish.{encode_finish, derive_handshake_keys}
use xs_nexus.Handshake.Steps.{
  ClientHelloSent, ServerHelloSent, ClientFinishSent, accept, accept_server_hello,
  hello_transcript_domain,
}

module _ (x : Exchange) where
  -- The peer that the context names holds a credential of the controller, and the key in it signed the
  -- message.
  pub record Authenticated (context : HandshakeContext) (credential : List ℕ)
      (controller_key now : ℕ) (domain encoded : List ℕ) (signature : ℕ) : Type 0 where
    pub verified : VerifiedCredential
    pub granted : verify_credential x.signing credential controller_key now ≡ some verified
    pub network_id : verified.network_id ≡ context.network_id
    pub node_id : verified.node_id ≡ context.peer_node_id
    pub virtual_ip : verified.virtual_ipv4 ≡ context.peer_virtual_ip
    pub signed :
        x.signing.verify_strict verified.identity_public_key
          (domain ++ take (length encoded - 64) encoded)
          signature
        ≡ true

  ensured : (b : Bool) → ensure b ≡ some tt → b ≡ true
  ensured true h = refl
  ensured false h = cc

  verified_key :
      (credential : List ℕ) (controller_key now : ℕ) (verified : VerifiedCredential)
      → verify_credential x.signing credential controller_key now ≡ some verified
      → from_be (slice 36 68 credential) ≡ verified.identity_public_key
  unfolding verify_credential decoded
  verified_key credential controller_key now verified h =
      let (_, h) = ensure-passed (length credential == credential_length) _ h in
      let (_, h) =
        ensure-passed
          (get_or credential 0 0 == 1 && bytes_eq (slice 1 4 credential) (0 ∷ 0 ∷ 0 ∷ [])) _ h in
      let (_, h) =
        ensure-passed
          (acceptable (decoded credential)
            (node_id x.signing (decoded credential).identity_public_key)
            (controller_key_id x.signing controller_key) now)
          _ h in
      let (_, h) =
        ensure-passed
          (x.signing.verify_strict controller_key
            (credential_domain ++ take credential_signed_length credential)
            (from_be (drop credential_signed_length credential)))
          _ h in
      let same : decoded credential ≡ verified = some-eq h in
      ap (λ (v : VerifiedCredential). v.identity_public_key) same

  peer-Authenticated :
      (context : HandshakeContext) (credential : List ℕ) (controller_key now : ℕ)
      (domain encoded : List ℕ) (signature : ℕ) (verified : VerifiedCredential)
      → verify_peer_credential x credential context controller_key now ≡ some verified
      → verify_hello x credential domain encoded signature ≡ some tt
      → Authenticated context credential controller_key now domain encoded signature
  unfolding verify_peer_credential verify_hello
  peer-Authenticated context credential controller_key now domain encoded signature verified h
        signed =
      let (v, granted, h) =
        bind-passed (verify_credential x.signing credential controller_key now) _ h in
      let (same, _) = ensure-passed _ _ h in
      let (both, ip) = &&-true _ _ same in
      let (network, node) = &&-true _ _ both in
      let (_, signed) =
        ensure-passed (x.signing.valid_key (from_be (slice 36 68 credential))) _ signed in
      record {
        verified = v;
        granted = granted;
        network_id = (==_iff v.network_id context.network_id).0 network;
        node_id = (==_iff v.node_id context.peer_node_id).0 node;
        virtual_ip = (==_iff v.virtual_ipv4 context.peer_virtual_ip).0 ip;
        signed = rw (← verified_key credential controller_key now v granted) (ensured _ signed);
      }

  -- A client that takes a `ServerHello` has authenticated the peer, whose signature covers the hash of
  -- the client's own hello; the message names the two nodes and echoes the client's nonce and hash.
  pub record ServerAuthenticated (s : ClientHelloSent) (server_hello : List ℕ)
      (controller_key now : ℕ) (f : ClientFinishSent) : Type 0 where
    pub peer :
        Authenticated s.context
          (server_hello_at (body_of server_hello)).credential
          controller_key
          now
          (server_auth_domain ++ be 32 (x.crypto.sha256 s.encoded))
          server_hello
          (from_be (slice 404 468 (body_of server_hello)))
    pub source : (server_hello_at (body_of server_hello)).source_node_id ≡ s.context.peer_node_id
    pub destination :
        (server_hello_at (body_of server_hello)).destination_node_id ≡ s.context.local_node_id
    pub echo : (server_hello_at (body_of server_hello)).client_nonce ≡ s.client_nonce
    pub bound :
        (server_hello_at (body_of server_hello)).client_hello_hash ≡ x.crypto.sha256 s.encoded
    pub fresh : is_near (server_hello_at (body_of server_hello)).server_time now ≡ true
    pub session_id : f.session_id ≡ (server_hello_at (body_of server_hello)).session_id
    pub transcript : (f.client_hello ≡ s.encoded) × (f.server_hello ≡ server_hello)

  hello_checks :
      (hello : ServerHello) (context : HandshakeContext) (nonce hash now : ℕ)
      → acceptable_server_hello hello context nonce hash now ≡ true
      → (hello.source_node_id ≡ context.peer_node_id)
        × (hello.destination_node_id ≡ context.local_node_id)
        × (hello.client_nonce ≡ nonce)
        × (hello.client_hello_hash ≡ hash)
        × (is_near hello.server_time now ≡ true)
  unfolding acceptable_server_hello
  hello_checks hello context nonce hash now h =
      let (h, _) = &&-true _ (hello.credential_length == credential_length) h in
      let (h, _) = &&-true _ (hello.suite_id == suite_id) h in
      let (h, near) = &&-true _ (is_near hello.server_time now) h in
      let (h, _) = &&-true _ (not (hello.session_id == 0)) h in
      let (h, bound) = &&-true _ (hello.client_hello_hash == hash) h in
      let (h, _) = &&-true _ (not (hello.ephemeral_public_key == 0)) h in
      let (h, _) = &&-true _ (not (hello.server_nonce == 0)) h in
      let (h, echo) = &&-true _ (hello.client_nonce == nonce) h in
      let (h, to) = &&-true _ (hello.destination_node_id == context.local_node_id) h in
      let (_, from) = &&-true _ (hello.source_node_id == context.peer_node_id) h in
      ((==_iff _ _).0 from, (==_iff _ _).0 to, (==_iff _ _).0 echo, (==_iff _ _).0 bound, near)

  -- What the parser of a `ServerHello` has checked.
  record ParsedServer (context : HandshakeContext) (hello server_hello : List ℕ)
      (nonce controller_key now : ℕ) (parsed : ParsedServerHello) : Type 0 where
    peer :
        Authenticated context
          (server_hello_at (body_of server_hello)).credential
          controller_key
          now
          (server_auth_domain ++ be 32 (x.crypto.sha256 hello))
          server_hello
          (from_be (slice 404 468 (body_of server_hello)))
    checked :
        acceptable_server_hello
          (server_hello_at (body_of server_hello))
          context
          nonce
          (x.crypto.sha256 hello)
          now
        ≡ true
    session_id : parsed.session_id ≡ (server_hello_at (body_of server_hello)).session_id

  parse_server_hello-ParsedServer :
      (context : HandshakeContext) (hello server_hello : List ℕ) (nonce controller_key now : ℕ)
      (parsed : ParsedServerHello)
      → parse_server_hello x server_hello context hello nonce controller_key now ≡ some parsed
      → ParsedServer context hello server_hello nonce controller_key now parsed
  unfolding parse_server_hello
  parse_server_hello-ParsedServer context hello server_hello nonce controller_key now parsed h =
      let fields = server_hello_at (body_of server_hello) in
      let hash = x.crypto.sha256 hello in
      let (id, _, h) = bind-passed (parse_common_header server_hello 0x11 468) _ h in
      let (expected, _, h) = bind-passed (parse_common_header hello 0x10 389) _ h in
      let (guard, h) =
        ensure-passed (id == expected && acceptable_server_hello fields context nonce hash now) _
          h in
      let (verified, peer, h) =
        bind-passed (verify_peer_credential x fields.credential context controller_key now) _ h in
      let (signed, h) =
        then-passed
          (verify_hello x fields.credential (server_auth_domain ++ be 32 hash) server_hello
            (from_be (slice 404 468 (body_of server_hello))))
          _ h in
      record {
        peer =
            peer-Authenticated context fields.credential controller_key now
              (server_auth_domain ++ be 32 hash) server_hello
              (from_be (slice 404 468 (body_of server_hello))) verified peer signed;
        checked = (&&-true (id == expected) _ guard).1;
        session_id = ap (λ (p : ParsedServerHello). p.session_id) (sym (some-eq h));
      }

  -- A client that takes a `ServerHello` has authenticated the peer that its context names, under a
  -- credential of the controller and a signature over the client's own hello's hash; the message
  -- names the two nodes, echoes the nonce and the hash and is fresh; and the session is the message's.
  pub accept_server_hello-ServerAuthenticated :
      (s : ClientHelloSent) (server_hello : List ℕ) (controller_key now : ℕ) (f : ClientFinishSent)
      → accept_server_hello x s server_hello controller_key now ≡ some f
      → ServerAuthenticated s server_hello controller_key now f
  unfolding accept_server_hello
  accept_server_hello-ServerAuthenticated s server_hello controller_key now f h =
      let (parsed, taken, h) =
        bind-passed
          (parse_server_hello x server_hello s.context s.encoded s.client_nonce controller_key now)
          _ h in
      let (shared, _, h) =
        bind-passed (shared_secret x s.ephemeral_private_key parsed.ephemeral_public_key) _ h in
      let (keys, _, h) =
        bind-passed
          (derive_handshake_keys x shared s.context.network_id s.client_nonce parsed.server_nonce
            (transcript_hash x hello_transcript_domain (s.encoded ∷ server_hello ∷ [])))
          _ h in
      let (finish, _, h) =
        bind-passed
          (encode_finish x 0x12 parsed.message_id parsed.session_id keys.client_key
            keys.client_nonce_salt keys.hello_transcript_hash)
          _ h in
      let p =
        parse_server_hello-ParsedServer s.context s.encoded server_hello s.client_nonce
          controller_key now parsed taken in
      let (source, destination, echo, bound, fresh) = hello_checks _ _ _ _ _ p.checked in
      let same = sym (some-eq h) in
      record {
        peer = p.peer;
        source = source;
        destination = destination;
        echo = echo;
        bound = bound;
        fresh = fresh;
        session_id = ap (λ (f : ClientFinishSent). f.session_id) same ∙ p.session_id;
        transcript = (
          ap (λ (f : ClientFinishSent). f.client_hello) same,
          ap (λ (f : ClientFinishSent). f.server_hello) same,
        );
      }

  -- A server that takes a `ClientHello` holds for the peer that its context names a credential that
  -- the controller signed and that names the context's network, peer node and virtual address, and
  -- the key in it signed the hello. Nothing is said of the hello's age, nor of whom it is for.
  pub accept-Authenticated :
      (client_hello : List ℕ) (q : ServerHandshakeParameters) (identity_key controller_key now : ℕ)
      (s : ServerHelloSent)
      → accept x client_hello q identity_key controller_key now ≡ some s
      → Authenticated q.context
          (client_hello_at (body_of client_hello)).credential
          controller_key
          now
          client_auth_domain
          client_hello
          (from_be (slice 325 389 (body_of client_hello)))
  unfolding accept parse_client_hello
  accept-Authenticated client_hello q identity_key controller_key now s h =
      let fields = client_hello_at (body_of client_hello) in
      let (_, h) = then-passed (validate_context q.context) _ h in
      let (_, h) =
        ensure-passed (valid_local_credential x q.credential q.context identity_key) _ h in
      let (_, h) =
        ensure-passed
          (not (q.server_nonce == 0) && not (q.session_id == 0) && not (q.server_time == 0)) _ h in
      let (parsed, taken, _) =
        bind-passed (parse_client_hello x client_hello q.context controller_key now) _ h in
      let (id, _, taken) = bind-passed (parse_common_header client_hello 0x10 389) _ taken in
      let (_, taken) = ensure-passed (acceptable_client_hello fields q.context now) _ taken in
      let (verified, peer, taken) =
        bind-passed (verify_peer_credential x fields.credential q.context controller_key now) _
          taken in
      let (signed, _) =
        then-passed
          (verify_hello x fields.credential client_auth_domain client_hello
            (from_be (slice 325 389 (body_of client_hello))))
          _ taken in
      peer-Authenticated q.context fields.credential controller_key now client_auth_domain
        client_hello (from_be (slice 325 389 (body_of client_hello))) verified peer signed
