-- ===== src/Handshake/Agreement.antt =====
-- A handshake between two nodes whose credentials the controller signed completes, and both ends hold
-- the same secrets: the methods of crates/protocol/src/handshake.rs run against each other.
use xs_nexus.Base.{
  ℕ, ◌^◌, ◌<◌, ◌≡◌, refl, sym, true, Option, some, List, [], ◌∷◌, ==_self, nonzero, ◌>>=◌,
}
use mathlib.Core.Path.{subst}
use xs_nexus.Base.Bytes.{from_be-be}
use xs_nexus.Credential.{CredentialClaims}
use xs_nexus.Handshake.{
  Exchange, IsExchange, ClientHandshakeParameters, ServerHandshakeParameters, HandshakeKeys, client,
  server, EstablishedSession, validate_context, is_near, shared_secret, transcript_hash,
  parse_common_header, public_key,
}
use xs_nexus.Handshake.Hello.{ParsedClientHello}
use xs_nexus.Handshake.Hello.RoundTrip.{
  IsMirror, IsContext, IsEndpoint, IsAcceptable, with_credential, client_hello,
  client_hello_framing, length-client_hello, valid_local_credential-sign, parse_client_hello-sign,
}
use xs_nexus.Handshake.Hello.Answer.{
  IsAnswer, with_server_credential, server_hello, length-server_hello, parse_server_hello-sign,
}
use xs_nexus.Handshake.Finish.{derive_handshake_keys, established_session, encode_finish}
use xs_nexus.Handshake.Finish.RoundTrip.{
  session, decode_finish-encode_finish, encode_finish_total, derive_handshake_keys_total,
  established_session_mirror,
}
use xs_nexus.Handshake.Steps.{
  ClientHelloSent, ServerHelloSent, ClientFinishSent, start, accept, accept_server_hello,
  accept_client_finish, accept_server_finish, hello_transcript_domain, server_finish_domain,
  full_transcript_domain,
}

module _ (x : Exchange) where
  -- The four messages, each handed to the other end.
  unfoldable pub handshake :
      ClientHandshakeParameters
      → ℕ
      → ServerHandshakeParameters
      → ℕ
      → ℕ
      → ℕ
      → ℕ
      → Option (EstablishedSession × EstablishedSession)
  handshake p client_key q server_key controller_key server_now client_now = do
    hello ← start x p client_key
    answer ← accept x hello.encoded q server_key controller_key server_now
    finish ← accept_server_hello x hello answer.encoded controller_key client_now
    (theirs, server_finish) ← accept_client_finish x answer finish.encoded
    ours ← accept_server_finish x finish server_finish
    some (ours, theirs)

module _ (x : Exchange) (laws : IsExchange x) (p : ClientHandshakeParameters)
    (q : ServerHandshakeParameters) (client_claims server_claims : CredentialClaims)
    (controller_key client_key server_key server_now client_now : ℕ) where
  -- The two nodes mean each other, their credentials are acceptable, their values fit and are not 0.
  pub record IsReady : Type 0 where
    pub client_node : IsEndpoint x laws p.context client_claims client_key
    pub server_node : IsEndpoint x laws q.context server_claims server_key
    pub mirror : IsMirror p.context q.context
    pub context : IsContext p.context
    pub client_context : validate_context p.context ≡ some tt
    pub server_context : validate_context q.context ≡ some tt
    pub client_acceptable : IsAcceptable x laws client_claims controller_key server_now
    pub server_acceptable : IsAcceptable x laws server_claims controller_key client_now
    pub some_id : 0 < p.message_id
    pub message_id : p.message_id < 2 ^ 32
    pub some_time : 0 < p.client_time
    pub client_time : p.client_time < 2 ^ 64
    pub near : is_near p.client_time server_now ≡ true
    pub some_nonce : 0 < p.client_nonce
    pub client_nonce : p.client_nonce < 256 ^ 32
    pub some_point : 0 < public_key x p.ephemeral_private_key
    pub answer : IsAnswer x laws q client_now
    pub some_secret : 0 < x.x25519 p.ephemeral_private_key (public_key x q.ephemeral_private_key)

  abbrev pub hello_bytes : List ℕ
  hello_bytes =
      client_hello x laws p (public_key x p.ephemeral_private_key) client_claims controller_key
        client_key

  abbrev pub parsed : ParsedClientHello
  parsed = record {
    message_id = p.message_id;
    client_nonce = p.client_nonce;
    ephemeral_public_key = public_key x p.ephemeral_private_key;
  }

  abbrev pub answer_bytes : List ℕ
  answer_bytes =
      server_hello x laws q (public_key x q.ephemeral_private_key) parsed
        (x.crypto.sha256 hello_bytes) server_claims controller_key server_key

  abbrev pub hello_sent : ClientHelloSent
  hello_sent = record {
    context = p.context;
    encoded = hello_bytes;
    ephemeral_private_key = p.ephemeral_private_key;
    client_nonce = p.client_nonce;
  }

  abbrev pub answer_sent : HandshakeKeys → ServerHelloSent
  answer_sent keys = record {
    context = q.context;
    encoded = answer_bytes;
    client_hello = hello_bytes;
    message_id = p.message_id;
    session_id = q.session_id;
    keys = keys;
  }

  abbrev pub finish_sent : HandshakeKeys → List ℕ → ClientFinishSent
  finish_sent keys finish = record {
    context = p.context;
    encoded = finish;
    client_hello = hello_bytes;
    server_hello = answer_bytes;
    message_id = p.message_id;
    session_id = q.session_id;
    keys = keys;
  }

  abbrev pub hello_hash : ℕ
  hello_hash = transcript_hash x hello_transcript_domain (hello_bytes ∷ answer_bytes ∷ [])

  abbrev pub secret : ℕ
  secret = x.x25519 p.ephemeral_private_key (public_key x q.ephemeral_private_key)

  -- The keys that both ends derive.
  abbrev pub Derived : HandshakeKeys → Type 0
  Derived keys =
      derive_handshake_keys x secret p.context.network_id p.client_nonce q.server_nonce hello_hash
      ≡ some keys

  start_ready :
      IsReady
      → start x (with_credential x laws p client_claims controller_key) client_key ≡ some hello_sent
  unfolding start
  start_ready r =
      rw
        (
          r.client_context,
          valid_local_credential-sign x laws p.context client_claims client_key controller_key
              r.client_node,
          nonzero p.message_id r.some_id,
          nonzero p.client_time r.some_time,
          nonzero p.client_nonce r.some_nonce,
          nonzero (public_key x p.ephemeral_private_key) r.some_point,
          length-client_hello x laws p (public_key x p.ephemeral_private_key) client_claims
              controller_key client_key,
        )
        refl

  server_secret :
      IsReady
      → shared_secret x q.ephemeral_private_key (public_key x p.ephemeral_private_key) ≡ some secret
  unfolding shared_secret
  server_secret r =
      rw
        (
          ← laws.agrees p.ephemeral_private_key q.ephemeral_private_key,
          nonzero secret r.some_secret,
        )
        refl

  client_secret :
      IsReady
      → shared_secret x p.ephemeral_private_key (public_key x q.ephemeral_private_key) ≡ some secret
  unfolding shared_secret
  client_secret r = rw (nonzero secret r.some_secret) refl

  pub accept_ready :
      (keys : HandshakeKeys)
      → IsReady
      → Derived keys
      → accept x hello_bytes
          (with_server_credential x laws q server_claims controller_key)
          server_key
          (x.signing.verifying_key controller_key)
          server_now
        ≡ some (answer_sent keys)
  unfolding accept
  accept_ready keys r derived =
      let a = r.answer in
      let here =
        subst
          (λ network_id.
            derive_handshake_keys x secret network_id p.client_nonce q.server_nonce hello_hash
            ≡ some keys)
          r.mirror.network_id derived in
      rw
        (
          r.server_context,
          valid_local_credential-sign x laws q.context server_claims server_key controller_key
              r.server_node,
          nonzero q.server_nonce a.some_nonce,
          nonzero q.session_id a.some_session,
          nonzero q.server_time a.some_time,
          nonzero (public_key x q.ephemeral_private_key) a.some_point,
          parse_client_hello-sign x laws p q.context client_claims p.ephemeral_private_key
              controller_key client_key server_now r.client_node r.mirror r.context
              r.client_acceptable r.some_nonce r.client_nonce r.some_point r.message_id
              r.client_time r.near,
        )
        (rw
          (
            length-server_hello x laws q (public_key x q.ephemeral_private_key) parsed
                (x.crypto.sha256 hello_bytes) server_claims controller_key server_key,
            server_secret r,
            here,
          )
          refl)

  asked : IsReady → parse_common_header hello_bytes 0x10 389 ≡ some p.message_id
  unfolding parse_common_header
  asked r =
      let (framed, id_bytes, _, _) =
        client_hello_framing x laws p (public_key x p.ephemeral_private_key) client_claims
          controller_key client_key in
      rw (framed, id_bytes, from_be-be 4 p.message_id r.message_id) refl

  pub finish_ready :
      (keys : HandshakeKeys) (finish : List ℕ)
      → IsReady
      → Derived keys
      → encode_finish x 0x12 p.message_id q.session_id keys.client_key keys.client_nonce_salt
          keys.hello_transcript_hash
        ≡ some finish
      → accept_server_hello x hello_sent answer_bytes
          (x.signing.verifying_key controller_key)
          client_now
        ≡ some (finish_sent keys finish)
  unfolding accept_server_hello
  finish_ready keys finish r derived sent =
      let back : IsMirror q.context p.context = record {
        network_id = sym r.mirror.network_id;
        node_id = sym r.mirror.peer_node_id;
        virtual_ip = sym r.mirror.peer_virtual_ip;
        peer_node_id = sym r.mirror.node_id;
        peer_virtual_ip = sym r.mirror.virtual_ip;
      } in
      rw
        (
          parse_server_hello-sign x laws q p.context parsed hello_bytes server_claims controller_key
              server_key client_now r.server_node back r.answer r.server_acceptable r.client_nonce
              r.message_id (asked r),
          client_secret r,
          derived,
          sent,
        )
        refl

  hash_range : (domain : List ℕ) (parts : List (List ℕ)) → transcript_hash x domain parts < 256 ^ 32
  unfolding transcript_hash
  hash_range domain parts = laws.crypto.digest_range _

  abbrev finish_check : List ℕ → ℕ
  finish_check finish =
      transcript_hash x server_finish_domain (hello_bytes ∷ answer_bytes ∷ finish ∷ [])

  abbrev full_hash : List ℕ → List ℕ → ℕ
  full_hash finish server_finish =
      transcript_hash x full_transcript_domain
        (hello_bytes ∷ answer_bytes ∷ finish ∷ server_finish ∷ [])

  module _ (keys : HandshakeKeys) (finish server_finish : List ℕ) (r : IsReady)
      (answered : encode_finish x 0x13 p.message_id q.session_id keys.server_key
          keys.server_nonce_salt
          (finish_check finish)
        ≡ some server_finish) where
    server_ready :
        (theirs : EstablishedSession)
        → keys.hello_transcript_hash ≡ hello_hash
        → encode_finish x 0x12 p.message_id q.session_id keys.client_key keys.client_nonce_salt
            keys.hello_transcript_hash
          ≡ some finish
        → established_session x server q.context q.session_id keys.handshake_prk
            (full_hash finish server_finish)
          ≡ some theirs
        → accept_client_finish x (answer_sent keys) finish ≡ some (theirs, server_finish)
    unfolding accept_client_finish
    server_ready theirs same sent established =
        let small : keys.hello_transcript_hash < 256 ^ 32 = rw same (hash_range _ _) in
        rw
          (
            decode_finish-encode_finish x laws 0x12 p.message_id q.session_id keys.client_key
                keys.client_nonce_salt keys.hello_transcript_hash finish r.message_id
                r.answer.session_id small sent,
            ==_self keys.hello_transcript_hash,
            answered,
            established,
          )
          refl

    client_ready :
        (ours : EstablishedSession)
        → established_session x client p.context q.session_id keys.handshake_prk
            (full_hash finish server_finish)
          ≡ some ours
        → accept_server_finish x (finish_sent keys finish) server_finish ≡ some ours
    unfolding accept_server_finish
    client_ready ours established =
        rw
          (
            decode_finish-encode_finish x laws 0x13 p.message_id q.session_id keys.server_key
                keys.server_nonce_salt (finish_check finish) server_finish r.message_id
                r.answer.session_id (hash_range _ _) answered,
            ==_self (finish_check finish),
          )
          established

  -- The handshake completes, and both ends have the session of the server's choice with the same two
  -- secrets: when each end's identity key and addresses are those of its own claims, the controller's
  -- credentials of both are acceptable to the other end, the two contexts pass their check and mirror
  -- each other, each message's time is within 300 seconds of the clock of the end that takes it, the
  -- message id, the session id, the times, the nonces, the public points and the shared secret are
  -- not 0, and all fields fit their widths.
  pub handshake-agrees :
      IsReady
      → (client_secret server_secret : ℕ) × (handshake x
            (with_credential x laws p client_claims controller_key)
            client_key
            (with_server_credential x laws q server_claims controller_key)
            server_key
            (x.signing.verifying_key controller_key)
            server_now
            client_now
          ≡ some (
            session x laws client p.context q.session_id client_secret server_secret,
            session x laws server q.context q.session_id client_secret server_secret,
          ))
  unfolding handshake
  handshake-agrees r =
      let (keys, derived, same) =
        derive_handshake_keys_total x laws secret p.context.network_id p.client_nonce q.server_nonce
          hello_hash in
      let (finish, sent) =
        encode_finish_total x laws 0x12 p.message_id q.session_id keys.client_key
          keys.client_nonce_salt keys.hello_transcript_hash in
      let (server_finish, answered) =
        encode_finish_total x laws 0x13 p.message_id q.session_id keys.server_key
          keys.server_nonce_salt (finish_check finish) in
      let (client_secret, server_secret, ours, theirs) =
        established_session_mirror x laws p.context q.context q.session_id keys.handshake_prk
          (full_hash finish server_finish) r.mirror in
      (
        client_secret,
        server_secret,
        rw
            (
              start_ready r,
              accept_ready keys r derived,
              finish_ready keys finish r derived sent,
              server_ready keys finish server_finish r answered _ same sent theirs,
              client_ready keys finish server_finish r answered _ ours,
            )
            refl,
      )
