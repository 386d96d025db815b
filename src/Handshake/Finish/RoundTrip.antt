-- ===== src/Handshake/Finish/RoundTrip.antt =====
-- What `encode_finish` of crates/protocol/src/handshake.rs writes, `decode_finish` reads back, and
-- the two roles of a session derive the same secrets.
use xs_nexus.Base.{
  ℕ, ◌^◌, ◌<◌, ◌≡◌, refl, ◌∙◌, true, some, List, [], ◌∷◌, ◌++◌, ==_self, bind-passed, some-eq,
  length, take, drop, arith, length-append, take-length, take-length_append, drop-length_append,
}
use xs_nexus.Base.Bytes.{be, from_be, from_be-be, slice, bytes_eq, length-be}
use xs_nexus.Base.Text.{codes}
use xs_nexus.Handshake.Hello.RoundTrip.{IsMirror}
use xs_nexus.Handshake.{
  Exchange, IsExchange, HandshakeContext, HandshakeKeys, SessionRole, client, server,
  transcript_hash, EstablishedSession, encode_common_header, valid_common_header,
  parse_common_header, body_of,
}
use xs_nexus.Handshake.Finish.{
  finish_prefix, valid_finish, finish_nonce, encode_finish, decode_finish, derive_handshake_keys,
  established_session, client_info, server_info,
}

-- The two parts behind the prefix, found by their lengths.
take_text : (cipher tag : List ℕ) → length cipher ≡ 32 → take 32 (cipher ++ tag) ≡ cipher
take_text cipher tag e = rw e at (take-length_append cipher tag)

take_tag :
    (cipher tag : List ℕ)
    → length cipher ≡ 32
    → length tag ≡ 16
    → take 16 (drop 32 (cipher ++ tag)) ≡ tag
take_tag cipher tag e f =
    let back : drop 32 (cipher ++ tag) ≡ tag = rw e at (drop-length_append cipher tag) in
    rw back (rw f at (take-length tag))

module _ (message_type message_id session_id : ℕ) (cipher tag : List ℕ) where
  abbrev finish : List ℕ
  finish = finish_prefix message_type message_id session_id ++ (cipher ++ tag)

  length-finish : length cipher ≡ 32 → length tag ≡ 16 → length finish ≡ 92
  unfolding finish_prefix encode_common_header be
  length-finish e f = omega (arith, length-append {0} cipher tag)

  finish_framing :
      length cipher ≡ 32
      → length tag ≡ 16
      → (valid_common_header finish message_type 76 ≡ true)
        × (slice 12 16 finish ≡ be 4 message_id)
        × (slice 0 16 (body_of finish) ≡ be 16 session_id)
        × (from_be (slice 16 24 (body_of finish)) ≡ 0)
        × (from_be (slice 24 26 (body_of finish)) ≡ 32)
        × (bytes_eq (slice 26 28 (body_of finish)) (0 ∷ 0 ∷ []) ≡ true)
        × (take 44 finish ≡ finish_prefix message_type message_id session_id)
        × (slice 28 60 (body_of finish) ≡ cipher)
        × (slice 60 76 (body_of finish) ≡ tag)
  unfolding finish_prefix encode_common_header be valid_common_header bytes_eq from_be
  finish_framing e f = (
    rw (length-finish e f, ==_self message_type) refl,
    refl,
    refl,
    refl,
    refl,
    refl,
    refl,
    take_text cipher tag e,
    take_tag cipher tag e f,
  )

  parse-finish :
      length cipher ≡ 32
      → length tag ≡ 16
      → message_id < 2 ^ 32
      → parse_common_header finish message_type 76 ≡ some message_id
  unfolding parse_common_header
  parse-finish e f id = let p = finish_framing e f in rw (p.0, p.1, from_be-be 4 message_id id) refl

  valid-finish :
      length cipher ≡ 32
      → length tag ≡ 16
      → session_id < 2 ^ 128
      → valid_finish (body_of finish) session_id ≡ true
  unfolding valid_finish
  valid-finish e f session =
      let p = finish_framing e f in
      rw (p.2, from_be-be 16 session_id session, ==_self session_id, p.3, p.4, p.5) refl

module _ (x : Exchange) (laws : IsExchange x) where
  -- A finish that one end encodes, the other end decodes with the same key, salt, message and
  -- session, to the text that was sent.
  pub decode_finish-encode_finish :
      (message_type message_id session_id key nonce_salt plaintext : ℕ) (encoded : List ℕ)
      → message_id < 2 ^ 32
      → session_id < 2 ^ 128
      → plaintext < 256 ^ 32
      → encode_finish x message_type message_id session_id key nonce_salt plaintext ≡ some encoded
      → decode_finish x encoded message_type message_id session_id key nonce_salt ≡ some plaintext
  unfolding encode_finish decode_finish
  decode_finish-encode_finish message_type message_id session_id key nonce_salt plaintext encoded id
        session small h =
      let prefix = finish_prefix message_type message_id session_id in
      let ((cipher, tag), sealed, h) =
        bind-passed (x.crypto.encrypt key (finish_nonce nonce_salt) prefix (be 32 plaintext)) _ h in
      let long : length cipher ≡ 32 =
        laws.crypto.cipher_length key (finish_nonce nonce_salt) prefix (be 32 plaintext) cipher tag
          sealed
        ∙ length-be 32 plaintext in
      let tagged : length tag ≡ 16 =
        laws.crypto.tag_length key (finish_nonce nonce_salt) prefix (be 32 plaintext) cipher tag
          sealed in
      let opens : x.crypto.decrypt key (finish_nonce nonce_salt) prefix cipher tag
          ≡ some (be 32 plaintext) =
        laws.crypto.decrypts key (finish_nonce nonce_salt) prefix (be 32 plaintext) cipher tag
          sealed in
      let p = finish_framing message_type message_id session_id cipher tag long tagged in
      rw (← some-eq h) (
        rw
          (
            parse-finish message_type message_id session_id cipher tag long tagged id,
            ==_self message_id,
            valid-finish message_type message_id session_id cipher tag long tagged session,
            p.6,
            p.7,
            p.8,
            opens,
            length-be 32 plaintext,
            from_be-be 32 plaintext small,
          )
          refl)

  pub encode_finish_total :
      (message_type message_id session_id key nonce_salt plaintext : ℕ)
      → (encoded : List ℕ) × (encode_finish x message_type message_id session_id key nonce_salt
            plaintext
          ≡ some encoded)
  unfolding encode_finish
  encode_finish_total message_type message_id session_id key nonce_salt plaintext =
      let prefix = finish_prefix message_type message_id session_id in
      let (sealed, e) =
        laws.encrypts key (finish_nonce nonce_salt) prefix (be 32 plaintext)
          (omega (arith, length-be 32 plaintext)) in
      (prefix ++ (sealed.0 ++ sealed.1), rw e refl)

  pub derive_handshake_keys_total :
      (shared network_id client_nonce server_nonce hash : ℕ)
      → (keys : HandshakeKeys) × (derive_handshake_keys x shared network_id client_nonce
            server_nonce hash
          ≡ some keys)
        × (keys.hello_transcript_hash ≡ hash)
  unfolding derive_handshake_keys
  derive_handshake_keys_total shared network_id client_nonce server_nonce hash =
      let salt =
        transcript_hash x (codes "XSP/1 handshake salt v1")
          (be 16 network_id ∷ be 32 client_nonce ∷ be 32 server_nonce ∷ []) in
      let prk = x.extract salt shared in
      let suffix = be 32 hash in
      let (client_key, e) =
        laws.expands 32 prk (codes "XSP/1 client handshake key v1" ++ suffix) (omega arith) in
      let (server_key, f) =
        laws.expands 32 prk (codes "XSP/1 server handshake key v1" ++ suffix) (omega arith) in
      let (client_salt, g) =
        laws.expands 4 prk (codes "XSP/1 client handshake nonce v1" ++ suffix) (omega arith) in
      let (server_salt, h) =
        laws.expands 4 prk (codes "XSP/1 server handshake nonce v1" ++ suffix) (omega arith) in
      (
        record {
          handshake_prk = prk;
          client_key = client_key;
          server_key = server_key;
          client_nonce_salt = client_salt;
          server_nonce_salt = server_salt;
          hello_transcript_hash = hash;
        },
        rw (e, f, g, h) refl,
        refl,
      )

  abbrev pub session : SessionRole → HandshakeContext → ℕ → ℕ → ℕ → EstablishedSession
  session role context session_id client_secret server_secret = record {
    role = role;
    context = context;
    session_id = session_id;
    client_to_server_secret = client_secret;
    server_to_client_secret = server_secret;
  }

  -- The two roles of a session over one transcript derive the same secrets.
  pub established_session_mirror :
      (c s : HandshakeContext) (session_id prk hash : ℕ)
      → IsMirror c s
      → (client_secret server_secret : ℕ) × (established_session x client c session_id prk hash
          ≡ some (session client c session_id client_secret server_secret))
        × (established_session x server s session_id prk hash
            ≡ some (session server s session_id client_secret server_secret))
  unfolding established_session
  established_session_mirror c s session_id prk hash m =
      let application = x.extract hash prk in
      let (client_secret, e) =
        laws.expands 32 application
          (codes "XSP/1 client traffic secret v1" ++ client_info server s session_id)
          (omega arith) in
      let (server_secret, f) =
        laws.expands 32 application
          (codes "XSP/1 server traffic secret v1" ++ server_info server s session_id)
          (omega arith) in
      (
        client_secret,
        server_secret,
        rw (m.network_id, m.node_id, m.peer_node_id) (rw (e, f) refl),
        rw (e, f) refl,
      )
