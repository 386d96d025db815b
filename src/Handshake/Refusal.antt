-- ===== src/Handshake/Refusal.antt =====
-- A finish of another transcript is refused (crates/protocol/src/handshake.rs).
use xs_nexus.Base.{ℕ, ◌^◌, ◌<◌, ◌≡◌, ◌≢◌, refl, false, none, some, List, [], ◌∷◌, ◌==◌, arith}
use xs_nexus.Handshake.{Exchange, IsExchange, transcript_hash}
use xs_nexus.Handshake.Finish.{encode_finish}
use xs_nexus.Handshake.Finish.RoundTrip.{decode_finish-encode_finish}
use xs_nexus.Handshake.Steps.{
  ServerHelloSent, ClientFinishSent, accept_client_finish, accept_server_finish,
  server_finish_domain,
}

unequal : (a b : ℕ) → a ≢ b → (a == b) ≡ false
unequal a b h = ground arith

module _ (x : Exchange) (laws : IsExchange x) where
  -- A finish with the server's own keys, message and session that was made for another transcript of
  -- the hellos is refused.
  pub accept_client_finish_refuses :
      (s : ServerHelloSent) (other : ℕ) (finish : List ℕ)
      → s.message_id < 2 ^ 32
      → s.session_id < 2 ^ 128
      → other < 256 ^ 32
      → other ≢ s.keys.hello_transcript_hash
      → encode_finish x 0x12 s.message_id s.session_id s.keys.client_key s.keys.client_nonce_salt
          other
        ≡ some finish
      → accept_client_finish x s finish ≡ none
  unfolding accept_client_finish
  accept_client_finish_refuses s other finish id session small differs sent =
      rw
        (
          decode_finish-encode_finish x laws 0x12 s.message_id s.session_id s.keys.client_key
              s.keys.client_nonce_salt other finish id session small sent,
          unequal other s.keys.hello_transcript_hash differs,
        )
        refl

  -- A client refuses a server's finish with its own keys, message and session that was made for another
  -- transcript.
  pub accept_server_finish_refuses :
      (s : ClientFinishSent) (other : ℕ) (finish : List ℕ)
      → s.message_id < 2 ^ 32
      → s.session_id < 2 ^ 128
      → other < 256 ^ 32
      → other
        ≢ transcript_hash x server_finish_domain (s.client_hello ∷ s.server_hello ∷ s.encoded ∷ [])
      → encode_finish x 0x13 s.message_id s.session_id s.keys.server_key s.keys.server_nonce_salt
          other
        ≡ some finish
      → accept_server_finish x s finish ≡ none
  unfolding accept_server_finish
  accept_server_finish_refuses s other finish id session small differs sent =
      rw
        (
          decode_finish-encode_finish x laws 0x13 s.message_id s.session_id s.keys.server_key
              s.keys.server_nonce_salt other finish id session small sent,
          unequal other
              (transcript_hash x server_finish_domain
                (s.client_hello ∷ s.server_hello ∷ s.encoded ∷ []))
              differs,
        )
        refl
