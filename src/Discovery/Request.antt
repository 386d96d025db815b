-- ===== src/Discovery/Request.antt =====
-- The controller takes the discovery request that a node signs (crates/protocol/src/discovery.rs).
use xs_nexus.Base.{
  ℕ, ◌^◌, ◌<◌, ◌≡◌, refl, sym, true, some, List, ◌++◌, ==_self, nonzero, take, drop,
}
use mathlib.Core.Path.{subst}
use xs_nexus.Base.Bytes.{be, from_be, from_be-be, slice, bytes_eq, length-be}
use xs_nexus.Credential.{
  Signing, IsSigning, CredentialClaims, acceptable, sign_credential, node_id, controller_key_id,
  credential_body,
}
use xs_nexus.Credential.RoundTrip.{
  node_id-range, IsClaims, granted, verify_credential-sign_credential,
}
use xs_nexus.Discovery.{
  DiscoveryRequest, VerifiedDiscoveryRequest, encode_header, valid_header, is_recent,
  acceptable_request, verify_signed, sign, request_body, signed_request, new_request,
  verify_discovery_request, request_domain,
}

module _ (g : Signing) (laws : IsSigning g) where
  pub verify_signed-sign :
      (domain body : List ℕ) (key : ℕ)
      → verify_signed g domain body (sign g domain body key) (g.verifying_key key) ≡ some tt
  unfolding verify_signed
  verify_signed-sign domain body key =
      rw
        (
          length-be 64 (g.sign key (domain ++ body)),
          from_be-be 64 _ (laws.signature_range key (domain ++ body)),
        )
        (rw (laws.verifies key (domain ++ body)) refl)

  abbrev pub node_request : CredentialClaims → ℕ → ℕ → ℕ → ℕ → List ℕ
  node_request claims request_id client_time controller_key identity_key =
      signed_request g claims.network_id (node_id g claims.identity_public_key) request_id
        client_time (sign_credential g claims controller_key) identity_key

  pub request_framing :
      (claims : CredentialClaims) (request_id client_time controller_key identity_key : ℕ)
      → let encoded = node_request claims request_id client_time controller_key identity_key in
        let body =
          request_body g claims.network_id
            (node_id g claims.identity_public_key)
            request_id
            client_time
            (sign_credential g claims controller_key) in
        (valid_header encoded 1 334 ≡ true)
        × (slice 12 28 encoded ≡ be 16 claims.network_id)
        × (slice 28 44 encoded ≡ be 16 (node_id g claims.identity_public_key))
        × (slice 44 60 encoded ≡ be 16 request_id)
        × (slice 60 68 encoded ≡ be 8 client_time)
        × (from_be (slice 68 70 encoded) ≡ 200)
        × (slice 70 270 encoded ≡ sign_credential g claims controller_key)
        × (take 270 encoded ≡ body)
        × (drop 270 encoded ≡ sign g request_domain body identity_key)
  unfolding signed_request request_body encode_header be valid_header bytes_eq from_be
      sign_credential credential_body
  request_framing claims request_id client_time controller_key identity_key =
      (refl, refl, refl, refl, refl, refl, refl, refl, refl)

  -- The request that a node makes with a credential of the controller and its own key.
  abbrev pub request_of : CredentialClaims → ℕ → ℕ → ℕ → ℕ → DiscoveryRequest
  request_of claims request_id client_time controller_key identity_key = record {
    encoded = node_request claims request_id client_time controller_key identity_key;
    network_id = claims.network_id;
    node_id = node_id g claims.identity_public_key;
    request_id = request_id;
  }

  abbrev pub verified_of : CredentialClaims → ℕ → ℕ → ℕ → ℕ → VerifiedDiscoveryRequest
  verified_of claims request_id client_time controller_key identity_key = record {
    network_id = claims.network_id;
    node_id = node_id g claims.identity_public_key;
    identity_public_key = claims.identity_public_key;
    credential_serial = claims.serial;
    request_id = request_id;
    request_hash =
        g.sha256 (node_request claims request_id client_time controller_key identity_key);
  }

  -- What a node needs to ask: its credential is over its own key and acceptable, its values fit and are
  -- not 0, and the clocks are near.
  pub record IsAsking (claims : CredentialClaims)
      (request_id client_time controller_key identity_key now : ℕ) : Type 0 where
    pub claims_fit : IsClaims claims
    pub own : claims.identity_public_key ≡ g.verifying_key identity_key
    pub some_network : 0 < claims.network_id
    pub some_node : 0 < node_id g claims.identity_public_key
    pub some_request : 0 < request_id
    pub request_fits : request_id < 2 ^ 128
    pub some_time : 0 < client_time
    pub time_fits : client_time < 2 ^ 64
    pub recent : is_recent client_time now ≡ true
    pub accepted :
        acceptable
          (granted g laws claims controller_key)
          (node_id g claims.identity_public_key)
          (controller_key_id g (g.verifying_key controller_key))
          now
        ≡ true

  pub new_request_asking :
      (claims : CredentialClaims) (request_id client_time controller_key identity_key now : ℕ)
      → IsAsking claims request_id client_time controller_key identity_key now
      → new_request g claims.network_id
          (node_id g claims.identity_public_key)
          request_id
          client_time
          (sign_credential g claims controller_key)
          identity_key
        ≡ some (request_of claims request_id client_time controller_key identity_key)
  unfolding new_request
  new_request_asking claims request_id client_time controller_key identity_key now a =
      rw
        (
          nonzero claims.network_id a.some_network,
          nonzero (node_id g claims.identity_public_key) a.some_node,
          nonzero request_id a.some_request,
          nonzero client_time a.some_time,
        )
        (rw (← a.own, ==_self (node_id g claims.identity_public_key)) refl)

  request_signed :
      (claims : CredentialClaims) (domain body : List ℕ) (identity_key : ℕ)
      → claims.identity_public_key ≡ g.verifying_key identity_key
      → (g.valid_key claims.identity_public_key ≡ true)
        × (verify_signed g domain body (sign g domain body identity_key) claims.identity_public_key
            ≡ some tt)
  request_signed claims domain body identity_key own =
      subst
        (λ key.
          (g.valid_key key ≡ true)
          × (verify_signed g domain body (sign g domain body identity_key) key ≡ some tt))
        (sym own) (laws.key_is_valid identity_key, verify_signed-sign domain body identity_key)

  acceptable_asking :
      (claims : CredentialClaims) (request_id client_time controller_key identity_key now : ℕ)
      → IsAsking claims request_id client_time controller_key identity_key now
      → acceptable_request
          (node_request claims request_id client_time controller_key identity_key)
          now
        ≡ true
  unfolding acceptable_request
  acceptable_asking claims request_id client_time controller_key identity_key now a =
      let p = request_framing claims request_id client_time controller_key identity_key in
      rw
        (
          p.1,
          p.2,
          p.3,
          p.4,
          p.5,
          from_be-be 16 claims.network_id a.claims_fit.network_id,
          from_be-be 16 _ (node_id-range g laws claims.identity_public_key),
          from_be-be 16 request_id a.request_fits,
          from_be-be 8 client_time a.time_fits,
        )
        (rw
          (
            nonzero claims.network_id a.some_network,
            nonzero (node_id g claims.identity_public_key) a.some_node,
            nonzero request_id a.some_request,
            nonzero client_time a.some_time,
            a.recent,
          )
          refl)

  pub verify_asking :
      (claims : CredentialClaims) (request_id client_time controller_key identity_key now : ℕ)
      → IsAsking claims request_id client_time controller_key identity_key now
      → verify_discovery_request g
          (node_request claims request_id client_time controller_key identity_key)
          (g.verifying_key controller_key)
          now
        ≡ some (verified_of claims request_id client_time controller_key identity_key)
  unfolding verify_discovery_request
  verify_asking claims request_id client_time controller_key identity_key now a =
      let p = request_framing claims request_id client_time controller_key identity_key in
      let body =
        request_body g claims.network_id (node_id g claims.identity_public_key) request_id
          client_time (sign_credential g claims controller_key) in
      let (valid, signed) = request_signed claims request_domain body identity_key a.own in
      rw
        (
          p.0,
          acceptable_asking claims request_id client_time controller_key identity_key now a,
          p.6,
          verify_credential-sign_credential g laws claims controller_key now a.claims_fit
              a.accepted,
          p.7,
          p.8,
          p.1,
          p.2,
          p.3,
          from_be-be 16 claims.network_id a.claims_fit.network_id,
          from_be-be 16 _ (node_id-range g laws claims.identity_public_key),
          from_be-be 16 request_id a.request_fits,
        )
        (rw
          (==_self claims.network_id, ==_self (node_id g claims.identity_public_key), valid, signed)
          refl)
