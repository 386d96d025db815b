-- ===== src/Credential/RoundTrip.antt =====
-- A credential that the controller signs is one that a node accepts: `sign_credential` and
-- `verify_credential` of crates/protocol/src/lib.rs.
use xs_nexus.Base.{
  ℕ, ◌^◌, ◌<◌, ◌≡◌, refl, true, some, [], ◌∷◌, ◌++◌, length, get_or, take, drop, arith,
}
use xs_nexus.Base.Bytes.{
  be, from_be, from_be-be, from_be-slice-lt, length-be, slice, bytes_eq, be-IsByte,
}
use xs_nexus.Credential.{
  Signing, IsSigning, CredentialClaims, VerifiedCredential, acceptable, decoded, node_id,
  controller_key_id, credential_body, sign_credential, verify_credential, credential_domain,
  node_id_domain,
}

-- The claims fit their widths.
pub record IsClaims (claims : CredentialClaims) : Type 0 where
  pub network_id : claims.network_id < 2 ^ 128
  pub identity_public_key : claims.identity_public_key < 256 ^ 32
  pub virtual_ipv4 : claims.virtual_ipv4 < 2 ^ 32
  pub serial : claims.serial < 2 ^ 64
  pub not_before : claims.not_before < 2 ^ 64
  pub not_after : claims.not_after < 2 ^ 64
  pub role_bitmap : claims.role_bitmap < 2 ^ 32
  pub role_set_digest : claims.role_set_digest < 256 ^ 32

module _ (g : Signing) (laws : IsSigning g) where
  pub node_id-range : (key : ℕ) → node_id g key < 2 ^ 128
  unfolding node_id
  node_id-range key =
      let bytes = be 32 (g.sha256 (node_id_domain ++ be 32 key)) in
      from_be-slice-lt 0 16 bytes (be-IsByte 32 _)
        (omega (arith, length-be 32 (g.sha256 (node_id_domain ++ be 32 key))))

  controller_key_id-range : (key : ℕ) → controller_key_id g key < 2 ^ 32
  unfolding controller_key_id
  controller_key_id-range key =
      let bytes = be 32 (g.sha256 (be 32 key)) in
      from_be-slice-lt 0 4 bytes (be-IsByte 32 _)
        (omega (arith, length-be 32 (g.sha256 (be 32 key))))

  abbrev pub granted : CredentialClaims → ℕ → VerifiedCredential
  granted claims key = record {
    network_id = claims.network_id;
    node_id = node_id g claims.identity_public_key;
    identity_public_key = claims.identity_public_key;
    virtual_ipv4 = claims.virtual_ipv4;
    serial = claims.serial;
    not_before = claims.not_before;
    not_after = claims.not_after;
    role_bitmap = claims.role_bitmap;
    role_set_digest = claims.role_set_digest;
    controller_key_id = controller_key_id g (g.verifying_key key);
  }

  pub decoded-sign :
      (claims : CredentialClaims) (key : ℕ)
      → IsClaims claims
      → decoded (sign_credential g claims key) ≡ granted claims key
  unfolding decoded sign_credential credential_body be
  decoded-sign claims key v = λ i. record {
    network_id = from_be-be 16 claims.network_id v.network_id i;
    node_id = from_be-be 16 _ (node_id-range claims.identity_public_key) i;
    identity_public_key = from_be-be 32 claims.identity_public_key v.identity_public_key i;
    virtual_ipv4 = from_be-be 4 claims.virtual_ipv4 v.virtual_ipv4 i;
    serial = from_be-be 8 claims.serial v.serial i;
    not_before = from_be-be 8 claims.not_before v.not_before i;
    not_after = from_be-be 8 claims.not_after v.not_after i;
    role_bitmap = from_be-be 4 claims.role_bitmap v.role_bitmap i;
    role_set_digest = from_be-be 32 claims.role_set_digest v.role_set_digest i;
    controller_key_id = from_be-be 4 _ (controller_key_id-range (g.verifying_key key)) i;
  }

  pub credential_framing :
      (claims : CredentialClaims) (key : ℕ)
      → let bytes = sign_credential g claims key in
        (length bytes ≡ 200)
        × (get_or bytes 0 0 ≡ 1)
        × (bytes_eq (slice 1 4 bytes) (0 ∷ 0 ∷ 0 ∷ []) ≡ true)
        × (take 136 bytes ≡ credential_body g claims (g.verifying_key key))
        × (from_be (drop 136 bytes)
            ≡ g.sign key (credential_domain ++ credential_body g claims (g.verifying_key key)))
  unfolding sign_credential credential_body be bytes_eq
  credential_framing claims key =
      (refl, refl, refl, refl, from_be-be 64 _ (laws.signature_range _ _))

  -- A credential that is signed over claims which fit their widths is accepted with its claims, at
  -- every time and under every key for which `acceptable` holds of them.
  pub verify_credential-sign_credential :
      (claims : CredentialClaims) (key now : ℕ)
      → IsClaims claims
      → acceptable
          (granted claims key)
          (node_id g claims.identity_public_key)
          (controller_key_id g (g.verifying_key key))
          now
        ≡ true
      → verify_credential g (sign_credential g claims key) (g.verifying_key key) now
        ≡ some (granted claims key)
  unfolding verify_credential
  verify_credential-sign_credential claims key now v ok =
      let (long, one, zeros, body, signature) = credential_framing claims key in
      rw (long, one, zeros, decoded-sign claims key v, ok, body, signature)
        (rw (laws.verifies key _) refl)
