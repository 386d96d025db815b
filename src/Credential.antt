-- ===== src/Credential.antt =====
-- Signed node credentials: `node_id`, `controller_key_id`, `sign_credential` and
-- `verify_credential` of crates/protocol/src/lib.rs.
pub mod RoundTrip
pub mod Tests
use xs_nexus.Base.{
  ℕ, ◌+◌, ◌-◌, ◌/◌, ◌^◌, ◌<◌, ◌≡◌, Bool, true, false, not, ◌&&◌, ◌||◌, Option, none, some, List, [],
  ◌∷◌, ◌++◌, ltb, leb, ◌==◌, ◌>>=◌, ◌>>◌, ensure, length, get_or, take, drop,
}
use xs_nexus.Base.Bytes.{be, from_be, slice, bytes_eq}
use xs_nexus.Base.Text.{codes}

-- The cryptographic libraries that the code calls: Ed25519, a key by its 32 bytes and a signature by
-- its 64, and SHA-256.
pub record Signing : Type 0 where
  pub verifying_key : ℕ → ℕ
  pub valid_key : ℕ → Bool
  pub sign : ℕ → List ℕ → ℕ
  pub verify_strict : ℕ → List ℕ → ℕ → Bool
  pub sha256 : List ℕ → ℕ

-- Their documented behaviour.
pub record IsSigning (g : Signing) : Type 0 where
  pub verifies :
      (key : ℕ) (input : List ℕ)
      → g.verify_strict (g.verifying_key key) input (g.sign key input) ≡ true
  pub key_is_valid : (key : ℕ) → g.valid_key (g.verifying_key key) ≡ true
  pub signature_range : (key : ℕ) (input : List ℕ) → g.sign key input < 256 ^ 64
  pub digest_range : (input : List ℕ) → g.sha256 input < 256 ^ 32

abbrev pub credential_length : ℕ
credential_length = 200

abbrev pub credential_signed_length : ℕ
credential_signed_length = 136

abbrev pub credential_domain : List ℕ
credential_domain = codes "XSP/1 credential v1"

abbrev pub node_id_domain : List ℕ
node_id_domain = codes "XSP/1 node id v1"

pub record CredentialClaims : Type 0 where
  pub network_id : ℕ
  pub identity_public_key : ℕ
  pub virtual_ipv4 : ℕ
  pub serial : ℕ
  pub not_before : ℕ
  pub not_after : ℕ
  pub role_bitmap : ℕ
  pub role_set_digest : ℕ

pub record VerifiedCredential : Type 0 where
  pub network_id : ℕ
  pub node_id : ℕ
  pub identity_public_key : ℕ
  pub virtual_ipv4 : ℕ
  pub serial : ℕ
  pub not_before : ℕ
  pub not_after : ℕ
  pub role_bitmap : ℕ
  pub role_set_digest : ℕ
  pub controller_key_id : ℕ

-- `is_unspecified`, `is_multicast` and `BROADCAST` of `Ipv4Addr`.
unfoldable pub is_reserved : ℕ → Bool
is_reserved address =
    address == 0
    || leb 224 (address / 2 ^ 24) && leb (address / 2 ^ 24) 239
    || address == 2 ^ 32 - 1

-- `verify_credential`'s guards on the decoded fields.
unfoldable pub acceptable : VerifiedCredential → ℕ → ℕ → ℕ → Bool
unfolding is_reserved
acceptable v derived_id key_id now =
    not (v.network_id == 0)
    && v.node_id == derived_id
    && not (v.serial == 0)
    && leb v.not_before now
    && ltb now v.not_after
    && ltb v.not_before v.not_after
    && not (is_reserved v.virtual_ipv4)
    && v.controller_key_id == key_id

-- The record that `verify_credential` reads from the slices at fixed places.
unfoldable pub decoded : List ℕ → VerifiedCredential
decoded bytes = record {
  network_id = from_be (slice 4 20 bytes);
  node_id = from_be (slice 20 36 bytes);
  identity_public_key = from_be (slice 36 68 bytes);
  virtual_ipv4 = from_be (slice 68 72 bytes);
  serial = from_be (slice 72 80 bytes);
  not_before = from_be (slice 80 88 bytes);
  not_after = from_be (slice 88 96 bytes);
  role_bitmap = from_be (slice 96 100 bytes);
  role_set_digest = from_be (slice 100 132 bytes);
  controller_key_id = from_be (slice 132 136 bytes);
}

module _ (g : Signing) where
  -- The first 16 bytes of the digest.
  unfoldable pub node_id : ℕ → ℕ
  node_id identity_public_key =
      from_be (slice 0 16 (be 32 (g.sha256 (node_id_domain ++ be 32 identity_public_key))))

  unfoldable pub controller_key_id : ℕ → ℕ
  controller_key_id verifying_key = from_be (slice 0 4 (be 32 (g.sha256 (be 32 verifying_key))))

  -- The signed 136 bytes.
  unfoldable pub credential_body : CredentialClaims → ℕ → List ℕ
  unfolding node_id controller_key_id
  credential_body claims verifying_key =
      1
      ∷ 0
      ∷ 0
      ∷ 0
      ∷ (be 16 claims.network_id
          ++ (be 16 (node_id claims.identity_public_key)
              ++ (be 32 claims.identity_public_key
                  ++ (be 4 claims.virtual_ipv4
                      ++ (be 8 claims.serial
                          ++ (be 8 claims.not_before
                              ++ (be 8 claims.not_after
                                  ++ (be 4 claims.role_bitmap
                                      ++ (be 32 claims.role_set_digest
                                          ++ be 4 (controller_key_id verifying_key))))))))))

  unfoldable pub sign_credential : CredentialClaims → ℕ → List ℕ
  unfolding credential_body
  sign_credential claims signing_key =
      let body = credential_body claims (g.verifying_key signing_key) in
      body ++ be 64 (g.sign signing_key (credential_domain ++ body))

  unfoldable pub verify_credential : List ℕ → ℕ → ℕ → Option VerifiedCredential
  verify_credential bytes verifying_key now = do
    ensure (length bytes == credential_length)
    ensure (get_or bytes 0 0 == 1 && bytes_eq (slice 1 4 bytes) (0 ∷ 0 ∷ 0 ∷ []))
    ensure (
        acceptable (decoded bytes) (node_id (decoded bytes).identity_public_key)
          (controller_key_id verifying_key) now)
    ensure (
        g.verify_strict verifying_key (credential_domain ++ take credential_signed_length bytes)
          (from_be (drop credential_signed_length bytes)))
    some (decoded bytes)
