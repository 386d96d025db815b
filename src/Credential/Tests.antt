-- ===== src/Credential/Tests.antt =====
-- A credential of crates/protocol/src/lib.rs at concrete claims, with a signature that says nothing.
use xs_nexus.Base.{ℕ, ◌+◌, ◌*◌, ◌^◌, ◌<◌, ◌≡◌, refl, Bool, true, false, Option, some, List, arith}
use xs_nexus.Credential.{
  Signing, IsSigning, CredentialClaims, acceptable, node_id, controller_key_id, sign_credential,
  verify_credential,
}
use xs_nexus.Credential.RoundTrip.{IsClaims, granted, verify_credential-sign_credential}

abbrev pub toy : Signing
toy = record {
  verifying_key = λ key. key;
  valid_key = λ key. true;
  sign = λ key input. 0;
  verify_strict = λ key input signature. true;
  sha256 = λ input. 7 * 256 ^ 16;
}

pub toy-IsSigning : IsSigning toy
toy-IsSigning = record {
  verifies = λ key input. refl;
  key_is_valid = λ key. refl;
  signature_range = λ key input. omega arith;
  digest_range = λ input. omega arith;
}

abbrev pub claims : CredentialClaims
claims = record {
  network_id = 1;
  identity_public_key = 9;
  virtual_ipv4 = 10 * 2 ^ 24 + 1;
  serial = 1;
  not_before = 100;
  not_after = 1000;
  role_bitmap = 0;
  role_set_digest = 0;
}

pub claims-IsClaims : IsClaims claims
claims-IsClaims = record {
  network_id = omega arith;
  identity_public_key = omega arith;
  virtual_ipv4 = omega arith;
  serial = omega arith;
  not_before = omega arith;
  not_after = omega arith;
  role_bitmap = omega arith;
  role_set_digest = omega arith;
}

pub acceptable-claims :
    acceptable (granted toy toy-IsSigning claims 5) (node_id toy 9) (controller_key_id toy 5) 200
    ≡ true
unfolding acceptable node_id controller_key_id xs_nexus.Base.Bytes.from_be xs_nexus.Base.Bytes.be
acceptable-claims = refl

verify_credential-sign_credential_example :
    verify_credential toy (sign_credential toy claims 5) 5 200
    ≡ some (granted toy toy-IsSigning claims 5)
verify_credential-sign_credential_example =
    verify_credential-sign_credential toy toy-IsSigning claims 5 200 claims-IsClaims
      acceptable-claims
