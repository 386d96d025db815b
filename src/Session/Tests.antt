-- ===== src/Session/Tests.antt =====
-- The theorems on XSP/1 sessions (crates/protocol/src/data.rs) at concrete sessions, with a cipher
-- that leaves the text as it is and a tag of zeros.
use xs_nexus.Base.{
  ℕ, suc, ◌^◌, ◌<◌, ◌≡◌, ◌↔◌, refl, sym, ap, false, Option, some, none, List, [], ◌∷◌, ◌++◌, length,
  replicate, arith, some-eq,
}
use xs_nexus.Base.Bytes.{be, pow256_pos}
use xs_nexus.Replay
use xs_nexus.Packet.{keepalive, encode, valid_flags, validate_payload}
use xs_nexus.Session.{
  Crypto, IsCrypto, EpochCipher, DataSender, DataReceiver, seal, seal_header, opened, new_receiver,
  derive_epoch, open_with_routed_addresses, validate_inner, key_update_payload,
  verify_key_update_payload,
}
use xs_nexus.Session.Delivery.{IsSender, IsPaired, open-seal}
use xs_nexus.Session.Once.{
  receive, install, retire, NoPairTwice, opened_pairs, opened_pairs-NoPairTwice,
}
use xs_nexus.Session.Nonces.{
  Step, send, rotate, Ascending, sent_packets, verify_key_update_payload_iff,
}
use xs_nexus.Session.Freshness.{NoncesOnce, sent_packets-NoncesOnce}

abbrev pub plain : Crypto
plain = record {
  expand = λ n secret info. some 0;
  encrypt = λ key nonce aad text. some (text, replicate 16 0);
  decrypt = λ key nonce aad cipher tag. some cipher;
  sha256 = λ input. 0;
}

power_pos : (n : ℕ) → 0 < 256 ^ n
power_pos n = pow256_pos n

same_pair :
    (text cipher tag : List ℕ)
    → ◌≡◌ {A = Option (List ℕ × List ℕ)} (some (text, replicate 16 0)) (some (cipher, tag))
    → (text ≡ cipher) × (replicate 16 0 ≡ tag)
same_pair text cipher tag h =
    let e = some-eq h in (ap (λ (x : List ℕ × List ℕ). x.0) e, ap (λ (x : List ℕ × List ℕ). x.1) e)

pub plain-IsCrypto : IsCrypto plain
plain-IsCrypto = record {
  expand_range = λ n secret info v h. rw (← some-eq h) (power_pos n);
  cipher_length =
      λ key nonce aad text cipher tag h. ap length (sym (same_pair text cipher tag h).0);
  tag_length = λ key nonce aad text cipher tag h. ap length (sym (same_pair text cipher tag h).1);
  decrypts = λ key nonce aad text cipher tag h. ap some (sym (same_pair text cipher tag h).0);
  digest_range = λ input. omega arith;
}

abbrev zero_epoch : EpochCipher
zero_epoch = record { epoch = 0; key = 0; nonce_salt = 0; replay = Replay.new }

abbrev sender : ℕ → DataSender
sender next_sequence = record {
  direction_secret = 1;
  cipher = zero_epoch;
  next_sequence = next_sequence;
  network_id = 1;
  source_node_id = 2;
  destination_node_id = 3;
  session_id = 4;
  source_virtual_ip = 5;
  destination_virtual_ip = 6;
}

abbrev receiver : DataReceiver
receiver = record {
  direction_secret = 1;
  current = zero_epoch;
  previous = none;
  network_id = 1;
  source_node_id = 2;
  destination_node_id = 3;
  session_id = 4;
  source_virtual_ip = 5;
  destination_virtual_ip = 6;
}

sender-IsSender : IsSender (sender 0)
sender-IsSender = record {
  epoch = omega arith;
  next_sequence = omega arith;
  network_id = omega arith;
  source_node_id = omega arith;
  destination_node_id = omega arith;
  session_id = omega arith;
}

paired : IsPaired (sender 0) receiver
paired = record {
  epoch = refl;
  key = refl;
  nonce_salt = refl;
  network_id = refl;
  source_node_id = refl;
  destination_node_id = refl;
  session_id = refl;
  source_virtual_ip = refl;
  destination_virtual_ip = refl;
}

abbrev sealed : List ℕ
sealed = encode (seal_header (sender 0) keepalive 0 9 []) ++ ([] ++ replicate 16 0)

sealed_keepalive : seal plain (sender 0) keepalive 0 9 [] ≡ some (sender 1, sealed)
unfolding seal valid_flags validate_payload encode be
sealed_keepalive = refl

fresh : Replay.precheck Replay.new 0 ≡ some tt
unfolding Replay.precheck Replay.new
fresh = refl

inner : validate_inner receiver false keepalive [] ≡ some tt
unfolding validate_inner
inner = refl

open-seal_example :
    (r : DataReceiver) × (open_with_routed_addresses plain receiver sealed false
      ≡ some (r, opened (seal_header (sender 0) keepalive 0 9 []) []))
    × IsPaired (sender 1) r
open-seal_example =
    open-seal plain plain-IsCrypto (sender 0) receiver keepalive 0 9 [] (sender 1) sealed false
      sender-IsSender paired (omega arith) (omega arith) sealed_keepalive fresh inner

made : new_receiver plain 1 1 2 3 4 5 6 ≡ some receiver
unfolding new_receiver derive_epoch
made = refl

opened_pairs-NoPairTwice_example : NoPairTwice (
    opened_pairs plain receiver []
      (receive sealed false ∷ install 1 ∷ receive sealed false ∷ retire ∷ []))
opened_pairs-NoPairTwice_example =
    opened_pairs-NoPairTwice plain 1 1 2 3 4 5 6 receiver
      (receive sealed false ∷ install 1 ∷ receive sealed false ∷ retire ∷ []) made

abbrev busy : List Step
busy = send keepalive 0 9 [] ∷ send keepalive 1 9 [] ∷ rotate 1 ∷ send keepalive 0 9 [] ∷ []

sent_packets-NoncesOnce_example :
    Ascending 0 0 (sent_packets plain (sender 0) busy)
    × NoncesOnce plain [] (sent_packets plain (sender 0) busy)
sent_packets-NoncesOnce_example = sent_packets-NoncesOnce plain (sender 0) busy sender-IsSender (
  (omega arith, omega arith),
  ((omega arith, omega arith), (tt, ((omega arith, omega arith), tt))),
)

verify_key_update_payload_iff_example :
    (verify_key_update_payload plain (be 4 8 ++ be 32 0) 4 7 ≡ some 8)
    ↔ (8 ≡ suc 7) × (key_update_payload plain 4 7 8 ≡ some (be 4 8 ++ be 32 0))
verify_key_update_payload_iff_example =
    verify_key_update_payload_iff plain (be 4 8 ++ be 32 0) 4 7 8
