-- ===== src/Session/Freshness.antt =====
-- The nonces under which `DataSender::seal` of crates/protocol/src/data.rs encrypts: the salt of the
-- epoch and the sequence number, under the key of the epoch.
use xs_nexus.Base.{
  ℕ, ◌+◌, ◌^◌, ◌<◌, ◌≡◌, ◌⊎◌, inl, inr, refl, sym, ap, ◌∙◌, Option, none, some, List, [], ◌∷◌, ◌++◌,
  ensure-passed, bind-passed, some-eq, arith, All, drop,
}
use xs_nexus.Base.Bytes.{be, from_be, from_be-be}
use xs_nexus.Packet.{PacketType, DataHeader, encode, parse}
use xs_nexus.Packet.Codec.{parse-encode}
use xs_nexus.Session.{
  Crypto, DataSender, EpochCipher, packet_nonce, seal, seal_header, rotate_epoch, derive_epoch,
}
use xs_nexus.Session.Delivery.{IsSender, seal-Sealed, seal_header-IsHeader}
use xs_nexus.Session.Nonces.{
  Step, send, rotate, AllInRange, Ascending, settle_seal, settle_rotate, sent_IsSender,
  next_epoch_range, rotated_IsSender, derived_epoch, do_step, sent_packets, sent_packets-Ascending,
}

-- A nonce is not among those that were used in its epoch.
abbrev pub IsUnused : ℕ → List ℕ → List (ℕ × List ℕ) → Type 0
IsUnused epoch nonce used = All (λ (u : ℕ × List ℕ). ¬ (u ≡ (epoch, nonce))) used

-- The used nonces of a sender: of earlier epochs, or of this one with an earlier number.
abbrev IsBefore : DataSender → ℕ × List ℕ → Type 0
IsBefore s u =
    (u.0 < s.cipher.epoch)
    ⊎ ((u.0 ≡ s.cipher.epoch)
        × (n : ℕ) × (n < s.next_sequence)
        × (u.1 ≡ packet_nonce s.cipher.nonce_salt n))

packet_nonce-injective :
    (salt m n : ℕ) → m < 2 ^ 64 → n < 2 ^ 64 → packet_nonce salt m ≡ packet_nonce salt n → m ≡ n
unfolding packet_nonce be
packet_nonce-injective salt m n hm hn e =
    let read : from_be (be 8 m) ≡ from_be (be 8 n) = ap (λ (l : List ℕ). from_be (drop 4 l)) e in
    sym (from_be-be 8 m hm) ∙ read ∙ from_be-be 8 n hn

epoch_of : {u : ℕ × List ℕ} {epoch : ℕ} {nonce : List ℕ} → u ≡ (epoch, nonce) → u.0 ≡ epoch
epoch_of same = ap (λ (v : ℕ × List ℕ). v.0) same

before-IsUnused :
    (s : DataSender) (used : List (ℕ × List ℕ))
    → s.next_sequence < 2 ^ 64
    → All (IsBefore s) used
    → IsUnused s.cipher.epoch (packet_nonce s.cipher.nonce_salt s.next_sequence) used
before-IsUnused s [] small h = tt
before-IsUnused s (u ∷ used) small (inl earlier, h) =
    ((λ same. absurd (omega (arith, earlier, epoch_of same))), before-IsUnused s used small h)
before-IsUnused s (u ∷ used) small (inr (_, n, less, made), h) = (
  (λ same.
      let equal =
        packet_nonce-injective s.cipher.nonce_salt n s.next_sequence (omega arith) small
          (sym made ∙ ap (λ (v : ℕ × List ℕ). v.1) same) in
      absurd (omega (arith, equal, less))),
  before-IsUnused s used small h,
)

sent-IsBefore :
    (s : DataSender) (used : List (ℕ × List ℕ))
    → All (IsBefore s) used
    → All (IsBefore (record s { next_sequence = s.next_sequence + 1 })) used
sent-IsBefore s [] h = tt
sent-IsBefore s (u ∷ used) (inl earlier, h) = (inl earlier, sent-IsBefore s used h)
sent-IsBefore s (u ∷ used) (inr (same, n, less, made), h) =
    (inr (same, n, omega arith, made), sent-IsBefore s used h)

rotated-IsBefore :
    (s : DataSender) (cipher : EpochCipher) (used : List (ℕ × List ℕ))
    → s.cipher.epoch < cipher.epoch
    → All (IsBefore s) used
    → All (IsBefore (record s { cipher = cipher; next_sequence = 0 })) used
rotated-IsBefore s cipher [] later h = tt
rotated-IsBefore s cipher (u ∷ used) later (inl earlier, h) =
    (inl (omega arith), rotated-IsBefore s cipher used later h)
rotated-IsBefore s cipher (u ∷ used) later (inr (same, _, _, _), h) =
    (inl (omega (arith, same, later)), rotated-IsBefore s cipher used later h)

module _ (c : Crypto) where
  -- A packet is a header and what the cipher made of a text under a key and a nonce.
  pub record IsEncrypted (key : ℕ) (nonce : List ℕ) (h : DataHeader) (packet : List ℕ)
      : Type 0 where
    pub text : List ℕ
    pub cipher : List ℕ
    pub tag : List ℕ
    pub encrypted : c.encrypt key nonce (encode h) text ≡ some (cipher, tag)
    pub sent : packet ≡ encode h ++ (cipher ++ tag)

  -- Each packet is encrypted under a nonce that no packet before it was encrypted under in the epoch
  -- that its header names.
  abbrev pub NoncesOnce : List (ℕ × List ℕ) → List (List ℕ) → Type 0
  NoncesOnce used [] = Unit {0}
  NoncesOnce used (packet ∷ packets) =
      (h : DataHeader) × (key : ℕ) × (nonce : List ℕ) × (parse packet ≡ some h)
      × IsEncrypted key nonce h packet
      × IsUnused h.key_epoch nonce used
      × NoncesOnce ((h.key_epoch, nonce) ∷ used) packets

  sealed_once :
      (s : DataSender) (t : PacketType) (flags path_id : ℕ) (text : List ℕ)
      (packets : DataSender → List (List ℕ)) (used : List (ℕ × List ℕ))
      → IsSender s
      → flags < 2 ^ 16
      → path_id < 2 ^ 32
      → All (IsBefore s) used
      → ((s' : DataSender) (used' : List (ℕ × List ℕ))
          → IsSender s'
          → All (IsBefore s') used'
          → NoncesOnce used' (packets s'))
      → (o : Option (DataSender × List ℕ)) → seal c s t flags path_id text ≡ o
      → NoncesOnce used ((settle_seal s o).1 ++ packets (settle_seal s o).0)
  sealed_once s t flags path_id text packets used v hf hp before rest none p = rest s used v before
  sealed_once s t flags path_id text packets used v hf hp before rest (some (s', packet)) p =
      let z = seal-Sealed c s t flags path_id text s' packet p in
      let h = seal_header s t flags path_id text in
      let nonce : List ℕ = packet_nonce s.cipher.nonce_salt s.next_sequence in
      let after = sent_IsSender s v z.room in
      let same = inr (refl, s.next_sequence, omega arith, refl) in
      (
        h,
        s.cipher.key,
        nonce,
        rw z.sent (
            parse-encode h (z.cipher ++ z.tag)
              (seal_header-IsHeader s t flags path_id text v hf hp z.small z.suits)),
        record {
          text = text;
          cipher = z.cipher;
          tag = z.tag;
          encrypted = z.encrypted;
          sent = z.sent;
        },
        before-IsUnused s used v.next_sequence before,
        rw z.next
            (rest _ ((s.cipher.epoch, nonce) ∷ used) after (same, sent-IsBefore s used before)),
      )

  rotated_once :
      (s : DataSender) (next_epoch : ℕ) (packets : DataSender → List (List ℕ))
      (used : List (ℕ × List ℕ))
      → IsSender s
      → All (IsBefore s) used
      → ((s' : DataSender) (used' : List (ℕ × List ℕ))
          → IsSender s'
          → All (IsBefore s') used'
          → NoncesOnce used' (packets s'))
      → (o : Option DataSender) → rotate_epoch c s next_epoch ≡ o
      → NoncesOnce used (packets (settle_rotate s o))
  unfolding rotate_epoch
  rotated_once s next_epoch packets used v before rest none p = rest s used v before
  rotated_once s next_epoch packets used v before rest (some s') p =
      let (next, p) = ensure-passed _ _ p in
      let (cipher, derived, p) = bind-passed (derive_epoch c s.direction_secret next_epoch) _ p in
      let (e, small) = next_epoch_range s.cipher.epoch next_epoch next in
      let epoch = derived_epoch c s.direction_secret next_epoch cipher derived in
      let after = rotated_IsSender s cipher v (omega arith) in
      let same : record s { cipher = cipher; next_sequence = 0 } ≡ s' = some-eq p in
      rw (← same) (rest _ used after (rotated-IsBefore s cipher used (omega arith) before))

  nonces_once :
      (s : DataSender) (steps : List Step) (used : List (ℕ × List ℕ))
      → IsSender s
      → AllInRange steps
      → All (IsBefore s) used
      → NoncesOnce used (sent_packets c s steps)
  unfolding sent_packets do_step
  nonces_once s [] used v small before = tt
  nonces_once s (send t flags path_id text ∷ steps) used v small before =
      sealed_once s t flags path_id text (λ s'. sent_packets c s' steps) used v small.0.0 small.0.1
        before (λ s' used' v' before'. nonces_once s' steps used' v' small.1 before')
        (seal c s t flags path_id text) refl
  nonces_once s (rotate next_epoch ∷ steps) used v small before =
      rotated_once s next_epoch (λ s'. sent_packets c s' steps) used v before
        (λ s' used' v' before'. nonces_once s' steps used' v' small.1 before')
        (rotate_epoch c s next_epoch) refl

  -- The packets that a sender sends through any series of steps have ascending numbers in their
  -- headers, the epoch first and then the sequence number, and each is encrypted under a nonce that
  -- no packet before it used in the same epoch. The sender's fields and the arguments fit their
  -- widths.
  pub sent_packets-NoncesOnce :
      (s : DataSender) (steps : List Step)
      → IsSender s
      → AllInRange steps
      → Ascending s.cipher.epoch s.next_sequence (sent_packets c s steps)
        × NoncesOnce [] (sent_packets c s steps)
  sent_packets-NoncesOnce s steps v small =
      (sent_packets-Ascending c s steps v small, nonces_once s steps [] v small tt)
