-- ===== src/Session/Nonces.antt =====
-- The packet numbers that `DataSender` of crates/protocol/src/data.rs uses: a nonce is made of the
-- epoch's salt and the sequence number.
use xs_nexus.Base.{
  ℕ, suc, ◌+◌, ◌^◌, ◌<◌, ◌≤◌, ◌≡◌, ◌⊎◌, inl, inr, ◌↔◌, refl, sym, ◌∙◌, true, false, Option, none,
  some, List, [], ◌∷◌, ◌++◌, ◌==◌, ensure-passed, bind-passed, some-eq, arith, length,
}
use xs_nexus.Base.Bytes.{be, from_be, from_be-be, bytes_eq, bytes_eq_self, bytes_eq→eq, slice}
use xs_nexus.Packet.{PacketType, DataHeader, parse}
use xs_nexus.Packet.Codec.{parse-encode}
use xs_nexus.Session.{
  Crypto, DataSender, EpochCipher, u64_max, seal, seal_header, rotate_epoch, derive_epoch,
  is_next_epoch, key_update_payload, verify_key_update_payload,
}
use xs_nexus.Session.Delivery.{IsSender, seal-Sealed, seal_header-IsHeader}

-- Everything that is done to a sender.
pub data Step : Type 0 where
  send : PacketType → ℕ → ℕ → List ℕ → Step
  rotate : ℕ → Step

-- The arguments of a step fit their widths.
abbrev pub InRange : Step → Type 0
InRange (send packet_type flags path_id text) = (flags < 2 ^ 16) × (path_id < 2 ^ 32)
InRange (rotate next_epoch) = Unit {0}

abbrev pub AllInRange : List Step → Type 0
AllInRange [] = Unit {0}
AllInRange (a ∷ steps) = InRange a × AllInRange steps

abbrev pub NotBefore : ℕ → ℕ → ℕ → ℕ → Type 0
NotBefore epoch sequence epoch' sequence' =
    (epoch < epoch') ⊎ (epoch ≡ epoch') × (sequence ≤ sequence')

-- Each packet has a header whose epoch and sequence number come after those of the packet before.
abbrev pub Ascending : ℕ → ℕ → List (List ℕ) → Type 0
Ascending epoch sequence [] = Unit {0}
Ascending epoch sequence (packet ∷ packets) =
    (h : DataHeader) × (parse packet ≡ some h)
    × NotBefore epoch sequence h.key_epoch h.sequence
    × Ascending h.key_epoch (suc h.sequence) packets

abbrev pub settle_seal : DataSender → Option (DataSender × List ℕ) → DataSender × List (List ℕ)
settle_seal s none = (s, [])
settle_seal s (some (s', packet)) = (s', packet ∷ [])

abbrev pub settle_rotate : DataSender → Option DataSender → DataSender
settle_rotate s none = s
settle_rotate s (some s') = s'

sooner :
    (e n e' n' : ℕ) (packets : List (List ℕ))
    → NotBefore e n e' n'
    → Ascending e' n' packets
    → Ascending e n packets
sooner e n e' n' [] le h = tt
sooner e n e' n' (packet ∷ packets) le (h, parsed, later, rest) =
    (h, parsed, omega (arith, le, later), rest)

pub sent_IsSender :
    (s : DataSender)
    → IsSender s
    → (s.next_sequence == u64_max) ≡ false
    → IsSender (record s { next_sequence = s.next_sequence + 1 })
sent_IsSender s v room = record {
  epoch = v.epoch;
  next_sequence = let h = v.next_sequence in ground arith;
  network_id = v.network_id;
  source_node_id = v.source_node_id;
  destination_node_id = v.destination_node_id;
  session_id = v.session_id;
}

pub next_epoch_range :
    (epoch next : ℕ) → is_next_epoch epoch next ≡ true → (next ≡ suc epoch) × (next < 2 ^ 32)
unfolding is_next_epoch
next_epoch_range epoch next h = ground arith

pub rotated_IsSender :
    (s : DataSender) (cipher : EpochCipher)
    → IsSender s
    → cipher.epoch < 2 ^ 32
    → IsSender (record s { cipher = cipher; next_sequence = 0 })
rotated_IsSender s cipher v small = record {
  epoch = small;
  next_sequence = omega arith;
  network_id = v.network_id;
  source_node_id = v.source_node_id;
  destination_node_id = v.destination_node_id;
  session_id = v.session_id;
}

module _ (c : Crypto) where
  unfoldable pub do_step : DataSender → Step → DataSender × List (List ℕ)
  do_step s (send packet_type flags path_id text) =
      settle_seal s (seal c s packet_type flags path_id text)
  do_step s (rotate next_epoch) = (settle_rotate s (rotate_epoch c s next_epoch), [])

  -- The packets that a series of steps sends, in order.
  unfoldable pub sent_packets : DataSender → List Step → List (List ℕ)
  unfolding do_step
  sent_packets s [] = []
  sent_packets s (a ∷ steps) = (do_step s a).1 ++ sent_packets (do_step s a).0 steps

  sealed_ascends :
      (s : DataSender) (t : PacketType) (flags path_id : ℕ) (text : List ℕ)
      (packets : DataSender → List (List ℕ))
      → IsSender s
      → flags < 2 ^ 16
      → path_id < 2 ^ 32
      → ((s' : DataSender) → IsSender s' → Ascending s'.cipher.epoch s'.next_sequence (packets s'))
      → (o : Option (DataSender × List ℕ)) → seal c s t flags path_id text ≡ o
      → Ascending s.cipher.epoch s.next_sequence
          ((settle_seal s o).1 ++ packets (settle_seal s o).0)
  sealed_ascends s t flags path_id text packets v hf hp rest none p = rest s v
  sealed_ascends s t flags path_id text packets v hf hp rest (some (s', packet)) p =
      let z = seal-Sealed c s t flags path_id text s' packet p in
      let after = sent_IsSender s v z.room in
      (
        seal_header s t flags path_id text,
        rw z.sent (
            parse-encode (seal_header s t flags path_id text) (z.cipher ++ z.tag)
              (seal_header-IsHeader s t flags path_id text v hf hp z.small z.suits)),
        inr (refl, omega arith),
        rw z.next (sooner _ _ _ _ _ (inr (refl, omega arith)) (rest _ after)),
      )

  pub derived_epoch :
      (secret epoch : ℕ) (cipher : EpochCipher)
      → derive_epoch c secret epoch ≡ some cipher
      → cipher.epoch ≡ epoch
  unfolding derive_epoch
  derived_epoch secret epoch cipher p = ground arith

  rotated_ascends :
      (s : DataSender) (next_epoch : ℕ) (packets : DataSender → List (List ℕ))
      → IsSender s
      → ((s' : DataSender) → IsSender s' → Ascending s'.cipher.epoch s'.next_sequence (packets s'))
      → (o : Option DataSender) → rotate_epoch c s next_epoch ≡ o
      → Ascending s.cipher.epoch s.next_sequence (packets (settle_rotate s o))
  unfolding rotate_epoch
  rotated_ascends s next_epoch packets v rest none p = rest s v
  rotated_ascends s next_epoch packets v rest (some s') p =
      let (next, p) = ensure-passed _ _ p in
      let (cipher, derived, p) = bind-passed (derive_epoch c s.direction_secret next_epoch) _ p in
      let (e, small) = next_epoch_range s.cipher.epoch next_epoch next in
      let epoch = derived_epoch s.direction_secret next_epoch cipher derived in
      let after = rotated_IsSender s cipher v (omega arith) in
      let same : record s { cipher = cipher; next_sequence = 0 } ≡ s' = some-eq p in
      rw (← same) (
        sooner s.cipher.epoch s.next_sequence cipher.epoch 0
          (packets (record s { cipher = cipher; next_sequence = 0 })) (inl (omega arith))
          (rest _ after))

  -- The packets that a sender sends through any series of steps have ascending numbers, the epoch
  -- first and then the sequence number, as `parse` reads them from the packets. The sender's fields and the arguments fit their widths.
  pub sent_packets-Ascending :
      (s : DataSender) (steps : List Step)
      → IsSender s
      → AllInRange steps
      → Ascending s.cipher.epoch s.next_sequence (sent_packets s steps)
  unfolding sent_packets do_step
  sent_packets-Ascending s [] v small = tt
  sent_packets-Ascending s (send t flags path_id text ∷ steps) v small =
      sealed_ascends s t flags path_id text (λ s'. sent_packets s' steps) v small.0.0 small.0.1
        (λ s' v'. sent_packets-Ascending s' steps v' small.1) (seal c s t flags path_id text) refl
  sent_packets-Ascending s (rotate next_epoch ∷ steps) v small =
      rotated_ascends s next_epoch (λ s'. sent_packets s' steps) v
        (λ s' v'. sent_packets-Ascending s' steps v' small.1) (rotate_epoch c s next_epoch) refl

  made_payload :
      (session_id current_epoch next_epoch : ℕ) (payload : List ℕ)
      → key_update_payload c session_id current_epoch next_epoch ≡ some payload
      → (is_next_epoch current_epoch next_epoch ≡ true)
        × (digest : ℕ) × (be 4 next_epoch ++ be 32 digest ≡ payload)
  unfolding key_update_payload
  made_payload session_id current_epoch next_epoch payload p =
      let (next, p2) = ensure-passed (is_next_epoch current_epoch next_epoch) _ p in
      (next, _, some-eq p2)

  made_epoch :
      (next_epoch digest : ℕ)
      → next_epoch < 2 ^ 32
      → from_be (slice 0 4 (be 4 next_epoch ++ be 32 digest)) ≡ next_epoch
  unfolding be
  made_epoch next_epoch digest small = from_be-be 4 next_epoch small

  made_length : (next_epoch digest : ℕ) → length (be 4 next_epoch ++ be 32 digest) ≡ 36
  unfolding be
  made_length next_epoch digest = refl

  -- A receiver takes a key update's payload exactly when it is the payload that the session's peer
  -- makes in this epoch for the epoch it names, and that epoch is the one after this.
  pub verify_key_update_payload_iff :
      (payload : List ℕ) (session_id current_epoch next_epoch : ℕ)
      → (verify_key_update_payload c payload session_id current_epoch ≡ some next_epoch)
        ↔ (next_epoch ≡ suc current_epoch)
          × (key_update_payload c session_id current_epoch next_epoch ≡ some payload)
  unfolding verify_key_update_payload
  verify_key_update_payload_iff payload session_id current_epoch next_epoch = (
    λ p.
        let named = from_be (slice 0 4 payload) in
        let (_, p2) = ensure-passed (length payload == 36) _ p in
        let (expected, made, p3) =
          bind-passed (key_update_payload c session_id current_epoch named) _ p2 in
        let (equal, p4) = ensure-passed (bytes_eq payload expected) _ p3 in
        let same : payload ≡ expected = bytes_eq→eq payload expected equal in
        let e : named ≡ next_epoch = some-eq p4 in
        let (next, _, _) = made_payload session_id current_epoch named expected made in
        (sym e ∙ (next_epoch_range current_epoch named next).0, rw (← e) (rw (← same) at made)),
    λ (_, made).
        let (next, digest, built) = made_payload session_id current_epoch next_epoch payload made in
        let (_, small) = next_epoch_range current_epoch next_epoch next in
        let long : length payload ≡ 36 = rw (← built) (made_length next_epoch digest) in
        let named : from_be (slice 0 4 payload) ≡ next_epoch =
          rw (← built) (made_epoch next_epoch digest small) in
        rw (long, named, made, bytes_eq_self payload) refl,
  )
