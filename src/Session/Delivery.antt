-- ===== src/Session/Delivery.antt =====
-- What `DataSender` of crates/protocol/src/data.rs seals, the matching `DataReceiver` opens.
use xs_nexus.Base.{
  ℕ, ◌+◌, ◌-◌, ◌^◌, ◌<◌, ◌≤◌, ◌≡◌, sym, ap, Bool, true, false, some, List, ◌++◌, ◌==◌, ==_self,
  ensure-passed, bind-passed, some-eq, length, take, drop, arith, length-append, take-length_append,
  drop-length_append, leb→le, le→leb, false_of_not,
}
use xs_nexus.Base.Bytes.{slice, drop_add}
use xs_nexus.Replay.Window.{commit-precheck}
use xs_nexus.Replay
use xs_nexus.Packet.{
  PacketType, DataHeader, encode, valid_flags, validate_payload, max_encrypted_payload_length,
}
use xs_nexus.Packet.Codec.{IsHeader, parse-encode, length-encode}
use xs_nexus.Session.{
  Crypto, IsCrypto, u64_max, DataSender, DataReceiver, packet_nonce, current_slot, select, belongs,
  validate_inner, opened, seal_header, seal, open_in, decrypt_packet, open_with_routed_addresses,
}

-- The receiver expects what the sender sends: one session, one epoch, one key.
pub record IsPaired (s : DataSender) (r : DataReceiver) : Type 0 where
  pub epoch : r.current.epoch ≡ s.cipher.epoch
  pub key : r.current.key ≡ s.cipher.key
  pub nonce_salt : r.current.nonce_salt ≡ s.cipher.nonce_salt
  pub network_id : r.network_id ≡ s.network_id
  pub source_node_id : r.source_node_id ≡ s.source_node_id
  pub destination_node_id : r.destination_node_id ≡ s.destination_node_id
  pub session_id : r.session_id ≡ s.session_id
  pub source_virtual_ip : r.source_virtual_ip ≡ s.source_virtual_ip
  pub destination_virtual_ip : r.destination_virtual_ip ≡ s.destination_virtual_ip

-- The sender's fields fit their widths.
pub record IsSender (s : DataSender) : Type 0 where
  pub epoch : s.cipher.epoch < 2 ^ 32
  pub next_sequence : s.next_sequence < 2 ^ 64
  pub network_id : s.network_id < 2 ^ 128
  pub source_node_id : s.source_node_id < 2 ^ 128
  pub destination_node_id : s.destination_node_id < 2 ^ 128
  pub session_id : s.session_id < 2 ^ 128

module _ (c : Crypto) where
  -- What a successful `seal` did.
  pub record Sealed (s : DataSender) (t : PacketType) (flags path_id : ℕ) (text : List ℕ)
      (s' : DataSender) (packet : List ℕ) : Type 0 where
    pub cipher : List ℕ
    pub tag : List ℕ
    pub suits : valid_flags t flags ≡ true
    pub small : length text ≤ max_encrypted_payload_length
    pub room : (s.next_sequence == u64_max) ≡ false
    pub payload : validate_payload t text ≡ some tt
    pub encrypted :
        c.encrypt s.cipher.key
          (packet_nonce s.cipher.nonce_salt s.next_sequence)
          (encode (seal_header s t flags path_id text))
          text
        ≡ some (cipher, tag)
    pub sent : packet ≡ encode (seal_header s t flags path_id text) ++ (cipher ++ tag)
    pub next : s' ≡ record s { next_sequence = s.next_sequence + 1 }

  pub seal-Sealed :
      (s : DataSender) (t : PacketType) (flags path_id : ℕ) (text : List ℕ) (s' : DataSender)
      (packet : List ℕ)
      → seal c s t flags path_id text ≡ some (s', packet)
      → Sealed s t flags path_id text s' packet
  unfolding seal
  seal-Sealed s t flags path_id text s' packet p =
      let (suits, p) = ensure-passed _ _ p in
      let (small, p) = ensure-passed _ _ p in
      let (room, p) = ensure-passed _ _ p in
      let (u, payload, p) = bind-passed _ _ p in
      let (_, p) = ensure-passed _ _ p in
      let ((cipher, tag), encrypted, p) = bind-passed _ _ p in
      record {
        cipher = cipher;
        tag = tag;
        suits = suits;
        small = leb→le _ _ small;
        room = false_of_not _ room;
        payload = payload;
        encrypted = encrypted;
        sent = ap (λ (x : DataSender × List ℕ). x.1) (sym (some-eq p));
        next = ap (λ (x : DataSender × List ℕ). x.0) (sym (some-eq p));
      }

pub seal_header-IsHeader :
    (s : DataSender) (t : PacketType) (flags path_id : ℕ) (text : List ℕ)
    → IsSender s
    → flags < 2 ^ 16
    → path_id < 2 ^ 32
    → length text ≤ max_encrypted_payload_length
    → valid_flags t flags ≡ true
    → IsHeader (seal_header s t flags path_id text)
seal_header-IsHeader s t flags path_id text v hf hp small suits = record {
  flags = hf;
  payload_length = omega arith;
  network_id = v.network_id;
  source_node_id = v.source_node_id;
  destination_node_id = v.destination_node_id;
  session_id = v.session_id;
  key_epoch = v.epoch;
  sequence = v.next_sequence;
  path_id = hp;
  suits = suits;
}

take_header : (h : DataHeader) (rest : List ℕ) → take 96 (encode h ++ rest) ≡ encode h
take_header h rest = rw (length-encode h) at (take-length_append (encode h) rest)

drop_header : (h : DataHeader) (rest : List ℕ) → drop 96 (encode h ++ rest) ≡ rest
drop_header h rest = rw (length-encode h) at (drop-length_append (encode h) rest)

-- A packet's three parts, found by the lengths.
slice_text :
    (h : DataHeader) (cipher tag : List ℕ) (n : ℕ)
    → length cipher ≡ n
    → slice 96 (96 + n) (encode h ++ (cipher ++ tag)) ≡ cipher
slice_text h cipher tag n e =
    let all : 96 + n - 96 ≡ length cipher = omega arith in
    rw (all, drop_header h (cipher ++ tag)) (take-length_append cipher tag)

drop_text :
    (h : DataHeader) (cipher tag : List ℕ) (n : ℕ)
    → length cipher ≡ n
    → drop (96 + n) (encode h ++ (cipher ++ tag)) ≡ tag
drop_text h cipher tag n e =
    rw (drop_add 96 n (encode h ++ (cipher ++ tag)), drop_header h (cipher ++ tag), ← e)
      (drop-length_append cipher tag)

select_current :
    (r : DataReceiver) (epoch : ℕ)
    → r.current.epoch ≡ epoch
    → select r epoch ≡ some (current_slot, r.current)
unfolding select
select_current r epoch e = rw (e, ==_self epoch)

header_belongs :
    (s : DataSender) (r : DataReceiver) (t : PacketType) (flags path_id : ℕ) (text packet : List ℕ)
    → IsPaired s r
    → length packet ≡ 96 + length text + 16
    → belongs r (seal_header s t flags path_id text) packet ≡ true
unfolding belongs
header_belongs s r t flags path_id text packet pair long =
    rw
      (
        long,
        pair.network_id,
        pair.source_node_id,
        pair.destination_node_id,
        pair.session_id,
        ==_self (96 + length text + 16),
        ==_self s.network_id,
        ==_self s.source_node_id,
        ==_self s.destination_node_id,
      )
      (==_self s.session_id)

module _ (c : Crypto) (laws : IsCrypto c) (s : DataSender) (r : DataReceiver) where
  length-Sealed :
      {t : PacketType} {flags path_id : ℕ} {text : List ℕ} {s' : DataSender} {packet : List ℕ}
      (z : Sealed c s t flags path_id text s' packet)
      → length (encode (seal_header s t flags path_id text) ++ (z.cipher ++ z.tag))
        ≡ 96 + length text + 16
  length-Sealed z = omega (
    arith,
    length-append {0} (encode (seal_header s _ _ _ _)) (z.cipher ++ z.tag),
    length-append {0} z.cipher z.tag,
    length-encode (seal_header s _ _ _ _),
    laws.cipher_length _ _ _ _ _ _ z.encrypted,
    laws.tag_length _ _ _ _ _ _ z.encrypted,
  )

  -- Decryption sees the parts that `seal` joined.
  decrypt-Sealed :
      {t : PacketType} {flags path_id : ℕ} {text : List ℕ} {s' : DataSender} {packet : List ℕ}
      (z : Sealed c s t flags path_id text s' packet)
      → IsPaired s r
      → decrypt_packet c r.current
          (seal_header s t flags path_id text)
          (encode (seal_header s t flags path_id text) ++ (z.cipher ++ z.tag))
        ≡ some text
  unfolding decrypt_packet
  decrypt-Sealed {t} {flags} {path_id} {text} z pair =
      let n : length z.cipher ≡ length text = laws.cipher_length _ _ _ _ _ _ z.encrypted in
      let h = seal_header s t flags path_id text in
      let whole : List ℕ = encode h ++ (z.cipher ++ z.tag) in
      let opens : c.decrypt r.current.key (packet_nonce r.current.nonce_salt s.next_sequence)
            (take 96 whole) (slice 96 (96 + length text) whole) (drop (96 + length text) whole)
          ≡ some text =
        rw
          (
            take_header h (z.cipher ++ z.tag),
            slice_text h z.cipher z.tag (length text) n,
            drop_text h z.cipher z.tag (length text) n,
            pair.key,
            pair.nonce_salt,
          )
          (laws.decrypts _ _ _ _ _ _ z.encrypted) in
      opens

  open_in-Sealed :
      {t : PacketType} {flags path_id : ℕ} {text : List ℕ} {s' : DataSender} {packet : List ℕ}
      (z : Sealed c s t flags path_id text s' packet) (allow_routed : Bool)
      (w : Replay.ReplayWindow)
      → IsPaired s r
      → Replay.precheck r.current.replay s.next_sequence ≡ some tt
      → Replay.commit r.current.replay s.next_sequence ≡ some w
      → validate_inner r allow_routed t text ≡ some tt
      → open_in c r allow_routed
          (seal_header s t flags path_id text)
          (encode (seal_header s t flags path_id text) ++ (z.cipher ++ z.tag))
          current_slot
          r.current
        ≡ some (
          record r { current = record r.current { replay = w } },
          opened (seal_header s t flags path_id text) text,
        )
  unfolding open_in
  open_in-Sealed z allow_routed w pair fresh taken inner =
      rw (fresh, decrypt-Sealed z pair, z.payload, inner, taken)

  -- A packet that the sender seals is opened by the receiver that is paired with it, with the
  -- fields and the plaintext that were sealed, and the two stay paired: provided that the
  -- receiver's window still takes the sequence number, and that the inner packet passes the check.
  pub open-seal :
      (t : PacketType) (flags path_id : ℕ) (text : List ℕ) (s' : DataSender) (packet : List ℕ)
      (allow_routed : Bool)
      → IsSender s
      → IsPaired s r
      → flags < 2 ^ 16
      → path_id < 2 ^ 32
      → seal c s t flags path_id text ≡ some (s', packet)
      → Replay.precheck r.current.replay s.next_sequence ≡ some tt
      → validate_inner r allow_routed t text ≡ some tt
      → (r' : DataReceiver) × (open_with_routed_addresses c r packet allow_routed
          ≡ some (r', opened (seal_header s t flags path_id text) text))
        × IsPaired s' r'
  unfolding open_with_routed_addresses
  open-seal t flags path_id text s' packet allow_routed v pair hf hp p fresh inner =
      let z = seal-Sealed c s t flags path_id text s' packet p in
      let (w, taken) = commit-precheck r.current.replay s.next_sequence fresh in
      let h = seal_header s t flags path_id text in
      let whole : List ℕ = encode h ++ (z.cipher ++ z.tag) in
      let long : length whole ≡ 96 + length text + 16 = length-Sealed z in
      let valid = seal_header-IsHeader s t flags path_id text v hf hp z.small z.suits in
      (
        record r { current = record r.current { replay = w } },
        rw
            (
              z.sent,
              le→leb 112 (length whole) (omega (arith, long)),
              le→leb (length whole) 1500 (omega (arith, long, z.small)),
            )
            (rw (parse-encode h (z.cipher ++ z.tag) valid) (
              rw (header_belongs s r t flags path_id text _ pair long) (
                rw (select_current r s.cipher.epoch pair.epoch)
                  (open_in-Sealed z allow_routed w pair fresh taken inner)))),
        rw z.next (record {
          epoch = pair.epoch;
          key = pair.key;
          nonce_salt = pair.nonce_salt;
          network_id = pair.network_id;
          source_node_id = pair.source_node_id;
          destination_node_id = pair.destination_node_id;
          session_id = pair.session_id;
          source_virtual_ip = pair.source_virtual_ip;
          destination_virtual_ip = pair.destination_virtual_ip;
        }),
      )
