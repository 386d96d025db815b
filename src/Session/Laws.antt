-- ===== src/Session/Laws.antt =====
-- What a successful `open` of crates/protocol/src/data.rs has checked, and that a receiver opens no
-- packet number twice.
use xs_nexus.Base.{
  ℕ, ◌≤◌, ◌≡◌, sym, ap, ◌∙◌, Bool, true, some, List, ensure-passed, bind-passed, then-passed,
  some-eq, length, leb→le,
}
use xs_nexus.Replay
use xs_nexus.Packet.{DataHeader, parse, validate_payload}
use xs_nexus.Session.{
  Crypto, EpochCipher, DataReceiver, OpenedPacket, Slot, select, store, belongs, validate_inner,
  opened, open_in, decrypt_packet, open_with_routed_addresses,
}

module _ (c : Crypto) where
  -- What has passed when a packet opens: framing, session, epoch, window, tag and payload.
  pub record Opened (r : DataReceiver) (encoded : List ℕ) (allow_routed : Bool) (r' : DataReceiver)
      (packet : OpenedPacket) : Type 0 where
    pub header : DataHeader
    pub slot : Slot
    pub state : EpochCipher
    pub window : Replay.ReplayWindow
    pub long : 112 ≤ length encoded
    pub short : length encoded ≤ 1500
    pub framed : parse encoded ≡ some header
    pub ours : belongs r header encoded ≡ true
    pub chosen : select r header.key_epoch ≡ some (slot, state)
    pub payload : validate_payload header.packet_type packet.plaintext ≡ some tt
    pub inner : validate_inner r allow_routed header.packet_type packet.plaintext ≡ some tt
    pub taken : Replay.commit state.replay header.sequence ≡ some window
    pub after : r' ≡ store r slot (record state { replay = window })
    pub result : packet ≡ opened header packet.plaintext

  -- The same behind the choice of the epoch's state.
  record OpenedIn (r : DataReceiver) (allow_routed : Bool) (header : DataHeader) (slot : Slot)
      (state : EpochCipher) (result : DataReceiver × OpenedPacket) : Type 0 where
    text : List ℕ
    window : Replay.ReplayWindow
    payload : validate_payload header.packet_type text ≡ some tt
    inner : validate_inner r allow_routed header.packet_type text ≡ some tt
    taken : Replay.commit state.replay header.sequence ≡ some window
    produced : result ≡ (store r slot (record state { replay = window }), opened header text)

  open_in-OpenedIn :
      (r : DataReceiver) (allow_routed : Bool) (header : DataHeader) (encoded : List ℕ)
      (slot : Slot) (state : EpochCipher) (result : DataReceiver × OpenedPacket)
      → open_in c r allow_routed header encoded slot state ≡ some result
      → OpenedIn r allow_routed header slot state result
  unfolding open_in
  open_in-OpenedIn r allow_routed header encoded slot state result p =
      let (fresh, p) = then-passed (Replay.precheck state.replay header.sequence) _ p in
      let (text, opens, p) = bind-passed (decrypt_packet c state header encoded) _ p in
      let (payload, p) = then-passed _ _ p in
      let (inner, p) = then-passed _ _ p in
      let (window, taken, p) = bind-passed _ _ p in
      record {
        text = text;
        window = window;
        payload = payload;
        inner = inner;
        taken = taken;
        produced = sym (some-eq p);
      }

  pub open-Opened :
      (r : DataReceiver) (encoded : List ℕ) (allow_routed : Bool) (r' : DataReceiver)
      (packet : OpenedPacket)
      → open_with_routed_addresses c r encoded allow_routed ≡ some (r', packet)
      → Opened r encoded allow_routed r' packet
  unfolding open_with_routed_addresses
  open-Opened r encoded allow_routed r' packet p =
      let (long, p) = ensure-passed _ _ p in
      let (short, p) = ensure-passed _ _ p in
      let (header, framed, p) = bind-passed _ _ p in
      let (ours, p) = ensure-passed _ _ p in
      let (at, chosen, p) = bind-passed _ _ p in
      let z = open_in-OpenedIn r allow_routed header encoded at.0 at.1 (r', packet) p in
      let same : packet ≡ opened header z.text =
        ap (λ (x : DataReceiver × OpenedPacket). x.1) z.produced in
      let text : packet.plaintext ≡ z.text = ap (λ (x : OpenedPacket). x.plaintext) same in
      record {
        header = header;
        slot = at.0;
        state = at.1;
        window = z.window;
        long = leb→le _ _ long;
        short = leb→le _ _ short;
        framed = framed;
        ours = ours;
        chosen = chosen;
        payload = rw text z.payload;
        inner = rw text z.inner;
        taken = z.taken;
        after = ap (λ (x : DataReceiver × OpenedPacket). x.0) z.produced;
        result = same ∙ ap (opened header) (sym text);
      }
