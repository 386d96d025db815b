-- ===== src/Handshake/DataPlane.antt =====
-- The two ends of a finished handshake seal and open each other's packets: `into_data_plane` of
-- crates/protocol/src/handshake.rs.
use xs_nexus.Base.{ℕ, ◌≡◌, refl, sym, some, none, ◌++◌, arith}
use xs_nexus.Base.Bytes.{be}
use xs_nexus.Base.Text.{codes}
use xs_nexus.Session.{EpochCipher, DataSender, DataReceiver, derive_epoch, new_sender, new_receiver}
use xs_nexus.Replay
use xs_nexus.Session.Delivery.{IsPaired}
use xs_nexus.Handshake.{Exchange, IsExchange, HandshakeContext, client, server}
use xs_nexus.Handshake.Hello.RoundTrip.{IsMirror}
use xs_nexus.Handshake.Finish.RoundTrip.{session}
use xs_nexus.Handshake.Steps.{into_data_plane}

module _ (x : Exchange) (laws : IsExchange x) where
  derive_epoch_total :
      (secret epoch : ℕ)
      → (cipher : EpochCipher) × (derive_epoch x.crypto secret epoch ≡ some cipher)
  unfolding derive_epoch
  derive_epoch_total secret epoch =
      let (key, e) =
        laws.expands 32 secret (codes "XSP/1 traffic key v1" ++ be 4 epoch) (omega arith) in
      let (salt, f) =
        laws.expands 4 secret (codes "XSP/1 nonce salt v1" ++ be 4 epoch) (omega arith) in
      (record { epoch = epoch; key = key; nonce_salt = salt; replay = Replay.new }, rw (e, f) refl)

  abbrev sender : HandshakeContext → ℕ → ℕ → EpochCipher → DataSender
  sender c session_id secret cipher = record {
    direction_secret = secret;
    cipher = cipher;
    next_sequence = 0;
    network_id = c.network_id;
    source_node_id = c.local_node_id;
    destination_node_id = c.peer_node_id;
    session_id = session_id;
    source_virtual_ip = c.local_virtual_ip;
    destination_virtual_ip = c.peer_virtual_ip;
  }

  abbrev receiver : HandshakeContext → ℕ → ℕ → EpochCipher → DataReceiver
  receiver c session_id secret cipher = record {
    direction_secret = secret;
    current = cipher;
    previous = none;
    network_id = c.network_id;
    source_node_id = c.peer_node_id;
    destination_node_id = c.local_node_id;
    session_id = session_id;
    source_virtual_ip = c.peer_virtual_ip;
    destination_virtual_ip = c.local_virtual_ip;
  }

  sender-IsPaired :
      (c s : HandshakeContext) (session_id secret : ℕ) (cipher : EpochCipher)
      → IsMirror c s
      → IsPaired (sender c session_id secret cipher) (receiver s session_id secret cipher)
  sender-IsPaired c s session_id secret cipher m = record {
    epoch = refl;
    key = refl;
    nonce_salt = refl;
    network_id = sym m.network_id;
    source_node_id = sym m.node_id;
    destination_node_id = sym m.peer_node_id;
    session_id = refl;
    source_virtual_ip = sym m.virtual_ip;
    destination_virtual_ip = sym m.peer_virtual_ip;
  }

  -- The ends of a handshake get their data ciphers, and each end's receiver is paired with the other
  -- end's sender.
  pub into_data_plane-IsPaired :
      (c s : HandshakeContext) (session_id client_secret server_secret : ℕ)
      → IsMirror c s
      → (ours : DataSender × DataReceiver) × (theirs : DataSender × DataReceiver) × (into_data_plane
            x
            (session x laws client c session_id client_secret server_secret)
          ≡ some ours)
        × (into_data_plane x (session x laws server s session_id client_secret server_secret)
            ≡ some theirs)
        × IsPaired ours.0 theirs.1
        × IsPaired theirs.0 ours.1
  unfolding into_data_plane new_sender new_receiver
  into_data_plane-IsPaired c s session_id client_secret server_secret m =
      let (forth, e) = derive_epoch_total client_secret 0 in
      let (back, f) = derive_epoch_total server_secret 0 in
      let mirrored : IsMirror s c = record {
        network_id = sym m.network_id;
        node_id = sym m.peer_node_id;
        virtual_ip = sym m.peer_virtual_ip;
        peer_node_id = sym m.node_id;
        peer_virtual_ip = sym m.virtual_ip;
      } in
      (
        (sender c session_id client_secret forth, receiver c session_id server_secret back),
        (sender s session_id server_secret back, receiver s session_id client_secret forth),
        rw (e, f) refl,
        rw (e, f) refl,
        sender-IsPaired c s session_id client_secret forth m,
        sender-IsPaired s c session_id server_secret back mirrored,
      )
