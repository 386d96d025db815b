-- ===== src/Lib.antt =====
-- XS Nexus is a private overlay network: nodes hold credentials that a controller signs, talk to
-- each other in XSP/1 sessions over UDP, and fall back to relays that speak XSR/1. This library
-- models the protocol crate with its handshake, the relay server, the approved subnet routes, the
-- access rules and the rollout of updates.
--
-- Parts and files (paths from the repository's root):
-- - Base: shared names. Numbers are native; a byte string is a list of numbers; an identifier of 16
--   bytes or a key of 32 is the number its bytes spell (Base.Bytes: be writes it, from_be reads
--   it); a HashMap is an association list (Base.Maps); an error without information is `none`,
--   an error with a reason a Result (Base.Results).
-- - Replay: ReplayWindow of crates/protocol/src/data.rs, 16 words of 64 bits with their carries;
--   apps/relay/src/server.rs has the same code. Replay.Window holds its specification, a log of the
--   numbers taken.
-- - Packet: the 96-byte header, the flags, the payload's and the inner IPv4 packet's checks of
--   crates/protocol/src/data.rs.
-- - Session: DataSender and DataReceiver of the same file, with the epochs of their keys. A method
--   on `&mut self` returns the new state; on an error the old one stays.
-- - Credential: sign_credential and verify_credential of crates/protocol/src/lib.rs.
-- - Relay: the messages of crates/protocol/src/relay.rs (Relay.Frames the data envelope and the
--   keepalive, Relay.Leases registration and acknowledgement).
-- - Handshake: crates/protocol/src/handshake.rs. Handshake.Hello and Handshake.Finish have the
--   messages, Handshake.Steps the states of the two ends; a method that consumes its state is a
--   function of it. Handshake.Binding says what an end has checked of the other.
-- - Discovery: crates/protocol/src/discovery.rs, by which a node learns the address under which the
--   controller sees it.
-- - AgentRelay: RelayClient of apps/agent/src/relay.rs with the steps that RelayManager makes on the
--   client of one endpoint; the durations are those without the feature privileged-network-tests.
-- - Controller: RateLimiter and the datagram arm of `serve` of apps/controller/src/discovery.rs.
-- - RouteManager: crates/windows-route-manager/src/lib.rs. RouteManager.Plan makes the plans,
--   RouteManager.Execute and RouteManager.Provision carry them out on a backend, an implementation
--   of the traits RouteBackend and HostNetworkBackend; its calls are functions of the host's state.
-- - Server: RelayServer of apps/relay/src/server.rs. Server.Registration, Server.Forwarding and
--   Server.Service have its handlers, Server.Budgets its limits; the arms of `serve` are events,
--   and clocks, random bytes and the socket's answers come with them. Server.Invariant says how the
--   tables hang together.
-- - Configuration: the types of crates/core/src/lib.rs and crates/core/src/acl.rs that the controller
--   signs, with the fields that the two policies read.
-- - Routes: SubnetRoutePolicy of crates/core/src/routes.rs; Routes.Suggestion checks a discovered
--   subnet.
-- - Acl: AclPolicy of crates/core/src/acl.rs; Acl.Order has the order of its rules, Acl.Evaluation
--   what they decide.
-- - Updates: UpdateRolloutPolicy of crates/core/src/updates.rs.
--
-- The parts meet as in the code: Session uses Packet and Replay; Relay checks the XSP/1 packet it
-- carries with Packet; Handshake checks credentials with Credential and hands its secrets to the
-- sender and the receiver of Session; Discovery checks credentials too; Controller answers the
-- requests of Discovery; AgentRelay speaks Relay with the relay; Server parses with Relay,
-- verifies registrations with Credential and keeps a Replay window for each lease; Acl compiles
-- the routes with Routes and takes selectors of approved networks only.
--
-- Parameters: Session.Crypto (HKDF-SHA256, ChaCha20-Poly1305, SHA-256), Credential.Signing
-- (Ed25519, SHA-256), Handshake.Exchange (both, with X25519), Routes.Networks and
-- RouteManager.HostNetworks (the ipnet crate) and the backend of RouteManager (its laws stand in
-- RouteManager.Undo and RouteManager.Addresses), each with a record of the documented behaviour
-- that the theorems use, and the SHA-256 of Updates. Nothing is assumed of secrecy or of forgery.
--
-- Bounds: the flush loop has 256 rounds, a lease id 8 draws and the loop on an address's state the
-- caller's number of polls, as in the code; all other loops are structural. Sums that saturate or
-- are checked in the code are written out.
--
-- Not modelled: the version parser and the release manifest of the updates, the rest of the agent
-- and of the controller, the command line, the metrics, the platform code, and of the modelled
-- files the formatters, the role digests, two queries of the routes and the map of the agent's
-- relays with its configuration. An address is a host and a port, without the flow label and scope
-- of IPv6.
pub mod Base
pub mod Replay
pub mod Packet
pub mod Session
pub mod Credential
pub mod Relay
pub mod Handshake
pub mod Discovery
pub mod RouteManager
pub mod Controller
pub mod AgentRelay
pub mod Server
pub mod Configuration
pub mod Routes
pub mod Acl
pub mod Updates
