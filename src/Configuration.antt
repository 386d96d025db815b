-- ===== src/Configuration.antt =====
-- The signed configuration of crates/core/src/lib.rs and the rules of crates/core/src/acl.rs, with
-- the fields that the route and the ACL policy read. A string is the list of its bytes.
use xs_nexus.Base.{
  ℕ, ◌≡◌, ◌↔◌, Bool, true, false, ◌&&◌, ◌||◌, List, [], ◌∷◌, Option, none, some, ltb, leb, ◌==◌, Eq,
}
use xs_nexus.Base.Bytes.{bytes_eq, bytes_eq→eq, bytes_eq_self}

pub data SubnetRouteMode : Type 0 where
  routed nat : SubnetRouteMode

pub data EndpointCandidateKind : Type 0 where
  local_candidate public_ipv6 mapped static_candidate relay : EndpointCandidateKind

pub record EndpointCandidate : Type 0 where
  pub kind : EndpointCandidateKind
  pub expires_at : ℕ

pub record ConfigurationNode : Type 0 where
  pub node_id_base64 : List ℕ
  pub virtual_ip : List ℕ
  pub direct_endpoints : List (List ℕ)
  pub candidates : List EndpointCandidate
  pub groups : List (List ℕ)
  pub tags : List (List ℕ)

pub record ConfigurationSubnetRoute : Type 0 where
  pub route_id : List ℕ
  pub prefix : List ℕ
  pub gateway_node_id_base64 : List ℕ
  pub mode : SubnetRouteMode
  pub interface_name : List ℕ
  pub priority : ℕ

pub data AclAction : Type 0 where
  allow deny : AclAction

pub data AclProtocol : Type 0 where
  any_protocol tcp udp icmp : AclProtocol

pub data AclSelector : Type 0 where
  any_selector : AclSelector
  node_selector group_selector tag_selector subnet_selector : List ℕ → AclSelector

pub record PortRange : Type 0 where
  pub start : ℕ
  pub end : ℕ

pub record AclRule : Type 0 where
  pub id : List ℕ
  pub priority : ℕ
  pub action : AclAction
  pub sources : List AclSelector
  pub destinations : List AclSelector
  pub protocol : AclProtocol
  pub destination_ports : List PortRange

pub record ConfigurationPayload : Type 0 where
  pub policy_version : ℕ
  pub address_pool : List ℕ
  pub nodes : List ConfigurationNode
  pub policies : List AclRule
  pub subnet_routes : List ConfigurationSubnetRoute

pub string_iff : (a b : List ℕ) → (bytes_eq a b ≡ true) ↔ (a ≡ b)
string_iff a b = (bytes_eq→eq a b, λ e. rw (← e) (bytes_eq_self a))

instance abbrev pub string_key : Eq (List ℕ)
string_key = record { matches = bytes_eq; decides = string_iff }

-- `<` of `str`.
unfoldable pub string_lt : List ℕ → List ℕ → Bool
string_lt a [] = false
string_lt [] (y ∷ b) = true
string_lt (x ∷ a) (y ∷ b) = ltb x y || x == y && string_lt a b

abbrev pub is_lowercase : ℕ → Bool
is_lowercase byte = leb 97 byte && leb byte 122

abbrev pub is_uppercase : ℕ → Bool
is_uppercase byte = leb 65 byte && leb byte 90

abbrev pub is_digit : ℕ → Bool
is_digit byte = leb 48 byte && leb byte 57

-- `.`, `_` and `-`
abbrev pub is_mark : ℕ → Bool
is_mark byte = byte == 46 || byte == 95 || byte == 45

abbrev pub known : {A : Type 0} → Option A → Bool
known none = false
known (some a) = true
