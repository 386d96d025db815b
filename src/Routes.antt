-- ===== src/Routes.antt =====
-- Approved subnet routes: `SubnetRoutePolicy` of crates/core/src/routes.rs. A string is the list of
-- its bytes, a time a number, and the networks are those of the `ipnet` library, a parameter. Of a
-- configuration and its nodes the fields that the policy reads are kept.
pub mod Overlap
pub mod Resolution
pub mod Suggestion
pub mod Tests
use xs_nexus.Base.{
  ℕ, zero, suc, ◌+◌, ◌-◌, ◌*◌, ◌/◌, ◌^◌, ◌<◌, ◌≤◌, ◌≡◌, ◌↔◌, Bool, true, false, not, ◌&&◌, ◌||◌,
  Option, none, some, List, [], ◌∷◌, map, refl, ltb, leb, ◌==◌, if◌then◌else◌, length, is_empty,
  any, all, Eq, lookup, insert,
}
use xs_nexus.Base.Bytes.{bytes_eq, bytes_eq→eq, bytes_eq_self}
use xs_nexus.Base.Text.{codes}
use xs_nexus.Base.Results.{Result, ok, err, ◌>>=◌, ◌>>◌, require}
use xs_nexus.Configuration.{
  SubnetRouteMode, EndpointCandidateKind, relay, ConfigurationNode, ConfigurationSubnetRoute,
  ConfigurationPayload, string_key, string_lt, is_lowercase, is_uppercase, is_digit, is_mark, known,
}

-- `Ipv4Net` and the functions on it; an address is a number below 2 ^ 32.
pub record Networks : Type 1 where
  pub Ipv4Net : Type 0
  pub network : Ipv4Net → ℕ
  pub prefix_len : Ipv4Net → ℕ
  pub contains : Ipv4Net → ℕ → Bool
  pub same_net : Ipv4Net → Ipv4Net → Bool
  pub parse_net : List ℕ → Option Ipv4Net
  pub net_string : Ipv4Net → List ℕ
  pub parse_address : List ℕ → Option ℕ

-- Their documented behaviour: a network contains the addresses that share the first `prefix_len`
-- bits with its network address, whose other bits are 0; `==` decides equality.
pub record IsNetworks (n : Networks) : Type 0 where
  pub prefix_len_bound : (p : n.Ipv4Net) → n.prefix_len p ≤ 32
  pub contains_iff :
      (p : n.Ipv4Net) (address : ℕ)
      → (n.contains p address ≡ true)
        ↔ (address / 2 ^ (32 - n.prefix_len p) ≡ n.network p / 2 ^ (32 - n.prefix_len p))
  pub same_net_iff : (p q : n.Ipv4Net) → (n.same_net p q ≡ true) ↔ (p ≡ q)

pub data SubnetRouteValidationError : Type 0 where
  route_count invalid_route invalid_gateway duplicate_route : SubnetRouteValidationError
  route_order overlapping_route virtual_pool_overlap : SubnetRouteValidationError

abbrev pub route_id_start : ℕ → Bool
route_id_start byte = is_lowercase byte || is_digit byte

unfoldable pub valid_route_id : List ℕ → Bool
valid_route_id [] = false
valid_route_id (first ∷ rest) =
    leb (length (first ∷ rest)) 64
    && route_id_start first
    && all (λ byte. route_id_start byte || is_mark byte) rest

unfoldable pub valid_interface_name : List ℕ → Bool
valid_interface_name value =
    not (is_empty value)
    && leb (length value) 15
    && all (λ byte. is_lowercase byte || is_uppercase byte || is_digit byte || is_mark byte) value

module _ (n : Networks) where
  pub record CompiledSubnetRoute : Type 0 where
    pub route_id : List ℕ
    pub prefix : n.Ipv4Net
    pub gateway_node_id_base64 : List ℕ
    pub gateway_virtual_ip : ℕ
    pub mode : SubnetRouteMode
    pub interface_name : List ℕ
    pub priority : ℕ

  pub record SubnetRoutePolicy : Type 0 where
    pub routes : List CompiledSubnetRoute
    pub gateway_nodes : List (List ℕ × ConfigurationNode)

  unfoldable pub networks_overlap : n.Ipv4Net → n.Ipv4Net → Bool
  networks_overlap left right =
      n.contains left (n.network right) || n.contains right (n.network left)

  abbrev pub overlaps_reserved : n.Ipv4Net → Option n.Ipv4Net → Bool
  overlaps_reserved prefix none = true
  overlaps_reserved prefix (some reserved) = networks_overlap prefix reserved

  -- `expect` on the constants: a constant that the library does not take makes no prefix safe.
  unfoldable pub safe_subnet_prefix : n.Ipv4Net → Bool
  safe_subnet_prefix prefix =
      leb 1 (n.prefix_len prefix)
      && leb (n.prefix_len prefix) 30
      && all (λ text. not (overlaps_reserved prefix (n.parse_net text)))
          (codes "0.0.0.0/8"
            ∷ codes "127.0.0.0/8"
            ∷ codes "169.254.0.0/16"
            ∷ codes "224.0.0.0/4"
            ∷ codes "240.0.0.0/4"
            ∷ [])

  -- The test of the first loop of `validate_order_and_overlap`.
  unfoldable pub out_of_order : CompiledSubnetRoute → CompiledSubnetRoute → Bool
  out_of_order previous current =
      ltb (n.network current.prefix) (n.network previous.prefix)
      || n.network previous.prefix == n.network current.prefix
        && ltb (n.prefix_len current.prefix) (n.prefix_len previous.prefix)
      || n.same_net previous.prefix current.prefix && ltb previous.priority current.priority
      || n.same_net previous.prefix current.prefix
        && previous.priority == current.priority
        && not (string_lt previous.route_id current.route_id)

  -- `routes.windows(2)`, from the route before on.
  unfoldable pub validate_order_from :
      CompiledSubnetRoute → List CompiledSubnetRoute → Result SubnetRouteValidationError (Unit {0})
  validate_order_from previous [] = ok tt
  validate_order_from previous (current ∷ routes) =
      require (not (out_of_order previous current)) route_order
      >> validate_order_from current routes

  abbrev pub validate_order :
      List CompiledSubnetRoute → Result SubnetRouteValidationError (Unit {0})
  validate_order [] = ok tt
  validate_order (first ∷ routes) = validate_order_from first routes

  -- The body of the second loop.
  unfoldable pub validate_pair :
      CompiledSubnetRoute → CompiledSubnetRoute → Result SubnetRouteValidationError (Unit {0})
  validate_pair left right =
      if bytes_eq left.route_id right.route_id
      then err duplicate_route
      else if n.same_net left.prefix right.prefix
      then require (not (left.priority == right.priority)) overlapping_route
      else require (not (networks_overlap left.prefix right.prefix)) overlapping_route

  unfoldable pub validate_against :
      CompiledSubnetRoute → List CompiledSubnetRoute → Result SubnetRouteValidationError (Unit {0})
  validate_against left [] = ok tt
  validate_against left (right ∷ routes) = validate_pair left right >> validate_against left routes

  unfoldable pub validate_overlap :
      List CompiledSubnetRoute → Result SubnetRouteValidationError (Unit {0})
  validate_overlap [] = ok tt
  validate_overlap (left ∷ routes) = validate_against left routes >> validate_overlap routes

  unfoldable pub validate_order_and_overlap :
      List CompiledSubnetRoute → Result SubnetRouteValidationError (Unit {0})
  validate_order_and_overlap routes = validate_order routes >> validate_overlap routes

  abbrev pub found :
      {A : Type 0} → Option A → SubnetRouteValidationError → Result SubnetRouteValidationError A
  found none e = err e
  found (some a) e = ok a

  -- A second node with one id is an error.
  unfoldable pub collect_gateways :
      List (List ℕ × ConfigurationNode)
      → List ConfigurationNode
      → Result SubnetRouteValidationError (List (List ℕ × ConfigurationNode))
  collect_gateways gateways [] = ok gateways
  collect_gateways gateways (node ∷ nodes) =
      let rest = collect_gateways (insert node.node_id_base64 node gateways) nodes in
      if known (lookup node.node_id_base64 gateways) then err invalid_gateway else rest

  unfoldable pub compile_route :
      n.Ipv4Net
      → List (List ℕ × ConfigurationNode)
      → List (List ℕ)
      → ConfigurationSubnetRoute
      → Result SubnetRouteValidationError CompiledSubnetRoute
  compile_route virtual_pool gateways route_ids route = do
    require
        (valid_route_id route.route_id
          && not (any (bytes_eq route.route_id) route_ids)
          && not (route.priority == 0)
          && valid_interface_name route.interface_name)
        invalid_route
    prefix ← found (n.parse_net route.prefix) invalid_route
    require (bytes_eq route.prefix (n.net_string prefix) && safe_subnet_prefix prefix) invalid_route
    require (not (networks_overlap prefix virtual_pool)) virtual_pool_overlap
    gateway ← found (lookup route.gateway_node_id_base64 gateways) invalid_gateway
    gateway_virtual_ip ← found (n.parse_address gateway.virtual_ip) invalid_gateway
    ok (record {
      route_id = route.route_id;
      prefix = prefix;
      gateway_node_id_base64 = route.gateway_node_id_base64;
      gateway_virtual_ip = gateway_virtual_ip;
      mode = route.mode;
      interface_name = route.interface_name;
      priority = route.priority;
    })

  unfoldable pub compile_routes :
      n.Ipv4Net
      → List (List ℕ × ConfigurationNode)
      → List (List ℕ)
      → List ConfigurationSubnetRoute
      → Result SubnetRouteValidationError (List CompiledSubnetRoute)
  compile_routes virtual_pool gateways route_ids [] = ok []
  compile_routes virtual_pool gateways route_ids (route ∷ routes) = do
    compiled ← compile_route virtual_pool gateways route_ids route
    rest ← compile_routes virtual_pool gateways (route.route_id ∷ route_ids) routes
    ok (compiled ∷ rest)

  unfoldable pub compile :
      ConfigurationPayload → Result SubnetRouteValidationError SubnetRoutePolicy
  compile configuration = do
    require (leb (length configuration.subnet_routes) 256) route_count
    virtual_pool ← found (n.parse_net configuration.address_pool) virtual_pool_overlap
    gateways ← collect_gateways [] configuration.nodes
    compiled ← compile_routes virtual_pool gateways [] configuration.subnet_routes
    validate_order_and_overlap compiled
    ok (record { routes = compiled; gateway_nodes = gateways })

  abbrev pub is_direct : EndpointCandidateKind → Bool
  is_direct relay = false
  is_direct _ = true

  abbrev pub node_available : ℕ → Option ConfigurationNode → Bool
  node_available now none = false
  node_available now (some node) =
      not (is_empty node.direct_endpoints)
      || any (λ candidate. is_direct candidate.kind && ltb now candidate.expires_at) node.candidates

  unfoldable pub gateway_available : SubnetRoutePolicy → List ℕ → ℕ → Bool
  gateway_available policy node_id now = node_available now (lookup node_id policy.gateway_nodes)

  -- `filter(..).find(..)`, which `resolved_route` then shows without the priority.
  unfoldable pub find_route :
      (CompiledSubnetRoute → Bool) → List CompiledSubnetRoute → Option CompiledSubnetRoute
  find_route p [] = none
  find_route p (route ∷ routes) = if p route then some route else find_route p routes

  abbrev pub usable : SubnetRoutePolicy → ℕ → ℕ → CompiledSubnetRoute → Bool
  usable policy destination now route =
      n.contains route.prefix destination
      && gateway_available policy route.gateway_node_id_base64 now

  unfoldable pub resolve_destination : SubnetRoutePolicy → ℕ → ℕ → Option CompiledSubnetRoute
  resolve_destination policy destination now =
      find_route (usable policy destination now) policy.routes

  unfoldable pub source_owned_by_gateway : SubnetRoutePolicy → ℕ → List ℕ → Bool
  source_owned_by_gateway policy source node_id =
      any (λ route. bytes_eq route.gateway_node_id_base64 node_id && n.contains route.prefix source)
        policy.routes

  unfoldable pub permits_routed_session : SubnetRoutePolicy → List ℕ → List ℕ → Bool
  permits_routed_session policy local_id peer_id =
      any
        (λ route.
          bytes_eq route.gateway_node_id_base64 local_id
          || bytes_eq route.gateway_node_id_base64 peer_id)
        policy.routes

  unfoldable pub local_gateway_route : SubnetRoutePolicy → List ℕ → ℕ → Option CompiledSubnetRoute
  local_gateway_route policy local_id destination =
      find_route
        (λ route.
          bytes_eq route.gateway_node_id_base64 local_id && n.contains route.prefix destination)
        policy.routes

  unfoldable pub contains_prefix : SubnetRoutePolicy → n.Ipv4Net → Bool
  contains_prefix policy prefix = any (λ route. n.same_net route.prefix prefix) policy.routes
