-- ===== src/Routes/Tests.antt =====
-- The route policy of crates/core/src/routes.rs at a concrete configuration. The networks are pairs
-- of an address and a length; a text of two codes names the network of its first byte.
use xs_nexus.Base.{
  ℕ, ◌+◌, ◌-◌, ◌*◌, ◌/◌, ◌^◌, ◌≤◌, ◌≡◌, ◌↔◌, refl, ap, Bool, true, false, not, ◌&&◌, Option, some,
  none, List, [], ◌∷◌, min, ◌==◌, ==_iff, ==_self, &&-true, arith,
}
use xs_nexus.Base.Bytes.{bytes_eq}
use xs_nexus.Base.Text.{codes}
use xs_nexus.Base.Results.{ok}
use xs_nexus.Routes.{
  Networks, IsNetworks, SubnetRoutePolicy, CompiledSubnetRoute, compile, networks_overlap, usable,
  resolve_destination,
}
use xs_nexus.Configuration.{
  nat, ConfigurationNode, ConfigurationPayload, ConfigurationSubnetRoute, string_key,
}
use xs_nexus.Routes.Suggestion.{
  validate_subnet_route_suggestion, IsSuggestion, validate_subnet_route_suggestion-IsSuggestion,
}
use xs_nexus.Routes.Overlap.{networks_overlap_iff}
use xs_nexus.Routes.Resolution.{Ranked, IsBest, compile-Ranked, resolve_destination-IsBest}

abbrev bits : ℕ → ℕ
bits len = 32 - min 32 len

abbrev read_net : List ℕ → Option (ℕ × ℕ)
read_net [] = none
read_net (byte ∷ []) = none
read_net (byte ∷ len ∷ []) = some (byte * 2 ^ 24, len)
read_net (byte ∷ len ∷ more ∷ rest) = some (0, 8)

abbrev pub toy : Networks
toy = record {
  Ipv4Net = ℕ × ℕ;
  network = λ p. p.0;
  prefix_len = λ p. min 32 p.1;
  contains = λ p address. address / 2 ^ bits p.1 == p.0 / 2 ^ bits p.1;
  same_net = λ p q. p.0 == q.0 && p.1 == q.1;
  parse_net = read_net;
  net_string = λ p. p.0 / 2 ^ 24 ∷ p.1 ∷ [];
  parse_address = λ text. some 1;
}

same_pair : (a b c d : ℕ) → ((a == c && b == d) ≡ true) ↔ ◌≡◌ {A = ℕ × ℕ} (a, b) (c, d)
same_pair a b c d = (
  λ h.
      let (p, q) = &&-true (a == c) _ h in
      let e : a ≡ c = (==_iff a c).0 p in let f : b ≡ d = (==_iff b d).0 q in λ i. (e i, f i),
  λ e.
      let p : a ≡ c = ap (λ (x : ℕ × ℕ). x.0) e in
      let q : b ≡ d = ap (λ (x : ℕ × ℕ). x.1) e in rw (p, q, ==_self c, ==_self d) refl,
)

pub toy-IsNetworks : IsNetworks toy
toy-IsNetworks = record {
  prefix_len_bound = λ p. omega arith;
  contains_iff = λ p address. ==_iff (address / 2 ^ bits p.1) (p.0 / 2 ^ bits p.1);
  same_net_iff = λ p q. same_pair p.0 p.1 q.0 q.1;
}

networks_overlap_iff_example :
    (networks_overlap toy (10 * 2 ^ 24, 8) (10 * 2 ^ 24 + 2 ^ 16, 16) ≡ true) ↔ (
      (address : ℕ) × (toy.contains (10 * 2 ^ 24, 8) address ≡ true)
      × (toy.contains (10 * 2 ^ 24 + 2 ^ 16, 16) address ≡ true))
networks_overlap_iff_example =
    networks_overlap_iff toy toy-IsNetworks (10 * 2 ^ 24, 8) (10 * 2 ^ 24 + 2 ^ 16, 16)

abbrev pub node : List ℕ → ConfigurationNode
node id = record {
  node_id_base64 = id;
  virtual_ip = [];
  direct_endpoints = codes "192.0.2.1:5000" ∷ [];
  candidates = [];
  groups = [];
  tags = [];
}

abbrev pub route : List ℕ → ℕ → List ℕ → ℕ → ConfigurationSubnetRoute
route id byte gateway priority = record {
  route_id = id;
  prefix = byte ∷ 8 ∷ [];
  gateway_node_id_base64 = gateway;
  mode = nat;
  interface_name = codes "eth0";
  priority = priority;
}

abbrev configuration : ConfigurationPayload
configuration = record {
  policy_version = 1;
  policies = [];
  address_pool = 100 ∷ 10 ∷ [];
  nodes = node (codes "A") ∷ node (codes "B") ∷ [];
  subnet_routes =
      route (codes "a") 10 (codes "A") 20
      ∷ route (codes "b") 10 (codes "B") 10
      ∷ route (codes "c") 20 (codes "A") 5
      ∷ [];
}

abbrev compiled : List ℕ → ℕ → List ℕ → ℕ → CompiledSubnetRoute toy
compiled id byte gateway priority = record {
  route_id = id;
  prefix = (byte * 2 ^ 24, 8);
  gateway_node_id_base64 = gateway;
  gateway_virtual_ip = 1;
  mode = nat;
  interface_name = codes "eth0";
  priority = priority;
}

abbrev policy : SubnetRoutePolicy toy
policy = record {
  routes =
      compiled (codes "a") 10 (codes "A") 20
      ∷ compiled (codes "b") 10 (codes "B") 10
      ∷ compiled (codes "c") 20 (codes "A") 5
      ∷ [];
  gateway_nodes = (codes "A", node (codes "A")) ∷ (codes "B", node (codes "B")) ∷ [];
}

policy_compiled : compile toy configuration ≡ ok policy
unfolding compile xs_nexus.Routes.collect_gateways xs_nexus.Base.lookup xs_nexus.Base.insert
    bytes_eq xs_nexus.Routes.compile_routes xs_nexus.Routes.compile_route
    xs_nexus.Routes.valid_route_id xs_nexus.Routes.valid_interface_name
    xs_nexus.Routes.safe_subnet_prefix networks_overlap xs_nexus.Routes.validate_order_and_overlap
    xs_nexus.Routes.validate_order_from xs_nexus.Routes.out_of_order
    xs_nexus.Routes.validate_overlap xs_nexus.Routes.validate_against xs_nexus.Routes.validate_pair
policy_compiled = refl

compile-Ranked_example : Ranked toy toy-IsNetworks policy.routes
compile-Ranked_example = compile-Ranked toy toy-IsNetworks configuration policy policy_compiled

resolve_destination-IsBest_example :
    IsBest toy toy-IsNetworks
      (usable toy policy (10 * 2 ^ 24 + 7) 0)
      policy.routes
      (resolve_destination toy policy (10 * 2 ^ 24 + 7) 0)
resolve_destination-IsBest_example =
    resolve_destination-IsBest toy toy-IsNetworks configuration policy (10 * 2 ^ 24 + 7) 0
      policy_compiled

suggested :
    validate_subnet_route_suggestion toy (10 ∷ 8 ∷ []) (codes "eth0") (100 ∷ 10 ∷ [])
    ≡ ok (10 * 2 ^ 24, 8)
unfolding validate_subnet_route_suggestion bytes_eq xs_nexus.Routes.valid_interface_name
    xs_nexus.Routes.safe_subnet_prefix networks_overlap
suggested = refl

validate_subnet_route_suggestion-IsSuggestion_example :
    (pool : ℕ × ℕ) × (toy.parse_net (100 ∷ 10 ∷ []) ≡ some pool)
    × IsSuggestion toy (10 ∷ 8 ∷ []) (10 * 2 ^ 24, 8) pool
validate_subnet_route_suggestion-IsSuggestion_example =
    validate_subnet_route_suggestion-IsSuggestion toy toy-IsNetworks (10 ∷ 8 ∷ []) (codes "eth0")
      (100 ∷ 10 ∷ []) (10 * 2 ^ 24, 8) suggested
