-- ===== src/RouteManager.antt =====
-- The Windows host routes: the types, the checks and the manifest of
-- crates/windows-route-manager/src/lib.rs. The networks are those of `ipnet`, and JSON is a
-- parameter. A HashSet's order is arbitrary; where the code sorts what it takes from one, the model
-- takes it in the order of the list that filled it.
pub mod Plan
pub mod Execute
pub mod Provision
pub mod Undo
pub mod Outcome
pub mod Reconcile
pub mod Keys
pub mod Addresses
pub mod Recovery
pub mod Tests
use xs_nexus.Base.{
  ℕ, ◌+◌, ◌-◌, ◌*◌, ◌/◌, ◌^◌, ◌<◌, ◌≤◌, ◌≡◌, ◌↔◌, Bool, true, false, not, ◌&&◌, ◌||◌, Option, none,
  some, List, [], ◌∷◌, map, refl, ltb, leb, ◌==◌, if◌then◌else◌, length, is_empty, any, all,
}
use xs_nexus.Base.Text.{codes}
use xs_nexus.Base.Results.{Result, ok, err, ◌>>=◌, ◌>>◌, require}
use xs_nexus.Routes.{Networks, networks_overlap, overlaps_reserved}

-- `ipnet` with the address that an `Ipv4Net` was made of, which may have host bits.
pub record HostNetworks : Type 1 where
  pub nets : Networks
  pub addr : nets.Ipv4Net → ℕ
  pub broadcast : nets.Ipv4Net → ℕ
  pub new_net : ℕ → ℕ → Option nets.Ipv4Net

abbrev pub max_system_routes : ℕ
max_system_routes = 4096

abbrev pub project_route_metric : ℕ
project_route_metric = 32

abbrev pub network_manifest_schema : ℕ
network_manifest_schema = 1

abbrev pub max_manifest_bytes : ℕ
max_manifest_bytes = 65536

pub data DadState : Type 0 where
  invalid tentative duplicate deprecated preferred : DadState
  unknown : ℕ → DadState

pub data ManifestState : Type 0 where
  preparing active : ManifestState

pub data ManifestError : Type 0 where
  size encoding schema unsafe_address unsafe_route duplicate_route : ManifestError
  route_order ownership_drift : ManifestError

pub data RoutePlanError : Type 0 where
  route_table_limit unsafe_route duplicate_route foreign_overlap ownership_drift : RoutePlanError

-- An address that is unspecified, loopback, link-local or multicast.
abbrev is_special : ℕ → Bool
is_special address =
    address == 0
    || address / 2 ^ 24 == 127
    || address / 2 ^ 16 == 169 * 256 + 254
    || address / 2 ^ 28 == 14

module _ (h : HostNetworks) where
  pub record RouteKey : Type 0 where
    pub prefix : h.nets.Ipv4Net
    pub interface_luid : ℕ
    pub next_hop : ℕ
    pub metric : ℕ

  pub record NetworkManifest : Type 0 where
    pub schema_version : ℕ
    pub state : ManifestState
    pub interface_luid : ℕ
    pub address : ℕ
    pub prefix_length : ℕ
    pub routes : List RouteKey

  pub record SystemRoute : Type 0 where
    pub key : RouteKey
    pub project_owned : Bool

  -- `==` of two keys.
  unfoldable pub same_route : RouteKey → RouteKey → Bool
  same_route a b =
      h.nets.same_net a.prefix b.prefix
      && a.interface_luid == b.interface_luid
      && a.next_hop == b.next_hop
      && a.metric == b.metric

  -- `contains` of a set of keys.
  unfoldable pub has : List RouteKey → RouteKey → Bool
  has [] key = false
  has (route ∷ routes) key = same_route route key || has routes key

  -- `overlaps` is the same test as `networks_overlap` of crates/core.
  abbrev pub overlaps : h.nets.Ipv4Net → h.nets.Ipv4Net → Bool
  overlaps left right = networks_overlap h.nets left right

  -- `expect` on the constants: a constant that the library does not take makes every prefix reserved.
  unfoldable pub reserved : h.nets.Ipv4Net → Bool
  reserved prefix =
      any (λ text. overlaps_reserved h.nets prefix (h.nets.parse_net text))
        (codes "0.0.0.0/8"
          ∷ codes "127.0.0.0/8"
          ∷ codes "169.254.0.0/16"
          ∷ codes "224.0.0.0/4"
          ∷ codes "240.0.0.0/4"
          ∷ [])

  unfoldable pub safe_prefix : h.nets.Ipv4Net → ℕ → Bool
  safe_prefix prefix interface_luid =
      not (interface_luid == 0)
      && leb 1 (h.nets.prefix_len prefix)
      && leb (h.nets.prefix_len prefix) 30
      && h.nets.network prefix == h.addr prefix
      && not (reserved prefix)

  unfoldable pub project : h.nets.Ipv4Net → ℕ → Result RoutePlanError RouteKey
  project prefix interface_luid =
      require (safe_prefix prefix interface_luid) unsafe_route
      >> ok (record {
        prefix = prefix;
        interface_luid = interface_luid;
        next_hop = 0;
        metric = project_route_metric;
      })

  -- The last test of `is_project_shape`: the key is what `project` makes of its prefix.
  abbrev pub is_projected : Result RoutePlanError RouteKey → RouteKey → Bool
  is_projected (ok made) route = same_route made route
  is_projected (err e) route = false

  unfoldable pub is_project_shape : RouteKey → ℕ → Bool
  is_project_shape route expected_luid =
      route.interface_luid == expected_luid
      && route.next_hop == 0
      && route.metric == project_route_metric
      && is_projected (project route.prefix expected_luid) route

  -- The order of the keys' (network, length, interface, metric).
  unfoldable pub route_before : RouteKey → RouteKey → Bool
  route_before a b =
      ltb (h.nets.network a.prefix) (h.nets.network b.prefix)
      || h.nets.network a.prefix == h.nets.network b.prefix
        && (ltb (h.nets.prefix_len a.prefix) (h.nets.prefix_len b.prefix)
            || h.nets.prefix_len a.prefix == h.nets.prefix_len b.prefix
              && (ltb a.interface_luid b.interface_luid
                  || a.interface_luid == b.interface_luid && ltb a.metric b.metric))

  -- `sort_by_key`, a stable sort.
  unfoldable pub insert_route : RouteKey → List RouteKey → List RouteKey
  insert_route a [] = a ∷ []
  insert_route a (b ∷ routes) =
      let rest = insert_route a routes in if route_before b a then b ∷ rest else a ∷ b ∷ routes

  unfoldable pub sort_routes : List RouteKey → List RouteKey
  sort_routes [] = []
  sort_routes (a ∷ routes) = insert_route a (sort_routes routes)

  unfoldable pub safe_host : ℕ → Option h.nets.Ipv4Net → Bool
  safe_host address none = false
  safe_host address (some network) =
      not (address == h.nets.network network)
      && not (address == h.broadcast network)
      && not (is_special address)

  abbrev pub safe_host_address : ℕ → ℕ → Bool
  safe_host_address address prefix_length = safe_host address (h.new_net address prefix_length)

  abbrev pub not_after : Option RouteKey → RouteKey → Bool
  not_after none route = true
  not_after (some previous) route = route_before previous route

  -- The loop of `validate` over the routes, after those of `unique`.
  unfoldable pub validate_routes :
      ℕ → List RouteKey → Option RouteKey → List RouteKey → Result ManifestError (Unit {0})
  validate_routes interface_luid unique previous [] = ok tt
  validate_routes interface_luid unique previous (route ∷ routes) = do
    require (is_project_shape route interface_luid) ManifestError.unsafe_route
    require (not (has unique route)) ManifestError.duplicate_route
    require (not_after previous route) route_order
    validate_routes interface_luid (route ∷ unique) (some route) routes

  unfoldable pub validate : NetworkManifest → Result ManifestError (Unit {0})
  validate manifest = do
    require (manifest.schema_version == network_manifest_schema) schema
    require
        (not (manifest.interface_luid == 0)
          && leb 1 manifest.prefix_length
          && leb manifest.prefix_length 30
          && safe_host_address manifest.address manifest.prefix_length)
        unsafe_address
    validate_routes manifest.interface_luid [] none manifest.routes

  unfoldable pub new_manifest :
      ManifestState → ℕ → ℕ → ℕ → List RouteKey → Result ManifestError NetworkManifest
  new_manifest state interface_luid address prefix_length routes =
      let manifest : NetworkManifest = record {
        schema_version = network_manifest_schema;
        state = state;
        interface_luid = interface_luid;
        address = address;
        prefix_length = prefix_length;
        routes = routes;
      } in
      validate manifest >> ok manifest

  -- `serde_json`: what it writes, and what it reads when nothing is left behind the value.
  pub record Json : Type 0 where
    pub to_vec : NetworkManifest → Option (List ℕ)
    pub from_slice : List ℕ → Option NetworkManifest

  abbrev pub coded : {A : Type 0} → Option A → Result ManifestError A
  coded none = err encoding
  coded (some a) = ok a

  unfoldable pub encode_manifest : Json → NetworkManifest → Result ManifestError (List ℕ)
  encode_manifest json manifest = do
    validate manifest
    bytes ← coded (json.to_vec manifest)
    require (leb (length bytes) max_manifest_bytes) size
    ok bytes

  unfoldable pub decode_manifest : Json → List ℕ → Result ManifestError NetworkManifest
  decode_manifest json bytes = do
    require (not (is_empty bytes) && leb (length bytes) max_manifest_bytes) size
    manifest ← coded (json.from_slice bytes)
    validate manifest
    ok manifest
