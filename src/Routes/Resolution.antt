-- ===== src/Routes/Resolution.antt =====
-- What `compile` of crates/core/src/routes.rs accepts, and the route that `resolve_destination`
-- takes of it.
use xs_nexus.Base.{
  Among, ℕ, ◌<◌, ◌≤◌, ◌≡◌, ◌≢◌, ◌⊎◌, inl, inr, refl, sym, ap, ◌∙◌, Bool, true, false, not, ◌&&◌,
  ◌||◌, Option, none, some, List, [], ◌∷◌, ltb, leb, ◌==◌, All, length, arith, Bool-cases, &&-true,
  false_of_not,
}
use mathlib.Core.Path.{subst}
use xs_nexus.Base.Bytes.{bytes_eq}
use xs_nexus.Base.Results.{ok, require, require-passed, bind-passed, ok-eq}
use xs_nexus.Routes.{
  Networks, IsNetworks, CompiledSubnetRoute, SubnetRoutePolicy, networks_overlap, out_of_order,
  validate_order_from, validate_order, validate_pair, validate_against, validate_overlap,
  validate_order_and_overlap, found, collect_gateways, compile_routes, compile, find_route, usable,
  resolve_destination, overlapping_route, virtual_pool_overlap,
}
use xs_nexus.Configuration.{ConfigurationPayload, string_lt}
use xs_nexus.Routes.Overlap.{contains-network, networks_overlap_iff}

in_order :
    (nb nc lb lc pb pc : ℕ) (same ids : Bool)
    → (ltb nc nb || nb == nc && ltb lc lb || same && ltb pb pc || same && pb == pc && ids) ≡ false
    → ((nb < nc) ⊎ (nb ≡ nc) × (lb ≤ lc)) × (same ≡ true → pc ≤ pb)
in_order nb nc lb lc pb pc same ids h = ground arith

differ : (a b : ℕ) → not (a == b) ≡ true → a ≢ b
differ a b h = ground arith

same_place :
    (na nb nc : ℕ) {A B : Type 0}
    → (na < nb) ⊎ (na ≡ nb) × A
    → (nb < nc) ⊎ (nb ≡ nc) × B
    → na ≡ nc
    → na ≡ nb
same_place na nb nc ab bc e = ground (arith, ab, bc)

module _ (n : Networks) (laws : IsNetworks n) where
  -- A route that comes later has the same prefix and a lower priority, or has no address in common.
  abbrev pub Behind : CompiledSubnetRoute n → CompiledSubnetRoute n → Type 0
  Behind a b =
      (a.prefix ≡ b.prefix) × (b.priority < a.priority)
      ⊎ (networks_overlap n a.prefix b.prefix ≡ false)

  abbrev pub Ranked : List (CompiledSubnetRoute n) → Type 0
  Ranked [] = Unit {0}
  Ranked (a ∷ routes) = All (Behind a) routes × Ranked routes

  abbrev Before : CompiledSubnetRoute n → CompiledSubnetRoute n → Type 0
  Before a b =
      (n.network a.prefix < n.network b.prefix)
      ⊎ (n.network a.prefix ≡ n.network b.prefix) × (n.prefix_len a.prefix ≤ n.prefix_len b.prefix)

  -- What the walk along the list knows of the route it comes from and the one it has reached.
  record Reached (a b : CompiledSubnetRoute n) : Type 0 where
    before : Before a b
    one_net : n.network a.prefix ≡ n.network b.prefix → a.prefix ≡ b.prefix
    ranked : a.prefix ≡ b.prefix → b.priority ≤ a.priority

  require-true : {E : Type 0} (b : Bool) (e : E) → require b e ≡ ok tt → b ≡ true
  require-true true e h = refl
  require-true false e h = absurd (cc)

  pair_cases :
      (a c : CompiledSubnetRoute n)
      → validate_pair n a c ≡ ok tt
      → (a.prefix ≡ c.prefix) × (a.priority ≢ c.priority)
        ⊎ (networks_overlap n a.prefix c.prefix ≡ false)
  unfolding validate_pair
  pair_cases a c h = elim (Bool-cases (bytes_eq a.route_id c.route_id)) [
    | inl twice ↦ absurd (let x = rw twice at h in cc)
    | inr unlike ↦
        let h = rw unlike at h in
        elim (Bool-cases (n.same_net a.prefix c.prefix)) [
          | inl same ↦
              let x =
                require-true (not (a.priority == c.priority)) overlapping_route (rw same at h) in
              inl ((laws.same_net_iff a.prefix c.prefix).0 same, differ a.priority c.priority x)
          | inr other ↦
              let x =
                require-true (not (networks_overlap n a.prefix c.prefix)) overlapping_route
                  (rw other at h) in
              inr (false_of_not _ x)
        ]
  ]

  overlap_of_network :
      (a c : CompiledSubnetRoute n)
      → n.network a.prefix ≡ n.network c.prefix
      → networks_overlap n a.prefix c.prefix ≡ true
  overlap_of_network a c e = (networks_overlap_iff n laws a.prefix c.prefix).1 (
    n.network a.prefix,
    contains-network n laws a.prefix,
    rw e (contains-network n laws c.prefix),
  )

  -- One step along the list.
  reach :
      (a b c : CompiledSubnetRoute n)
      → Reached a b
      → out_of_order n b c ≡ false
      → validate_pair n a c ≡ ok tt
      → Reached a c × Behind a c
  unfolding out_of_order
  reach a b c r ordered pair =
      let (before, ranked) =
        in_order (n.network b.prefix) (n.network c.prefix) (n.prefix_len b.prefix)
          (n.prefix_len c.prefix) b.priority c.priority (n.same_net b.prefix c.prefix)
          (not (string_lt b.route_id c.route_id)) ordered in
      let cases = pair_cases a c pair in
      let lower : a.prefix ≡ c.prefix → c.priority ≤ a.priority = λ same.
        let ab = r.one_net (
          same_place (n.network a.prefix) (n.network b.prefix) (n.network c.prefix) r.before before
            (ap n.network same)) in
        omega
          (arith, r.ranked ab, ranked ((laws.same_net_iff b.prefix c.prefix).1 (sym ab ∙ same))) in
      (
        record {
          before = omega (arith, r.before, before);
          one_net = λ e. elim cases [
            | inl same ↦ same.0
            | inr apart ↦ absurd (let x = sym apart ∙ overlap_of_network a c e in cc)
          ];
          ranked = lower;
        },
        elim cases [
          | inl same ↦ inl (same.0, omega (arith, lower same.0, same.1))
          | inr apart ↦ inr apart
        ],
      )

  walk :
      (a b : CompiledSubnetRoute n) (routes : List (CompiledSubnetRoute n))
      → Reached a b
      → validate_order_from n b routes ≡ ok tt
      → validate_against n a routes ≡ ok tt
      → All (Behind a) routes
  unfolding validate_order_from validate_against
  walk a b [] r ordered apart = tt
  walk a b (c ∷ routes) r ordered apart =
      let (step, ordered) = require-passed (not (out_of_order n b c)) _ _ ordered in
      let (_, pair, apart) = bind-passed (validate_pair n a c) _ apart in
      let (reached, behind) = reach a b c r (false_of_not _ step) pair in
      (behind, walk a c routes reached ordered apart)

  rest_ordered :
      (a : CompiledSubnetRoute n) (routes : List (CompiledSubnetRoute n))
      → validate_order_from n a routes ≡ ok tt
      → validate_order n routes ≡ ok tt
  unfolding validate_order_from
  rest_ordered a [] h = refl
  rest_ordered a (c ∷ routes) h = (require-passed (not (out_of_order n a c)) _ _ h).1

  walk_all :
      (routes : List (CompiledSubnetRoute n))
      → validate_order n routes ≡ ok tt
      → validate_overlap n routes ≡ ok tt
      → Ranked routes
  unfolding validate_order_from validate_overlap
  walk_all [] ordered apart = tt
  walk_all (a ∷ routes) ordered apart =
      let (_, here, later) = bind-passed (validate_against n a routes) _ apart in
      let from : Reached a a = record {
        before = inr (refl, omega arith);
        one_net = λ e. refl;
        ranked = λ e. omega arith;
      } in
      (walk a a routes from ordered here, walk_all routes (rest_ordered a routes ordered) later)

  validated-Ranked :
      (routes : List (CompiledSubnetRoute n))
      → validate_order_and_overlap n routes ≡ ok tt
      → Ranked routes
  unfolding validate_order_and_overlap
  validated-Ranked routes h =
      let (_, ordered, apart) = bind-passed (validate_order n routes) _ h in
      walk_all routes ordered apart

  -- The routes of a compiled policy are ranked: of two of them the earlier has the same prefix and the
  -- higher priority, or they have no address in common.
  pub compile-Ranked :
      (configuration : ConfigurationPayload) (policy : SubnetRoutePolicy n)
      → compile n configuration ≡ ok policy
      → Ranked policy.routes
  unfolding compile
  compile-Ranked configuration policy h =
      let (_, h) = require-passed (leb (length configuration.subnet_routes) 256) _ _ h in
      let (pool, _, h) =
        bind-passed (found n (n.parse_net configuration.address_pool) virtual_pool_overlap) _ h in
      let (gateways, _, h) = bind-passed (collect_gateways n [] configuration.nodes) _ h in
      let (compiled, _, h) =
        bind-passed (compile_routes n pool gateways [] configuration.subnet_routes) _ h in
      let (_, valid, h) = bind-passed (validate_order_and_overlap n compiled) _ h in
      subst (λ (p : SubnetRoutePolicy n). Ranked p.routes) (ok-eq h)
        (validated-Ranked compiled valid)

  -- What a search must answer: a route that serves, before all others that do, or none that does.
  abbrev pub IsBest :
      (CompiledSubnetRoute n → Bool)
      → List (CompiledSubnetRoute n)
      → Option (CompiledSubnetRoute n)
      → Type 0
  IsBest serves routes none = All (λ r. serves r ≡ false) routes
  IsBest serves routes (some best) =
      Among best routes
      × (serves best ≡ true)
      × All (λ r. serves r ≡ true → (r.prefix ≡ best.prefix) × (r.priority ≤ best.priority)) routes

  -- An address in two routes, of which one is behind.
  Behind-serving :
      (a b : CompiledSubnetRoute n) (address : ℕ)
      → Behind a b
      → n.contains a.prefix address ≡ true
      → n.contains b.prefix address ≡ true
      → (b.prefix ≡ a.prefix) × (b.priority ≤ a.priority)
  Behind-serving a b address (inl (same, lower)) ha hb = (sym same, omega (arith, lower))
  Behind-serving a b address (inr apart) ha hb = absurd (
      let x = sym apart ∙ (networks_overlap_iff n laws a.prefix b.prefix).1 (address, ha, hb) in cc)

  All-Behind :
      (policy : SubnetRoutePolicy n) (destination now : ℕ) (a : CompiledSubnetRoute n)
      (routes : List (CompiledSubnetRoute n))
      → usable n policy destination now a ≡ true
      → All (Behind a) routes
      → All
          (λ r.
            usable n policy destination now r ≡ true
            → (r.prefix ≡ a.prefix) × (r.priority ≤ a.priority))
          routes
  All-Behind policy destination now a [] ha h = tt
  All-Behind policy destination now a (b ∷ routes) ha (h, hs) = (
    λ hb.
        Behind-serving a b destination h (&&-true (n.contains a.prefix destination) _ ha).0
          (&&-true (n.contains b.prefix destination) _ hb).0,
    All-Behind policy destination now a routes ha hs,
  )

  skip :
      (serves : CompiledSubnetRoute n → Bool) (a : CompiledSubnetRoute n)
      (routes : List (CompiledSubnetRoute n)) (o : Option (CompiledSubnetRoute n))
      → serves a ≡ false
      → IsBest serves routes o
      → IsBest serves (a ∷ routes) o
  skip serves a routes none h best = (h, best)
  skip serves a routes (some r) h (among, good, best) =
      (inr among, good, (λ served. absurd (let x = sym h ∙ served in cc), best))

  search-IsBest :
      (policy : SubnetRoutePolicy n) (destination now : ℕ) (routes : List (CompiledSubnetRoute n))
      → Ranked routes
      → IsBest
          (usable n policy destination now)
          routes
          (find_route n (usable n policy destination now) routes)
  unfolding find_route
  search-IsBest policy destination now [] h = tt
  search-IsBest policy destination now (a ∷ routes) (here, later) =
      elim (Bool-cases (usable n policy destination now a)) [
        | inl serves ↦ rw serves (
          inl refl,
          serves,
          (λ _. (refl, omega arith), All-Behind policy destination now a routes serves here),
        )
        | inr not_it ↦ rw not_it (
            skip (usable n policy destination now) a routes
              (find_route n (usable n policy destination now) routes) not_it
              (search-IsBest policy destination now routes later))
      ]

  -- Of a compiled policy `resolve_destination` answers a route of it that contains the destination
  -- and whose gateway is available; every other such route has the same prefix and no higher
  -- priority. When it answers none, there is no such route.
  pub resolve_destination-IsBest :
      (configuration : ConfigurationPayload) (policy : SubnetRoutePolicy n) (destination now : ℕ)
      → compile n configuration ≡ ok policy
      → IsBest
          (usable n policy destination now)
          policy.routes
          (resolve_destination n policy destination now)
  unfolding resolve_destination
  resolve_destination-IsBest configuration policy destination now h =
      search-IsBest policy destination now policy.routes (compile-Ranked configuration policy h)
