-- ===== src/Routes/Suggestion.antt =====
-- The check of a discovered subnet: `validate_subnet_route_suggestion` of crates/core/src/routes.rs.
use xs_nexus.Base.{
  ℕ, ◌≡◌, ◌≢◌, sym, ◌∙◌, Bool, true, not, ◌&&◌, Option, none, some, List, &&-true, false_of_not,
}
use xs_nexus.Base.Bytes.{bytes_eq, bytes_eq→eq}
use xs_nexus.Base.Results.{Result, ok, ◌>>=◌, ◌>>◌, require, require-passed, bind-passed, ok-eq}
use mathlib.Core.Path.{subst}
use xs_nexus.Routes.{
  Networks, IsNetworks, SubnetRouteValidationError, invalid_route, virtual_pool_overlap, found,
  networks_overlap, safe_subnet_prefix, valid_interface_name,
}
use xs_nexus.Routes.Overlap.{networks_overlap_iff}

module _ (n : Networks) where
  unfoldable pub validate_subnet_route_suggestion :
      List ℕ → List ℕ → List ℕ → Result SubnetRouteValidationError n.Ipv4Net
  validate_subnet_route_suggestion prefix interface_name address_pool = do
    parsed_prefix ← found n (n.parse_net prefix) invalid_route
    pool ← found n (n.parse_net address_pool) virtual_pool_overlap
    require
        (bytes_eq prefix (n.net_string parsed_prefix)
          && safe_subnet_prefix n parsed_prefix
          && valid_interface_name interface_name)
        invalid_route
    require (not (networks_overlap n parsed_prefix pool)) virtual_pool_overlap
    ok parsed_prefix

  found-some :
      {A : Type 0} (o : Option A) (e : SubnetRouteValidationError) {a : A}
      → found n o e ≡ ok a
      → o ≡ some a
  found-some none e h = absurd (cc)
  found-some (some b) e h = let x = ok-eq h in cc

  -- The network is safe and written as its own text, and has no address in common with the pool.
  abbrev pub IsSuggestion : List ℕ → n.Ipv4Net → n.Ipv4Net → Type 0
  IsSuggestion prefix network pool =
      (prefix ≡ n.net_string network)
      × (safe_subnet_prefix n network ≡ true)
      × ((address : ℕ) → n.contains network address ≡ true → n.contains pool address ≢ true)

  checked-IsSuggestion :
      (laws : IsNetworks n) (prefix : List ℕ) (network pool : n.Ipv4Net) (named : Bool)
      → (bytes_eq prefix (n.net_string network) && safe_subnet_prefix n network && named) ≡ true
      → not (networks_overlap n network pool) ≡ true
      → IsSuggestion prefix network pool
  checked-IsSuggestion laws prefix network pool named good apart =
      let canonical = bytes_eq prefix (n.net_string network) in
      let safe_one = safe_subnet_prefix n network in
      let (both, _) = &&-true (canonical && safe_one) named good in
      let (text, safe) = &&-true canonical safe_one both in
      (
        bytes_eq→eq prefix (n.net_string network) text,
        safe,
        λ address in_network in_pool.
            let both =
              (networks_overlap_iff n laws network pool).1 (address, in_network, in_pool) in
            let x = sym (false_of_not _ apart) ∙ both in absurd (cc),
      )

  -- A network that is taken as a suggestion is safe and written as its own text, the pool is a network,
  -- and the two have no address in common.
  pub validate_subnet_route_suggestion-IsSuggestion :
      (laws : IsNetworks n) (prefix interface_name address_pool : List ℕ) (network : n.Ipv4Net)
      → validate_subnet_route_suggestion prefix interface_name address_pool ≡ ok network
      → (pool : n.Ipv4Net) × (n.parse_net address_pool ≡ some pool)
        × IsSuggestion prefix network pool
  unfolding validate_subnet_route_suggestion
  validate_subnet_route_suggestion-IsSuggestion laws prefix interface_name address_pool network h =
      let (parsed, _, h) = bind-passed (found n (n.parse_net prefix) invalid_route) _ h in
      let (pool, read, h) =
        bind-passed (found n (n.parse_net address_pool) virtual_pool_overlap) _ h in
      let (good, h) =
        require-passed
          (bytes_eq prefix (n.net_string parsed)
            && safe_subnet_prefix n parsed
            && valid_interface_name interface_name)
          _ _ h in
      let (apart, h) = require-passed (not (networks_overlap n parsed pool)) _ _ h in
      let checked =
        checked-IsSuggestion laws prefix parsed pool (valid_interface_name interface_name) good
          apart in
      (
        pool,
        found-some (n.parse_net address_pool) virtual_pool_overlap read,
        subst (λ net. IsSuggestion prefix net pool) (ok-eq h) checked,
      )
