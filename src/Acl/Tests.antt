-- ===== src/Acl/Tests.antt =====
-- The access rules of crates/core/src/acl.rs at a concrete configuration: a node that may open the
-- web ports of its subnet, and a rule behind it that denies the rest.
use xs_nexus.Base.{ℕ, ◌+◌, ◌*◌, ◌^◌, ◌≡◌, refl, Option, none, some, List, [], ◌∷◌, arith}
use xs_nexus.Base.Bytes.{bytes_eq}
use xs_nexus.Base.Text.{codes}
use xs_nexus.Base.Results.{ok}
use xs_nexus.Configuration.{
  ConfigurationPayload, AclRule, allow, deny, any_protocol, tcp, any_selector, node_selector,
  subnet_selector,
}
use xs_nexus.Routes.Tests.{toy, node, route}
use xs_nexus.Acl.{
  AclPolicy, AclDecision, decision_of, node_subject, subnet_subject, subject, evaluate, compile,
}
use xs_nexus.Acl.Order.{Sorted, compile-Sorted}
use xs_nexus.Acl.Evaluation.{IsVerdict, evaluate-IsVerdict}

abbrev web : AclRule
web = record {
  id = codes "web";
  priority = 10;
  action = allow;
  sources = node_selector (codes "A") ∷ [];
  destinations = subnet_selector (10 ∷ 8 ∷ []) ∷ [];
  protocol = tcp;
  destination_ports = record { start = 80; end = 443 } ∷ [];
}

abbrev rest : AclRule
rest = record {
  id = codes "rest";
  priority = 1;
  action = deny;
  sources = any_selector ∷ [];
  destinations = any_selector ∷ [];
  protocol = any_protocol;
  destination_ports = [];
}

abbrev configuration : ConfigurationPayload
configuration = record {
  policy_version = 1;
  address_pool = 100 ∷ 10 ∷ [];
  nodes = node (codes "A") ∷ [];
  policies = web ∷ rest ∷ [];
  subnet_routes = route (codes "a") 10 (codes "A") 20 ∷ [];
}

abbrev policy : AclPolicy toy
policy = record {
  rules = web ∷ rest ∷ [];
  subjects = (1, node_subject (codes "A") [] []) ∷ [];
  subnet_subjects = ((10 * 2 ^ 24, 8), subnet_subject (10 ∷ 8 ∷ [])) ∷ [];
}

policy_compiled : compile toy configuration ≡ ok policy
unfolding compile xs_nexus.Acl.collect_subjects xs_nexus.Acl.canonical_group_set
    xs_nexus.Acl.ascends xs_nexus.Acl.canonical_tag_set xs_nexus.Base.lookup xs_nexus.Routes.compile
    xs_nexus.Routes.collect_gateways xs_nexus.Routes.compile_routes xs_nexus.Routes.compile_route
    xs_nexus.Routes.valid_route_id xs_nexus.Routes.valid_interface_name bytes_eq
    xs_nexus.Routes.safe_subnet_prefix xs_nexus.Routes.networks_overlap xs_nexus.Base.insert
    xs_nexus.Routes.validate_order_and_overlap xs_nexus.Routes.validate_order_from
    xs_nexus.Acl.collect_subnets xs_nexus.Acl.out_of_order xs_nexus.Acl.selector_key
    xs_nexus.Acl.valid_acl_name xs_nexus.Acl.valid_node_id_selector xs_nexus.Acl.valid_rule
    xs_nexus.Acl.validate_keys xs_nexus.Acl.validate_ports xs_nexus.Acl.validate_rule
    xs_nexus.Acl.validate_rules xs_nexus.Acl.validate_selectors xs_nexus.Routes.contains_prefix
    xs_nexus.Routes.validate_against xs_nexus.Routes.validate_overlap
policy_compiled = refl

-- The node opens port 443 of its subnet.
node_opens_web : evaluate toy policy 1 (10 * 2 ^ 24 + 7) tcp (some 443) ≡ decision_of web
unfolding evaluate xs_nexus.Base.lookup xs_nexus.Acl.first_match xs_nexus.Acl.rule_matches
    xs_nexus.Acl.selectors_match bytes_eq xs_nexus.Acl.protocol_matches xs_nexus.Acl.port_matches
    xs_nexus.Acl.in_range
node_opens_web = refl

compile-Sorted_example : Sorted policy.rules
compile-Sorted_example = compile-Sorted toy configuration policy policy_compiled

evaluate-IsVerdict_example :
    IsVerdict tcp
      (some 443)
      policy.rules
      (subject toy policy 1)
      (subject toy policy (10 * 2 ^ 24 + 7))
      (evaluate toy policy 1 (10 * 2 ^ 24 + 7) tcp (some 443))
evaluate-IsVerdict_example =
    evaluate-IsVerdict toy configuration policy 1 (10 * 2 ^ 24 + 7) tcp (some 443) policy_compiled
