-- ===== src/Acl.antt =====
-- Access rules: `AclPolicy` of crates/core/src/acl.rs. A set of names is the list it is made from.
pub mod Order
pub mod Evaluation
mod Tests
use xs_nexus.Base.{
  ℕ, zero, suc, ◌+◌, ◌≤◌, ◌<◌, ◌≡◌, Bool, true, false, not, ◌&&◌, ◌||◌, Option, none, some, List,
  [], ◌∷◌, ◌++◌, ltb, leb, ◌==◌, if◌then◌else◌, length, is_empty, any, all, nat_key, lookup, insert,
}
use xs_nexus.Base.Bytes.{bytes_eq}
use xs_nexus.Base.Text.{codes}
use xs_nexus.Base.Results.{Result, ok, err, ◌>>=◌, ◌>>◌, require}
use xs_nexus.Configuration.{
  ConfigurationNode, ConfigurationSubnetRoute, ConfigurationPayload, AclAction, allow, deny,
  AclProtocol, any_protocol, tcp, udp, icmp, AclSelector, any_selector, node_selector,
  group_selector, tag_selector, subnet_selector, PortRange, AclRule, string_lt, is_lowercase,
  is_uppercase, is_digit, is_mark, known,
}
use xs_nexus.Routes.{Networks, SubnetRoutePolicy, contains_prefix}
use xs_nexus.Routes

pub data AclDecisionReason : Type 0 where
  rule_match default_deny unknown_source unknown_destination : AclDecisionReason

pub record AclDecision : Type 0 where
  pub allowed : Bool
  pub matched_rule_id : Option (List ℕ)
  pub reason : AclDecisionReason

pub data AclValidationError : Type 0 where
  invalid_policy_version rule_count rule_order duplicate_rule : AclValidationError
  invalid_rule invalid_selector invalid_port_range duplicate_node : AclValidationError

pub data AclSubject : Type 0 where
  node_subject : List ℕ → List (List ℕ) → List (List ℕ) → AclSubject
  subnet_subject : List ℕ → AclSubject

unfoldable pub in_range : PortRange → ℕ → Bool
in_range range port = leb range.start port && leb port range.end

abbrev pub name_start : ℕ → Bool
name_start byte = is_lowercase byte || is_digit byte

unfoldable pub valid_acl_name : List ℕ → Bool
valid_acl_name [] = false
valid_acl_name (first ∷ rest) =
    leb (length (first ∷ rest)) 64
    && name_start first
    && all (λ byte. name_start byte || is_mark byte) rest

-- The marks of a name, `:` and `/`.
unfoldable pub valid_tag : List ℕ → Bool
valid_tag [] = false
valid_tag (first ∷ rest) =
    leb (length (first ∷ rest)) 63
    && is_lowercase first
    && all (λ byte. is_lowercase byte || is_digit byte || is_mark byte || byte == 58 || byte == 47)
        (first ∷ rest)

unfoldable pub valid_node_id_selector : List ℕ → Bool
valid_node_id_selector value =
    not (is_empty value)
    && leb (length value) 64
    && all
        (λ byte.
          is_lowercase byte || is_uppercase byte || is_digit byte || byte == 95 || byte == 45)
        value

-- `values.windows(2).all(|pair| pair[0] < pair[1])`
unfoldable pub ascends : List (List ℕ) → Bool
ascends [] = true
ascends (a ∷ []) = true
ascends (a ∷ b ∷ values) = string_lt a b && ascends (b ∷ values)

unfoldable pub canonical_group_set : List (List ℕ) → Bool
canonical_group_set values = leb (length values) 32 && all valid_acl_name values && ascends values

unfoldable pub canonical_tag_set : List (List ℕ) → Bool
canonical_tag_set values = leb (length values) 32 && all valid_tag values && ascends values

unfoldable pub selector_matches : AclSubject → AclSelector → Bool
selector_matches subject any_selector = true
selector_matches (node_subject id groups tags) (node_selector selected) = bytes_eq selected id
selector_matches (node_subject id groups tags) (group_selector name) = any (bytes_eq name) groups
selector_matches (node_subject id groups tags) (tag_selector name) = any (bytes_eq name) tags
selector_matches (node_subject id groups tags) (subnet_selector cidr) = false
selector_matches (subnet_subject subnet) (node_selector selected) = false
selector_matches (subnet_subject subnet) (group_selector name) = false
selector_matches (subnet_subject subnet) (tag_selector name) = false
selector_matches (subnet_subject subnet) (subnet_selector cidr) = bytes_eq cidr subnet

unfoldable pub selectors_match : List AclSelector → AclSubject → Bool
unfolding selector_matches
selectors_match selectors subject = any (selector_matches subject) selectors

unfoldable pub protocol_matches : AclProtocol → AclProtocol → Bool
protocol_matches any_protocol packet = true
protocol_matches tcp tcp = true
protocol_matches udp udp = true
protocol_matches icmp icmp = true
protocol_matches _ _ = false

abbrev pub port_in : List PortRange → Option ℕ → Bool
port_in ranges none = false
port_in ranges (some port) = any (λ range. in_range range port) ranges

unfoldable pub port_matches : AclRule → Option ℕ → Bool
port_matches rule destination_port =
    if is_empty rule.destination_ports
    then true
    else port_in rule.destination_ports destination_port

-- The condition of `evaluate`'s loop.
unfoldable pub rule_matches : AclSubject → AclSubject → AclProtocol → Option ℕ → AclRule → Bool
rule_matches source destination protocol port rule =
    selectors_match rule.sources source
    && selectors_match rule.destinations destination
    && protocol_matches rule.protocol protocol
    && port_matches rule port

abbrev pub is_allow : AclAction → Bool
is_allow allow = true
is_allow deny = false

abbrev pub denied : AclDecisionReason → AclDecision
denied reason = record { allowed = false; matched_rule_id = none; reason = reason }

abbrev pub decision_of : AclRule → AclDecision
decision_of rule = record {
  allowed = is_allow rule.action;
  matched_rule_id = some rule.id;
  reason = rule_match;
}

unfoldable pub first_match : (AclRule → Bool) → List AclRule → AclDecision
first_match p [] = denied default_deny
first_match p (rule ∷ rules) = if p rule then decision_of rule else first_match p rules

-- The tests of `compile` on two rules in sequence.
unfoldable pub out_of_order : AclRule → AclRule → Bool
out_of_order previous rule =
    ltb previous.priority rule.priority
    || previous.priority == rule.priority && not (string_lt previous.id rule.id)

abbrev pub follows : Option AclRule → AclRule → Bool
follows none rule = true
follows (some previous) rule = not (out_of_order previous rule)

abbrev pub takes_ports : AclProtocol → Bool
takes_ports tcp = true
takes_ports udp = true
takes_ports _ = false

unfoldable pub valid_rule : AclRule → Bool
valid_rule rule =
    not (rule.priority == 0)
    && valid_acl_name rule.id
    && not (is_empty rule.sources)
    && leb (length rule.sources) 32
    && not (is_empty rule.destinations)
    && leb (length rule.destinations) 32
    && leb (length rule.destination_ports) 64
    && (is_empty rule.destination_ports || takes_ports rule.protocol)

abbrev pub after_end : Option ℕ → ℕ → Bool
after_end none start = true
after_end (some end) start = ltb end start

unfoldable pub validate_ports : Option ℕ → List PortRange → Result AclValidationError (Unit {0})
validate_ports previous_end [] = ok tt
validate_ports previous_end (range ∷ ranges) =
    require
      (not (range.start == 0) && leb range.start range.end && after_end previous_end range.start)
      invalid_port_range
    >> validate_ports (some range.end) ranges

abbrev pub is_any : AclSelector → Bool
is_any any_selector = true
is_any _ = false

abbrev pub or_error : {A : Type 0} → Option A → AclValidationError → Result AclValidationError A
or_error none e = err e
or_error (some a) e = ok a

abbrev pub named : Bool → List ℕ → List ℕ → Result AclValidationError (List ℕ)
named valid kind name = require valid invalid_selector >> ok (kind ++ name)

module _ (n : Networks) where
  pub record AclPolicy : Type 0 where
    pub rules : List AclRule
    pub subjects : List (ℕ × AclSubject)
    pub subnet_subjects : List (n.Ipv4Net × AclSubject)

  -- The canonical key of a selector.
  unfoldable pub selector_key :
      SubnetRoutePolicy n → AclSelector → Result AclValidationError (List ℕ)
  selector_key subnet_routes any_selector = ok (codes "any")
  selector_key subnet_routes (node_selector id) =
      named (valid_node_id_selector id) (codes "node:") id
  selector_key subnet_routes (group_selector name) =
      named (valid_acl_name name) (codes "group:") name
  selector_key subnet_routes (tag_selector name) = named (valid_tag name) (codes "tag:") name
  selector_key subnet_routes (subnet_selector cidr) = do
    prefix ← or_error (n.parse_net cidr) invalid_selector
    require (bytes_eq cidr (n.net_string prefix) && contains_prefix n subnet_routes prefix)
        invalid_selector
    ok (codes "subnet:" ++ cidr)

  unfoldable pub validate_keys :
      SubnetRoutePolicy n → List (List ℕ) → List AclSelector → Result AclValidationError (Unit {0})
  validate_keys subnet_routes canonical [] = ok tt
  validate_keys subnet_routes canonical (selector ∷ selectors) = do
    key ← selector_key subnet_routes selector
    require (not (any (bytes_eq key) canonical)) invalid_selector
    validate_keys subnet_routes (key ∷ canonical) selectors

  unfoldable pub validate_selectors :
      SubnetRoutePolicy n → List AclSelector → Result AclValidationError (Unit {0})
  validate_selectors subnet_routes selectors =
      require (not (any is_any selectors && not (length selectors == 1))) invalid_selector
      >> validate_keys subnet_routes [] selectors

  unfoldable pub validate_rule :
      AclRule → SubnetRoutePolicy n → Result AclValidationError (Unit {0})
  validate_rule rule subnet_routes = do
    require (valid_rule rule) invalid_rule
    validate_selectors subnet_routes rule.sources
    validate_selectors subnet_routes rule.destinations
    validate_ports none rule.destination_ports

  unfoldable pub validate_rules :
      SubnetRoutePolicy n
      → Option AclRule
      → List (List ℕ)
      → List AclRule
      → Result AclValidationError (Unit {0})
  validate_rules subnet_routes previous rule_ids [] = ok tt
  validate_rules subnet_routes previous rule_ids (rule ∷ rules) = do
    require (follows previous rule) rule_order
    require (not (any (bytes_eq rule.id) rule_ids)) duplicate_rule
    validate_rule rule subnet_routes
    validate_rules subnet_routes (some rule) (rule.id ∷ rule_ids) rules

  unfoldable pub collect_subjects :
      List (ℕ × AclSubject)
      → List ConfigurationNode
      → Result AclValidationError (List (ℕ × AclSubject))
  collect_subjects subjects [] = ok subjects
  collect_subjects subjects (node ∷ nodes) = do
    virtual_ip ← or_error (n.parse_address node.virtual_ip) duplicate_node
    require
        (canonical_group_set node.groups
          && canonical_tag_set node.tags
          && not (known (lookup virtual_ip subjects)))
        duplicate_node
    collect_subjects
        (insert virtual_ip (node_subject node.node_id_base64 node.groups node.tags) subjects) nodes

  unfoldable pub collect_subnets :
      List n.Ipv4Net
      → List ConfigurationSubnetRoute
      → Result AclValidationError (List (n.Ipv4Net × AclSubject))
  collect_subnets seen [] = ok []
  collect_subnets seen (route ∷ routes) = do
    prefix ← or_error (n.parse_net route.prefix) invalid_selector
    rest ← collect_subnets (prefix ∷ seen) routes
    ok (if any (n.same_net prefix) seen then rest else (prefix, subnet_subject route.prefix) ∷ rest)

  abbrev pub as_selector_error : {E A : Type 0} → Result E A → Result AclValidationError A
  as_selector_error (ok a) = ok a
  as_selector_error (err e) = err invalid_selector

  unfoldable pub compile : ConfigurationPayload → Result AclValidationError AclPolicy
  compile configuration = do
    require (not (configuration.policy_version == 0)) invalid_policy_version
    require (leb (length configuration.policies) 4096) rule_count
    subjects ← collect_subjects [] configuration.nodes
    subnet_routes ← as_selector_error (Routes.compile n configuration)
    subnet_subjects ← collect_subnets [] configuration.subnet_routes
    validate_rules subnet_routes none [] configuration.policies
    ok (record {
      rules = configuration.policies;
      subjects = subjects;
      subnet_subjects = subnet_subjects;
    })

  unfoldable pub subnet_of : List (n.Ipv4Net × AclSubject) → ℕ → Option AclSubject
  subnet_of [] address = none
  subnet_of ((prefix, subject) ∷ subnets) address =
      if n.contains prefix address then some subject else subnet_of subnets address

  abbrev pub or_else : {A : Type 0} → Option A → Option A → Option A
  or_else none other = other
  or_else (some a) other = some a

  unfoldable pub subject : AclPolicy → ℕ → Option AclSubject
  unfolding subnet_of
  subject policy address =
      or_else (lookup address policy.subjects) (subnet_of policy.subnet_subjects address)

  abbrev pub evaluate_between :
      AclPolicy → AclProtocol → Option ℕ → Option AclSubject → Option AclSubject → AclDecision
  evaluate_between policy protocol port none destination = denied unknown_source
  evaluate_between policy protocol port (some source) none = denied unknown_destination
  evaluate_between policy protocol port (some source) (some destination) =
      first_match (rule_matches source destination protocol port) policy.rules

  unfoldable pub evaluate : AclPolicy → ℕ → ℕ → AclProtocol → Option ℕ → AclDecision
  unfolding subject
  evaluate policy source destination protocol port =
      evaluate_between policy protocol port (subject policy source) (subject policy destination)
