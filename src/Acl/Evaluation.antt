-- ===== src/Acl/Evaluation.antt =====
-- What `evaluate` of crates/core/src/acl.rs decides.
use xs_nexus.Base.{
  ℕ, ◌≡◌, ◌⊎◌, inl, inr, ◌↔◌, refl, sym, ◌∙◌, Bool, true, false, Option, none, some, List, [], ◌∷◌,
  All, Among, Bool-cases,
}
use mathlib.Core.Path.{subst}
use xs_nexus.Base.Results.{ok}
use xs_nexus.Configuration.{ConfigurationPayload, AclAction, allow, deny, AclRule, AclProtocol}
use xs_nexus.Routes.{Networks}
use xs_nexus.Acl.{
  AclPolicy, AclSubject, AclDecision, AclDecisionReason, is_allow, decision_of, rule_match,
  default_deny, unknown_source, unknown_destination, first_match, rule_matches, subject,
  evaluate_between, evaluate, compile,
}
use xs_nexus.Acl.Order.{Outranks, Sorted, compile-Sorted}

-- The answer is no, for a reason that is no rule.
abbrev pub Denies : AclDecisionReason → AclDecision → Type 0
Denies reason decision =
    (decision.allowed ≡ false) × (decision.matched_rule_id ≡ none) × (decision.reason ≡ reason)

-- The answer is yes exactly when the rule's action is to allow, and the rule's id is named.
abbrev pub Decides : AclRule → AclDecision → Type 0
Decides rule decision =
    ((decision.allowed ≡ true) ↔ (rule.action ≡ allow))
    × (decision.matched_rule_id ≡ some rule.id)
    × (decision.reason ≡ rule_match)

-- Some rule decides that applies and outranks every other rule that does, or no rule applies and
-- the answer is no.
abbrev pub IsDecision : (AclRule → Bool) → List AclRule → AclDecision → Type 0
IsDecision applies rules decision =
    (All (λ r. applies r ≡ false) rules × Denies default_deny decision)
    ⊎ ((rule : AclRule) × Among rule rules
        × (applies rule ≡ true)
        × Decides rule decision
        × All (λ r. applies r ≡ true → (r ≡ rule) ⊎ Outranks rule r) rules)

abbrev pub IsVerdict :
    AclProtocol
    → Option ℕ
    → List AclRule
    → Option AclSubject
    → Option AclSubject
    → AclDecision
    → Type 0
IsVerdict protocol port rules none destination decision = Denies unknown_source decision
IsVerdict protocol port rules (some source) none decision = Denies unknown_destination decision
IsVerdict protocol port rules (some source) (some destination) decision =
    IsDecision (rule_matches source destination protocol port) rules decision

allowed_iff : (action : AclAction) → (is_allow action ≡ true) ↔ (action ≡ allow)
allowed_iff allow = (λ _. refl, λ _. refl)
allowed_iff deny = (λ e. absurd (cc), λ e. absurd (cc))

decides : (rule : AclRule) → Decides rule (decision_of rule)
decides rule = (allowed_iff rule.action, refl, refl)

All-Outranks :
    (applies : AclRule → Bool) (a : AclRule) (rules : List AclRule)
    → All (Outranks a) rules
    → All (λ r. applies r ≡ true → (r ≡ a) ⊎ Outranks a r) rules
All-Outranks applies a [] h = tt
All-Outranks applies a (b ∷ rules) (h, hs) = (λ _. inr h, All-Outranks applies a rules hs)

skip_rule :
    (applies : AclRule → Bool) (a : AclRule) (rules : List AclRule) (decision : AclDecision)
    → applies a ≡ false
    → IsDecision applies rules decision
    → IsDecision applies (a ∷ rules) decision
skip_rule applies a rules decision h (inl (none_applies, d)) = inl ((h, none_applies), d)
skip_rule applies a rules decision h (inr (rule, among, good, d, best)) =
    inr (rule, inr among, good, d, ((λ applied. absurd (let x = sym h ∙ applied in cc)), best))

first_match-IsDecision :
    (applies : AclRule → Bool) (rules : List AclRule)
    → Sorted rules
    → IsDecision applies rules (first_match applies rules)
unfolding first_match
first_match-IsDecision applies [] h = inl (tt, (refl, refl, refl))
first_match-IsDecision applies (a ∷ rules) (here, later) = elim (Bool-cases (applies a)) [
  | inl good ↦
      let e : first_match applies (a ∷ rules) ≡ decision_of a = rw good refl in
      inr (
        a,
        inl refl,
        good,
        subst (Decides a) (sym e) (decides a),
        ((λ _. inl refl), All-Outranks applies a rules here),
      )
  | inr other ↦
      let e : first_match applies (a ∷ rules) ≡ first_match applies rules = rw other refl in
      subst (IsDecision applies (a ∷ rules)) (sym e) (
        skip_rule applies a rules (first_match applies rules) other
          (first_match-IsDecision applies rules later))
]

module _ (n : Networks) where
  evaluate_between-IsVerdict :
      (policy : AclPolicy n) (protocol : AclProtocol) (port : Option ℕ)
      → Sorted policy.rules
      → (source destination : Option AclSubject)
      → IsVerdict protocol port policy.rules source destination
          (evaluate_between n policy protocol port source destination)
  evaluate_between-IsVerdict policy protocol port h none destination = (refl, refl, refl)
  evaluate_between-IsVerdict policy protocol port h (some source) none = (refl, refl, refl)
  evaluate_between-IsVerdict policy protocol port h (some source) (some destination) =
      first_match-IsDecision (rule_matches source destination protocol port) policy.rules h

  -- Of a compiled policy `evaluate` does not allow an unknown source, then an unknown destination;
  -- between known ones a rule of the policy decides that applies and outranks every other rule that
  -- does: the answer is yes exactly when that rule's action is to allow, and names the rule; and
  -- where no rule applies the answer is no. A refusal without a rule names none, and each answer
  -- has the reason that belongs to its case.
  pub evaluate-IsVerdict :
      (configuration : ConfigurationPayload) (policy : AclPolicy n) (source destination : ℕ)
      (protocol : AclProtocol) (port : Option ℕ)
      → compile n configuration ≡ ok policy
      → IsVerdict protocol port policy.rules
          (subject n policy source)
          (subject n policy destination)
          (evaluate n policy source destination protocol port)
  unfolding evaluate
  evaluate-IsVerdict configuration policy source destination protocol port h =
      evaluate_between-IsVerdict policy protocol port (compile-Sorted n configuration policy h)
        (subject n policy source) (subject n policy destination)
