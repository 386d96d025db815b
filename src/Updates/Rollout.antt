-- ===== src/Updates/Rollout.antt =====
-- What the rollout of crates/core/src/updates.rs promises to a node.
use xs_nexus.Base.{List, ℕ, ◌≤◌, ◌≡◌, ◌⊎◌, refl, true, false, leb, ◌==◌, arith}
use xs_nexus.Base.Results.{ok, require-passed, bind-passed, ok-eq}
use xs_nexus.Updates.{
  ReleaseVersion, version_lt, UpdateChannel, same_channel, UpdateDecision, required, eligible,
  deferred, UpdateRolloutPolicy, validate, rollout_bucket, decision, decide,
  max_rollout_basis_points,
}

abbrev pub with_rollout : ℕ → UpdateRolloutPolicy → UpdateRolloutPolicy
with_rollout points policy = record policy { rollout_basis_points = points }

validate_widening :
    (policy : UpdateRolloutPolicy) (low high : ℕ)
    → high ≤ max_rollout_basis_points
    → validate (with_rollout low policy) ≡ ok tt
    → validate (with_rollout high policy) ≡ ok tt
unfolding validate
validate_widening policy low high h valid =
    let (version, v) = require-passed (policy.schema_version == 1) _ _ valid in
    let (_, v) = require-passed (leb low max_rollout_basis_points) _ _ v in
    let fits : leb high max_rollout_basis_points ≡ true = ground arith in rw (version, fits) v

module _ (sha256 : List ℕ → List ℕ) where
  decision_widening :
      (policy : UpdateRolloutPolicy) (low high network_id node_id : ℕ) (channel : UpdateChannel)
      (current : ReleaseVersion)
      → low ≤ high
      → decision sha256 (with_rollout low policy) network_id node_id channel current ≡ eligible
      → decision sha256 (with_rollout high policy) network_id node_id channel current ≡ eligible
  unfolding decision
  decision_widening policy low high network_id node_id channel current h offered = ground arith

  -- A node that a rollout makes eligible stays eligible when the rollout is widened.
  pub decide_widening :
      (policy : UpdateRolloutPolicy) (low high network_id node_id : ℕ) (channel : UpdateChannel)
      (current : ReleaseVersion)
      → low ≤ high
      → high ≤ max_rollout_basis_points
      → decide sha256 (with_rollout low policy) network_id node_id channel current ≡ ok eligible
      → decide sha256 (with_rollout high policy) network_id node_id channel current ≡ ok eligible
  unfolding decide
  decide_widening policy low high network_id node_id channel current h bound offered =
      let (_, valid, d) = bind-passed (validate (with_rollout low policy)) _ offered in
      let v = validate_widening policy low high bound valid in
      let e = decision_widening policy low high network_id node_id channel current h (ok-eq d) in
      rw (v, e) refl

  -- A rollout to all nodes defers none.
  pub decide_full :
      (policy : UpdateRolloutPolicy) (network_id node_id : ℕ) (channel : UpdateChannel)
      (current : ReleaseVersion)
      → ¬ (
          decide sha256
            (with_rollout max_rollout_basis_points policy)
            network_id
            node_id
            channel
            current
          ≡ ok deferred)
  unfolding decide decision rollout_bucket
  decide_full policy network_id node_id channel current h =
      let (_, _, d) = bind-passed (validate (with_rollout max_rollout_basis_points policy)) _ h in
      let e = ok-eq d in ground arith

  -- A node is told to update only to a newer version of its channel, while the rollout is not paused.
  pub decide_forward :
      (policy : UpdateRolloutPolicy) (network_id node_id : ℕ) (channel : UpdateChannel)
      (current : ReleaseVersion) (answer : UpdateDecision)
      → (answer ≡ required) ⊎ (answer ≡ eligible)
      → decide sha256 policy network_id node_id channel current ≡ ok answer
      → (version_lt current policy.target_version ≡ true)
        × (same_channel channel policy.channel ≡ true)
        × (policy.is_paused ≡ false)
  unfolding decide decision
  decide_forward policy network_id node_id channel current answer offers h =
      let (_, _, d) = bind-passed (validate policy) _ h in let e = ok-eq d in ground arith
