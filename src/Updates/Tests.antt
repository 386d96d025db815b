-- ===== src/Updates/Tests.antt =====
-- The rollout of crates/core/src/updates.rs at a concrete policy, with a hash whose bucket is 100.
use xs_nexus.Base.{
  ℕ, ◌≤◌, ◌≡◌, inl, inr, refl, Bool, true, false, Option, none, some, List, [], ◌∷◌, ◌++◌,
  replicate, arith,
}
use xs_nexus.Base.Results.{ok}
use xs_nexus.Updates.{
  ReleaseVersion, version_lt, UpdateChannel, same_channel, stable, UpdateDecision, required,
  eligible, deferred, UpdateRolloutPolicy, decide, max_rollout_basis_points,
}
use xs_nexus.Updates.Rollout.{with_rollout, decide_widening, decide_full, decide_forward}

abbrev digest : List ℕ → List ℕ
digest message = replicate 7 0 ++ 100 ∷ replicate 24 0

abbrev version : ℕ → ReleaseVersion
version minor = record { major = 1; minor = minor; patch = 0 }

abbrev policy : UpdateRolloutPolicy
policy = record {
  schema_version = 1;
  release_id = 7;
  channel = stable;
  target_version = version 4;
  minimum_version = some (version 2);
  rollout_basis_points = 500;
  is_paused = false;
}

offered : decide digest policy 3 4 stable (version 3) ≡ ok eligible
unfolding decide xs_nexus.Updates.validate version_lt xs_nexus.Updates.decision
    xs_nexus.Updates.rollout_bucket xs_nexus.Base.Bytes.from_be
offered = refl

-- Below the minimum the update is required.
forced : decide digest policy 3 4 stable (version 1) ≡ ok required
unfolding decide xs_nexus.Updates.validate version_lt xs_nexus.Updates.decision
forced = refl

decide_widening_example :
    decide digest (with_rollout 5000 policy) 3 4 stable (version 3) ≡ ok eligible
decide_widening_example =
    decide_widening digest policy 500 5000 3 4 stable (version 3) (omega arith) (omega arith)
      offered

none_deferred : ¬ (
    decide digest (with_rollout max_rollout_basis_points policy) 3 4 stable (version 3)
    ≡ ok deferred)
none_deferred = decide_full digest policy 3 4 stable (version 3)

decide_forward_example :
    (version_lt (version 1) policy.target_version ≡ true)
    × (same_channel stable policy.channel ≡ true)
    × (policy.is_paused ≡ false)
decide_forward_example =
    decide_forward digest policy 3 4 stable (version 1) required (inl refl) forced
