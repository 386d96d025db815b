-- ===== src/Updates.antt =====
-- The rollout of releases: UpdateRolloutPolicy of crates/core/src/updates.rs. A UUID and a node's id
-- are the numbers that their 16 bytes spell.
pub mod Rollout
mod Tests
use xs_nexus.Base.{
  ℕ, ◌%◌, ◌<◌, Bool, true, false, not, ◌&&◌, ◌||◌, Option, none, some, List, [], ◌∷◌, ◌++◌, ltb,
  leb, ◌==◌, if◌then◌else◌, take,
}
use xs_nexus.Base.Bytes.{be, from_be}
use xs_nexus.Base.Text.{codes}
use xs_nexus.Base.Results.{Result, ok, err, ◌>>=◌, ◌>>◌, require}

pub record ReleaseVersion : Type 0 where
  pub major : ℕ
  pub minor : ℕ
  pub patch : ℕ

-- `<` of the derived order.
unfoldable pub version_lt : ReleaseVersion → ReleaseVersion → Bool
version_lt a b =
    ltb a.major b.major
    || a.major == b.major && (ltb a.minor b.minor || a.minor == b.minor && ltb a.patch b.patch)

pub data UpdateChannel : Type 0 where
  stable testing development : UpdateChannel

abbrev pub same_channel : UpdateChannel → UpdateChannel → Bool
same_channel stable stable = true
same_channel testing testing = true
same_channel development development = true
same_channel _ _ = false

pub data UpdateDecision : Type 0 where
  channel_mismatch paused up_to_date required eligible deferred : UpdateDecision

pub data UpdatePolicyError : Type 0 where
  schema rollout minimum_exceeds_target : UpdatePolicyError

pub record UpdateRolloutPolicy : Type 0 where
  pub schema_version : ℕ
  pub release_id : ℕ
  pub channel : UpdateChannel
  pub target_version : ReleaseVersion
  pub minimum_version : Option ReleaseVersion
  pub rollout_basis_points : ℕ
  pub is_paused : Bool

abbrev pub max_rollout_basis_points : ℕ
max_rollout_basis_points = 10000

abbrev pub exceeds : Option ReleaseVersion → ReleaseVersion → Bool
exceeds none version = false
exceeds (some minimum) version = version_lt version minimum

unfoldable pub validate : UpdateRolloutPolicy → Result UpdatePolicyError (Unit {0})
validate policy = do
  require (policy.schema_version == 1) schema
  require (leb policy.rollout_basis_points max_rollout_basis_points) rollout
  require (not (exceeds policy.minimum_version policy.target_version)) minimum_exceeds_target

module _ (sha256 : List ℕ → List ℕ) where
  unfoldable pub rollout_bucket : ℕ → ℕ → ℕ → ℕ
  rollout_bucket network_id release_id node_id =
      from_be (
        take 8 (
          sha256 (
            codes "XS Nexus update rollout bucket v1"
            ++ be 16 network_id
            ++ be 16 release_id
            ++ be 16 node_id)))
      % max_rollout_basis_points

  -- What `decide` answers of a valid policy.
  unfoldable pub decision :
      UpdateRolloutPolicy → ℕ → ℕ → UpdateChannel → ReleaseVersion → UpdateDecision
  decision policy network_id node_id node_channel current =
      if not (same_channel node_channel policy.channel)
      then channel_mismatch
      else if policy.is_paused
      then paused
      else if not (version_lt current policy.target_version)
      then up_to_date
      else if exceeds policy.minimum_version current
      then required
      else if ltb (rollout_bucket network_id policy.release_id node_id) policy.rollout_basis_points
      then eligible
      else deferred

  unfoldable pub decide :
      UpdateRolloutPolicy
      → ℕ
      → ℕ
      → UpdateChannel
      → ReleaseVersion
      → Result UpdatePolicyError UpdateDecision
  decide policy network_id node_id node_channel current =
      validate policy >> ok (decision policy network_id node_id node_channel current)
