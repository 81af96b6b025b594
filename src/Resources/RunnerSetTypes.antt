-- ===== src/Resources/RunnerSetTypes.antt =====
-- api/v1alpha2/runnerset_types.go. A counter of the status is an `int32` that counts runners.
use octorun.Base.{ℕ, Option, List, String, ℤ}
use octorun.Resources.Meta.{ObjectMeta, Condition}
use octorun.Resources.RunnerTypes.{RunnerTemplateSpec, Raw}

-- `unset_strategy` is the empty string of an object stored before the field had a default.
pub data RunnerSetUpdateStrategyType : Type 0 where
  unset_strategy rolling_update on_delete : RunnerSetUpdateStrategyType

pub record RunnerSetSpec : Type 0 where
  pub runners : Option ℤ
  pub selector : Raw
  pub update_strategy : RunnerSetUpdateStrategyType
  pub revision_history_limit : Option ℤ
  pub template : RunnerTemplateSpec

pub record RunnerSetStatus : Type 0 where
  pub runners : ℕ
  pub idle_runners : ℕ
  pub active_runners : ℕ
  pub current_revision : String
  pub next_revision : String
  pub collision_count : Option ℤ
  pub conditions : List Condition
  pub selector : String

pub record RunnerSet : Type 0 where
  pub meta : ObjectMeta
  pub spec : RunnerSetSpec
  pub status : RunnerSetStatus

-- `none` is the nil slice.
pub record RunnerSetList : Type 0 where
  pub list_meta : Raw
  pub items : Option (List RunnerSet)

abbrev pub runner_adopted_reason : String
runner_adopted_reason = "RunnerAdopted"

abbrev pub runner_created_reason : String
runner_created_reason = "RunnerCreated"

abbrev pub runner_deleted_reason : String
runner_deleted_reason = "RunnerDeleted"
