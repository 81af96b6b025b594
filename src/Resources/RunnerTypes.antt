-- ===== src/Resources/RunnerTypes.antt =====
-- api/v1alpha2/runner_types.go. A field that the code only copies from one object to another
-- (affinity, tolerations, resources and the like) is kept as its encoded form, of type `Raw`.
use octorun.Base.{Bool, true, false, Option, List, String, GoMap, ℤ}
use octorun.Resources.Meta.{ObjectMeta, Condition}

abbrev pub Raw : Type 0
Raw = String

-- `unset_phase` is the empty string of a status that was never written.
pub data RunnerPhase : Type 0 where
  unset_phase pending idle active complete : RunnerPhase

abbrev pub phase_eq : RunnerPhase → RunnerPhase → Bool
phase_eq unset_phase unset_phase = true
phase_eq pending pending = true
phase_eq idle idle = true
phase_eq active active = true
phase_eq complete complete = true
phase_eq _ _ = false

-- `unset_policy` is the empty string of an object stored before the field had a default.
pub data RunnerEvictionPolicy : Type 0 where
  unset_policy never if_not_active : RunnerEvictionPolicy

abbrev pub runs_if_not_active : RunnerEvictionPolicy → Bool
runs_if_not_active if_not_active = true
runs_if_not_active _ = false

pub record RunnerImage : Type 0 where
  pub name : String
  pub pull_policy : String
  pub pull_secrets : List Raw

pub record RunnerPlacement : Type 0 where
  pub node_selector : GoMap
  pub tolerations : List Raw
  pub affinity : Option Raw

pub record Volume : Type 0 where
  pub name : String
  pub source : Raw

pub record VolumeMount : Type 0 where
  pub name : String
  pub read_only : Bool
  pub mount_path : String

pub record RunnerSpec : Type 0 where
  pub url : String
  pub id : Option ℤ
  pub os : String
  pub group : String
  pub workdir : String
  pub image : RunnerImage
  pub eviction_policy : RunnerEvictionPolicy
  pub placement : RunnerPlacement
  pub resources : Raw
  pub service_account_name : String
  pub security_context : Option Raw
  pub runtime_class_name : Option String
  pub volumes : List Volume
  pub volume_mounts : List VolumeMount

pub record RunnerStatus : Type 0 where
  pub phase : RunnerPhase
  pub conditions : List Condition

pub record Runner : Type 0 where
  pub meta : ObjectMeta
  pub spec : RunnerSpec
  pub status : RunnerStatus

pub record RunnerTemplateSpec : Type 0 where
  pub meta : ObjectMeta
  pub spec : RunnerSpec

-- `none` is the nil slice.
pub record RunnerList : Type 0 where
  pub list_meta : Raw
  pub items : Option (List Runner)

abbrev pub set_phase : RunnerPhase → Runner → Runner
set_phase p r = record r { status = record (r.status) { phase = p } }

abbrev pub runner_condition_online : String
runner_condition_online = "runner.octorun.github.io/Online"

abbrev pub runner_busy_reason : String
runner_busy_reason = "RunnerBusy"

abbrev pub runner_online_reason : String
runner_online_reason = "RunnerOnline"

abbrev pub runner_offline_reason : String
runner_offline_reason = "RunnerOffline"

abbrev pub runner_pod_pending_reason : String
runner_pod_pending_reason = "RunnerPodPending"

abbrev pub runner_pod_succeeded_reason : String
runner_pod_succeeded_reason = "RunnerPodSucceeded"

abbrev pub runner_secret_failed_reason : String
runner_secret_failed_reason = "RunnerSecretFailed"
