-- ===== src/Conversion/Types.antt =====
-- api/v1alpha1/runner_types.go and runnerset_types.go. Both versions write the phase of a runner as
-- the same strings, so they share `RunnerPhase`; `Raw` is the encoded form of a Kubernetes type.
use octorun.Base.{ℕ, Option, List, String, GoMap, ℤ}
use octorun.Resources.{ObjectMeta, Condition, Raw, RunnerPhase, Volume, VolumeMount}

pub record V1alpha1RunnerImage : Type 0 where
  pub name : String
  pub pull_policy : String
  pub pull_secrets : List Raw

pub record V1alpha1RunnerPlacement : Type 0 where
  pub node_selector : GoMap
  pub tolerations : List Raw
  pub affinity : Option Raw

pub record V1alpha1RunnerSpec : Type 0 where
  pub url : String
  pub id : Option ℤ
  pub os : String
  pub group : String
  pub workdir : String
  pub image : V1alpha1RunnerImage
  pub placement : V1alpha1RunnerPlacement
  pub resources : Raw
  pub service_account_name : String
  pub security_context : Option Raw
  pub runtime_class_name : Option String
  pub volumes : List Volume
  pub volume_mounts : List VolumeMount

pub record V1alpha1RunnerTemplateSpec : Type 0 where
  pub meta : ObjectMeta
  pub spec : V1alpha1RunnerSpec

pub record V1alpha1RunnerStatus : Type 0 where
  pub phase : RunnerPhase
  pub conditions : List Condition

pub record V1alpha1Runner : Type 0 where
  pub meta : ObjectMeta
  pub spec : V1alpha1RunnerSpec
  pub status : V1alpha1RunnerStatus

-- `none` is the nil slice.
pub record V1alpha1RunnerList : Type 0 where
  pub list_meta : Raw
  pub items : Option (List V1alpha1Runner)

pub record V1alpha1RunnerSetSpec : Type 0 where
  pub runners : Option ℤ
  pub selector : Raw
  pub template : V1alpha1RunnerTemplateSpec

pub record V1alpha1RunnerSetStatus : Type 0 where
  pub runners : ℕ
  pub idle_runners : ℕ
  pub active_runners : ℕ
  pub conditions : List Condition
  pub selector : String

pub record V1alpha1RunnerSet : Type 0 where
  pub meta : ObjectMeta
  pub spec : V1alpha1RunnerSetSpec
  pub status : V1alpha1RunnerSetStatus

pub record V1alpha1RunnerSetList : Type 0 where
  pub list_meta : Raw
  pub items : Option (List V1alpha1RunnerSet)
