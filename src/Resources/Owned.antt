-- ===== src/Resources/Owned.antt =====
-- The Kubernetes objects that the controllers own: corev1.Pod, corev1.Secret and
-- appsv1.ControllerRevision, with the fields that the code sets or reads.
use octorun.Base.{ℕ, Bool, Option, List, String, GoMap, ℤ}
use octorun.Resources.Meta.{ObjectMeta, ConditionStatus}
use octorun.Resources.RunnerTypes.{Raw, Volume, VolumeMount, RunnerPlacement}

-- `unset_pod_phase` is the empty string of a pod that no kubelet has seen.
pub data PodPhase : Type 0 where
  unset_pod_phase pod_pending pod_running pod_succeeded pod_failed pod_unknown : PodPhase

pub record PodCondition : Type 0 where
  pub type : String
  pub status : ConditionStatus

pub record PodStatus : Type 0 where
  pub phase : PodPhase
  pub conditions : List PodCondition

-- A variable has a value, or the path of the field that it is taken from.
pub record EnvVar : Type 0 where
  pub name : String
  pub value : String
  pub field_path : Option String

pub record Probe : Type 0 where
  pub command : List String
  pub initial_delay_seconds : ℕ
  pub period_seconds : ℕ
  pub failure_threshold : ℕ

pub record Container : Type 0 where
  pub name : String
  pub image : String
  pub image_pull_policy : String
  pub env : List EnvVar
  pub startup_probe : Probe
  pub volume_mounts : List VolumeMount
  pub resources : Raw
  pub security_context : Option Raw

pub record PodSecurityContext : Type 0 where
  pub run_as_user : ℕ
  pub run_as_group : ℕ
  pub run_as_non_root : Bool

pub record PodSpec : Type 0 where
  pub restart_policy : String
  pub image_pull_secrets : List Raw
  pub containers : List Container
  pub volumes : List Volume
  pub service_account_name : String
  pub security_context : PodSecurityContext
  pub placement : RunnerPlacement
  pub runtime_class_name : Option String

pub record Pod : Type 0 where
  pub meta : ObjectMeta
  pub spec : PodSpec
  pub status : PodStatus

pub record Secret : Type 0 where
  pub meta : ObjectMeta
  pub contents : GoMap
  pub immutable : Option Bool

-- `raw` is Data.Raw, `object` the decoded Data.Object, if there is one.
pub record ControllerRevision : Type 0 where
  pub meta : ObjectMeta
  pub raw : Raw
  pub object : Option Raw
  pub revision : ℤ
