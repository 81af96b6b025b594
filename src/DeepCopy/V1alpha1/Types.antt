-- ===== src/DeepCopy/V1alpha1/Types.antt =====
-- The types of api/v1alpha1 as they stand in memory: a field that is a pointer, a slice or a map leads
-- to a place of its own. The parts that other modules declare are of type `Foreign`.
use octorun.Base.{List, String, ℤ, Dict}
use octorun.Resources.{Raw, RunnerPhase}
use octorun.DeepCopy.Memory.{Pointer}
use octorun.DeepCopy.Library.{Foreign}

pub record V1alpha1HeapRunnerImage : Type 0 where
  pub name : String
  pub pull_policy : String
  pub pull_secrets : Pointer (List Raw)

pub record V1alpha1HeapRunnerPlacement : Type 0 where
  pub node_selector : Pointer Dict
  pub tolerations : Pointer (List Foreign)
  pub affinity : Pointer Foreign

pub record V1alpha1HeapRunnerSpec : Type 0 where
  pub url : String
  pub id : Pointer ℤ
  pub os : String
  pub group : String
  pub workdir : String
  pub image : V1alpha1HeapRunnerImage
  pub placement : V1alpha1HeapRunnerPlacement
  pub resources : Foreign
  pub service_account_name : String
  pub security_context : Pointer Foreign
  pub runtime_class_name : Pointer String
  pub volumes : Pointer (List Foreign)
  pub volume_mounts : Pointer (List Foreign)

pub record V1alpha1HeapRunnerStatus : Type 0 where
  pub phase : RunnerPhase
  pub conditions : Pointer (List Foreign)

pub record V1alpha1HeapRunner : Type 0 where
  pub type_meta : Raw
  pub object_meta : Foreign
  pub spec : V1alpha1HeapRunnerSpec
  pub status : V1alpha1HeapRunnerStatus

pub record V1alpha1HeapRunnerList : Type 0 where
  pub type_meta : Raw
  pub list_meta : Foreign
  pub items : Pointer (List V1alpha1HeapRunner)

pub record V1alpha1HeapRunnerTemplateSpec : Type 0 where
  pub object_meta : Foreign
  pub spec : V1alpha1HeapRunnerSpec

pub record V1alpha1HeapRunnerSetSpec : Type 0 where
  pub runners : Pointer ℤ
  pub selector : Foreign
  pub template : V1alpha1HeapRunnerTemplateSpec

pub record V1alpha1HeapRunnerSetStatus : Type 0 where
  pub runners : ℤ
  pub idle_runners : ℤ
  pub active_runners : ℤ
  pub conditions : Pointer (List Foreign)
  pub selector : String

pub record V1alpha1HeapRunnerSet : Type 0 where
  pub type_meta : Raw
  pub object_meta : Foreign
  pub spec : V1alpha1HeapRunnerSetSpec
  pub status : V1alpha1HeapRunnerSetStatus

pub record V1alpha1HeapRunnerSetList : Type 0 where
  pub type_meta : Raw
  pub list_meta : Foreign
  pub items : Pointer (List V1alpha1HeapRunnerSet)
