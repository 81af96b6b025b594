-- ===== src/DeepCopy/V1alpha2/Types.antt =====
-- The types of api/v1alpha2 as they stand in memory: a field that is a pointer, a slice or a map leads
-- to a place of its own. The parts that other modules declare are of type `Foreign`.
use octorun.Base.{List, String, ℤ, Dict}
use octorun.Resources.{Raw, RunnerPhase}
use octorun.DeepCopy.Memory.{Pointer}
use octorun.DeepCopy.Library.{Foreign}
use octorun.Resources.{RunnerEvictionPolicy, RunnerSetUpdateStrategyType}

pub record HeapRunnerImage : Type 0 where
  pub name : String
  pub pull_policy : String
  pub pull_secrets : Pointer (List Raw)

pub record HeapRunnerPlacement : Type 0 where
  pub node_selector : Pointer Dict
  pub tolerations : Pointer (List Foreign)
  pub affinity : Pointer Foreign

pub record HeapRunnerSpec : Type 0 where
  pub url : String
  pub id : Pointer ℤ
  pub os : String
  pub group : String
  pub workdir : String
  pub image : HeapRunnerImage
  pub eviction_policy : RunnerEvictionPolicy
  pub placement : HeapRunnerPlacement
  pub resources : Foreign
  pub service_account_name : String
  pub security_context : Pointer Foreign
  pub runtime_class_name : Pointer String
  pub volumes : Pointer (List Foreign)
  pub volume_mounts : Pointer (List Foreign)

pub record HeapRunnerStatus : Type 0 where
  pub phase : RunnerPhase
  pub conditions : Pointer (List Foreign)

pub record HeapRunner : Type 0 where
  pub type_meta : Raw
  pub object_meta : Foreign
  pub spec : HeapRunnerSpec
  pub status : HeapRunnerStatus

pub record HeapRunnerList : Type 0 where
  pub type_meta : Raw
  pub list_meta : Foreign
  pub items : Pointer (List HeapRunner)

pub record HeapRunnerTemplateSpec : Type 0 where
  pub object_meta : Foreign
  pub spec : HeapRunnerSpec

pub record HeapRunnerSetUpdateStrategy : Type 0 where
  pub type : RunnerSetUpdateStrategyType

pub record HeapRunnerSetSpec : Type 0 where
  pub runners : Pointer ℤ
  pub selector : Foreign
  pub update_strategy : HeapRunnerSetUpdateStrategy
  pub revision_history_limit : Pointer ℤ
  pub template : HeapRunnerTemplateSpec

pub record HeapRunnerSetStatus : Type 0 where
  pub runners : ℤ
  pub idle_runners : ℤ
  pub active_runners : ℤ
  pub current_revision : String
  pub next_revision : String
  pub collision_count : Pointer ℤ
  pub conditions : Pointer (List Foreign)
  pub selector : String

pub record HeapRunnerSet : Type 0 where
  pub type_meta : Raw
  pub object_meta : Foreign
  pub spec : HeapRunnerSetSpec
  pub status : HeapRunnerSetStatus

pub record HeapRunnerSetList : Type 0 where
  pub type_meta : Raw
  pub list_meta : Foreign
  pub items : Pointer (List HeapRunnerSet)
