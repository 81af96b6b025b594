-- ===== src/DeepCopy/Library.antt =====
-- The parts of an object that k8s.io/api and k8s.io/apimachinery declare, and their DeepCopyInto, which
-- are not in the repository.
use octorun.Base.{List, [], ℕ}
use octorun.Resources.{Raw}
use octorun.DeepCopy.Memory.{Alloc}
use octorun.DeepCopy.Deep.{Traced, IsDeep}

-- A value by its encoded content and the addresses that are reached from it.
pub record Foreign : Type 0 where
  pub content : Raw
  pub reached : List ℕ

pub record Library : Type 0 where
  pub object_meta : Foreign → Alloc Foreign
  pub list_meta : Foreign → Alloc Foreign
  pub label_selector : Foreign → Alloc Foreign
  pub condition : Foreign → Alloc Foreign
  pub toleration : Foreign → Alloc Foreign
  pub affinity : Foreign → Alloc Foreign
  pub resource_requirements : Foreign → Alloc Foreign
  pub security_context : Foreign → Alloc Foreign
  pub volume : Foreign → Alloc Foreign
  pub volume_mount : Foreign → Alloc Foreign

abbrev pub foreign : Traced Foreign
foreign = record { view = λ i. record i { reached = [] }; addresses = λ i. i.reached }

-- Documented of DeepCopyInto: it makes a deep copy.
pub record DeepLibrary (lib : Library) : Type 0 where
  pub object_meta : IsDeep foreign lib.object_meta
  pub list_meta : IsDeep foreign lib.list_meta
  pub label_selector : IsDeep foreign lib.label_selector
  pub condition : IsDeep foreign lib.condition
  pub toleration : IsDeep foreign lib.toleration
  pub affinity : IsDeep foreign lib.affinity
  pub resource_requirements : IsDeep foreign lib.resource_requirements
  pub security_context : IsDeep foreign lib.security_context
  pub volume : IsDeep foreign lib.volume
  pub volume_mount : IsDeep foreign lib.volume_mount
