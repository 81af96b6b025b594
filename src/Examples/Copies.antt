-- ===== src/Examples/Copies.antt =====
-- A library whose values hold addresses, and the copies of a Runner and a RunnerSet.
use octorun.DeepCopy.V1alpha2.Objects.{deep_copy_object-IsSeparateCopy}
use octorun.DeepCopy.V1alpha2.Copies.{
  runner_deep_copy_object, runner_list_deep_copy_object, runner_set_deep_copy_object,
  runner_set_list_deep_copy_object,
}
use octorun.DeepCopy.Separate.{IsSeparateCopy}
use octorun.Resources.{Raw, idle, on_delete, never}
use octorun.DeepCopy.Library.{Foreign, Library, DeepLibrary, foreign}
use octorun.DeepCopy.Deep.{pointer_addresses, IsDeep, list_addresses, pointed}
use octorun.DeepCopy.V1alpha2.Types.{HeapRunner, HeapRunnerSet, HeapRunnerSpec, HeapRunnerList}
use octorun.DeepCopy.Memory.{IsFresh, Pointer, Alloc}
use octorun.Base.{ℕ, suc, List, [], ◌∷◌, none, some, refl, arith, pos}
use octorun.DeepCopy.V1alpha2.Views.{
  runner_traced, runner_set_traced, runner_list_traced, runner_set_list_traced,
}

-- As many addresses as there were, all fresh.
pub renumber : List ℕ → ℕ → List ℕ × ℕ
renumber [] n = ([], n)
renumber (a ∷ xs) n = (n ∷ (renumber xs (suc n)).0, (renumber xs (suc n)).1)

pub copy_foreign : Foreign → Alloc Foreign
copy_foreign i n = (record i { reached = (renumber i.reached n).0 }, (renumber i.reached n).1)

renumber-IsFresh : (xs : List ℕ) (n : ℕ) → IsFresh n (renumber xs n).1 (renumber xs n).0
unfolding renumber IsFresh
renumber-IsFresh [] n = omega arith
renumber-IsFresh (a ∷ xs) n = (omega arith, renumber-IsFresh xs (suc n))

copy_foreign-IsDeep : IsDeep foreign copy_foreign
unfolding copy_foreign
copy_foreign-IsDeep i n = record {
  taken = (renumber i.reached n).0;
  fresh = renumber-IsFresh i.reached n;
  holds = (refl, refl);
}

abbrev pub library : Library
library = record {
  object_meta = copy_foreign;
  list_meta = copy_foreign;
  label_selector = copy_foreign;
  condition = copy_foreign;
  toleration = copy_foreign;
  affinity = copy_foreign;
  resource_requirements = copy_foreign;
  security_context = copy_foreign;
  volume = copy_foreign;
  volume_mount = copy_foreign;
}

pub library-IsDeep : DeepLibrary library
library-IsDeep = record {
  object_meta = copy_foreign-IsDeep;
  list_meta = copy_foreign-IsDeep;
  label_selector = copy_foreign-IsDeep;
  condition = copy_foreign-IsDeep;
  toleration = copy_foreign-IsDeep;
  affinity = copy_foreign-IsDeep;
  resource_requirements = copy_foreign-IsDeep;
  security_context = copy_foreign-IsDeep;
  volume = copy_foreign-IsDeep;
  volume_mount = copy_foreign-IsDeep;
}

abbrev pub stored : Raw → List ℕ → Foreign
stored content reached = record { content = content; reached = reached }

abbrev spec_v2 : HeapRunnerSpec
spec_v2 = record {
  url = "https://github.com/octorun";
  id = some (record { address = 3; target = pos 42 });
  os = "linux";
  group = "Default";
  workdir = "_work";
  image = record { name = "runner"; pull_policy = "Always"; pull_secrets = none };
  eviction_policy = never;
  placement = record {
    node_selector = none;
    tolerations = some (record { address = 4; target = stored "t" (5 ∷ []) ∷ [] });
    affinity = none;
  };
  resources = stored "{}" (6 ∷ 7 ∷ []);
  service_account_name = "";
  security_context = none;
  runtime_class_name = none;
  volumes = none;
  volume_mounts = none;
}

abbrev runner_v2 : HeapRunner
runner_v2 = record {
  type_meta = "Runner";
  object_meta = stored "runner-a" (1 ∷ 2 ∷ []);
  spec = spec_v2;
  status = record { phase = idle; conditions = none };
}

abbrev set_v2 : HeapRunnerSet
set_v2 = record {
  type_meta = "RunnerSet";
  object_meta = stored "set-a" [];
  spec = record {
    runners = some (record { address = 8; target = pos 1 });
    selector = stored "app=ci" [];
    update_strategy = record { type = on_delete };
    revision_history_limit = none;
    template = record { object_meta = stored "" []; spec = spec_v2 };
  };
  status = record {
    runners = pos 1;
    idle_runners = pos 1;
    active_runners = pos 0;
    current_revision = "r1";
    next_revision = "r1";
    collision_count = none;
    conditions = none;
    selector = "";
  };
}

-- A list of the runner, in which its place is 9, and a nil list of sets.
abbrev list_v2 : HeapRunnerList
list_v2 = record {
  type_meta = "RunnerList";
  list_meta = stored "" [];
  items = some (record { address = 9; target = runner_v2 ∷ [] });
}

abbrev pub at : {A : Type 0} → ℕ → A → Pointer A
at a x = some (record { address = a; target = x })

deep_copy_object-IsSeparateCopy_example :
    IsSeparateCopy
      (pointed runner_traced)
      (at 10 runner_v2)
      (runner_deep_copy_object library (at 10 runner_v2) 13).0
    × IsSeparateCopy
        (pointed runner_list_traced)
        (at 11 list_v2)
        (runner_list_deep_copy_object library (at 11 list_v2) 13).0
    × IsSeparateCopy
        (pointed runner_set_traced)
        (at 12 set_v2)
        (runner_set_deep_copy_object library (at 12 set_v2) 13).0
    × IsSeparateCopy
        (pointed runner_set_list_traced)
        none
        (runner_set_list_deep_copy_object library none 13).0
unfolding pointer_addresses list_addresses
deep_copy_object-IsSeparateCopy_example =
    deep_copy_object-IsSeparateCopy library library-IsDeep 13 (at 10 runner_v2) (at 11 list_v2)
      (at 12 set_v2) none (ground arith) (ground arith) (ground arith) (ground arith)
