-- ===== src/Examples/OldCopies.antt =====
-- A Runner and a RunnerSet of v1alpha1 in memory.
use octorun.DeepCopy.V1alpha1.Objects.{v1alpha1_deep_copy_object-IsSeparateCopy}
use octorun.DeepCopy.V1alpha1.Copies.{
  v1alpha1_runner_deep_copy_object, v1alpha1_runner_list_deep_copy_object,
  v1alpha1_runner_set_deep_copy_object, v1alpha1_runner_set_list_deep_copy_object,
}
use octorun.DeepCopy.V1alpha1.Views.{
  v1alpha1_runner_traced, v1alpha1_runner_list_traced, v1alpha1_runner_set_traced,
  v1alpha1_runner_set_list_traced,
}
use octorun.DeepCopy.Separate.{IsSeparateCopy}
use octorun.DeepCopy.Deep.{pointer_addresses, list_addresses, pointed}
use octorun.Examples.Copies.{stored, at, library, library-IsDeep}
use octorun.Base.{[], ◌∷◌, arith, none, some, pos}
use octorun.DeepCopy.V1alpha1.Types.{
  V1alpha1HeapRunner, V1alpha1HeapRunnerSpec, V1alpha1HeapRunnerSet, V1alpha1HeapRunnerList,
}
use octorun.Resources.{idle}

abbrev spec_v1 : V1alpha1HeapRunnerSpec
spec_v1 = record {
  url = "https://github.com/octorun";
  id = some (record { address = 3; target = pos 42 });
  os = "linux";
  group = "Default";
  workdir = "_work";
  image = record { name = "runner"; pull_policy = "Always"; pull_secrets = none };
  placement = record {
    node_selector = none;
    tolerations = some (record { address = 4; target = stored "t" (5 ∷ []) ∷ [] });
    affinity = none;
  };
  resources = stored "{}" (6 ∷ 7 ∷ []);
  service_account_name = "";
  security_context = none;
  runtime_class_name = none;
  volumes = none;
  volume_mounts = none;
}

abbrev runner_v1 : V1alpha1HeapRunner
runner_v1 = record {
  type_meta = "Runner";
  object_meta = stored "runner-a" (1 ∷ 2 ∷ []);
  spec = spec_v1;
  status = record { phase = idle; conditions = none };
}

abbrev set_v1 : V1alpha1HeapRunnerSet
set_v1 = record {
  type_meta = "RunnerSet";
  object_meta = stored "set-a" [];
  spec = record {
    runners = some (record { address = 8; target = pos 1 });
    selector = stored "app=ci" [];
    template = record { object_meta = stored "" []; spec = spec_v1 };
  };
  status = record {
    runners = pos 1;
    idle_runners = pos 1;
    active_runners = pos 0;
    conditions = none;
    selector = "";
  };
}

-- A list of the runner, in which its place is 9, and a nil list of sets.
abbrev list_v1 : V1alpha1HeapRunnerList
list_v1 = record {
  type_meta = "RunnerList";
  list_meta = stored "" [];
  items = some (record { address = 9; target = runner_v1 ∷ [] });
}

v1alpha1_deep_copy_object-IsSeparateCopy_example :
    IsSeparateCopy
      (pointed v1alpha1_runner_traced)
      (at 10 runner_v1)
      (v1alpha1_runner_deep_copy_object library (at 10 runner_v1) 13).0
    × IsSeparateCopy
        (pointed v1alpha1_runner_list_traced)
        (at 11 list_v1)
        (v1alpha1_runner_list_deep_copy_object library (at 11 list_v1) 13).0
    × IsSeparateCopy
        (pointed v1alpha1_runner_set_traced)
        (at 12 set_v1)
        (v1alpha1_runner_set_deep_copy_object library (at 12 set_v1) 13).0
    × IsSeparateCopy
        (pointed v1alpha1_runner_set_list_traced)
        none
        (v1alpha1_runner_set_list_deep_copy_object library none 13).0
unfolding pointer_addresses list_addresses
v1alpha1_deep_copy_object-IsSeparateCopy_example =
    v1alpha1_deep_copy_object-IsSeparateCopy library library-IsDeep 13 (at 10 runner_v1)
      (at 11 list_v1) (at 12 set_v1) none (ground arith) (ground arith) (ground arith)
      (ground arith)
