-- ===== src/Conversion/Zero.antt =====
-- The zero values of the types, which `make` fills a new slice with, and the loop that converts
-- the items of a list.
use octorun.Base.{some, none, [], Option, List, map}
use octorun.Resources.{
  Raw, Runner, RunnerSet, RunnerSpec, empty_meta, unset_phase, unset_policy, unset_strategy,
}
use octorun.Conversion.Types.{V1alpha1Runner, V1alpha1RunnerSet, V1alpha1RunnerSpec}

abbrev raw_zero : Raw
raw_zero = ""

abbrev runner_spec_zero : RunnerSpec
runner_spec_zero = record {
  url = "";
  id = none;
  os = "";
  group = "";
  workdir = "";
  image = record { name = ""; pull_policy = ""; pull_secrets = [] };
  eviction_policy = unset_policy;
  placement = record { node_selector = none; tolerations = []; affinity = none };
  resources = raw_zero;
  service_account_name = "";
  security_context = none;
  runtime_class_name = none;
  volumes = [];
  volume_mounts = [];
}

abbrev pub runner_zero : Runner
runner_zero = record {
  meta = empty_meta;
  spec = runner_spec_zero;
  status = record { phase = unset_phase; conditions = [] };
}

abbrev pub runner_set_zero : RunnerSet
runner_set_zero = record {
  meta = empty_meta;
  spec = record {
    runners = none;
    selector = raw_zero;
    update_strategy = unset_strategy;
    revision_history_limit = none;
    template = record { meta = empty_meta; spec = runner_spec_zero };
  };
  status = record {
    runners = 0;
    idle_runners = 0;
    active_runners = 0;
    current_revision = "";
    next_revision = "";
    collision_count = none;
    conditions = [];
    selector = "";
  };
}

abbrev v1alpha1_runner_spec_zero : V1alpha1RunnerSpec
v1alpha1_runner_spec_zero = record {
  url = "";
  id = none;
  os = "";
  group = "";
  workdir = "";
  image = record { name = ""; pull_policy = ""; pull_secrets = [] };
  placement = record { node_selector = none; tolerations = []; affinity = none };
  resources = raw_zero;
  service_account_name = "";
  security_context = none;
  runtime_class_name = none;
  volumes = [];
  volume_mounts = [];
}

abbrev pub v1alpha1_runner_zero : V1alpha1Runner
v1alpha1_runner_zero = record {
  meta = empty_meta;
  spec = v1alpha1_runner_spec_zero;
  status = record { phase = unset_phase; conditions = [] };
}

abbrev pub v1alpha1_runner_set_zero : V1alpha1RunnerSet
v1alpha1_runner_set_zero = record {
  meta = empty_meta;
  spec = record {
    runners = none;
    selector = raw_zero;
    template = record { meta = empty_meta; spec = v1alpha1_runner_spec_zero };
  };
  status = record {
    runners = 0;
    idle_runners = 0;
    active_runners = 0;
    conditions = [];
    selector = "";
  };
}

-- `if in.Items != nil { … } else { out.Items = nil }`: the new slice is as long as the old one.
abbrev pub convert_items : {A B : Type 0} → (A → B) → Option (List A) → Option (List B)
convert_items f none = none
convert_items f (some xs) = some (map f xs)
