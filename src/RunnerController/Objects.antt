-- ===== src/RunnerController/Objects.antt =====
-- `secretForRunner` and `podForRunner`: the objects that a Runner owns, as they are first made.
use octorun.Base.{
  true, false, none, some, List, [], ◌∷◌, String, ◌<>◌, Dict, GoMap, entries, assign, after_prefix,
  join, if◌then◌else◌,
}
use octorun.Resources.{
  empty_meta, Runner, Pod, Secret, EnvVar, Container, label_prefix, runs_if_not_active,
  RunnerEvictionPolicy, PodPhase,
}

abbrev pub safe_to_evict : String
safe_to_evict = "cluster-autoscaler.kubernetes.io/safe-to-evict"

abbrev pub secret_suffix : String
secret_suffix = "-registration-token"

abbrev pub token_path : String
token_path = "/var/run/secrets/runner.octorun.github.io/registration-token"

unfoldable pub secret_for_runner : Runner → Secret
secret_for_runner runner = record {
  meta = record empty_meta {
    name = runner.meta.name <> secret_suffix;
    namespace = runner.meta.namespace;
  };
  contents = some [];
  immutable = some false;
}

-- The loop over the labels, in the order in which the map is visited.
unfoldable pub runner_labels : Dict → List String
runner_labels [] = []
runner_labels ((k, v) ∷ rest) = elim (after_prefix label_prefix k) [
  | none ↦ runner_labels rest
  | some name ↦ (name <> ("=" <> v)) ∷ runner_labels rest
]

pod_annotation : RunnerEvictionPolicy → GoMap
pod_annotation policy =
    if runs_if_not_active policy then assign safe_to_evict "true" (some []) else some []

abbrev plain : String → String → EnvVar
plain name value = record { name = name; value = value; field_path = none }

runner_env : Runner → List EnvVar
unfolding runner_labels
runner_env runner =
    plain "URL" runner.spec.url
    ∷ record { name = "RUNNER_NAME"; value = ""; field_path = some "metadata.name" }
    ∷ plain "RUNNER_LABELS" (join "," (runner_labels (entries runner.meta.labels)))
    ∷ plain "RUNNER_GROUP" runner.spec.group
    ∷ plain "RUNNER_WORKDIR" runner.spec.workdir
    ∷ plain "RUNNER_TOKEN_FILE" (token_path <> "/token")
    ∷ []

runner_container : Runner → Container
unfolding runner_env
runner_container runner = record {
  name = "runner";
  image = runner.spec.image.name;
  image_pull_policy = runner.spec.image.pull_policy;
  env = runner_env runner;
  startup_probe = record {
    command = "cat" ∷ ".runner" ∷ [];
    initial_delay_seconds = 5;
    period_seconds = 10;
    failure_threshold = 30;
  };
  volume_mounts =
      record { name = "registration-token"; read_only = true; mount_path = token_path }
      ∷ runner.spec.volume_mounts;
  resources = runner.spec.resources;
  security_context = runner.spec.security_context;
}

-- The status is the zero value.
unfoldable pub pod_for_runner : Runner → Pod
unfolding pod_annotation runner_container
pod_for_runner runner = record {
  meta = record empty_meta {
    name = runner.meta.name;
    namespace = runner.meta.namespace;
    labels = runner.meta.labels;
    annotations = pod_annotation runner.spec.eviction_policy;
  };
  spec = record {
    restart_policy = "OnFailure";
    image_pull_secrets = runner.spec.image.pull_secrets;
    containers = runner_container runner ∷ [];
    volumes =
        record { name = "registration-token"; source = runner.meta.name <> secret_suffix }
        ∷ runner.spec.volumes;
    service_account_name = runner.spec.service_account_name;
    security_context = record { run_as_user = 1000; run_as_group = 1000; run_as_non_root = true };
    placement = runner.spec.placement;
    runtime_class_name = runner.spec.runtime_class_name;
  };
  status = record { phase = PodPhase.unset_pod_phase; conditions = [] };
}
