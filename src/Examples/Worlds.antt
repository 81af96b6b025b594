-- ===== src/Examples/Worlds.antt =====
-- A Runner, its secret and its pod, and a world in which every call succeeds.
use octorun.Machinery.{Machinery}
use octorun.Patch.{Unstructured, PatchClient}
use octorun.Go.{Session}
use octorun.Pods.{ExecOutput}
use octorun.Base.{
  if◌then◌else◌, [], ◌∷◌, some, none, true, false, pos, String, ℕ, Bool, str_eq, keep, not, ◌==◌,
}
use octorun.Errors.{value, ok}
use octorun.Resources.{
  Runner, Pod, empty_meta, never, idle, condition_true, pod_running, RunnerSpec, RunnerPhase,
  PodStatus,
}
use octorun.RunnerController.World.{World, RunnerCall, patch_runner, patch_runner_status}

abbrev pub written_time : String
written_time = "2022-06-01T12:00:00Z"

abbrev pub written_instant : ℕ
written_instant = 1654084800000000000

abbrev pub machinery : Machinery
machinery = record {
  set_controller_reference = λ o m. value (record m {
    owner_references =
        record { kind = "Runner"; name = o.name; uid = o.uid; is_controller = true } ∷ [];
  });
  get_controller_of = λ refs. elim refs [ [] ↦ none | r ∷ rs ↦ some r ];
  is_controlled_by = λ refs uid. elim refs [ [] ↦ false | r ∷ rs ↦ str_eq r.uid uid ];
  set_status_condition = λ c cs. c ∷ [];
  add_finalizer = λ f fs. f ∷ fs;
  remove_finalizer = λ f fs. keep (λ g. not (str_eq f g)) fs;
  format_time = λ t. if t == written_instant then written_time else "";
  parse_time = λ s. if str_eq s written_time then some written_instant else none;
}

abbrev pub runner_spec : RunnerSpec
runner_spec = record {
  url = "https://github.com/octorun";
  id = some (pos 7);
  os = "linux";
  group = "Default";
  workdir = "_work";
  image = record { name = "runner"; pull_policy = "Always"; pull_secrets = [] };
  eviction_policy = never;
  placement = record { node_selector = none; tolerations = []; affinity = none };
  resources = "{}";
  service_account_name = "default";
  security_context = none;
  runtime_class_name = none;
  volumes = [];
  volume_mounts = [];
}

abbrev pub runner_in : RunnerPhase → Runner
runner_in p = record {
  meta = record empty_meta { name = "runner-a"; namespace = "ci"; uid = "u1" };
  spec = runner_spec;
  status = record { phase = p; conditions = [] };
}

abbrev pub deleted : Runner → Runner
deleted r = record r {
  meta = record (r.meta) {
    deletion_timestamp = some 5;
    finalizers = "runner.octorun.github.io/controller" ∷ [];
  };
}

abbrev pub session : Runner → Session RunnerCall Runner
session r = record { object = r; calls = [] }

abbrev pub ready_status : PodStatus
ready_status = record {
  phase = pod_running;
  conditions = record { type = "Ready"; status = condition_true } ∷ [];
}

abbrev pub ready_pod : Pod
ready_pod = record {
  meta = record empty_meta { name = "runner-a"; namespace = "ci" };
  spec = record {
    restart_policy = "Never";
    image_pull_secrets = [];
    containers = [];
    volumes = [];
    service_account_name = "default";
    security_context = record { run_as_user = 1000; run_as_group = 1000; run_as_non_root = true };
    placement = record { node_selector = none; tolerations = []; affinity = none };
    runtime_class_name = none;
  };
  status = ready_status;
}

abbrev pub unstructured : Unstructured
unstructured = record { rest = "{}"; status = some "{}" }

abbrev pub patch_client : PatchClient RunnerCall Runner
patch_client = record {
  convert = λ r. value unstructured;
  patch_call = patch_runner;
  patch_answer = λ c. value (runner_in idle);
  status_call = patch_runner_status;
  status_answer = λ c. value (runner_in idle);
}

abbrev pub id_output : ExecOutput
id_output = record { exec_error = none; stdout = "7\n"; stderr = "" }

-- GitHub sees the runner, busy or not; the pod is up.
abbrev pub calm : Bool → World
calm busy = record {
  mach = machinery;
  now = λ c. 0;
  found_runner = λ c. value (runner_in idle);
  client = patch_client;
  github_runner = λ c. (record { busy = busy; os = "linux"; status = "online" }, none);
  runner_token = λ c. (record { token = "secret"; expires_at = written_instant }, none);
  exec = λ c. id_output;
  create_or_update_secret = λ f s. f s;
  create_or_update_pod = λ f s. (ok tt, record s { object = ready_pod });
  patched_pod = λ c. none;
  deleted_pod = λ c. none;
  deleted_secret = λ c. none;
}
