-- ===== src/Resources/Meta.antt =====
-- metav1.ObjectMeta and metav1.Condition, and the well-known labels and annotations of
-- api/v1alpha2/well_known_labels.go and well_known_annotations.go.
use octorun.Base.{ℕ, Bool, true, false, Option, none, List, [], String, ◌<>◌, GoMap}

-- A key of the API server: client.ObjectKey.
pub record ObjectKey : Type 0 where
  pub namespace : String
  pub name : String

pub record OwnerReference : Type 0 where
  pub kind : String
  pub name : String
  pub uid : String
  pub is_controller : Bool

-- A time is in nanoseconds; `none` is the zero time, or the nil pointer to one.
pub record ObjectMeta : Type 0 where
  pub name : String
  pub generate_name : String
  pub namespace : String
  pub uid : String
  pub labels : GoMap
  pub annotations : GoMap
  pub finalizers : List String
  pub owner_references : List OwnerReference
  pub creation_timestamp : Option ℕ
  pub deletion_timestamp : Option ℕ

abbrev pub empty_meta : ObjectMeta
empty_meta = record {
  name = "";
  generate_name = "";
  namespace = "";
  uid = "";
  labels = none;
  annotations = none;
  finalizers = [];
  owner_references = [];
  creation_timestamp = none;
  deletion_timestamp = none;
}

abbrev pub key_of : ObjectMeta → ObjectKey
key_of m = record { namespace = m.namespace; name = m.name }

pub data ConditionStatus : Type 0 where
  condition_true condition_false condition_unknown : ConditionStatus

abbrev pub status_eq : ConditionStatus → ConditionStatus → Bool
status_eq condition_true condition_true = true
status_eq condition_false condition_false = true
status_eq condition_unknown condition_unknown = true
status_eq _ _ = false

pub record Condition : Type 0 where
  pub type : String
  pub status : ConditionStatus
  pub reason : String
  pub message : String

abbrev pub label_prefix : String
label_prefix = "octorun.github.io/"

abbrev pub label_runner_name : String
label_runner_name = label_prefix <> "runner"

abbrev pub label_runner_set_name : String
label_runner_set_name = label_prefix <> "runnerset"

abbrev pub label_controller_revision_hash : String
label_controller_revision_hash = label_prefix <> "revision-hash"

abbrev pub annotation_runner_assigned_job_at : String
annotation_runner_assigned_job_at = "runner.octorun.github.io/assigned-job-at"

abbrev pub annotation_runner_token_expires_at : String
annotation_runner_token_expires_at = "runner.octorun.github.io/token-expires-at"
