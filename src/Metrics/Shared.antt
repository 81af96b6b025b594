-- ===== src/Metrics/Shared.antt =====
-- metrics/util.go: what the two providers share.
use octorun.Metrics.Names.{to_lower, normalize_label_name}
use octorun.Base.{
  none, some, [], ◌∷◌, true, false, pos, Dict, String, Option, Bool, List, codes, ℕ, GoMap, map,
  entries, ◌++◌, ◌/◌, ◌^◌, value_at,
}
use octorun.Resources.{
  Condition, ConditionStatus, condition_true, condition_false, condition_unknown, ObjectMeta,
  status_eq,
}
use octorun.Metrics.Family.{Text, Metric, Value, whole}

abbrev pub bool_float : Bool → Value
bool_float true = whole (pos 1)
bool_float false = whole (pos 0)

abbrev pub status_text : ConditionStatus → String
status_text condition_true = "True"
status_text condition_false = "False"
status_text condition_unknown = "Unknown"

abbrev pub condition_statuses : List ConditionStatus
condition_statuses = condition_true ∷ condition_false ∷ condition_unknown ∷ []

condition_metric : Condition → ConditionStatus → Metric
condition_metric c status = record {
  label_keys = codes "condition" ∷ codes "status" ∷ [];
  label_values = codes c.type ∷ map to_lower (codes (status_text status)) ∷ [];
  value = bool_float (status_eq c.status status);
}

unfoldable pub meta_conditions_metrics : List Condition → List Metric
unfolding condition_metric
meta_conditions_metrics [] = []
meta_conditions_metrics (c ∷ cs) =
    map (condition_metric c) condition_statuses ++ meta_conditions_metrics cs

unfoldable pub keys_of : Dict → List String
keys_of [] = []
keys_of ((k, _) ∷ rest) = k ∷ keys_of rest

-- `sort.Strings` is a parameter.
unfoldable pub map_to_prometheus_labels :
    (List String → List String) → String → GoMap → List Text × List Text
unfolding keys_of
map_to_prometheus_labels sort_strings prefix m =
    let keys = sort_strings (keys_of (entries m)) in
    (
      map (λ k. normalize_label_name (codes prefix) (codes k)) keys,
      map (λ k. codes (value_at k m)) keys,
    )

-- `WrapMetricsFunc`: every metric begins with the namespace and the name of its object.
abbrev pub wrapped : String → ObjectMeta → Metric → Metric
wrapped kind meta m = record m {
  label_keys = codes "namespace" ∷ codes kind ∷ m.label_keys;
  label_values = codes meta.namespace ∷ codes meta.name ∷ m.label_values;
}

-- The metrics with the label pairs of the object.
unfoldable pub label_metrics : (List String → List String) → GoMap → List Metric
unfolding map_to_prometheus_labels
label_metrics sort_strings labels =
    let (ks, vs) = map_to_prometheus_labels sort_strings "label" labels in
    record { label_keys = ks; label_values = vs; value = whole (pos 1) } ∷ []

abbrev pub bare : Value → Metric
bare v = record { label_keys = []; label_values = []; value = v }

-- `CreationTimestamp.Unix()`, in seconds.
abbrev pub created_metrics : Option ℕ → List Metric
created_metrics none = []
created_metrics (some t) = bare (whole (pos (t / 10 ^ 9))) ∷ []
