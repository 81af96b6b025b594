-- ===== src/Metrics/RunnerSets.antt =====
-- metrics/runnerset_metric.go.
use octorun.Base.{[], ◌∷◌, pos, some, none, List, String, ℕ, map, ℤ}
use octorun.Resources.{RunnerSet}
use octorun.Metrics.Family.{Metric, MetricFamily, Provider, gauge_value, Value, whole, hundredths}
use octorun.Metrics.Shared.{label_metrics, created_metrics, meta_conditions_metrics, wrapped, bare}

-- The metrics that are left out where `Spec.Runners` is nil.
abbrev pub if_desired : RunnerSet → Value → List Metric
if_desired s v = elim s.spec.runners [ none ↦ [] | some _ ↦ bare v ∷ [] ]

abbrev pub desired_metrics : RunnerSet → List Metric
desired_metrics s = elim s.spec.runners [ none ↦ [] | some n ↦ bare (whole n) ∷ [] ]

abbrev set_family : String → String → (RunnerSet → List Metric) → MetricFamily RunnerSet
set_family name help f = record {
  name = name;
  help = help;
  type = gauge_value;
  metrics_func = λ s. map (wrapped "runnerset" s.meta) (f s);
}

-- `percent a n` is `int(float64(a) / float64(n) * 100)`: the arithmetic of Go's floats is a
-- parameter. What the conversion gives for 0 / 0 is left to the implementation by the language.
unfoldable pub runner_set_families :
    (List String → List String) → (ℕ → ℕ → ℤ) → List (MetricFamily RunnerSet)
unfolding label_metrics meta_conditions_metrics
runner_set_families sort_strings percent =
    set_family "labels" "Kubernetes labels converted to Prometheus labels."
      (λ s. label_metrics sort_strings s.meta.labels)
    ∷ set_family "created" "Unix creation timestamp"
        (λ s. created_metrics s.meta.creation_timestamp)
    ∷ set_family "spec_runners" "Number of desired runners." desired_metrics
    ∷ set_family "status_runners" "Most recently observed number of runners."
        (λ s. if_desired s (whole (pos s.status.runners)))
    ∷ set_family "status_idle_runners" "Most recently observed number of idle runners."
        (λ s. if_desired s (whole (pos s.status.idle_runners)))
    ∷ set_family "status_active_runners" "Most recently observed number of active runners."
        (λ s. if_desired s (whole (pos s.status.active_runners)))
    ∷ set_family "status_conditions" "Current status conditions."
        (λ s. meta_conditions_metrics s.status.conditions)
    ∷ set_family "runner_active_ratio" "Ratio of active runners per total runners."
        (λ s. if_desired s (hundredths (percent s.status.active_runners s.status.runners)))
    ∷ []

unfoldable pub runner_set_provider : (List String → List String) → (ℕ → ℕ → ℤ) → Provider RunnerSet
unfolding runner_set_families
runner_set_provider sort_strings percent = record {
  namespace = "octorun";
  subsystem = "runnerset";
  metric_families = runner_set_families sort_strings percent;
}
