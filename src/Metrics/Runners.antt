-- ===== src/Metrics/Runners.antt =====
-- metrics/runner_metric.go.
use octorun.Base.{[], ◌∷◌, codes, List, String, map}
use octorun.Resources.{Runner, RunnerPhase, unset_phase, pending, idle, active, complete, phase_eq}
use octorun.Metrics.Family.{Metric, MetricFamily, Provider, gauge_value}
use octorun.Metrics.Shared.{
  bool_float, label_metrics, created_metrics, meta_conditions_metrics, wrapped,
}

abbrev pub phase_text : RunnerPhase → String
phase_text unset_phase = ""
phase_text pending = "Pending"
phase_text idle = "Idle"
phase_text active = "Active"
phase_text complete = "Complete"

abbrev pub phases : List RunnerPhase
phases = pending ∷ idle ∷ active ∷ complete ∷ []

phase_metric : RunnerPhase → RunnerPhase → Metric
phase_metric phase p = record {
  label_keys = codes "phase" ∷ [];
  label_values = codes (phase_text p) ∷ [];
  value = bool_float (phase_eq phase p);
}

unfoldable pub phase_metrics : RunnerPhase → List Metric
unfolding phase_metric
phase_metrics unset_phase = []
phase_metrics pending = map (phase_metric pending) phases
phase_metrics idle = map (phase_metric idle) phases
phase_metrics active = map (phase_metric active) phases
phase_metrics complete = map (phase_metric complete) phases

abbrev pub runner_family : String → String → (Runner → List Metric) → MetricFamily Runner
runner_family name help f = record {
  name = name;
  help = help;
  type = gauge_value;
  metrics_func = λ r. map (wrapped "runner" r.meta) (f r);
}

unfoldable pub runner_families : (List String → List String) → List (MetricFamily Runner)
unfolding phase_metrics label_metrics meta_conditions_metrics
runner_families sort_strings =
    runner_family "labels" "Kubernetes labels converted to Prometheus labels."
      (λ r. label_metrics sort_strings r.meta.labels)
    ∷ runner_family "created" "Unix creation timestamp"
        (λ r. created_metrics r.meta.creation_timestamp)
    ∷ runner_family "status_phase" "Current status phase." (λ r. phase_metrics r.status.phase)
    ∷ runner_family "status_conditions" "Current status conditions."
        (λ r. meta_conditions_metrics r.status.conditions)
    ∷ []

unfoldable pub runner_provider : (List String → List String) → Provider Runner
unfolding runner_families
runner_provider sort_strings = record {
  namespace = "octorun";
  subsystem = "runner";
  metric_families = runner_families sort_strings;
}
