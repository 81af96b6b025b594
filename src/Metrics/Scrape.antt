-- ===== src/Metrics/Scrape.antt =====
-- `Collect` and `Scrape` of pkg/statemetrics/statemetrics.go.
use octorun.Base.{none, some, if◌then◌else◌, [], ◌∷◌, List, String, ◌++◌, Bool, Option}
use octorun.Errors.{Answer, value, error}
use octorun.Metrics.Family.{Text, Metric, MetricFamily, Provider, ValueType}

-- The Prometheus client: prometheus.BuildFQName, and whether NewDesc and MustNewConstMetric take a
-- name with these label names and values; where they do not, they panic.
pub record Prometheus : Type 0 where
  pub build_fq_name : String → String → String → String
  pub accepts : String → List Text → List Text → Bool

-- A `prometheus.Metric`.
pub record Sample : Type 0 where
  pub fq_name : String
  pub help : String
  pub type : ValueType
  pub metric : Metric

-- `none` is a panic. Two parts of a loop: a panic of either ends it.
abbrev pub both : Option (List Sample) → Option (List Sample) → Option (List Sample)
both (some xs) (some ys) = some (xs ++ ys)
both _ _ = none

module _ (prom : Prometheus) where
  must_new_const_metric : String → String → ValueType → Metric → Option (List Sample)
  must_new_const_metric name help type m =
      if prom.accepts name m.label_keys m.label_values
      then some (record { fq_name = name; help = help; type = type; metric = m } ∷ [])
      else none

  unfoldable pub scrape_metrics : String → String → ValueType → List Metric → Option (List Sample)
  unfolding must_new_const_metric
  scrape_metrics name help type [] = some []
  scrape_metrics name help type (m ∷ ms) =
      both (must_new_const_metric name help type m) (scrape_metrics name help type ms)

  unfoldable pub scrape_objects :
      {X : Type 0} → String → MetricFamily X → List X → Option (List Sample)
  unfolding scrape_metrics
  scrape_objects name p [] = some []
  scrape_objects name p (x ∷ xs) =
      both (scrape_metrics name p.help p.type (p.metrics_func x)) (scrape_objects name p xs)

  unfoldable pub scrape_families :
      {X : Type 0} → String → String → List (MetricFamily X) → List X → Option (List Sample)
  unfolding scrape_objects
  scrape_families namespace subsystem [] objs = some []
  scrape_families namespace subsystem (p ∷ ps) objs =
      both (scrape_objects (prom.build_fq_name namespace subsystem p.name) p objs)
        (scrape_families namespace subsystem ps objs)

  -- What the lister gives is a parameter; its error is logged, and there are no metrics.
  unfoldable pub scrape : {X : Type 0} → Provider X → Answer (List X) → Option (List Sample)
  unfolding scrape_families
  scrape provider (error e) = some []
  scrape provider (value objs) =
      scrape_families provider.namespace provider.subsystem provider.metric_families objs

-- The providers, by what `Scrape` comes to for each of them.
unfoldable pub collect : List (Option (List Sample)) → Option (List Sample)
collect [] = some []
collect (r ∷ rs) = both r (collect rs)
