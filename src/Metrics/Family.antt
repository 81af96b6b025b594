-- ===== src/Metrics/Family.antt =====
-- The types of pkg/statemetrics/statemetrics.go. A text is the list of its code points.
use octorun.Base.{ℕ, List, ℤ, String}

abbrev pub Text : Type 0
Text = List ℕ

-- A `float64` that stands for a whole number, or for a whole number of hundredths.
pub data Value : Type 0 where
  whole hundredths : ℤ → Value

pub record Metric : Type 0 where
  pub label_keys : List Text
  pub label_values : List Text
  pub value : Value

-- The repository has gauges only.
pub data ValueType : Type 0 where
  gauge_value : ValueType

-- `MetricsFunc` takes a `runtime.Object`, which `WrapMetricsFunc` asserts to be of the type `X` that
-- the provider lists.
pub record MetricFamily (X : Type 0) : Type 0 where
  pub name : String
  pub help : String
  pub type : ValueType
  pub metrics_func : X → List Metric

pub record Provider (X : Type 0) : Type 0 where
  pub namespace : String
  pub subsystem : String
  pub metric_families : List (MetricFamily X)
