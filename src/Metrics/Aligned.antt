-- ===== src/Metrics/Aligned.antt =====
-- The labels of the metrics: as many values as names.
use octorun.Base.{
  ◌≡◌, refl, arith, pos, [], ◌∷◌, some, none, String, Option, All, length, List, ℕ, GoMap, ℤ, map,
  length_laws,
}
use octorun.Resources.{
  Runner, RunnerSet, Condition, unset_phase, pending, idle, active, complete, RunnerPhase,
  ObjectMeta,
}
use octorun.Metrics.Family.{Metric, MetricFamily, Value, whole, hundredths}
use octorun.Metrics.Shared.{meta_conditions_metrics, label_metrics, wrapped, created_metrics, bare}
use octorun.Metrics.Runners.{phase_metrics, runner_families}
use octorun.Metrics.RunnerSets.{runner_set_families}

abbrev pub IsAligned : Metric → Type 0
IsAligned m = length m.label_keys ≡ length m.label_values

wrapped-IsAligned :
    (kind : String) (meta : ObjectMeta) (ms : List Metric)
    → All IsAligned ms
    → All IsAligned (map (wrapped kind meta) ms)
wrapped-IsAligned kind meta [] h = tt
wrapped-IsAligned kind meta (m ∷ ms) h = (omega (arith, h.0), wrapped-IsAligned kind meta ms h.1)

conditions-IsAligned : (cs : List Condition) → All IsAligned (meta_conditions_metrics cs)
unfolding meta_conditions_metrics
conditions-IsAligned [] = tt
conditions-IsAligned (c ∷ cs) = (refl, (refl, (refl, conditions-IsAligned cs)))

labels-IsAligned :
    (sort_strings : List String → List String) (labels : GoMap)
    → All IsAligned (label_metrics sort_strings labels)
unfolding label_metrics
labels-IsAligned sort_strings labels = (simp length_laws, tt)

created-IsAligned : (t : Option ℕ) → All IsAligned (created_metrics t)
created-IsAligned none = tt
created-IsAligned (some t) = (refl, tt)

phases-IsAligned : (p : RunnerPhase) → All IsAligned (phase_metrics p)
unfolding phase_metrics
phases-IsAligned unset_phase = tt
phases-IsAligned pending = (refl, (refl, (refl, (refl, tt))))
phases-IsAligned idle = (refl, (refl, (refl, (refl, tt))))
phases-IsAligned active = (refl, (refl, (refl, (refl, tt))))
phases-IsAligned complete = (refl, (refl, (refl, (refl, tt))))

desired-IsAligned :
    (o : Option ℤ) (f : ℤ → Value)
    → All IsAligned (elim o as (λ _. List Metric) [ none ↦ [] | some n ↦ bare (f n) ∷ [] ])
desired-IsAligned none f = tt
desired-IsAligned (some n) f = (refl, tt)

-- All metrics of the families of an object.
abbrev pub AllMetrics : {X : Type 0} → (Metric → Type 0) → X → List (MetricFamily X) → Type 0
AllMetrics P x families = All (λ f. All P (f.metrics_func x)) families

-- Every metric of a Runner and every metric of a RunnerSet has as many label values as label names,
-- whatever the object holds, and however the names are sorted.
families-IsAligned :
    (sort_strings : List String → List String) (percent : ℕ → ℕ → ℤ) (r : Runner) (s : RunnerSet)
    → AllMetrics IsAligned r (runner_families sort_strings)
      × AllMetrics IsAligned s (runner_set_families sort_strings percent)
unfolding runner_families runner_set_families
families-IsAligned sort_strings percent r s =
    let runner = wrapped-IsAligned "runner" r.meta in
    let set = wrapped-IsAligned "runnerset" s.meta in
    let desired = λ (f : ℤ → Value). set _ (desired-IsAligned s.spec.runners f) in
    (
      (
        runner (label_metrics sort_strings r.meta.labels)
            (labels-IsAligned sort_strings r.meta.labels),
        (
          runner _ (created-IsAligned r.meta.creation_timestamp),
          (
            runner _ (phases-IsAligned r.status.phase),
            (runner _ (conditions-IsAligned r.status.conditions), tt),
          ),
        ),
      ),
      (
        set (label_metrics sort_strings s.meta.labels)
            (labels-IsAligned sort_strings s.meta.labels),
        (
          set _ (created-IsAligned s.meta.creation_timestamp),
          (
            desired (λ n. whole n),
            (
              desired (λ _. whole (pos s.status.runners)),
              (
                desired (λ _. whole (pos s.status.idle_runners)),
                (
                  desired (λ _. whole (pos s.status.active_runners)),
                  (
                    set _ (conditions-IsAligned s.status.conditions),
                    (
                      desired (λ _. hundredths (percent s.status.active_runners s.status.runners)),
                      tt,
                    ),
                  ),
                ),
              ),
            ),
          ),
        ),
      ),
    )
