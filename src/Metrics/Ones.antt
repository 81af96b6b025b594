-- ===== src/Metrics/Ones.antt =====
-- Which of the metrics that enumerate a value are 1.
use octorun.Base.{
  ◌≡◌, refl, arith, if◌then◌else◌, [], ◌∷◌, false, pos, Bool, keep, List, map, int_eq, codes,
  length, ◌*◌, String, ◌∙◌, ap,
}
use octorun.Resources.{
  Condition, unset_phase, pending, idle, active, complete, RunnerPhase, condition_true,
  condition_false, condition_unknown, ConditionStatus, phase_eq,
}
use octorun.Metrics.Family.{Metric, whole, hundredths, Value, Text}
use octorun.Metrics.Names.{to_lower}
use octorun.Metrics.Shared.{meta_conditions_metrics, status_text}
use octorun.Metrics.Runners.{phase_metrics, phase_text}

abbrev is_value_one : Value → Bool
is_value_one (whole n) = int_eq n (pos 1)
is_value_one (hundredths n) = false

abbrev pub is_one : Metric → Bool
is_one m = is_value_one m.value

abbrev pub labels_of : List Metric → List (List Text)
labels_of ms = map (λ m. m.label_values) ms

-- A Runner with a phase has four phase metrics, of which exactly one is 1, and that bears the name
-- of its phase; a Runner without a phase has none.
pub phase_metrics-ones :
    (p : RunnerPhase)
    → (labels_of (keep is_one (phase_metrics p))
        ≡ (if phase_eq p unset_phase then [] else (codes (phase_text p) ∷ []) ∷ []))
      × (length (phase_metrics p) ≡ (if phase_eq p unset_phase then 0 else 4))
unfolding phase_metrics
phase_metrics-ones unset_phase = (refl, refl)
phase_metrics-ones pending = (refl, refl)
phase_metrics-ones idle = (refl, refl)
phase_metrics-ones active = (refl, refl)
phase_metrics-ones complete = (refl, refl)

abbrev pub current : Condition → List Text
current c = codes c.type ∷ map to_lower (codes (status_text c.status)) ∷ []

abbrev condition_of : String → String → String → ConditionStatus → Condition
condition_of type reason message status = record {
  type = type;
  status = status;
  reason = reason;
  message = message;
}

ones-of_condition :
    (type reason message : String) (status : ConditionStatus) (cs : List Condition)
    → labels_of
        (keep is_one (meta_conditions_metrics (condition_of type reason message status ∷ cs)))
      ≡ current (condition_of type reason message status)
        ∷ labels_of (keep is_one (meta_conditions_metrics cs))
unfolding meta_conditions_metrics
ones-of_condition type reason message condition_true cs = refl
ones-of_condition type reason message condition_false cs = refl
ones-of_condition type reason message condition_unknown cs = refl

-- Each condition has three metrics; those that are 1 are, in the order of the conditions, the one of
-- each condition with the condition's type and its status in lower case.
pub meta_conditions_metrics-ones :
    (cs : List Condition)
    → (labels_of (keep is_one (meta_conditions_metrics cs)) ≡ map current cs)
      × (length (meta_conditions_metrics cs) ≡ 3 * length cs)
unfolding meta_conditions_metrics
meta_conditions_metrics-ones [] = (refl, refl)
meta_conditions_metrics-ones (c ∷ cs) =
    let ih = meta_conditions_metrics-ones cs in
    (
      ones-of_condition c.type c.reason c.message c.status cs ∙ ap (◌∷◌ (current c)) ih.0,
      omega (arith, ih.1),
    )
