-- ===== src/Webhooks/Admission.antt =====
-- What an admission webhook is given and what it answers.
use octorun.Errors.{Error}
use octorun.Base.{if◌then◌else◌, [], ◌∷◌, Bool, List, ◌++◌}
use octorun.Resources.{Runner, RunnerSet}

-- A `runtime.Object` is a pointer to a value of some type.
pub data Object : Type 0 where
  runner_object : Runner → Object
  runner_set_object : RunnerSet → Object
  other_object : Object

-- The entries of `field.ErrorList`.
pub data FieldError : Type 0 where
  invalid_url selector_mismatch selector_immutable spec_immutable : FieldError

-- A nil error, `apierrors.NewBadRequest`, `apierrors.NewInvalid`, any other error, or a panic.
pub data Verdict : Type 0 where
  accepted bad_request : Verdict
  invalid : List FieldError → Verdict
  internal : Error → Verdict
  panics : Verdict

-- `if len(allErrs) == 0 { return nil }`
abbrev pub verdict_of : List FieldError → Verdict
verdict_of [] = accepted
verdict_of (e ∷ es) = invalid (e ∷ es)

-- `if test { allErrs = append(allErrs, e) }`
abbrev pub note_if : Bool → FieldError → List FieldError → List FieldError
note_if test e es = if test then es ++ e ∷ [] else es
