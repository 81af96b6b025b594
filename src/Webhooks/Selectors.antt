-- ===== src/Webhooks/Selectors.antt =====
-- What the validation of a RunnerSet asks for, when it is made and when it changes.
use octorun.Base.{◌≡◌, arith, true, GoMap, Bool, ◌↔◌, eq_iff}
use octorun.Errors.{value, Answer}
use octorun.Resources.{RunnerSet, Raw}
use octorun.Webhooks.Url.{matches_url}
use octorun.Webhooks.Admission.{runner_set_object, accepted}
use octorun.Webhooks.RunnerSets.{validate_runner_set_create, validate_runner_set_update}

-- Where the selector of a new set can be read, the set is accepted when it is made exactly if the
-- URL of its template matches the pattern and the selector matches the template's labels; as an
-- update of an old set it is accepted exactly if the URL matches and the selector is the old one,
-- whatever the template's labels are.
pub validate_runner_set-accepted_iff :
    (as_selector : Raw → Answer (GoMap → Bool)) (matches : GoMap → Bool) (old new : RunnerSet)
    → as_selector new.spec.selector ≡ value matches
    → ((validate_runner_set_create as_selector (runner_set_object new) ≡ accepted) ↔ (
        (matches_url new.spec.template.spec.url ≡ true)
        × (matches new.spec.template.meta.labels ≡ true)))
      × ((validate_runner_set_update (runner_set_object old) (runner_set_object new) ≡ accepted) ↔ (
          (matches_url new.spec.template.spec.url ≡ true)
          × (old.spec.selector ≡ new.spec.selector)))
unfolding validate_runner_set_create validate_runner_set_update
validate_runner_set-accepted_iff as_selector matches old new h =
    ground (arith, h, eq_iff old.spec.selector new.spec.selector)
