-- ===== src/Webhooks/RunnerSets.antt =====
-- webhooks/runnerset_webhook.go.
use octorun.Webhooks.Url.{matches_url}
use octorun.Base.{
  if◌then◌else◌, [], some, entries, String, GoMap, not, is_some, Bool, lookup, str_eq, assign,
}
use octorun.Errors.{error, value, Answer}
use octorun.Resources.{RunnerSet, label_runner_set_name, Raw}
use octorun.Webhooks.Admission.{
  Object, runner_set_object, Verdict, accepted, bad_request, internal, selector_mismatch,
  selector_immutable, invalid_url, verdict_of, note_if,
}

set_name_label : String → GoMap → GoMap
set_name_label name labels =
    if is_some (lookup label_runner_set_name labels)
    then some (entries labels)
    else assign label_runner_set_name name labels

unfoldable pub default_runner_set : RunnerSet → RunnerSet
unfolding set_name_label
default_runner_set set = record set {
  meta = record (set.meta) { labels = some (entries set.meta.labels) };
  spec = record (set.spec) {
    template = record (set.spec.template) {
      meta = record (set.spec.template.meta) {
        labels = set_name_label set.meta.name set.spec.template.meta.labels;
      };
    };
  };
}

unfoldable pub admit_runner_set : Object → Verdict × Object
admit_runner_set (runner_set_object set) = (accepted, runner_set_object (default_runner_set set))
admit_runner_set obj = (bad_request, obj)

-- The selector is read from its encoded form; what is read tells which labels it matches.
unfoldable pub validate_runner_set_create : (Raw → Answer (GoMap → Bool)) → Object → Verdict
validate_runner_set_create as_selector (runner_set_object set) =
    elim (as_selector set.spec.selector) [
      | error e ↦ internal e
      | value matches ↦
          let template = set.spec.template in
          verdict_of (
            note_if (not (matches template.meta.labels)) selector_mismatch
              (note_if (not (matches_url template.spec.url)) invalid_url []))
    ]
validate_runner_set_create as_selector _ = bad_request

unfoldable pub validate_runner_set_update : Object → Object → Verdict
validate_runner_set_update (runner_set_object old) (runner_set_object new) = verdict_of (
    note_if (not (str_eq old.spec.selector new.spec.selector)) selector_immutable
      (note_if (not (matches_url new.spec.template.spec.url)) invalid_url []))
validate_runner_set_update _ _ = bad_request
