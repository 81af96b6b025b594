-- ===== src/Webhooks/Runners.antt =====
-- webhooks/runner_webhook.go.
use octorun.Webhooks.Url.{matches_url}
use octorun.Base.{
  if◌then◌else◌, [], ◌∷◌, some, none, true, false, GoMap, String, Option, Dict, not, str_eq, Bool,
  find_key, ◌&&◌, is_some, lookup, assign, entries,
}
use octorun.Errors.{error, value, Answer}
use octorun.Resources.{Runner, label_runner_name}
use octorun.Webhooks.Admission.{
  Object, runner_object, Verdict, accepted, bad_request, internal, panics, invalid_url,
  spec_immutable, verdict_of, note_if,
}

or_else : String → String → String
or_else s default = if str_eq s "" then default else s

default_labels : Runner → GoMap
default_labels runner =
    if not (is_some (lookup label_runner_name runner.meta.labels))
      && not (str_eq runner.meta.name "")
    then assign label_runner_name runner.meta.name runner.meta.labels
    else some (entries runner.meta.labels)

unfoldable pub default_runner : Runner → Runner
unfolding default_labels or_else
default_runner runner = record runner {
  meta = record (runner.meta) { labels = default_labels runner };
  spec = record (runner.spec) {
    group = or_else runner.spec.group "Default";
    workdir = or_else runner.spec.workdir "_work";
  };
}

-- `Default`, with the object as it leaves it.
unfoldable pub admit_runner : Object → Verdict × Object
admit_runner (runner_object runner) = (accepted, runner_object (default_runner runner))
admit_runner obj = (bad_request, obj)

unfoldable pub validate_runner_create : Object → Verdict
validate_runner_create (runner_object runner) =
    verdict_of (note_if (not (matches_url runner.spec.url)) invalid_url [])
validate_runner_create _ = bad_request

unfoldable pub delete_key : String → Dict → Dict
delete_key k [] = []
delete_key k ((j, v) ∷ rest) = if str_eq j k then delete_key k rest else (j, v) ∷ delete_key k rest

-- An encoded value or its absence, compared.
abbrev pub same_value : Option String → Option String → Bool
same_value none none = true
same_value (some v) (some w) = str_eq v w
same_value _ _ = false

unfoldable pub agree_on : Dict → Dict → Dict → Bool
agree_on [] a b = true
agree_on ((k, _) ∷ rest) a b = same_value (find_key k a) (find_key k b) && agree_on rest a b

-- `reflect.DeepEqual` of two maps: every key of the one or the other has the same value in both.
unfoldable pub deep_equal : Dict → Dict → Bool
unfolding agree_on
deep_equal a b = agree_on a a b && agree_on b a b

unfoldable pub without_managed : Dict → Dict
without_managed spec = delete_key "os" (delete_key "id" spec)

compared : Option Dict → Option Dict → Verdict
compared (some old) (some new) =
    verdict_of
      (note_if (not (deep_equal (without_managed old) (without_managed new))) spec_immutable [])
compared _ _ = panics

-- The conversion to unstructured content gives the entry `spec`, as a map from its fields to their
-- encoded values; without that entry the type assertion panics.
unfoldable pub validate_runner_update : (Object → Answer (Option Dict)) → Object → Object → Verdict
unfolding compared
validate_runner_update convert old_obj new_obj = elim (convert old_obj) [
  | error e ↦ internal e
  | value old ↦ elim (convert new_obj) [ error e ↦ internal e | value new ↦ compared old new ]
]
