-- ===== src/Examples/Small.antt =====
-- Errors, pods, labels, patches, revisions and admissions.
use octorun.Base.{
  false, ◌≡◌, [], ◌∷◌, some, true, refl, String, ◌↔◌, ◌<>◌, Option, Dict, after_prefix, GoMap, Bool,
}
use octorun.Errors.{value, Answer}
use octorun.Resources.{idle, active, Raw}
use octorun.Patch.{Patcher, patch}
use octorun.Patch.Laws.{patch_both}
use octorun.RunnerController.World.{patch_runner, patch_runner_status}
use octorun.Webhooks.Url.{matches_url, matches_url-suffix}
use octorun.Webhooks.Admission.{Object, runner_object, runner_set_object, other_object, accepted}
use octorun.Webhooks.Runners.{validate_runner_update}
use octorun.Webhooks.Selectors.{validate_runner_set-accepted_iff}
use octorun.Webhooks.RunnerSets.{validate_runner_set_create, validate_runner_set_update}
use octorun.Webhooks.Immutable.{guarded, validate_runner_update-accepted_iff}
use octorun.Examples.Worlds.{runner_in, unstructured, patch_client, session}
use octorun.Examples.SetWorlds.{runner_set}

abbrev patcher : Patcher
patcher = record { before = "{}"; before_status = some "{}" }

abbrev old_patcher : Patcher
old_patcher = record { before = "old"; before_status = some "old" }

patch_both_example :
    (patch patch_client old_patcher (session (runner_in active))).1.calls
    ≡ patch_runner_status (runner_in idle) ∷ patch_runner (runner_in active) ∷ []
patch_both_example =
    patch_both patch_client old_patcher unstructured (runner_in idle) (session (runner_in active))
      refl refl refl refl

matches_url-suffix_example :
    matches_url ("see https://evil.example/?" <> "https://github.com/octorun/octorun") ≡ true
unfolding matches_url after_prefix
matches_url-suffix_example =
    matches_url-suffix "see https://evil.example/?" "https://github.com/octorun/octorun" refl

-- Two versions of a runner that differ in the id.
abbrev convert : Object → Answer (Option Dict)
convert (runner_object r) = value (some (("id", "7") ∷ ("group", "Default") ∷ []))
convert _ = value (some (("group", "Default") ∷ []))

validate_runner_update-accepted_iff_example :
    (validate_runner_update convert other_object (runner_object (runner_in idle)) ≡ accepted) ↔ (
      (k : String)
      → guarded k (("group", "Default") ∷ []) ≡ guarded k (("id", "7") ∷ ("group", "Default") ∷ []))
validate_runner_update-accepted_iff_example =
    validate_runner_update-accepted_iff convert other_object (runner_object (runner_in idle))
      (("group", "Default") ∷ []) (("id", "7") ∷ ("group", "Default") ∷ []) refl refl

-- A selector that matches no labels.
abbrev nothing_matches : Raw → Answer (GoMap → Bool)
nothing_matches raw = value (λ labels. false)

validate_runner_set-accepted_iff_example :
    ((validate_runner_set_create nothing_matches (runner_set_object runner_set) ≡ accepted)
      ↔ ((matches_url "https://github.com/octorun" ≡ true) × (false ≡ true)))
    × ((validate_runner_set_update (runner_set_object runner_set) (runner_set_object runner_set)
          ≡ accepted)
        ↔ ((matches_url "https://github.com/octorun" ≡ true)
            × (runner_set.spec.selector ≡ runner_set.spec.selector)))
validate_runner_set-accepted_iff_example =
    validate_runner_set-accepted_iff nothing_matches (λ labels. false) runner_set runner_set refl
