-- ===== src/Examples/Secrets.antt =====
-- The registration token of a concrete Runner, before and after it expires.
use octorun.Go.{Session}
use octorun.Base.{◌≡◌, [], ◌∷◌, some, none, true, false, ◌↔◌, ◌-◌, GoMap, ◌^◌}
use octorun.Errors.{panic}
use octorun.Resources.{Secret, idle, empty_meta, annotation_runner_token_expires_at}
use octorun.RunnerController.World.{World, RunnerCall}
use octorun.RunnerController.Tokens.{refresh_token, needs_token}
use octorun.RunnerController.Secrets.{token_answer, refresh_token-panic_iff}
use octorun.Examples.Worlds.{calm, runner_in, written_time, written_instant}

-- As the API server gives it back: made, annotated, with the data or without.
abbrev stored : GoMap → Session RunnerCall Secret
stored contents = record {
  object = record {
    meta = record empty_meta {
      name = "runner-a-registration-token";
      annotations = some ((annotation_runner_token_expires_at, written_time) ∷ []);
      creation_timestamp = some 1;
    };
    contents = contents;
    immutable = none;
  };
  calls = [];
}

-- One second before the expiry.
abbrev late : World
late = record (calm false) { now = λ c. written_instant - 10 ^ 9 }

abbrev with_old_token : Session RunnerCall Secret
with_old_token = stored (some (("token", "old") ∷ []))

refresh_token-panic_iff_example :
    ((refresh_token late (runner_in idle) (stored none)).0 ≡ panic) ↔ (
      (needs_token late (written_instant - 10 ^ 9) (stored none).object ≡ true)
      × ((token_answer late (runner_in idle) (stored none)).1 ≡ none)
      × ((stored none).object.contents ≡ none))
refresh_token-panic_iff_example = refresh_token-panic_iff late (runner_in idle) (stored none)
