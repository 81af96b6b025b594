-- ===== src/Examples/Runners.antt =====
-- The reconciliation of concrete Runners.
use octorun.Sortable.{priority}
use octorun.Go.{Session}
use octorun.Pods.{pod_condition_is_ready, runner_id_of}
use octorun.Base.{◌≡◌, [], ◌∷◌, some, none, true, false, pos, refl, ◌↔◌, ◌⊎◌, ◌≢◌}
use octorun.Errors.{ok, err, error_response, is_ok, ignore_not_found}
use octorun.Resources.{Runner, active, idle, pending, complete, Secret, pod_succeeded, unset_phase}
use octorun.RunnerController.World.{World, RunnerCall, seconds, create_runner_token}
use octorun.RunnerController.Status.{reconcile_status}
use octorun.RunnerController.Reconcile.{reconcile_runner, finalize, release}
use octorun.RunnerController.Phases.{IsUp, IsOnline, reconcile_status-phase}
use octorun.RunnerController.Deletion.{
  AsksGithub, reconcile_runner_active, reconcile_runner_busy, reconcile_runner_deleted,
  secret_deletion, pod_deletion,
}
use octorun.RunnerController.Refusal.{Refusal, reconcile_runner-Refusal, reconcile_runner_forgets}
use octorun.RunnerController.Objects.{secret_for_runner}
use octorun.Sortable.{priority, could_delete}
use octorun.Examples.Worlds.{calm, session, runner_in, deleted, ready_pod}

abbrev busy_session : Session RunnerCall Runner
busy_session = session (deleted (runner_in active))

abbrev idle_session : Session RunnerCall Runner
idle_session = session (deleted (runner_in idle))

abbrev pending_session : Session RunnerCall Runner
pending_session = session (runner_in pending)

abbrev active_session : Session RunnerCall Runner
active_session = session (runner_in active)

reconcile_runner_active_example :
    AsksGithub busy_session (reconcile_runner (calm true) busy_session).1
    × ((reconcile_runner (calm true) busy_session).1.object.meta ≡ busy_session.object.meta)
    × ((reconcile_runner (calm true) busy_session).1.object.spec ≡ busy_session.object.spec)
    × (((reconcile_runner (calm true) busy_session).1.object.status.phase ≡ active)
        ⊎ ((reconcile_runner (calm true) busy_session).1.object.status.phase ≡ complete))
reconcile_runner_active_example = reconcile_runner_active (calm true) busy_session 5 refl refl

reconcile_runner_busy_example :
    ((reconcile_runner (calm true) busy_session).0
      ≡ ok (record { requeue = false; requeue_after = seconds 60 }))
    × ((reconcile_runner (calm true) busy_session).1.object ≡ busy_session.object)
reconcile_runner_busy_example = reconcile_runner_busy (calm true) busy_session 5 refl refl refl refl

reconcile_runner_deleted_example :
    ((is_ok (reconcile_runner (calm false) idle_session).0 ≡ true)
      × ((reconcile_runner (calm false) idle_session).1.object
          ≡ release (calm false) idle_session.object)
      × ((reconcile_runner (calm false) idle_session).1.calls
          ≡ secret_deletion (calm false) idle_session)
      × (ignore_not_found ((calm false).deleted_pod (pod_deletion (calm false) idle_session))
          ≡ none)
      × (ignore_not_found ((calm false).deleted_secret (secret_deletion (calm false) idle_session))
          ≡ none))
    ⊎ ((is_ok (reconcile_runner (calm false) idle_session).0 ≡ false)
        × ((reconcile_runner (calm false) idle_session).1.object ≡ idle_session.object))
reconcile_runner_deleted_example = reconcile_runner_deleted (calm false) idle_session 5 refl refl

reconcile_status-phase_example :
    (((reconcile_status (calm true) ready_pod pending_session).1.object.status.phase ≡ complete)
      ↔ (ready_pod.status.phase ≡ pod_succeeded))
    × (((reconcile_status (calm true) ready_pod pending_session).1.object.status.phase ≡ active)
        ↔ (IsUp ready_pod × IsOnline (calm true) ready_pod pending_session true))
    × (((reconcile_status (calm true) ready_pod pending_session).1.object.status.phase ≡ idle)
        ↔ (IsUp ready_pod × IsOnline (calm true) ready_pod pending_session false))
    × ((reconcile_status (calm true) ready_pod pending_session).1.object.status.phase ≢ unset_phase)
reconcile_status-phase_example = reconcile_status-phase (calm true) ready_pod pending_session refl

-- GitHub refuses the token for the secret, which does not exist.
abbrev refusing : World
refusing = record (calm false) {
  create_or_update_secret = λ f s. f s;
  runner_token = λ c. (record { token = ""; expires_at = 0 }, some (error_response (some 404)));
}

abbrev new_secret : Session RunnerCall Secret
new_secret = record {
  object = secret_for_runner (finalize refusing (runner_in active));
  calls = [];
}

reconcile_runner-Refusal_example :
    Refusal
      (error_response (some 404))
      (finalize refusing (runner_in active))
      (create_runner_token (runner_in active).spec.url ∷ [])
      (reconcile_runner refusing active_session)
unfolding secret_for_runner
reconcile_runner-Refusal_example =
    reconcile_runner-Refusal refusing active_session new_secret (error_response (some 404)) refl
      (λ e t h. h) refl refl

-- The secret exists already.
abbrev settled : World
settled = record (calm true) { create_or_update_secret = λ f s. (ok tt, s) }

-- GitHub fails to answer.
abbrev failing : World
failing = record settled {
  github_runner =
      λ c. (record { busy = false; os = ""; status = "" }, some (error_response (some 500)));
}

reconcile_runner_forgets_example :
    ((reconcile_runner failing active_session).0 ≡ err (error_response (some 500)))
    × ((reconcile_runner failing active_session).1.object.status.phase ≡ pending)
    × (priority (reconcile_runner failing active_session).1.object ≡ could_delete)
unfolding pod_condition_is_ready runner_id_of
reconcile_runner_forgets_example =
    reconcile_runner_forgets failing active_session (pos 7) (error_response (some 500)) refl refl
      refl (refl, refl) refl refl
