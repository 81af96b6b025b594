-- ===== src/RunnerController/Deletion.antt =====
-- The deletion of a runner by `Reconcile`.
use octorun.RunnerController.Objects.{secret_for_runner, pod_for_runner}
use octorun.Errors.{Error, ok, ignore_not_found, is_ok}
use octorun.RunnerController.Tokens.{refresh_last_token}
use octorun.Resources.{Runner, phase_eq, active, key_of, complete, set_phase, Secret}
use octorun.Base.{
  ◌≡◌, true, false, arith, ℕ, List, ◌⊎◌, Option, some, int_eq, ◌∷◌, minus_one, none, if◌then◌else◌,
}
use octorun.Go.{Session}
use octorun.RunnerController.World.{
  World, RunnerCall, GithubRunner, github_get_runner, delete_secret, delete_pod, seconds,
}
use octorun.RunnerController.Reconcile.{reconcile_runner, id_or_minus_one, release}

-- GitHub was asked once for the runner, and nothing else was called.
abbrev pub AsksGithub : Session RunnerCall Runner → Session RunnerCall Runner → Type 0
AsksGithub s t =
    (t.calls ≡ s.calls)
    ⊎ (t.calls ≡ github_get_runner s.object.spec.url (id_or_minus_one s.object.spec.id) ∷ s.calls)

-- While a runner that is being deleted is in the Active phase, a reconciliation makes no call but
-- one question to GitHub, leaves metadata and spec (so the finalizer too) as they are, and the
-- phase is Active or Complete afterwards, whatever the world answers.
pub reconcile_runner_active :
    (w : World) (s : Session RunnerCall Runner) (t : ℕ)
    → s.object.meta.deletion_timestamp ≡ some t
    → s.object.status.phase ≡ active
    → AsksGithub s (reconcile_runner w s).1
      × ((reconcile_runner w s).1.object.meta ≡ s.object.meta)
      × ((reconcile_runner w s).1.object.spec ≡ s.object.spec)
      × (((reconcile_runner w s).1.object.status.phase ≡ active)
          ⊎ ((reconcile_runner w s).1.object.status.phase ≡ complete))
unfolding reconcile_runner
reconcile_runner_active w s t d p = (ground arith, ground arith, ground arith, ground arith)

-- What GitHub says of the runner's id.
abbrev pub github_answer : World → Session RunnerCall Runner → GithubRunner × Option Error
github_answer w s =
    w.github_runner
      (github_get_runner s.object.spec.url (id_or_minus_one s.object.spec.id) ∷ s.calls)

-- Deleting an Active runner that has an id, when GitHub answers for it without an error: while
-- GitHub says busy the runner is left as it is and looked at again after 60 seconds, and else it
-- becomes Complete and is looked at again at once.
pub reconcile_runner_busy :
    (w : World) (s : Session RunnerCall Runner) (t : ℕ)
    → s.object.meta.deletion_timestamp ≡ some t
    → s.object.status.phase ≡ active
    → int_eq (id_or_minus_one s.object.spec.id) minus_one ≡ false
    → (github_answer w s).1 ≡ none
    → ((reconcile_runner w s).0 ≡ (
        if (github_answer w s).0.busy
        then ok (record { requeue = false; requeue_after = seconds 60 })
        else ok (record { requeue = true; requeue_after = 0 })))
      × ((reconcile_runner w s).1.object
          ≡ (if (github_answer w s).0.busy then s.object else set_phase complete s.object))
unfolding reconcile_runner
reconcile_runner_busy w s t d p i e = (ground arith, ground arith)

-- The session after the secret was refreshed.
abbrev pub secret_session : World → Session RunnerCall Runner → Session RunnerCall Secret
secret_session w s =
    (w.create_or_update_secret (refresh_last_token w s.object)
      (record { object = secret_for_runner s.object; calls = s.calls })).1

abbrev pub pod_deletion : World → Session RunnerCall Runner → List RunnerCall
pod_deletion w s = delete_pod (key_of (pod_for_runner s.object).meta) ∷ (secret_session w s).calls

abbrev pub secret_deletion : World → Session RunnerCall Runner → List RunnerCall
secret_deletion w s = delete_secret (key_of (secret_for_runner s.object).meta) ∷ pod_deletion w s

-- Deleting a runner that is not Active. Either the reconciliation succeeds: then the pod and after
-- it the secret were asked to be deleted as the last two calls, each was answered by success or by
-- not found, and the runner has changed in its finalizers only, from which the controller's is
-- removed. Or it does not succeed: then the runner is as it was, its finalizer included.
pub reconcile_runner_deleted :
    (w : World) (s : Session RunnerCall Runner) (t : ℕ)
    → s.object.meta.deletion_timestamp ≡ some t
    → phase_eq s.object.status.phase active ≡ false
    → ((is_ok (reconcile_runner w s).0 ≡ true)
        × ((reconcile_runner w s).1.object ≡ release w s.object)
        × ((reconcile_runner w s).1.calls ≡ secret_deletion w s)
        × (ignore_not_found (w.deleted_pod (pod_deletion w s)) ≡ none)
        × (ignore_not_found (w.deleted_secret (secret_deletion w s)) ≡ none))
      ⊎ ((is_ok (reconcile_runner w s).0 ≡ false) × ((reconcile_runner w s).1.object ≡ s.object))
unfolding reconcile_runner
reconcile_runner_deleted w s t d p = ground arith
