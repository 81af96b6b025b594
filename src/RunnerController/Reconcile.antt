-- ===== src/RunnerController/Reconcile.antt =====
-- `Reconcile`: the handling of a runner that is being deleted, and of one that is not.
use octorun.Base.{Bool, true, false, not, Option, none, some, String, ℤ, minus_one, int_eq, is_some}
use octorun.Errors.{Error, Outcome, ok, Answer, value, error, api_is_not_found, ignore_not_found}
use octorun.Go.{
  branch, M, ◌>>=◌, ◌>>◌, pure, fail, crash, get, modify, ask, tell, check, check_answer, attempt,
  within, deferred,
}
use octorun.Patch.{new_patcher, patch}
use octorun.Resources.{
  ObjectKey, key_of, Runner, phase_eq, set_phase, pending, active, complete, Pod,
  runner_secret_failed_reason,
}
use octorun.RunnerController.World.{
  World, RunnerCall, get_runner, github_get_runner, delete_pod, delete_secret, event, warning,
  Result, done, seconds,
}
use octorun.RunnerController.Objects.{secret_for_runner, pod_for_runner}
use octorun.RunnerController.Tokens.{refresh_token, refresh_last_token, is_terminal, tolerate}
use octorun.RunnerController.Status.{reconcile_status}

abbrev pub runner_controller : String
runner_controller = "runner.octorun.github.io/controller"

abbrev pub finalize : World → Runner → Runner
finalize w runner = record runner {
  meta = record (runner.meta) {
    finalizers = w.mach.add_finalizer runner_controller runner.meta.finalizers;
  };
}

abbrev pub release : World → Runner → Runner
release w runner = record runner {
  meta = record (runner.meta) {
    finalizers = w.mach.remove_finalizer runner_controller runner.meta.finalizers;
  };
}

-- The job is over: the next round deletes the resources.
job_over : M RunnerCall Runner Result
job_over = do modify (set_phase complete); pure (record { requeue = true; requeue_after = 0 })

poll_job : World → ℤ → M RunnerCall Runner Result
unfolding job_over
poll_job w id = do
  runner ← get
  (ghrunner, e) ← ask (github_get_runner runner.spec.url id) w.github_runner
  tolerate e
  branch (not ghrunner.busy) job_over
      (pure (record { requeue = false; requeue_after = seconds 60 }))

-- `pointer.Int64Deref(runner.Spec.ID, -1)`
abbrev pub id_or_minus_one : Option ℤ → ℤ
id_or_minus_one none = minus_one
id_or_minus_one (some id) = id

-- The deletion of a runner in the Active phase.
unfoldable pub await_job : World → M RunnerCall Runner Result
unfolding poll_job
await_job w = do
  runner ← get
  branch (int_eq (id_or_minus_one runner.spec.id) minus_one) job_over
      (poll_job w (id_or_minus_one runner.spec.id))

-- The deletion of a runner in any other phase.
unfoldable pub delete_resources : World → M RunnerCall Runner Result
delete_resources w = do
  runner ← get
  within (secret_for_runner runner) (w.create_or_update_secret (refresh_last_token w runner))
  e ← ask (delete_pod (key_of (pod_for_runner runner).meta)) w.deleted_pod
  check (ignore_not_found e)
  e' ← ask (delete_secret (key_of (secret_for_runner runner).meta)) w.deleted_secret
  check (ignore_not_found e')
  modify (release w)
  pure done

-- ctrl.SetControllerReference(runner, runnerPod, r.Scheme)
pub own_pod : World → Runner → M RunnerCall Pod (Unit {0})
own_pod w runner = do
  pod ← get
  m ← check_answer (w.mach.set_controller_reference runner.meta pod.meta)
  modify (λ k. record k { meta = m })

unfoldable pub reconcile_pod : World → M RunnerCall Runner Result
reconcile_pod w = do
  runner ← get
  (_, pod) ← within (pod_for_runner runner) (w.create_or_update_pod (own_pod w runner))
  modify (set_phase pending)
  reconcile_status w pod

-- A refusal by GitHub is final: an event, and no other attempt.
unfoldable pub secret_refused : Error → Outcome Bool → M RunnerCall Runner Result
secret_refused e (ok true) = do tell (event warning runner_secret_failed_reason); pure done
secret_refused e (ok false) = fail e
secret_refused e _ = crash

after_secret : {A : Type 0} → World → Answer A → M RunnerCall Runner Result
unfolding secret_refused reconcile_pod
after_secret w (value _) = reconcile_pod w
after_secret w (error e) = secret_refused e (is_terminal e)

unfoldable pub reconcile_resources : World → M RunnerCall Runner Result
unfolding after_secret
reconcile_resources w = do
  modify (finalize w)
  runner ← get
  a ←
      attempt
        (within (secret_for_runner runner) (w.create_or_update_secret (refresh_token w runner)))
  after_secret w a

-- The body between the creation of the patcher and the deferred patch.
unfoldable pub reconcile_runner : World → M RunnerCall Runner Result
unfolding await_job delete_resources reconcile_resources
reconcile_runner w = do
  runner ← get
  branch (is_some runner.meta.deletion_timestamp)
      (branch (phase_eq runner.status.phase active) (await_job w) (delete_resources w))
      (reconcile_resources w)

on_found : World → Answer Runner → M RunnerCall Runner Result
unfolding reconcile_runner
on_found w (error e) = branch (api_is_not_found e) (pure done) (fail e)
on_found w (value runner) = do
  modify (λ _. runner)
  patcher ← check_answer (new_patcher (w.client.convert runner))
  deferred (patch w.client patcher) (reconcile_runner w)

-- The object is the Runner that `Reconcile` allocates and `Get` fills.
unfoldable pub reconcile : World → ObjectKey → M RunnerCall Runner Result
unfolding on_found
reconcile w key = do a ← ask (get_runner key) w.found_runner; on_found w a
