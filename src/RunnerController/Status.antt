-- ===== src/RunnerController/Status.antt =====
-- `reconcileStatus`: what the runner's status says, from the pod and from GitHub.
use octorun.Base.{false, not, some, String, ℤ, assign, str_eq}
use octorun.Go.{branch, M, ◌>>=◌, ◌>>◌, pure, get, modify, ask, tell, check, check_answer}
use octorun.Pods.{pod_condition_is_ready, runner_id_of}
use octorun.Resources.{
  key_of, Runner, set_phase, idle, active, complete, Pod, PodPhase, pod_pending, pod_running,
  pod_succeeded, Condition, ConditionStatus, condition_true, condition_false,
  runner_condition_online, runner_busy_reason, runner_online_reason, runner_offline_reason,
  runner_pod_pending_reason, runner_pod_succeeded_reason, runs_if_not_active,
}
use octorun.RunnerController.Objects.{safe_to_evict}
use octorun.RunnerController.World.{
  World, RunnerCall, github_get_runner, exec_in, patch_pod, event, normal, GithubRunner, Result,
  done, seconds,
}

abbrev pub online : ConditionStatus → String → String → Condition
online status reason message = record {
  type = runner_condition_online;
  status = status;
  reason = reason;
  message = message;
}

abbrev pub set_condition : World → Condition → Runner → Runner
set_condition w c runner = record runner {
  status = record (runner.status) {
    conditions = w.mach.set_status_condition c runner.status.conditions;
  };
}

abbrev pub set_id : ℤ → Runner → Runner
set_id id runner = record runner { spec = record (runner.spec) { id = some id } }

abbrev pub set_os : String → Runner → Runner
set_os os runner = record runner { spec = record (runner.spec) { os = os } }

abbrev pub protected : Pod → Pod
protected pod = record pod {
  meta = record (pod.meta) { annotations = assign safe_to_evict "false" pod.meta.annotations };
}

report_offline : World → M RunnerCall Runner Result
report_offline w = do
  modify (
      set_condition w
        (online condition_false runner_offline_reason "Github Runner has Offline status"))
  pure (record { requeue = false; requeue_after = seconds 5 })

protect_pod : World → Pod → M RunnerCall Runner Result
protect_pod w pod = do e ← ask (patch_pod (protected pod)) w.patched_pod; check e; pure done

report_busy : World → Pod → M RunnerCall Runner Result
unfolding protect_pod
report_busy w pod = do
  tell (event normal runner_busy_reason)
  modify (set_phase active)
  runner ← get
  branch (runs_if_not_active runner.spec.eviction_policy) (protect_pod w pod) (pure done)

report_online : World → Pod → GithubRunner → M RunnerCall Runner Result
unfolding report_busy
report_online w pod ghrunner = do
  modify (set_phase idle)
  tell (event normal runner_online_reason)
  modify (
      set_condition w
        (online condition_true runner_online_reason "Github Runner has Online status"))
  branch ghrunner.busy (report_busy w pod) (pure done)

report_ready : World → Pod → M RunnerCall Runner Result
unfolding report_offline report_online
report_ready w pod = do
  out ← ask (exec_in (key_of pod.meta)) w.exec
  id ← check_answer (runner_id_of out)
  modify (set_id id)
  runner ← get
  (ghrunner, e) ← ask (github_get_runner runner.spec.url id) w.github_runner
  check e
  modify (set_os ghrunner.os)
  branch (str_eq ghrunner.status "offline") (report_offline w) (report_online w pod ghrunner)

report_succeeded : World → M RunnerCall Runner Result
report_succeeded w = do
  tell (event normal runner_pod_succeeded_reason)
  modify (set_phase complete)
  modify (
      set_condition w
        (online condition_false runner_pod_succeeded_reason "Runner Pod has Succeeded phase"))
  pure done

-- The switch over the pod's phase.
by_pod_phase : World → Pod → PodPhase → M RunnerCall Runner Result
unfolding report_ready report_succeeded
by_pod_phase w pod pod_pending = do tell (event normal runner_pod_pending_reason); pure done
by_pod_phase w pod pod_running =
    branch (not (pod_condition_is_ready pod)) (pure done) (report_ready w pod)
by_pod_phase w pod pod_succeeded = report_succeeded w
by_pod_phase w pod _ = pure done

unfoldable pub reconcile_status : World → Pod → M RunnerCall Runner Result
unfolding by_pod_phase
reconcile_status w pod = by_pod_phase w pod pod.status.phase
