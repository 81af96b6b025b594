-- ===== src/RunnerController/Phases.antt =====
-- Which phase a reconciliation reports, and from what.
use octorun.Base.{◌≡◌, ◌↔◌, ◌≢◌, Bool, true, false, none, ◌∷◌, ℤ, arith, str_eq, String, List}
use octorun.Errors.{value, Answer, error}
use octorun.Go.{Session}
use octorun.Pods.{pod_condition_is_ready, runner_id_of}
use octorun.Resources.{
  key_of, Runner, RunnerPhase, pending, idle, active, complete, Pod, pod_running, pod_succeeded,
}
use octorun.RunnerController.World.{World, RunnerCall, github_get_runner, exec_in}
use octorun.RunnerController.Status.{reconcile_status}

-- GitHub answers for the id that the runner is not offline and has this `busy`.
abbrev pub IsSeen : World → String → List RunnerCall → Bool → Answer ℤ → Type 0
IsSeen w url c busy (error e) = ⊥
IsSeen w url c busy (value id) =
    ((w.github_runner (github_get_runner url id ∷ c)).1 ≡ none)
    × (str_eq (w.github_runner (github_get_runner url id ∷ c)).0.status "offline" ≡ false)
    × ((w.github_runner (github_get_runner url id ∷ c)).0.busy ≡ busy)

-- The remote command in the pod gives an id, for which GitHub sees the runner.
abbrev pub IsOnline : World → Pod → Session RunnerCall Runner → Bool → Type 0
IsOnline w pod s busy =
    let c = exec_in (key_of pod.meta) ∷ s.calls in
    IsSeen w s.object.spec.url c busy (runner_id_of (w.exec c))

abbrev pub IsUp : Pod → Type 0
IsUp pod = (pod.status.phase ≡ pod_running) × (pod_condition_is_ready pod ≡ true)

-- Starting from the Pending phase that Reconcile sets, reconcileStatus ends in Complete exactly
-- when the pod succeeded, in Active exactly when the pod runs, is ready and its runner is online
-- and busy, in Idle exactly when that runner is online and not busy; it never unsets the phase.
-- This holds whether it returns an error or not.
pub reconcile_status-phase :
    (w : World) (pod : Pod) (s : Session RunnerCall Runner)
    → s.object.status.phase ≡ pending
    → (((reconcile_status w pod s).1.object.status.phase ≡ complete)
        ↔ (pod.status.phase ≡ pod_succeeded))
      × (((reconcile_status w pod s).1.object.status.phase ≡ active)
          ↔ (IsUp pod × IsOnline w pod s true))
      × (((reconcile_status w pod s).1.object.status.phase ≡ idle)
          ↔ (IsUp pod × IsOnline w pod s false))
      × ((reconcile_status w pod s).1.object.status.phase ≢ RunnerPhase.unset_phase)
unfolding reconcile_status
reconcile_status-phase w pod s p = (ground arith, ground arith, ground arith, ground arith)
