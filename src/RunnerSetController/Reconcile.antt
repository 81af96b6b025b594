-- ===== src/RunnerSetController/Reconcile.antt =====
-- `Reconcile` of the RunnerSet controller. `none` as its result says that the loop of `MakeHistory`
-- has not ended within the given number of rounds.
use octorun.RunnerSetController.Revisions.{runner_set_revisioner}
use octorun.RunnerSetController.Sync.{sync_runners}
use octorun.RunnerSetController.Find.{revision_of, find_runners}
use octorun.Errors.{Answer, ok, error, value, api_is_not_found}
use octorun.Base.{
  none, some, if◌then◌else◌, List, String, ◌==◌, ℕ, Option, count_if, is_some, str_eq,
}
use octorun.Go.{M, ◌>>=◌, ◌>>◌, pure, fail, get, modify, ask, check_answer, deferred, branch}
use octorun.Resources.{Runner, RunnerSet, ObjectKey, ControllerRevision}
use octorun.Revision.World.{SetCall, SetWorld, get_set}
use octorun.Revision.History.{make_history}
use octorun.Revision.Truncate.{truncate_history}
use octorun.Patch.{patch, new_patcher}

abbrev pub updated : String → List Runner → ℕ
updated rev runners = count_if (λ runner. str_eq (revision_of runner) rev) runners

-- The current revision moves on once all runners carry the new one.
abbrev pub advance : String → List Runner → RunnerSet → RunnerSet
advance rev runners set =
    if set.status.runners == updated rev runners
    then record set { status = record (set.status) { current_revision = rev } }
    else set

abbrev pub with_selector : String → RunnerSet → RunnerSet
with_selector text set = record set { status = record (set.status) { selector = text } }

unfoldable pub with_history :
    SetWorld → String → Option ControllerRevision → M SetCall RunnerSet (Option (Unit {0}))
with_history w selector none s = (ok none, s)
with_history w selector (some rev) s =
    (do
      runners ← find_runners w rev.meta.name
      sync_runners w runners rev.meta.name
      modify (advance rev.meta.name runners)
      modify (with_selector selector)
      truncate_history w (runner_set_revisioner w) runners
      pure (some tt))
      s

unfoldable pub reconcile_selected :
    ℕ → SetWorld → Answer String → M SetCall RunnerSet (Option (Unit {0}))
unfolding with_history
reconcile_selected fuel w (error e) = pure (some tt)
reconcile_selected fuel w (value selector) = do
  rev ← make_history fuel w (runner_set_revisioner w)
  with_history w selector rev

-- The body between the creation of the patcher and the deferred patch. A selector that cannot be
-- read ends it with no error.
unfoldable pub reconcile_set : ℕ → SetWorld → M SetCall RunnerSet (Option (Unit {0}))
unfolding reconcile_selected
reconcile_set fuel w = do
  set ← get
  branch (is_some set.meta.deletion_timestamp) (pure (some tt))
      (reconcile_selected fuel w (w.selector_string set.spec.selector))

on_found : ℕ → SetWorld → Answer RunnerSet → M SetCall RunnerSet (Option (Unit {0}))
unfolding reconcile_set
on_found fuel w (error e) = branch (api_is_not_found e) (pure (some tt)) (fail e)
on_found fuel w (value set) = do
  modify (λ _. set)
  patcher ← check_answer (new_patcher (w.client.convert set))
  deferred (patch w.client patcher) (reconcile_set fuel w)

unfoldable pub reconcile : ℕ → SetWorld → ObjectKey → M SetCall RunnerSet (Option (Unit {0}))
unfolding on_found
reconcile fuel w key = do a ← ask (get_set key) w.found_set; on_found fuel w a
