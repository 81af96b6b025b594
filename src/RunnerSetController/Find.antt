-- ===== src/RunnerSetController/Find.antt =====
-- `adoptRunner` and `findRunners`.
use octorun.Errors.{Answer, error, value}
use octorun.Base.{
  [], ◌∷◌, true, false, Bool, List, String, ◌++◌, value_at, ℕ, length, is_some, ◌+◌, ◌&&◌, not,
  str_eq, Dict,
}
use octorun.Go.{
  M, ◌>>=◌, ◌>>◌, pure, get, modify, ask, tell, check_answer, attempt, within, branch, fail,
}
use octorun.Resources.{
  Runner, RunnerSet, RunnerPhase, idle, active, complete, rolling_update,
  label_controller_revision_hash, key_of, runner_adopted_reason,
}
use octorun.Revision.World.{SetCall, SetWorld, delete_runner, list_runners, event, patch_runner}

-- The object is the Runner: the reference is set in memory, and then patched into the cluster.
unfoldable pub adopt_runner : SetWorld → RunnerSet → M SetCall Runner (Unit {0})
adopt_runner w set = do
  runner ← get
  branch (is_some (w.mach.get_controller_of runner.meta.owner_references)) (pure tt) (do
    m ← check_answer (w.mach.set_controller_reference set.meta runner.meta)
    modify (λ r. record r { meta = m })
    tell (event runner_adopted_reason)
    owned ← get
    a ← ask (patch_runner owned) w.patched_runner
    stored ← check_answer a
    modify (λ _. stored))

-- The local variables of `findRunners`.
pub record Found : Type 0 where
  pub runners : List Runner
  pub idle_runners : ℕ
  pub active_runners : ℕ

-- `runner.Labels[r.Revisioner.HashLabelKey()]`
abbrev pub revision_of : Runner → String
revision_of runner = value_at label_controller_revision_hash runner.meta.labels

abbrev pub is_rolling : RunnerSet → Bool
is_rolling set = elim set.spec.update_strategy [ rolling_update ↦ true | _ ↦ false ]

-- A deletion whose error is only logged, and `continue`.
abbrev pub discard : SetWorld → Runner → Found → M SetCall RunnerSet Found
discard w runner found = do ask (delete_runner (key_of runner.meta)) w.deleted_runner; pure found

abbrev pub count_idle : Runner → Found → Found
count_idle runner found = record found {
  runners = found.runners ++ runner ∷ [];
  idle_runners = found.idle_runners + 1;
}

abbrev pub count_active : Runner → Found → Found
count_active runner found = record found {
  runners = found.runners ++ runner ∷ [];
  active_runners = found.active_runners + 1;
}

abbrev pub count_other : Runner → Found → Found
count_other runner found = record found { runners = found.runners ++ runner ∷ [] }

-- The switch over the phase of an adopted runner.
unfoldable pub by_phase :
    SetWorld → RunnerSet → String → Runner → Found → RunnerPhase → M SetCall RunnerSet Found
by_phase w set rev runner found idle =
    branch (is_rolling set && not (str_eq (revision_of runner) rev)) (discard w runner found)
      (pure (count_idle runner found))
by_phase w set rev runner found active = pure (count_active runner found)
by_phase w set rev runner found complete = discard w runner found
by_phase w set rev runner found _ = pure (count_other runner found)

-- A runner that cannot be adopted is skipped.
unfoldable pub after_adoption :
    SetWorld → RunnerSet → String → Found → Answer (Unit {0} × Runner) → M SetCall RunnerSet Found
unfolding by_phase
after_adoption w set rev found (error e) = pure found
after_adoption w set rev found (value (_, runner)) =
    by_phase w set rev runner found runner.status.phase

-- Another controller's runner is left alone.
abbrev pub is_foreign : SetWorld → RunnerSet → Runner → Bool
is_foreign w set runner =
    is_some (w.mach.get_controller_of runner.meta.owner_references)
    && not (w.mach.is_controlled_by runner.meta.owner_references set.meta.uid)

unfoldable pub visit : SetWorld → RunnerSet → String → Runner → Found → M SetCall RunnerSet Found
unfolding after_adoption
visit w set rev runner found =
    branch (is_foreign w set runner) (pure found)
      (do a ← attempt (within runner (adopt_runner w set)); after_adoption w set rev found a)

unfoldable pub visit_all :
    SetWorld → RunnerSet → String → List Runner → Found → M SetCall RunnerSet Found
visit_all w set rev [] found = pure found
visit_all w set rev (runner ∷ rest) found = do
  found' ← visit w set rev runner found
  visit_all w set rev rest found'

abbrev pub nothing_found : Found
nothing_found = record { runners = []; idle_runners = 0; active_runners = 0 }

abbrev pub counted : Found → RunnerSet → RunnerSet
counted found set = record set {
  status = record (set.status) {
    runners = length found.runners;
    idle_runners = found.idle_runners;
    active_runners = found.active_runners;
  };
}

unfoldable pub visit_listed :
    SetWorld → RunnerSet → String → Answer (List Runner) → M SetCall RunnerSet (List Runner)
visit_listed w set rev (error e) = fail e
visit_listed w set rev (value items) = do
  found ← visit_all w set rev items nothing_found
  modify (counted found)
  pure found.runners

unfoldable pub list_selected :
    SetWorld → RunnerSet → String → Answer Dict → M SetCall RunnerSet (List Runner)
unfolding visit_listed
list_selected w set rev (error e) = fail e
list_selected w set rev (value labels) = do
  a ← ask (list_runners set.meta.namespace labels) w.listed_runners
  visit_listed w set rev a

unfoldable pub find_runners : SetWorld → String → M SetCall RunnerSet (List Runner)
unfolding list_selected
find_runners w rev = do set ← get; list_selected w set rev (w.selector_map set.spec.selector)
