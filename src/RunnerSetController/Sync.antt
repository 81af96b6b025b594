-- ===== src/RunnerSetController/Sync.antt =====
-- `syncRunners`: creates the runners that are missing, or deletes those that are too many.
use octorun.Errors.{Answer, new_aggregate, Error, value, error, ignore_not_found}
use octorun.Base.{
  [], ◌∷◌, none, some, zero, suc, if◌then◌else◌, pos, negsuc, List, String, ℤ, ℕ, Option, ltb, ◌<>◌,
  leb, ◌+◌, entries, length, ◌==◌, assign, ◌-◌, take,
}
use octorun.Go.{
  M, ◌>>=◌, ◌>>◌, pure, get, modify, ask, tell, crash, check, check_answer, attempt, within, branch,
}
use octorun.Resources.{
  Runner, RunnerSet, empty_meta, runner_created_reason, key_of, runner_deleted_reason,
  label_controller_revision_hash, unset_phase,
}
use octorun.Revision.World.{SetCall, SetWorld, delete_runner, event}
use octorun.Sortable.{less}

-- `prioritizedRunnersToDelete`, for a `diff` that is positive where it is called.
unfoldable pub runners_to_delete : SetWorld → List Runner → ℕ → List Runner
runners_to_delete w runners diff =
    if leb (length runners) diff
    then runners
    else if diff == 0
    then []
    else take diff (w.sort less runners)

-- The template's labels, copied, with the revision.
abbrev pub new_runner : RunnerSet → String → Runner
new_runner set rev = record {
  meta = record empty_meta {
    generate_name = set.meta.name <> "-";
    namespace = set.meta.namespace;
    annotations = some (entries set.spec.template.meta.annotations);
    labels = assign label_controller_revision_hash rev set.spec.template.meta.labels;
  };
  spec = set.spec.template.spec;
  status = record { phase = unset_phase; conditions = [] };
}

unfoldable pub own_runner : SetWorld → RunnerSet → M SetCall Runner (Unit {0})
own_runner w set = do
  runner ← get
  m ← check_answer (w.mach.set_controller_reference set.meta runner.meta)
  modify (λ r. record r { meta = m })

unfoldable pub errors_in : {A : Type 0} → Answer A → ℕ
errors_in (value _) = 0
errors_in (error _) = 1

-- One round of the creation: the event is recorded after an error too.
unfoldable pub create_one : SetWorld → String → M SetCall RunnerSet ℕ
unfolding own_runner errors_in
create_one w rev = do
  set ← get
  a ← attempt (within (new_runner set rev) (w.create_or_update_runner (own_runner w set)))
  tell (event runner_created_reason)
  pure (errors_in a)

-- The result is the number of errors.
unfoldable pub create_many : ℕ → SetWorld → String → M SetCall RunnerSet ℕ
create_many zero w rev = pure 0
create_many (suc n) w rev = do e ← create_one w rev; es ← create_many n w rev; pure (e + es)

unfoldable pub error_count : Option Error → ℕ
error_count none = 0
error_count (some _) = 1

unfoldable pub delete_one : SetWorld → Runner → M SetCall RunnerSet ℕ
unfolding error_count
delete_one w runner = do
  e ← ask (delete_runner (key_of runner.meta)) w.deleted_runner
  tell (event runner_deleted_reason)
  pure (error_count (ignore_not_found e))

unfoldable pub delete_many : SetWorld → List Runner → M SetCall RunnerSet ℕ
delete_many w [] = pure 0
delete_many w (runner ∷ rest) = do e ← delete_one w runner; es ← delete_many w rest; pure (e + es)

-- `len(runners) - desired` below, above or at 0. A negative `desired` asks for none and less.
unfoldable pub sync_count : SetWorld → List Runner → String → ℤ → M SetCall RunnerSet ℕ
sync_count w runners rev (pos desired) =
    branch (ltb (length runners) desired) (create_many (desired - length runners) w rev) (
      branch (ltb desired (length runners))
        (delete_many w (runners_to_delete w runners (length runners - desired))) (pure 0))
sync_count w runners rev (negsuc n) =
    delete_many w (runners_to_delete w runners (length runners + suc n))

-- `*(runnerset.Spec.Runners)` panics on nil.
unfoldable pub by_desired :
    SetWorld → List Runner → String → Option ℤ → M SetCall RunnerSet (Unit {0})
unfolding sync_count
by_desired w runners rev none = crash
by_desired w runners rev (some desired) = do
  errors ← sync_count w runners rev desired
  check (new_aggregate errors)

unfoldable pub sync_runners : SetWorld → List Runner → String → M SetCall RunnerSet (Unit {0})
unfolding by_desired
sync_runners w runners rev = do set ← get; by_desired w runners rev set.spec.runners
