-- ===== src/RunnerSetController/Effects.antt =====
-- What `syncRunners` does to the cluster, by the calls that it makes.
use octorun.Go.{Session}
use octorun.Base.{◌≡◌, arith, [], ◌∷◌, some, pos, List, String, ℕ, ◌≤◌, length, ◌<◌, ◌-◌}
use octorun.Errors.{ok, err, panic, Outcome, Error}
use octorun.Resources.{Runner, RunnerSet, runner_deleted_reason, runner_created_reason, key_of}
use octorun.Revision.World.{SetCall, SetWorld, delete_runner, event}
use octorun.RunnerSetController.Sync.{
  runners_to_delete, create_one, own_runner, new_runner, delete_one, delete_many, sync_count,
  sync_runners,
}

-- One deletion and one event for each runner, the newest call first.
abbrev pub deletions : List Runner → List SetCall → List SetCall
deletions [] calls = calls
deletions (r ∷ rs) calls =
    deletions rs (event runner_deleted_reason ∷ delete_runner (key_of r.meta) ∷ calls)

-- A count of errors that is at most the given bound.
abbrev pub Bounded : ℕ → Outcome ℕ → Type 0
Bounded bound (ok n) = n ≤ bound
Bounded bound _ = ⊥

pub delete_many-calls :
    (w : SetWorld) (rs : List Runner) (s : Session SetCall RunnerSet)
    → ((delete_many w rs s).1 ≡ record s { calls = deletions rs s.calls })
      × Bounded (length rs) (delete_many w rs s).0
unfolding delete_many delete_one
delete_many-calls w [] s = ground arith
delete_many-calls w (r ∷ rs) s =
    let t : Session SetCall RunnerSet = record s {
      calls = event runner_deleted_reason ∷ delete_runner (key_of r.meta) ∷ s.calls;
    } in
    ground (arith, delete_many-calls w rs t)

-- The outcome of a synchronization that only deletes: it fails or not, but does not panic.
abbrev pub Ends : Outcome (Unit {0}) → Type 0
Ends panic = ⊥
Ends _ = Unit

-- Where the desired number is not negative and more runners exist, syncRunners changes nothing of
-- the set and does not panic, and its calls are one deletion for each chosen runner, each followed
-- by the event that the runner was deleted, whatever the API server answers.
pub sync_runners-deletes :
    (w : SetWorld) (runners : List Runner) (rev : String) (desired : ℕ)
    (s : Session SetCall RunnerSet)
    → s.object.spec.runners ≡ some (pos desired)
    → desired < length runners
    → ((sync_runners w runners rev s).1 ≡ record s {
      calls = deletions (runners_to_delete w runners (length runners - desired)) s.calls;
    })
      × Ends (sync_runners w runners rev s).0
unfolding sync_runners sync_count
sync_runners-deletes w runners rev desired s d h =
    let del = delete_many-calls w (runners_to_delete w runners (length runners - desired)) s in
    ground (arith, d, h, del)

-- Where the creation of a runner fails with an error, the event of a successful creation is
-- recorded after the calls of that creation, and the round counts one error.
create_one-err :
    (w : SetWorld) (rev : String) (s : Session SetCall RunnerSet) (e : Error)
    (t : Session SetCall Runner)
    → w.create_or_update_runner
        (own_runner w s.object)
        (record { object = new_runner s.object rev; calls = s.calls })
      ≡ (err e, t)
    → create_one w rev s ≡ (ok 1, record s { calls = event runner_created_reason ∷ t.calls })
unfolding create_one
create_one-err w rev s e t h = ground (arith, h)
