-- ===== src/RunnerSetController/Frame.antt =====
-- What the parts of a reconciliation leave of the RunnerSet.
use octorun.Revision.Truncate.{delete_all, truncate}
use octorun.RunnerSetController.Counts.{visit_all-Tallied}
use octorun.RunnerSetController.Effects.{delete_many-calls}
use octorun.RunnerSetController.Sync.{
  create_many, create_one, new_runner, delete_many, own_runner, by_desired, sync_count,
  sync_runners, runners_to_delete, errors_in,
}
use octorun.Resources.{Runner, RunnerSet, ControllerRevision, key_of, runner_created_reason}
use octorun.RunnerSetController.Find.{
  find_runners, visit_listed, list_selected, Found, counted, visit_all, nothing_found,
}
use octorun.Go.{Session, ◌>>=◌, modify, ◌>>◌, pure}
use octorun.Go.Keeps.{Keeps, bind-Keeps, attempt-Keeps, bind-ok}
use octorun.Errors.{ok, Answer, value, error, new_aggregate}
use octorun.Base.{
  inl, inr, Bool-cases, ◌≡◌, refl, arith, String, List, [], ◌∷◌, ℕ, ℤ, zero, suc, pos, negsuc,
  Option, some, none, Dict, ap, sym, ◌∙◌, ◌+◌, length, leb, ltb, take, ◌-◌,
}
use octorun.Revision.World.{SetCall, SetWorld, delete_revision, event}
use octorun.Go.{tell, check, crash, pure, ◌>>◌, modify}
use octorun.Base.{Bool-cases, inl, inr}

visit_listed-counted :
    (w : SetWorld) (set : RunnerSet) (rev : String) (a : Answer (List Runner))
    (s t : Session SetCall RunnerSet) (runners : List Runner)
    → visit_listed w set rev a s ≡ (ok runners, t)
    → (found : Found) × (runners ≡ found.runners) × (t.object ≡ counted found s.object)
unfolding visit_listed
visit_listed-counted w set rev (error e) s t runners h = ground arith
visit_listed-counted w set rev (value items) s t runners h =
    let (found, u, p, q) =
      bind-ok (visit_all w set rev items nothing_found s)
        (λ found. modify (counted found) >> pure found.runners) s t runners h in
    let same = (visit_all-Tallied w set rev items nothing_found s (refl, refl, tt)).1 in
    let same' : u.object ≡ s.object = ap (λ r. r.1.object) (sym p) ∙ same in
    (found, ground arith, ground (arith, q) ∙ ap (counted found) same')

pub find_runners-counted :
    (w : SetWorld) (rev : String) (s t : Session SetCall RunnerSet) (runners : List Runner)
    → find_runners w rev s ≡ (ok runners, t)
    → (found : Found) × (runners ≡ found.runners) × (t.object ≡ counted found s.object)
unfolding find_runners list_selected
find_runners-counted w rev s t runners = by_answer (w.selector_map s.object.spec.selector)
  where
    by_answer :
        (a : Answer Dict)
        → list_selected w s.object rev a s ≡ (ok runners, t)
        → (found : Found) × (runners ≡ found.runners) × (t.object ≡ counted found s.object)
    by_answer (error e) h = ground arith
    by_answer (value labels) h = visit_listed-counted w s.object rev _ _ t runners h

create_one-Keeps :
    (w : SetWorld) (rev : String) (s : Session SetCall RunnerSet)
    → Keeps s.object (create_one w rev s)
unfolding create_one
create_one-Keeps w rev s =
    attempt-Keeps (new_runner s.object rev)
      (w.create_or_update_runner (own_runner w s.object)
        (record { object = new_runner s.object rev; calls = s.calls }))
      (λ a. tell (event runner_created_reason) >> pure (errors_in a)) s (λ a t. refl)

create_many-Keeps :
    (n : ℕ) (w : SetWorld) (rev : String) (s : Session SetCall RunnerSet)
    → Keeps s.object (create_many n w rev s)
unfolding create_many
create_many-Keeps zero w rev s = refl
create_many-Keeps (suc n) w rev s =
    bind-Keeps (create_one w rev s) (λ e. create_many n w rev >>= λ es. pure (e + es)) s.object s
      (create_one-Keeps w rev s)
      (λ e t.
        bind-Keeps (create_many n w rev t) (λ es. pure (e + es)) t.object t
          (create_many-Keeps n w rev t) (λ es u. refl))

delete_many-Keeps :
    (w : SetWorld) (rs : List Runner) (s : Session SetCall RunnerSet)
    → Keeps s.object (delete_many w rs s)
delete_many-Keeps w rs s = ap (λ t. t.object) (delete_many-calls w rs s).0

sync_count-Keeps :
    (w : SetWorld) (runners : List Runner) (rev : String) (desired : ℤ)
    (s : Session SetCall RunnerSet)
    → Keeps s.object (sync_count w runners rev desired s)
unfolding sync_count
sync_count-Keeps w runners rev (negsuc n) s =
    delete_many-Keeps w (runners_to_delete w runners (length runners + suc n)) s
sync_count-Keeps w runners rev (pos desired) s = elim (Bool-cases (ltb (length runners) desired)) [
  | inl e ↦ rw e (create_many-Keeps (desired - length runners) w rev s)
  | inr e ↦ rw e (elim (Bool-cases (ltb desired (length runners))) [
    | inl f ↦ rw f (delete_many-Keeps w (runners_to_delete w runners (length runners - desired)) s)
    | inr f ↦ rw f refl
  ])
]

by_desired-Keeps :
    (w : SetWorld) (runners : List Runner) (rev : String) (desired : Option ℤ)
    (s : Session SetCall RunnerSet)
    → Keeps s.object (by_desired w runners rev desired s)
unfolding by_desired
by_desired-Keeps w runners rev none s = refl
by_desired-Keeps w runners rev (some desired) s =
    bind-Keeps (sync_count w runners rev desired s) (λ errors. check (new_aggregate errors))
      s.object s (sync_count-Keeps w runners rev desired s) (λ errors t. refl)

pub sync_runners-Keeps :
    (w : SetWorld) (runners : List Runner) (rev : String) (s : Session SetCall RunnerSet)
    → Keeps s.object (sync_runners w runners rev s)
unfolding sync_runners
sync_runners-Keeps w runners rev s = by_desired-Keeps w runners rev s.object.spec.runners s

delete_all-Keeps :
    (w : SetWorld) (rs : List ControllerRevision) (s : Session SetCall RunnerSet)
    → Keeps s.object (delete_all w rs s)
unfolding delete_all
delete_all-Keeps w [] s = refl
delete_all-Keeps w (r ∷ rs) s =
    let c = delete_revision (key_of r.meta) ∷ s.calls in
    ground (arith, delete_all-Keeps w rs (record s { calls = c }))

pub truncate-Keeps :
    (w : SetWorld) (capacity : ℕ) (olds : List ControllerRevision) (limit : ℤ)
    (s : Session SetCall RunnerSet)
    → Keeps s.object (truncate w capacity olds limit s)
unfolding truncate
truncate-Keeps w capacity olds (pos limit) s = elim (Bool-cases (leb (length olds) limit)) [
  | inl e ↦ rw e refl
  | inr e ↦ rw e (delete_all-Keeps w (take (length olds - limit) olds) s)
]
truncate-Keeps w capacity olds (negsuc n) s =
    elim (Bool-cases (ltb capacity (length olds + suc n))) [
      | inl e ↦ rw e refl
      | inr e ↦ rw e (
          bind-Keeps (delete_all w olds s) (λ _. crash) s.object s (delete_all-Keeps w olds s)
            (λ a t. refl))
    ]
