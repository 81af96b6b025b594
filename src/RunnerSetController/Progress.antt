-- ===== src/RunnerSetController/Progress.antt =====
-- When a round of the RunnerSet controller moves the current revision on.
use octorun.RunnerSetController.Find.{Found, counted, find_runners, revision_of}
use octorun.RunnerSetController.History.{list_revision-Keeps}
use octorun.RunnerSetController.Frame.{sync_runners-Keeps, truncate-Keeps, find_runners-counted}
use octorun.RunnerSetController.Reconcile.{with_selector, advance, with_history, updated}
use octorun.RunnerSetController.Sync.{sync_runners}
use octorun.RunnerSetController.Revisions.{runner_set_revisioner, list_revision}
use octorun.Resources.{Runner, RunnerSet, label_controller_revision_hash, ControllerRevision}
use octorun.Revision.Truncate.{truncate_history, truncate, histories, excluded, limit_of}
use octorun.Go.{Session, ◌>>=◌, ◌>>◌, modify, pure, get, check, M}
use octorun.Go.Keeps.{Keeps, bind-Keeps, bind-ok}
use octorun.Errors.{ok}
use octorun.Base.{
  [], ◌∷◌, true, inl, inr, arith, Bool-cases, ◌≡◌, refl, String, List, Option, some, sym, ap, ◌∙◌,
  length, Bool, count_if, ◌==◌, str_eq, ◌≤◌, subst, ◌&&◌, if◌then◌else◌,
}
use octorun.Revision.World.{SetCall, SetWorld}

truncate_history-Keeps :
    (w : SetWorld) (controlled : List Runner) (s : Session SetCall RunnerSet)
    → Keeps s.object (truncate_history w (runner_set_revisioner w) controlled s)
unfolding truncate_history runner_set_revisioner
truncate_history-Keeps w controlled s =
    bind-Keeps (list_revision w s)
      (λ revisions. get >>= λ owner.
        check (w.to_unstructured owner)
        >> truncate w (length revisions)
            (histories (excluded label_controller_revision_hash owner controlled) revisions)
            (limit_of owner.spec.revision_history_limit))
      s.object s (list_revision-Keeps w s)
      (λ revisions t.
        bind-Keeps (check (w.to_unstructured t.object) t)
          (λ _.
            truncate w (length revisions)
              (histories (excluded label_controller_revision_hash t.object controlled) revisions)
              (limit_of t.object.spec.revision_history_limit))
          t.object t refl
          (λ _ u.
            truncate-Keeps w (length revisions)
              (histories (excluded label_controller_revision_hash t.object controlled) revisions)
              (limit_of t.object.spec.revision_history_limit) u))

-- The end of a round, once the runners are found.
abbrev after_find :
    SetWorld → String → String → List Runner → M SetCall RunnerSet (Option (Unit {0}))
after_find w selector name runners = do
  sync_runners w runners name
  modify (advance name runners)
  modify (with_selector selector)
  truncate_history w (runner_set_revisioner w) runners
  pure (some tt)

after_find-object :
    (w : SetWorld) (selector name : String) (runners : List Runner)
    (s s' : Session SetCall RunnerSet)
    → after_find w selector name runners s ≡ (ok (some tt), s')
    → s'.object ≡ with_selector selector (advance name runners s.object)
after_find-object w selector name runners s s' h =
    let (_, t, p, q) =
      bind-ok (sync_runners w runners name s)
        (λ _.
          modify (advance name runners)
          >> (modify (with_selector selector)
              >> (truncate_history w (runner_set_revisioner w) runners >> pure (some tt))))
        s s' (some tt) h in
    let written : Session SetCall RunnerSet = record t {
      object = with_selector selector (advance name runners t.object);
    } in
    let (_, u, p', q') =
      bind-ok (truncate_history w (runner_set_revisioner w) runners written) (λ _. pure (some tt))
        written s' (some tt) q in
    let kept : t.object ≡ s.object =
      ap (λ r. r.1.object) (sym p) ∙ sync_runners-Keeps w runners name s in
    let ended : u.object ≡ written.object =
      ap (λ r. r.1.object) (sym p') ∙ truncate_history-Keeps w runners written in
    ap (λ r. r.1.object) (sym q')
    ∙ ended
    ∙ ap (λ o. with_selector selector (advance name runners o)) kept

count_if_le : {A : Type 0} (p : A → Bool) (xs : List A) → count_if p xs ≤ length xs
count_if_le p [] = omega arith
count_if_le p (x ∷ xs) = ground (arith, count_if_le p xs)

-- Every runner of the list carries the label of the given revision.
abbrev pub all_carry : String → List Runner → Bool
all_carry name [] = true
all_carry name (r ∷ rs) = str_eq (revision_of r) name && all_carry name rs

all_carry-updated :
    (name : String) (runners : List Runner)
    → (length runners == updated name runners) ≡ all_carry name runners
all_carry-updated name [] = refl
all_carry-updated name (r ∷ rs) = ground (
  arith,
  all_carry-updated name rs,
  count_if_le (λ (runner : Runner). str_eq (revision_of runner) name) rs,
)

-- The set after the end of a round that found these runners, for the revision of the given name.
abbrev pub IsAdvanced : RunnerSet → String → List Runner → RunnerSet → Type 0
IsAdvanced set name runners set' =
    (set'.meta ≡ set.meta)
    × (set'.spec ≡ set.spec)
    × (set'.status.next_revision ≡ set.status.next_revision)
    × (set'.status.runners ≡ length runners)
    × (set'.status.current_revision
        ≡ (if all_carry name runners then name else set.status.current_revision))

advance-IsAdvanced :
    (selector name : String) (found : Found) (set : RunnerSet)
    → IsAdvanced set name found.runners
        (with_selector selector (advance name found.runners (counted found set)))
advance-IsAdvanced selector name found set = elim (Bool-cases (all_carry name found.runners)) [
  | inl e ↦ rw (all_carry-updated name found.runners, e) (refl, refl, refl, refl, refl)
  | inr e ↦ rw (all_carry-updated name found.runners, e) (refl, refl, refl, refl, refl)
]

pub with_history-IsAdvanced :
    (w : SetWorld) (selector : String) (rev : ControllerRevision) (s s' : Session SetCall RunnerSet)
    → with_history w selector (some rev) s ≡ (ok (some tt), s')
    → (runners : List Runner) × (t : Session SetCall RunnerSet) × (find_runners w rev.meta.name s
        ≡ (ok runners, t))
      × IsAdvanced s.object rev.meta.name runners s'.object
unfolding with_history
with_history-IsAdvanced w selector rev s s' h =
    let name = rev.meta.name in
    let (runners, t, p, q) =
      bind-ok (find_runners w name s) (after_find w selector name) s s' (some tt) h in
    let (found, e, o) = find_runners-counted w name s t runners p in
    let o' : s'.object
        ≡ with_selector selector (advance name found.runners (counted found s.object)) =
      after_find-object w selector name runners t s' q
      ∙ ap (λ rs. with_selector selector (advance name rs t.object)) e
      ∙ ap (λ x. with_selector selector (advance name found.runners x)) o in
    (
      runners,
      t,
      p,
      subst (λ rs. IsAdvanced s.object name rs s'.object) (sym e)
          (subst (IsAdvanced s.object name found.runners) (sym o')
            (advance-IsAdvanced selector name found s.object)),
    )
