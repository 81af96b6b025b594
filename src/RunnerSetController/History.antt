-- ===== src/RunnerSetController/History.antt =====
-- What the parts of `MakeHistory` leave of the RunnerSet, with the controller's revisioner.
use octorun.Revision.Data.{object_patch, hash}
use octorun.Revision.Equality.{is_equal}
use octorun.RunnerSetController.Revisions.{or_crash, owned_by, with_name, unnamed}
use octorun.Resources.{RunnerSet, ControllerRevision}
use octorun.Revision.History.{
  settled, collided, failed, create_loop, on_created, create_round, Round, by_equal, settled,
  bump_once, failed,
}
use octorun.Go.{Session, ◌>>=◌, within, pure, check_answer, ask, M, from_outcome}
use octorun.Go.Keeps.{Keeps, bind-Keeps, within-Keeps}
use octorun.Errors.{Outcome, ok, err, panic, Answer, value, error, Error}
use octorun.Base.{
  refl, arith, String, ◌∷◌, ℕ, ℤ, zero, suc, Option, some, none, Bool-cases, inl, inr, wrapping_suc,
  ◌^◌, ◌∙◌,
}
use octorun.Revision.World.{SetCall, SetWorld, list_revisions}
use octorun.RunnerSetController.Revisions.{list_revision, next_revision}

check_answer-Keeps :
    {A : Type 0} (a : Answer A) (s : Session SetCall RunnerSet) → Keeps s.object (check_answer a s)
check_answer-Keeps a s = refl

or_crash-Keeps :
    {A : Type 0} (a : Option A) (s : Session SetCall RunnerSet) → Keeps s.object (or_crash a s)
unfolding or_crash
or_crash-Keeps none s = refl
or_crash-Keeps (some a) s = refl

pub list_revision-Keeps :
    (w : SetWorld) (s : Session SetCall RunnerSet) → Keeps s.object (list_revision w s)
unfolding list_revision
list_revision-Keeps w s =
    bind-Keeps (check_answer (w.selector_string s.object.spec.selector) s)
      (λ _.
        ask (list_revisions s.object.meta.namespace s.object.spec.selector) w.listed_revisions
        >>= λ a. check_answer a >>= λ items. or_crash (owned_by w s.object.meta.uid items))
      s.object s refl
      (λ a t.
        bind-Keeps
          (check_answer
            (w.listed_revisions
              (list_revisions s.object.meta.namespace s.object.spec.selector ∷ t.calls))
            (record t {
              calls = list_revisions s.object.meta.namespace s.object.spec.selector ∷ t.calls;
            }))
          (λ items. or_crash (owned_by w s.object.meta.uid items)) t.object t refl
          (λ items u. or_crash-Keeps (owned_by w s.object.meta.uid items) u))

pub next_revision-Keeps :
    (w : SetWorld) (rev : ℤ) (s : Session SetCall RunnerSet)
    → Keeps s.object (next_revision w rev s)
unfolding next_revision
next_revision-Keeps w rev s =
    bind-Keeps (from_outcome (object_patch w.codec s.object) s)
      (λ raw. pure (
        with_name s.object
          (hash w.hasher (unnamed s.object (w.owner_kind s.calls) raw rev)
            s.object.status.collision_count)
          (unnamed s.object (w.owner_kind s.calls) raw rev)))
      s.object s refl (λ a t. refl)

on_created-Keeps :
    (w : SetWorld) (next : ControllerRevision) (a : Answer ControllerRevision)
    (s : Session SetCall RunnerSet)
    → Keeps s.object (on_created w next a s)
unfolding on_created
on_created-Keeps w next (value stored) s = refl
on_created-Keeps w next (error e) s = ground arith

-- What a round of the loop makes of the run that creates the revision.
abbrev after_round :
    ℤ
    → M SetCall RunnerSet (Option (ControllerRevision × ℤ))
    → Outcome Round × Session SetCall RunnerSet
    → Outcome (Option (ControllerRevision × ℤ)) × Session SetCall RunnerSet
after_round collision again r = elim (r.0) [
  | ok (settled rev) ↦ (ok (some (rev, collision)), r.1)
  | ok collided ↦ again r.1
  | ok (failed e) ↦ (err e, r.1)
  | err e ↦ (err e, r.1)
  | octorun.Errors.panic ↦ (octorun.Errors.panic, r.1)
]

after_round-Keeps :
    (r : Outcome Round × Session SetCall RunnerSet) (collision : ℤ)
    (again : M SetCall RunnerSet (Option (ControllerRevision × ℤ))) (o : RunnerSet)
    → Keeps o r
    → ((t : Session SetCall RunnerSet) → Keeps t.object (again t))
    → Keeps o (after_round collision again r)
after_round-Keeps (ok (settled rev), t) collision again o h f = h
after_round-Keeps (ok collided, t) collision again o h f = f t ∙ h
after_round-Keeps (ok (failed e), t) collision again o h f = h
after_round-Keeps (err e, t) collision again o h f = h
after_round-Keeps (octorun.Errors.panic, t) collision again o h f = h

create_round-Keeps :
    (w : SetWorld) (next : ControllerRevision) (s : Session SetCall RunnerSet)
    → Keeps s.object (create_round w next s)
unfolding create_round
create_round-Keeps w next s = on_created-Keeps w next _ _

create_loop-Keeps :
    (fuel : ℕ) (w : SetWorld) (next : ControllerRevision) (collision : ℤ)
    (s : Session SetCall RunnerSet)
    → Keeps s.object (create_loop fuel w next collision s)
unfolding create_loop
create_loop-Keeps zero w next collision s = refl
create_loop-Keeps (suc fuel) w next collision s =
    after_round-Keeps (create_round w next s) collision
      (create_loop fuel w next (wrapping_suc (2 ^ 31) collision)) s.object
      (create_round-Keeps w next s) (λ t. create_loop-Keeps fuel w next _ t)

pub by_equal-Keeps :
    (fuel : ℕ) (w : SetWorld) (key : String) (newest found : Option ControllerRevision)
    (next : ControllerRevision) (collision : ℤ) (s : Session SetCall RunnerSet)
    → Keeps s.object (by_equal fuel w key newest found next collision s)
unfolding by_equal
by_equal-Keeps fuel w key newest none next collision s = create_loop-Keeps fuel w next collision s
by_equal-Keeps fuel w key newest (some found) next collision s =
    elim (Bool-cases (is_equal newest (some found) key)) [
      | inl e ↦ rw e refl
      | inr e ↦ rw e (
          bind-Keeps (within found (w.retry_on_conflict (bump_once w next.revision)) s)
            (λ p. pure (some (p.1, collision))) s.object s
            (within-Keeps found
              (w.retry_on_conflict (bump_once w next.revision)
                (record { object = found; calls = s.calls }))
              s)
            (λ a t. refl))
    ]
