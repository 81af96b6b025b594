-- ===== src/Examples/Histories.antt =====
-- A history of three revisions, and worlds in which its upkeep goes wrong.
use octorun.Go.{M, Session}
use octorun.Base.{
  ◌≡◌, arith, [], ◌∷◌, some, none, pos, refl, All, length, List, ◌↔◌, ◌≢◌, sort_stable, map, ltb,
  if◌then◌else◌, String,
}
use octorun.Errors.{value, error, ok, err, panic, api_status, already_exists, conflict, Outcome}
use octorun.Resources.{RunnerSet, ControllerRevision}
use octorun.Revision.World.{SetWorld, SetCall, Revisioner, update_revision}
use octorun.Revision.Numbers.{less, next_revision_number, IsAbove, next_revision_number-IsAbove}
use octorun.Revision.History.{create_loop, bump_once, settle, renumbered}
use octorun.Revision.CreateLoop.{create_loop_diverges, create_loop-IsOutcome, asked, IsOutcome}
use octorun.Revision.Collisions.{bump_once_conflict, settle-panic_iff, IsMissing}
use octorun.Revision.Truncate.{truncate_history}
use octorun.Revision.Retention.{surplus, spares, deletion, deleted, truncate_history-Ran}
use octorun.Go.Sequence.{Ran}
use octorun.RunnerSetController.Revisions.{runner_set_revisioner}
use octorun.Examples.SetWorlds.{set_world, set_session, runner_set, revision}

-- Listed with the newest in the middle.
abbrev three : List ControllerRevision
three = revision "r2" (pos 2) ∷ revision "r3" (pos 3) ∷ revision "r1" (pos 1) ∷ []

abbrev start : Session SetCall RunnerSet
start = set_session runner_set

next_revision_number-IsAbove_example :
    All (IsAbove (next_revision_number (sort_stable less three))) three
unfolding sort_stable less
next_revision_number-IsAbove_example =
    next_revision_number-IsAbove three (revision "r3" (pos 3)) refl refl refl

-- The name of the next revision is taken.
abbrev occupied : SetWorld
occupied = record set_world {
  created_revision = λ c. error (api_status already_exists);
  got_revision = λ c. value (revision "r1" (pos 1));
}

create_loop_diverges_example :
    create_loop 5 occupied (revision "r4" (pos 4)) (pos 0) start
    ≡ (ok none, record start { calls = asked 5 (revision "r4" (pos 4)) [] })
create_loop_diverges_example =
    create_loop_diverges 5 occupied (revision "r4" (pos 4)) (revision "r1" (pos 1)) (pos 0) start
      (λ c. (refl, refl)) refl

-- The first revision of that name has other data, the one that is made of it next has the same.
abbrev replaced : SetWorld
replaced = record set_world {
  created_revision = λ c. error (api_status already_exists);
  got_revision =
      λ c. value (if ltb (length c) 3 then revision "r1" (pos 1) else revision "r4" (pos 3));
}

create_loop-IsOutcome_example :
    IsOutcome 4 replaced
      (revision "r4" (pos 4))
      (pos 0)
      start
      (create_loop 4 replaced (revision "r4" (pos 4)) (pos 0) start)
create_loop-IsOutcome_example =
    create_loop-IsOutcome 4 replaced (revision "r4" (pos 4)) (pos 0) start

-- A server that answers every update with a conflict, and a retry that runs the callback twice.
abbrev retried :
    M SetCall ControllerRevision (Unit {0})
    → Outcome (Unit {0})
    → M SetCall ControllerRevision (Unit {0})
retried f (err (api_status conflict)) t = f t
retried f r t = (r, t)

abbrev retry : M SetCall ControllerRevision (Unit {0}) → M SetCall ControllerRevision (Unit {0})
retry f s = retried f (f s).0 (f s).1

abbrev contended : SetWorld
contended = record set_world {
  updated_revision = λ c. error (api_status conflict);
  retry_on_conflict = retry;
}

abbrev old : Session SetCall ControllerRevision
old = record { object = revision "r1" (pos 1); calls = [] }

bump_once_conflict_example : contended.retry_on_conflict (bump_once contended (pos 4)) old ≡ (
  ok tt,
  record {
    object = renumbered (pos 4) (revision "r1" (pos 1));
    calls = update_revision (renumbered (pos 4) (revision "r1" (pos 1))) ∷ [];
  },
)
bump_once_conflict_example =
    bump_once_conflict contended (pos 4) old (λ f s t u h k. ground (arith, h, k)) refl refl

settle-panic_iff_example :
    ((settle set_world three (some (revision "r4" (pos 4), pos 0)) start).0 ≡ panic)
    ↔ (◌≢◌ {A = String} "r1" "" × IsMissing "r1" three)
settle-panic_iff_example = settle-panic_iff set_world three (revision "r4" (pos 4)) (pos 0) start

abbrev revisioner : Revisioner
revisioner = record (runner_set_revisioner set_world) { list_revision = λ s. (ok three, s) }

truncate_history-Ran_example :
    Ran
      (deleted set_world)
      (map deletion (surplus 1 (spares revisioner.hash_label_key runner_set [] three)))
      start
      (truncate_history set_world revisioner [] start)
truncate_history-Ran_example =
    truncate_history-Ran set_world revisioner [] 1 three start start refl refl refl
