-- ===== src/Revision/History.antt =====
-- `MakeHistory` of pkg/revision/revision.go.

use octorun.Revision.Numbers.{less, next_revision_number}
use octorun.Revision.Equality.{find_equal, is_equal}
use octorun.Errors.{Error, Answer, value, ok, error, panic, err, api_is_already_exists}
use octorun.Base.{
  zero, suc, if◌then◌else◌, pos, Option, none, some, List, String, [], ◌∷◌, ℤ, str_eq, ℕ,
  sort_stable, int_eq, wrapping_suc, ◌^◌, last?,
}
use mathlib.Core.Option
use octorun.Go.{M, ◌>>=◌, ◌>>◌, pure, get, modify, ask, check, check_answer, within, branch}
use octorun.Revision.World.{
  SetCall, SetWorld, Revisioner, create_revision, get_revision, update_revision,
}
use octorun.Resources.{ControllerRevision, RunnerSet, key_of}

-- `GetCollisionCount`: an absent count reads as 0.
abbrev pub collision_count_of : Option ℤ → ℤ
collision_count_of none = pos 0
collision_count_of (some n) = n

-- One attempt to give an older revision the next number, under `RetryOnConflict`. The number is set
-- in the object before it is sent.
abbrev pub renumbered : ℤ → ControllerRevision → ControllerRevision
renumbered n r = record r { revision = n }

unfoldable pub bump_once : SetWorld → ℤ → M SetCall ControllerRevision (Unit {0})
bump_once w n = do
  r ← get
  branch (int_eq r.revision n) (pure tt) (do
    modify (renumbered n)
    sent ← get
    a ← ask (update_revision sent) w.updated_revision
    stored ← check_answer a
    modify (λ _. stored)
    b ← ask (get_revision (key_of stored.meta)) w.got_revision
    got ← check_answer b
    modify (λ _. got))

-- What the creation of a revision comes to in one round of the loop.
pub data Round : Type 0 where
  settled : ControllerRevision → Round
  collided : Round
  failed : Error → Round

compare_data : ControllerRevision → Answer ControllerRevision → Round
compare_data next (error e) = failed e
compare_data next (value exists) = if str_eq exists.raw next.raw then settled exists else collided

unfoldable pub on_created :
    SetWorld → ControllerRevision → Answer ControllerRevision → M SetCall RunnerSet Round
unfolding compare_data
on_created w next (value stored) s = (ok (settled stored), s)
on_created w next (error e) s =
    let asked = get_revision (key_of next.meta) ∷ s.calls in
    if api_is_already_exists e
    then (ok (compare_data next (w.got_revision asked)), record s { calls = asked })
    else (ok (failed e), s)

unfoldable pub create_round : SetWorld → ControllerRevision → M SetCall RunnerSet Round
unfolding on_created
create_round w next = do a ← ask (create_revision next) w.created_revision; on_created w next a

-- The loop, for `fuel` rounds: `none` says that it has not ended by then. It counts collisions.

unfoldable pub create_loop :
    ℕ → SetWorld → ControllerRevision → ℤ → M SetCall RunnerSet (Option (ControllerRevision × ℤ))
create_loop zero w next collision s = (ok none, s)
create_loop (suc fuel) w next collision s =
    let again = create_loop fuel w next (wrapping_suc (2 ^ 31) collision) in
    let (r, s') = create_round w next s in
    elim r [
      | ok (settled rev) ↦ (ok (some (rev, collision)), s')
      | ok collided ↦ again s'
      | ok (failed e) ↦ (err e, s')
      | err e ↦ (err e, s')
      | panic ↦ (panic, s')
    ]

-- The three branches: the newest revision is equal, an older one is, or none is.
unfoldable pub by_equal :
    ℕ
    → SetWorld
    → String
    → Option ControllerRevision
    → Option ControllerRevision
    → ControllerRevision
    → ℤ
    → M SetCall RunnerSet (Option (ControllerRevision × ℤ))
by_equal fuel w key newest none next collision = create_loop fuel w next collision
by_equal fuel w key newest (some found) next collision =
    branch (is_equal newest (some found) key) (pure (Option.map (λ r. (r, collision)) newest)) (do
      (_, r) ← within found (w.retry_on_conflict (bump_once w next.revision))
      pure (some (r, collision)))

-- The last revision of the given name, if there is one.
unfoldable pub named : String → List ControllerRevision → Option ControllerRevision
named name [] = none
named name (r ∷ rs) = elim (named name rs) [
  | some found ↦ some found
  | none ↦ if str_eq r.meta.name name then some r else none
]

unfoldable pub current_of :
    String → List ControllerRevision → ControllerRevision → Option ControllerRevision
unfolding named
current_of current revisions next = if str_eq current "" then some next else named current revisions

abbrev pub with_revisions : String → String → ℤ → RunnerSet → RunnerSet
with_revisions current next collision set = record set {
  status = record (set.status) {
    current_revision = current;
    next_revision = next;
    collision_count = some collision;
  };
}

-- `currentRevision.Name` panics where the current revision is not in the history.
unfoldable pub finish :
    SetWorld
    → ControllerRevision
    → ℤ
    → Option ControllerRevision
    → M SetCall RunnerSet (Option ControllerRevision)
finish w next collision none s = (panic, s)
finish w next collision (some current) s =
    let set = with_revisions current.meta.name next.meta.name collision s.object in
    elim (w.from_unstructured set) [
      | none ↦ (ok (some next), record s { object = set })
      | some e ↦ (err e, s)
    ]

unfoldable pub settle :
    SetWorld
    → List ControllerRevision
    → Option (ControllerRevision × ℤ)
    → M SetCall RunnerSet (Option ControllerRevision)
unfolding current_of finish
settle w revisions none s = (ok none, s)
settle w revisions (some (next, collision)) s =
    finish w next collision (current_of s.object.status.current_revision revisions next) s

-- The result is the revision that the caller gets in `rev`, or `none` if the loop has not ended.
unfoldable pub make_history :
    ℕ → SetWorld → Revisioner → M SetCall RunnerSet (Option ControllerRevision)
unfolding by_equal settle find_equal
make_history fuel w r = do
  owner ← get
  check (w.to_unstructured owner)
  listed ← r.list_revision
  let revisions = sort_stable less listed
  next ← r.next_revision (next_revision_number revisions)
  found ←
      by_equal fuel w r.hash_label_key (last? revisions)
        (last? (find_equal revisions next r.hash_label_key)) next
        (collision_count_of owner.status.collision_count)
  settle w revisions found
