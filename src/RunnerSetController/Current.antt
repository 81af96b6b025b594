-- ===== src/RunnerSetController/Current.antt =====
-- What `MakeHistory` writes to the RunnerSet.
use octorun.RunnerSetController.History.{by_equal-Keeps, next_revision-Keeps, list_revision-Keeps}
use octorun.Revision.Numbers.{less}
use octorun.Revision.Numbers.{next_revision_number}
use octorun.Revision.Equality.{find_equal}
use octorun.Resources.{RunnerSet, ControllerRevision, label_controller_revision_hash}
use octorun.Revision.History.{
  settle, finish, current_of, named, with_revisions, finish, named, by_equal, settle, make_history,
  current_of, collision_count_of,
}
use octorun.Go.{Session, ◌>>=◌, check, M}
use octorun.Go.Keeps.{bind-ok}
use octorun.Errors.{ok}
use octorun.Base.{
  sort_stable, last?, subst, sym, ap, Option-cases, str_eq, eq_iff, Option-cases, ◌≡◌, refl, arith,
  String, List, [], ◌∷◌, ℕ, ℤ, Option, some, none, Bool-cases, inl, inr, ◌∙◌, if◌then◌else◌,
}
use octorun.Revision.World.{SetCall, SetWorld}
use octorun.RunnerSetController.Revisions.{list_revision, next_revision, runner_set_revisioner}

-- The current revision that a history is left with: the one it had, or the new one if it had none.
abbrev pub IsHistory : RunnerSet → ControllerRevision → RunnerSet → Type 0
IsHistory set rev set' =
    (current : String) × (collision : ℤ) × (set'
      ≡ with_revisions current rev.meta.name collision set)
    × (current ≡ (
        if str_eq set.status.current_revision ""
        then rev.meta.name
        else set.status.current_revision))

named-name :
    (name : String) (rs : List ControllerRevision) (r : ControllerRevision)
    → named name rs ≡ some r
    → r.meta.name ≡ name
unfolding named
named-name name [] r h = ground arith
named-name name (q ∷ rs) r h = elim (Option-cases (named name rs)) [
  | inl e ↦ elim (Bool-cases (str_eq q.meta.name name)) [
    | inl f ↦ ground (arith, h, e, f, (eq_iff q.meta.name name).0 f)
    | inr f ↦ ground (arith, h, e, f)
  ]
  | inr (x, e) ↦ ground (arith, h, e, named-name name rs x e)
]

finish-IsHistory :
    (w : SetWorld) (next : ControllerRevision) (collision : ℤ) (current : Option ControllerRevision)
    (s s' : Session SetCall RunnerSet) (rev : ControllerRevision)
    → finish w next collision current s ≡ (ok (some rev), s')
    → (c : ControllerRevision) × (current ≡ some c)
      × (rev ≡ next)
      × (s'.object ≡ with_revisions c.meta.name next.meta.name collision s.object)
unfolding finish
finish-IsHistory w next collision none s s' rev h = ground arith
finish-IsHistory w next collision (some c) s s' rev h =
    let set = with_revisions c.meta.name next.meta.name collision s.object in
    elim (Option-cases (w.from_unstructured set)) [
      | inl e ↦ (c, refl, ground (arith, h, e), ground (arith, h, e))
      | inr (x, e) ↦ ground (arith, h, e)
    ]

name_eq :
    (next c : ControllerRevision)
    → Path (Option ControllerRevision) (some next) (some c)
    → c.meta.name ≡ next.meta.name
name_eq next c h = ground (arith, h)

current_of-IsHistory :
    (set : RunnerSet) (revisions : List ControllerRevision) (next c : ControllerRevision)
    → current_of set.status.current_revision revisions next ≡ some c
    → c.meta.name ≡ (
        if str_eq set.status.current_revision ""
        then next.meta.name
        else set.status.current_revision)
unfolding current_of
current_of-IsHistory set revisions next c h =
    elim (Bool-cases (str_eq set.status.current_revision "")) [
      | inl e ↦ rw e (name_eq next c (ground (arith, h, e)))
      | inr e ↦ rw e (named-name set.status.current_revision revisions c (ground (arith, h, e)))
    ]

settle-IsHistory :
    (w : SetWorld) (revisions : List ControllerRevision) (found : Option (ControllerRevision × ℤ))
    (s s' : Session SetCall RunnerSet) (rev : ControllerRevision)
    → settle w revisions found s ≡ (ok (some rev), s')
    → IsHistory s.object rev s'.object
unfolding settle
settle-IsHistory w revisions none s s' rev h = ground arith
settle-IsHistory w revisions (some (next, collision)) s s' rev h =
    let (c, p, q, o) =
      finish-IsHistory w next collision (current_of s.object.status.current_revision revisions next)
        s s' rev h in
    let kept = current_of-IsHistory s.object revisions next c p in
    subst (λ r. IsHistory s.object r s'.object) (sym q) (c.meta.name, collision, o, kept)

-- What `MakeHistory` does after it has the new revision, and after it has the list.
abbrev after_next :
    ℕ
    → SetWorld
    → ℤ
    → List ControllerRevision
    → ControllerRevision
    → M SetCall RunnerSet (Option ControllerRevision)
after_next fuel w collision revisions next =
    by_equal fuel w label_controller_revision_hash (last? revisions)
      (last? (find_equal revisions next label_controller_revision_hash)) next collision
    >>= settle w revisions

abbrev after_list :
    ℕ → SetWorld → ℤ → List ControllerRevision → M SetCall RunnerSet (Option ControllerRevision)
after_list fuel w collision listed =
    next_revision w (next_revision_number (sort_stable less listed))
    >>= after_next fuel w collision (sort_stable less listed)

after_next-IsHistory :
    (fuel : ℕ) (w : SetWorld) (collision : ℤ) (revisions : List ControllerRevision)
    (next : ControllerRevision) (s s' : Session SetCall RunnerSet) (rev : ControllerRevision)
    → after_next fuel w collision revisions next s ≡ (ok (some rev), s')
    → IsHistory s.object rev s'.object
after_next-IsHistory fuel w collision revisions next s s' rev h =
    let key = label_controller_revision_hash in
    let equal = last? (find_equal revisions next key) in
    let (found, t, p, q) =
      bind-ok (by_equal fuel w key (last? revisions) equal next collision s) (settle w revisions) s
        s' (some rev) h in
    let same : t.object ≡ s.object =
      ap (λ r. r.1.object) (sym p)
      ∙ by_equal-Keeps fuel w key (last? revisions) equal next collision s in
    subst (λ o. IsHistory o rev s'.object) same (settle-IsHistory w revisions found t s' rev q)

after_list-IsHistory :
    (fuel : ℕ) (w : SetWorld) (collision : ℤ) (listed : List ControllerRevision)
    (s s' : Session SetCall RunnerSet) (rev : ControllerRevision)
    → after_list fuel w collision listed s ≡ (ok (some rev), s')
    → IsHistory s.object rev s'.object
after_list-IsHistory fuel w collision listed s s' rev h =
    let revisions = sort_stable less listed in
    let n = next_revision_number revisions in
    let (next, t, p, q) =
      bind-ok (next_revision w n s) (after_next fuel w collision revisions) s s' (some rev) h in
    let same : t.object ≡ s.object = ap (λ r. r.1.object) (sym p) ∙ next_revision-Keeps w n s in
    subst (λ o. IsHistory o rev s'.object) same
      (after_next-IsHistory fuel w collision revisions next t s' rev q)

-- MakeHistory with the controller's revisioner, if it succeeds with a revision, changes of the set
-- only the three fields on revisions: the next revision is the one that it returns, and the current
-- one stays, or becomes the returned one if there was none.
pub make_history-IsHistory :
    (fuel : ℕ) (w : SetWorld) (s s' : Session SetCall RunnerSet) (rev : ControllerRevision)
    → make_history fuel w (runner_set_revisioner w) s ≡ (ok (some rev), s')
    → IsHistory s.object rev s'.object
unfolding make_history runner_set_revisioner
make_history-IsHistory fuel w s s' rev h =
    let collision = collision_count_of s.object.status.collision_count in
    let (_, t, p, q) =
      bind-ok (check (w.to_unstructured s.object) s)
        (λ _. list_revision w >>= after_list fuel w collision) s s' (some rev) h in
    let (listed, u, p', q') =
      bind-ok (list_revision w t) (after_list fuel w collision) t s' (some rev) q in
    let same : u.object ≡ s.object =
      ap (λ r. r.1.object) (sym p') ∙ list_revision-Keeps w t ∙ ap (λ r. r.1.object) (sym p) in
    subst (λ o. IsHistory o rev s'.object) same
      (after_list-IsHistory fuel w collision listed u s' rev q')
