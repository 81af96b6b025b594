-- ===== src/Revision/Retention.antt =====
-- Which revisions `TruncateHistory` deletes.
use octorun.Errors.{ok, Error}
use octorun.Resources.{Runner, ControllerRevision, RunnerSet, key_of}
use octorun.Base.{
  [], ◌∷◌, ◌≡◌, refl, none, some, inl, inr, arith, pos, Bool-cases, Option-cases, List, String, ℕ,
  Bool, false, take, length, ◌-◌, leb, leb→le, map, keep, not, ◌&&◌, ◌||◌, str_eq, value_at,
  is_some, eq_iff, ap, subst, sym, Option, ◌∙◌,
}
use octorun.Go.{Session}
use octorun.Go.Sequence.{Ran, done, stopped, passed}
use octorun.Revision.World.{SetCall, SetWorld, Revisioner, delete_revision}
use octorun.Revision.Truncate.{
  truncate_history, histories, delete_all, member, limit_of, excluded, truncate, runner_revisions,
}

-- A runner with labels bears the name as its revision.
abbrev pub runs : String → String → List Runner → Bool
runs key name [] = false
runs key name (r ∷ rs) =
    (is_some r.meta.labels && str_eq (value_at key r.meta.labels) name) || runs key name rs

-- The revision is the current or the next one, or that of a controlled runner.
abbrev pub in_use : String → RunnerSet → List Runner → ControllerRevision → Bool
in_use key set controlled r =
    (not (str_eq r.meta.name "")
      && (str_eq set.status.current_revision r.meta.name
          || str_eq set.status.next_revision r.meta.name))
    || runs key r.meta.name controlled

-- The revisions that may go, as they are listed.
abbrev pub spares :
    String → RunnerSet → List Runner → List ControllerRevision → List ControllerRevision
spares key set controlled revisions = keep (λ r. not (in_use key set controlled r)) revisions

-- Of these as many as exceed the limit, the first ones.
abbrev pub surplus : ℕ → List ControllerRevision → List ControllerRevision
surplus limit spare = take (length spare - limit) spare

abbrev pub deletion : ControllerRevision → SetCall
deletion r = delete_revision (key_of r.meta)

-- The answer to a deletion.
abbrev pub deleted : SetWorld → SetCall → List SetCall → Option Error
deleted w c calls = w.deleted_revision calls

member-runner_revisions :
    (key name : String) (controlled : List Runner)
    → member name (runner_revisions key controlled) ≡ runs key name controlled
unfolding runner_revisions
member-runner_revisions key name [] = refl
member-runner_revisions key name (r ∷ rs) = elim (Option-cases r.meta.labels) [
  | inl e ↦ ground (arith, e, member-runner_revisions key name rs)
  | inr (d, e) ↦ ground (arith, e, member-runner_revisions key name rs)
]

member-excluded :
    (key : String) (set : RunnerSet) (controlled : List Runner) (r : ControllerRevision)
    → member r.meta.name (excluded key set controlled) ≡ in_use key set controlled r
unfolding excluded
member-excluded key set controlled r = ground (
  arith,
  member-runner_revisions key r.meta.name controlled,
  eq_iff set.status.current_revision "",
  eq_iff set.status.next_revision "",
  eq_iff r.meta.name "",
  eq_iff set.status.current_revision r.meta.name,
  eq_iff set.status.next_revision r.meta.name,
)

histories-excluded :
    (key : String) (set : RunnerSet) (controlled : List Runner) (rs : List ControllerRevision)
    → histories (excluded key set controlled) rs ≡ spares key set controlled rs
unfolding histories
histories-excluded key set controlled [] = refl
histories-excluded key set controlled (r ∷ rs) =
    let rest = histories-excluded key set controlled rs in
    let same = member-excluded key set controlled r in
    elim (Bool-cases (in_use key set controlled r)) [
      | inl e ↦ rw (same, e, histories) rest
      | inr e ↦ rw (same, e, histories) (ap (◌∷◌ r) rest)
    ]

delete-Ran :
    (w : SetWorld) (r : ControllerRevision) (rs : List ControllerRevision)
    (s : Session SetCall RunnerSet) (e : Option Error)
    → w.deleted_revision (deletion r ∷ s.calls) ≡ e
    → Ran
        (deleted w)
        (map deletion rs)
        (record s { calls = deletion r ∷ s.calls })
        (delete_all w rs (record s { calls = deletion r ∷ s.calls }))
    → Ran (deleted w) (map deletion (r ∷ rs)) s (delete_all w (r ∷ rs) s)
unfolding delete_all
delete-Ran w r rs s none h rest =
    rw (h, delete_all) (passed (deletion r) (map deletion rs) s _ h rest)
delete-Ran w r rs s (some e) h rest =
    rw (h, delete_all) (stopped (deletion r) (map deletion rs) s e h)

delete_all-Ran :
    (w : SetWorld) (rs : List ControllerRevision) (s : Session SetCall RunnerSet)
    → Ran (deleted w) (map deletion rs) s (delete_all w rs s)
unfolding delete_all
delete_all-Ran w [] s = done s
delete_all-Ran w (r ∷ rs) s =
    delete-Ran w r rs s (w.deleted_revision (deletion r ∷ s.calls)) refl (delete_all-Ran w rs _)

truncate-pos :
    (w : SetWorld) (capacity limit : ℕ) (olds : List ControllerRevision)
    (s : Session SetCall RunnerSet)
    → truncate w capacity olds (pos limit) s ≡ delete_all w (surplus limit olds) s
unfolding truncate
truncate-pos w capacity limit olds s = elim (Bool-cases (leb (length olds) limit)) [
  | inl few ↦
      let short : length olds - limit ≡ 0 = omega (arith, leb→le (length olds) limit few) in
      rw (few, truncate) (rw short (unfold delete_all in refl))
  | inr many ↦ rw (many, truncate)
]

truncate_history-pos :
    (w : SetWorld) (r : Revisioner) (controlled : List Runner) (limit : ℕ)
    (revisions : List ControllerRevision) (s s' : Session SetCall RunnerSet)
    → r.list_revision s ≡ (ok revisions, s')
    → w.to_unstructured s'.object ≡ none
    → limit_of s'.object.spec.revision_history_limit ≡ pos limit
    → truncate_history w r controlled s
      ≡ delete_all w
          (surplus limit (histories (excluded r.hash_label_key s'.object controlled) revisions))
          s'
unfolding truncate_history
truncate_history-pos w r controlled limit revisions s s' l u e =
    let names = excluded r.hash_label_key s'.object controlled in
    ground (arith, l, truncate-pos w (length revisions) limit (histories names revisions) s')

-- With a limit that is not negative, truncation of the listed revisions makes, one after the other
-- and up to the first that fails, whose error is its outcome, these calls and no other: a deletion
-- for each of the first of those that are not in use, in their listed order, as many as these exceed
-- the limit. In use is a revision with the name of the current or the next one, if that is not
-- empty, or with the name that a controlled runner has in its revision label.
pub truncate_history-Ran :
    (w : SetWorld) (r : Revisioner) (controlled : List Runner) (limit : ℕ)
    (revisions : List ControllerRevision) (s s' : Session SetCall RunnerSet)
    → r.list_revision s ≡ (ok revisions, s')
    → w.to_unstructured s'.object ≡ none
    → limit_of s'.object.spec.revision_history_limit ≡ pos limit
    → Ran
        (deleted w)
        (map deletion (surplus limit (spares r.hash_label_key s'.object controlled revisions)))
        s'
        (truncate_history w r controlled s)
truncate_history-Ran w r controlled limit revisions s s' l u e =
    let doomed = surplus limit (spares r.hash_label_key s'.object controlled revisions) in
    let run =
      truncate_history-pos w r controlled limit revisions s s' l u e
      ∙ ap (λ rs. delete_all w (surplus limit rs) s')
          (histories-excluded r.hash_label_key s'.object controlled revisions) in
    subst (λ x. Ran (deleted w) (map deletion doomed) s' x) (sym run) (delete_all-Ran w doomed s')
