-- ===== src/Revision/Truncate.antt =====
-- `TruncateHistory` of pkg/revision/revision.go.
use octorun.Errors.{ok, err, panic}
use octorun.Base.{
  suc, if◌then◌else◌, pos, negsuc, Bool, false, Option, none, some, List, String, [], ◌∷◌, ℤ,
  value_at, length, ℕ, str_eq, ◌||◌, leb, take, ◌-◌, ltb, ◌+◌,
}
use octorun.Go.{M, ◌>>=◌, ◌>>◌, crash, get, check}
use octorun.Revision.World.{SetCall, SetWorld, Revisioner, delete_revision}
use octorun.Resources.{ControllerRevision, RunnerSet, Runner, key_of}

-- The names that are excluded from truncation: a set, as a list.
abbrev unless_empty : String → List String → List String
unless_empty s names = if str_eq s "" then names else s ∷ names

-- `GetLabels() != nil`; a label that is missing from the map reads as the empty text.
unfoldable pub runner_revisions : String → List Runner → List String
runner_revisions key [] = []
runner_revisions key (r ∷ rs) = elim r.meta.labels [
  | none ↦ runner_revisions key rs
  | some d ↦ value_at key (some d) ∷ runner_revisions key rs
]

unfoldable pub excluded : String → RunnerSet → List Runner → List String
unfolding runner_revisions
excluded key set controlled =
    unless_empty set.status.current_revision
      (unless_empty set.status.next_revision (runner_revisions key controlled))

abbrev pub member : String → List String → Bool
member s [] = false
member s (t ∷ ts) = str_eq t s || member s ts

unfoldable pub histories : List String → List ControllerRevision → List ControllerRevision
histories names [] = []
histories names (r ∷ rs) =
    if member r.meta.name names then histories names rs else r ∷ histories names rs

-- `GetRevisionHistoryLimit`: an absent limit reads as 0.
abbrev pub limit_of : Option ℤ → ℤ
limit_of none = pos 0
limit_of (some n) = n

unfoldable pub delete_all : SetWorld → List ControllerRevision → M SetCall RunnerSet (Unit {0})
delete_all w [] s = (ok tt, s)
delete_all w (r ∷ rs) s =
    let rest = delete_all w rs in
    let c = delete_revision (key_of r.meta) ∷ s.calls in
    elim (w.deleted_revision c) [
      | none ↦ rest (record s { calls = c })
      | some e ↦ (err e, record s { calls = c })
    ]

-- `histories[:(historyLen - historyLimit)]`. With a negative limit that is longer than the slice:
-- past its capacity, the length of `revisions`, this panics, and before it the deletion meets nil.
unfoldable pub truncate :
    SetWorld → ℕ → List ControllerRevision → ℤ → M SetCall RunnerSet (Unit {0})
unfolding delete_all
truncate w capacity olds (pos limit) s =
    if leb (length olds) limit then (ok tt, s) else delete_all w (take (length olds - limit) olds) s
truncate w capacity olds (negsuc n) s =
    if ltb capacity (length olds + suc n) then (panic, s) else (delete_all w olds >> crash) s

unfoldable pub truncate_history :
    SetWorld → Revisioner → List Runner → M SetCall RunnerSet (Unit {0})
truncate_history w r controlled = do
  revisions ← r.list_revision
  owner ← get
  check (w.to_unstructured owner)
  truncate w (length revisions) (histories (excluded r.hash_label_key owner controlled) revisions)
      (limit_of owner.spec.revision_history_limit)
