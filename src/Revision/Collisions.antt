-- ===== src/Revision/Collisions.antt =====
-- What a conflict does to a renumbering, and when settling the status panics.
use octorun.Errors.{err, api_status, panic, error, ok, conflict}
use octorun.Resources.{ControllerRevision, RunnerSet}
use octorun.Base.{
  [], ◌∷◌, ◌≡◌, refl, none, some, false, arith, List, ℤ, int_eq, ◌≢◌, str_eq, ◌↔◌, inl, inr,
  int_eq_refl, eq_iff, Bool-cases, Option-cases, String, All,
}
use octorun.Go.{Session, M}
use octorun.Revision.World.{SetCall, SetWorld, update_revision}
use octorun.Revision.History.{bump_once, settle, renumbered, named}

-- Documented of retry.RetryOnConflict: a callback that fails with a conflict is run again, and its
-- success is the result.
abbrev pub RetriesConflict : SetWorld → Type 0
RetriesConflict w =
    (f : M SetCall ControllerRevision (Unit {0})) (s t u : Session SetCall ControllerRevision)
    → f s ≡ (err (api_status conflict), t)
    → f t ≡ (ok tt, u)
    → w.retry_on_conflict f s ≡ (ok tt, u)

-- A conflict is taken for success: if the server refuses the first update of an older revision
-- with a conflict, the retry reports success with that one refused update as its only call, and
-- the revision in memory carries a number that the server does not have.
pub bump_once_conflict :
    (w : SetWorld) (n : ℤ) (s : Session SetCall ControllerRevision)
    → RetriesConflict w
    → int_eq s.object.revision n ≡ false
    → w.updated_revision (update_revision (renumbered n s.object) ∷ s.calls)
      ≡ error (api_status conflict)
    → w.retry_on_conflict (bump_once w n) s ≡ (
      ok tt,
      record {
        object = renumbered n s.object;
        calls = update_revision (renumbered n s.object) ∷ s.calls;
      },
    )
unfolding bump_once
bump_once_conflict w n s retries d c =
    let t : Session SetCall ControllerRevision = record {
      object = renumbered n s.object;
      calls = update_revision (renumbered n s.object) ∷ s.calls;
    } in
    retries (bump_once w n) s t t (ground arith) (ground (arith, int_eq_refl n))

-- No revision of the list has the name.
abbrev pub IsMissing : String → List ControllerRevision → Type 0
IsMissing name revisions = All (λ r. r.meta.name ≢ name) revisions

named-eq_none_iff :
    (name : String) (rs : List ControllerRevision) → (named name rs ≡ none) ↔ IsMissing name rs
unfolding named
named-eq_none_iff name [] = (λ h. tt, λ h. refl)
named-eq_none_iff name (r ∷ rs) =
    let ih = named-eq_none_iff name rs in
    let same = eq_iff r.meta.name name in
    elim (Option-cases (named name rs)) [
      | inl e ↦ (
        λ h. (λ p. ground (arith, h, e, same.1 p), ih.0 e),
        λ h. elim (Bool-cases (str_eq r.meta.name name)) [
          | inl f ↦ absurd (h.0 (same.0 f))
          | inr f ↦ rw (e, f, named) refl
        ],
      )
      | inr (x, e) ↦ (λ h. ground (arith, h, e), λ h. ground (arith, e, ih.1 h.1))
    ]

-- Settling the status dereferences nil exactly if the status names a current revision and no revision
-- of the history has that name.
pub settle-panic_iff :
    (w : SetWorld) (revisions : List ControllerRevision) (next : ControllerRevision) (c : ℤ)
    (s : Session SetCall RunnerSet)
    → ((settle w revisions (some (next, c)) s).0 ≡ panic) ↔ (
        (s.object.status.current_revision ≢ "")
        × IsMissing s.object.status.current_revision revisions)
unfolding settle
settle-panic_iff w revisions next c s =
    let name = s.object.status.current_revision in
    let missing = named-eq_none_iff name revisions in
    let empty = eq_iff name "" in
    elim (Bool-cases (str_eq name "")) [
      | inl e ↦ (λ h. ground (arith, h, e), λ h. absurd (h.0 (empty.0 e)))
      | inr e ↦ (
        λ h. (λ p. ground (arith, e, empty.1 p), missing.0 (ground (arith, h, e))),
        λ h. ground (arith, e, missing.1 h.1),
      )
    ]
