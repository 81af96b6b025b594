-- ===== src/RunnerSetController/Counts.antt =====
-- What `findRunners` leaves behind: the runners it keeps, and the counters of the status.
use octorun.Go.{Session, M, ◌>>=◌, attempt, within, modify, ◌>>◌, pure}
use octorun.Errors.{ok, err, panic, Outcome, Answer, error, value}
use octorun.Base.{
  ◌≡◌, refl, true, inl, inr, arith, if◌then◌else◌, Bool-cases, [], ◌∷◌, String, Bool, not, List,
  count_if, ◌&&◌, All, ◌++◌, str_eq, ◌+◌, All-append, ◌∙◌, length, ap, Dict,
}
use octorun.Resources.{
  Runner, RunnerSet, unset_phase, pending, idle, active, complete, phase_eq, RunnerPhase,
}
use octorun.Revision.World.{SetCall, SetWorld}
use octorun.RunnerSetController.Find.{
  adopt_runner, Found, visit, visit_all, find_runners, is_rolling, revision_of, nothing_found,
  after_adoption, by_phase, is_foreign, counted, list_selected, visit_listed,
}

abbrev pub is_idle : Runner → Bool
is_idle runner = phase_eq runner.status.phase idle

abbrev pub is_active : Runner → Bool
is_active runner = phase_eq runner.status.phase active

-- Not Complete, and, where templates roll out, not an Idle runner of another revision.
abbrev pub is_kept : RunnerSet → String → Runner → Bool
is_kept set rev runner =
    not (phase_eq runner.status.phase complete)
    && not (is_idle runner && is_rolling set && not (str_eq (revision_of runner) rev))

abbrev pub Tallied : RunnerSet → String → Found → Type 0
Tallied set rev found =
    (found.idle_runners ≡ count_if is_idle found.runners)
    × (found.active_runners ≡ count_if is_active found.runners)
    × All (λ runner. is_kept set rev runner ≡ true) found.runners

count_if-snoc :
    (p : Runner → Bool) (rs : List Runner) (r : Runner)
    → count_if p (rs ++ r ∷ []) ≡ count_if p rs + (if p r then 1 else 0)
count_if-snoc p [] r = ground arith
count_if-snoc p (x ∷ rs) r = ground (arith, count_if-snoc p rs r)

-- An outcome with a value, which satisfies the predicate.
abbrev pub Yields : {A : Type 0} → (A → Type 0) → Outcome A → Type 0
Yields P (ok a) = P a
Yields P _ = ⊥

-- What one more runner adds to the counts.
next :
    (set : RunnerSet) (rev : String) (found : Found) (runner : Runner)
    → Tallied set rev found
    → (count_if is_idle (found.runners ++ runner ∷ [])
        ≡ found.idle_runners + (if is_idle runner then 1 else 0))
      × (count_if is_active (found.runners ++ runner ∷ [])
          ≡ found.active_runners + (if is_active runner then 1 else 0))
      × (is_kept set rev runner ≡ true
          → All (λ r. is_kept set rev r ≡ true) (found.runners ++ runner ∷ []))
next set rev found runner h = (
  ground (arith, h, count_if-snoc is_idle found.runners runner),
  ground (arith, h, count_if-snoc is_active found.runners runner),
  λ k. All-append (λ r. is_kept set rev r ≡ true) found.runners (runner ∷ []) h.2 (k, tt),
)

by_phase-Tallied :
    (w : SetWorld) (set : RunnerSet) (rev : String) (runner : Runner) (found : Found)
    (p : RunnerPhase) (s : Session SetCall RunnerSet)
    → runner.status.phase ≡ p
    → Tallied set rev found
    → Yields (Tallied set rev) (by_phase w set rev runner found p s).0
      × ((by_phase w set rev runner found p s).1.object ≡ s.object)
unfolding by_phase
by_phase-Tallied w set rev runner found unset_phase s e h =
    ground (arith, e, h, next set rev found runner)
by_phase-Tallied w set rev runner found pending s e h =
    ground (arith, e, h, next set rev found runner)
by_phase-Tallied w set rev runner found idle s e h = ground (arith, e, h, next set rev found runner)
by_phase-Tallied w set rev runner found active s e h =
    ground (arith, e, h, next set rev found runner)
by_phase-Tallied w set rev runner found complete s e h = (h, refl)

-- Visiting a runner of any phase ends without an error, and leaves the set as it was.
after_adoption-Tallied :
    (w : SetWorld) (set : RunnerSet) (rev : String) (found : Found) (a : Answer (Unit {0} × Runner))
    (s : Session SetCall RunnerSet)
    → Tallied set rev found
    → Yields (Tallied set rev) (after_adoption w set rev found a s).0
      × ((after_adoption w set rev found a s).1.object ≡ s.object)
unfolding after_adoption
after_adoption-Tallied w set rev found (error e) s h = (h, refl)
after_adoption-Tallied w set rev found (value (_, runner)) s h =
    by_phase-Tallied w set rev runner found runner.status.phase s refl h

-- An outcome that is not a panic.
abbrev IsSettled : {A : Type 0} → Outcome A → Type 0
IsSettled panic = ⊥
IsSettled _ = Unit

adopt_runner-IsSettled :
    (w : SetWorld) (set : RunnerSet) (t : Session SetCall Runner)
    → IsSettled (adopt_runner w set t).0
unfolding adopt_runner
adopt_runner-IsSettled w set t = ground arith

-- What holds after the continuation of a settled run on another object, whatever its answer.
attempt-within :
    {Y A B : Type 0} (y : Y) (x : Outcome A × Session SetCall Y)
    (k : Answer (A × Y) → M SetCall RunnerSet B) (s : Session SetCall RunnerSet)
    (P : RunnerSet → Outcome B × Session SetCall RunnerSet → Type 0)
    → IsSettled x.0
    → ((a : Answer (A × Y)) (t : Session SetCall RunnerSet) → P t.object (k a t))
    → P s.object ((attempt (within y (λ _. x)) >>= k) s)
attempt-within y (ok a, t) k s P h f = f _ _
attempt-within y (err e, t) k s P h f = f _ _
attempt-within y (panic, t) k s P h f = elim h [ ]

visit-Tallied :
    (w : SetWorld) (set : RunnerSet) (rev : String) (runner : Runner) (found : Found)
    (s : Session SetCall RunnerSet)
    → Tallied set rev found
    → Yields (Tallied set rev) (visit w set rev runner found s).0
      × ((visit w set rev runner found s).1.object ≡ s.object)
unfolding visit
visit-Tallied w set rev runner found s h = elim (Bool-cases (is_foreign w set runner)) [
  | inl e ↦ rw e (h, refl)
  | inr e ↦ rw e (
      attempt-within runner (adopt_runner w set _) (after_adoption w set rev found) s
        (λ o r. Yields (Tallied set rev) r.0 × (r.1.object ≡ o)) (adopt_runner-IsSettled w set _)
        (λ a t. after_adoption-Tallied w set rev found a t h))
]

-- The continuation of a run that yields a value and leaves the object as it was.
bind-Yields :
    {A B : Type 0} (x : Outcome A × Session SetCall RunnerSet) (k : A → M SetCall RunnerSet B)
    (s : Session SetCall RunnerSet) (P : A → Type 0) (Q : B → Type 0)
    → Yields P x.0 × (x.1.object ≡ s.object)
    → ((a : A) (t : Session SetCall RunnerSet)
        → P a
        → Yields Q (k a t).0 × ((k a t).1.object ≡ t.object))
    → Yields Q (((λ _. x) >>= k) s).0 × ((((λ _. x) >>= k) s).1.object ≡ s.object)
bind-Yields (ok a, t) k s P Q h f = ((f a t h.0).0, (f a t h.0).1 ∙ h.1)
bind-Yields (err e, t) k s P Q h f = elim h.0 [ ]
bind-Yields (panic, t) k s P Q h f = elim h.0 [ ]

pub visit_all-Tallied :
    (w : SetWorld) (set : RunnerSet) (rev : String) (rs : List Runner) (found : Found)
    (s : Session SetCall RunnerSet)
    → Tallied set rev found
    → Yields (Tallied set rev) (visit_all w set rev rs found s).0
      × ((visit_all w set rev rs found s).1.object ≡ s.object)
unfolding visit_all
visit_all-Tallied w set rev [] found s h = (h, refl)
visit_all-Tallied w set rev (r ∷ rs) found s h =
    bind-Yields (visit w set rev r found s) (visit_all w set rev rs) s (Tallied set rev)
      (Tallied set rev) (visit-Tallied w set rev r found s h) (visit_all-Tallied w set rev rs)

-- What `findRunners` has done to the set, by its outcome: on an error nothing.
abbrev pub IsCounted : RunnerSet → String → Outcome (List Runner) → RunnerSet → Type 0
IsCounted set rev (ok runners) set' =
    (set'.status.runners ≡ length runners)
    × (set'.status.idle_runners ≡ count_if is_idle runners)
    × (set'.status.active_runners ≡ count_if is_active runners)
    × All (λ runner. is_kept set rev runner ≡ true) runners
    × (set'.meta ≡ set.meta)
    × (set'.spec ≡ set.spec)
IsCounted set rev (err e) set' = set' ≡ set
IsCounted set rev panic set' = ⊥

-- The counters are written once all runners are visited.
counted-IsCounted :
    (set : RunnerSet) (rev : String) (s : Session SetCall RunnerSet)
    (x : Outcome Found × Session SetCall RunnerSet)
    → Yields (Tallied set rev) x.0 × (x.1.object ≡ set)
    → let r = ((λ _. x) >>= λ found. modify (counted found) >> pure found.runners) s in
      IsCounted set rev r.0 r.1.object
counted-IsCounted set rev s (ok found, t) h =
    (refl, h.0.0, h.0.1, h.0.2, ap (λ o. o.meta) h.1, ap (λ o. o.spec) h.1)
counted-IsCounted set rev s (err e, t) h = elim h.0 [ ]
counted-IsCounted set rev s (panic, t) h = elim h.0 [ ]

visit_listed-IsCounted :
    (w : SetWorld) (set : RunnerSet) (rev : String) (a : Answer (List Runner))
    (s : Session SetCall RunnerSet)
    → s.object ≡ set
    → IsCounted set rev (visit_listed w set rev a s).0 (visit_listed w set rev a s).1.object
unfolding visit_listed
visit_listed-IsCounted w set rev (error e) s h = h
visit_listed-IsCounted w set rev (value items) s h =
    let all = visit_all-Tallied w set rev items nothing_found s (refl, refl, tt) in
    counted-IsCounted set rev s (visit_all w set rev items nothing_found s) (all.0, all.1 ∙ h)

list_selected-IsCounted :
    (w : SetWorld) (set : RunnerSet) (rev : String) (a : Answer Dict)
    (s : Session SetCall RunnerSet)
    → s.object ≡ set
    → IsCounted set rev (list_selected w set rev a s).0 (list_selected w set rev a s).1.object
unfolding list_selected
list_selected-IsCounted w set rev (error e) s h = h
list_selected-IsCounted w set rev (value labels) s h = visit_listed-IsCounted w set rev _ _ h

-- However the cluster answers, findRunners does not panic, and leaves the set as it was where it
-- returns an error; otherwise the status counts the runners it returns, how many of them are Idle
-- and how many are Active, no runner it returns is Complete, under the RollingUpdate strategy no
-- Idle one is of another revision, and the metadata and the spec of the set are unchanged.
pub find_runners-IsCounted :
    (w : SetWorld) (rev : String) (s : Session SetCall RunnerSet)
    → IsCounted s.object rev (find_runners w rev s).0 (find_runners w rev s).1.object
unfolding find_runners
find_runners-IsCounted w rev s =
    list_selected-IsCounted w s.object rev (w.selector_map s.object.spec.selector) s refl
