-- ===== src/RunnerSetController/Scale.antt =====
-- The number of runners that a synchronization leads to, where the API server grants its calls.
use octorun.RunnerSetController.Moves.{
  creations, removals, IsMade, Grants, made_runner, made_runner-IsMade, Moves, copies,
  length-copies, All-copies, create_many-Moves, delete_many-Moves,
}
use octorun.Sortable.{less}
use octorun.RunnerSetController.Sync.{runners_to_delete, sync_runners, by_desired, sync_count}
use octorun.Resources.{Runner, RunnerSet}
use octorun.Go.{Session, ◌>>=◌, check}
use octorun.Errors.{ok, Outcome, err, new_aggregate, value}
use octorun.Base.{
  ◌≡◌, refl, arith, [], some, pos, List, String, ℕ, zero, suc, ◌≤◌, length, ◌<◌, ◌-◌, ◌+◌,
  Bool-cases, inl, inr, ◌⊎◌, leb, leb→le, ◌==◌, ◌++◌, All, length-take, ◌∙◌, ltb, ltb→lt, subst,
  sym,
}
use octorun.Revision.World.{SetCall, SetWorld}

length-runners_to_delete :
    (w : SetWorld)
    → Grants w
    → (rs : List Runner) (d : ℕ) → zero < d
    → d ≤ length rs
    → length (runners_to_delete w rs d) ≡ d
unfolding runners_to_delete
length-runners_to_delete w g rs d p h = elim (Bool-cases (leb (length rs) d)) [
  | inl e ↦ rw e (omega (arith, h, leb→le (length rs) d e))
  | inr e ↦ elim (Bool-cases (d == 0)) [
    | inl z ↦ ground (arith, p, z)
    | inr z ↦ rw (e, z) (length-take d (w.sort less rs) ∙ omega (arith, g.sorts rs, h))
  ]
]

-- Runners are only created, or only removed, and so many that the desired number is reached; those
-- created are made of the set's template for the revision.
abbrev pub IsScaled :
    String
    → ℕ
    → ℕ
    → Session SetCall RunnerSet
    → Outcome (Unit {0}) × Session SetCall RunnerSet
    → Type 0
IsScaled rev have desired s r =
    (r.0 ≡ ok tt)
    × (((removals r.1.calls ≡ removals s.calls)
          × ((made : List Runner) × (creations r.1.calls ≡ made ++ creations s.calls)
              × (have + length made ≡ desired)
              × All (IsMade s.object rev) made))
        ⊎ ((creations r.1.calls ≡ creations s.calls)
            × (have + removals s.calls ≡ desired + removals r.1.calls)))

-- What is made and what is gone makes up for the difference.
abbrev Balances : RunnerSet → String → ℕ → ℕ → List Runner → ℕ → Type 0
Balances set rev have desired made gone =
    ((gone ≡ 0) × (have + length made ≡ desired) × All (IsMade set rev) made)
    ⊎ ((made ≡ []) × (have ≡ desired + gone))

by_errors-IsScaled :
    (rev : String) (have desired gone : ℕ) (made : List Runner)
    (r : Outcome ℕ × Session SetCall RunnerSet) (s : Session SetCall RunnerSet)
    → Moves made gone s r
    → Balances s.object rev have desired made gone
    → IsScaled rev have desired s (((λ _. r) >>= λ errors. check (new_aggregate errors)) s)
by_errors-IsScaled rev have desired gone made (ok zero, t) s h (inl e) =
    (refl, inl (omega (arith, h.3, e.0), (made, h.2, e.1, e.2)))
by_errors-IsScaled rev have desired gone made (ok zero, t) s h (inr e) =
    (refl, inr (ground (arith, h.2, e.0), omega (arith, h.3, e.1)))
by_errors-IsScaled rev have desired gone made (ok (suc n), t) s h e = ground (arith, h)
by_errors-IsScaled rev have desired gone made (err x, t) s h e = ground (arith, h)
by_errors-IsScaled rev have desired gone made (octorun.Errors.panic, t) s h e = ground (arith, h)

sync_count-Moves :
    (w : SetWorld) (g : Grants w) (runners : List Runner) (rev : String) (desired : ℕ)
    (s : Session SetCall RunnerSet)
    → (made : List Runner) × (gone : ℕ) × Moves made gone s
        (sync_count w runners rev (pos desired) s)
      × Balances s.object rev (length runners) desired made gone
unfolding sync_count
sync_count-Moves w g runners rev desired s = elim (Bool-cases (ltb (length runners) desired)) [
  | inl e ↦
      let n = desired - length runners in
      let x = made_runner g s.object rev in
      (
        copies n x,
        0,
        rw e (create_many-Moves n w g rev s.object s refl),
        inl (
          refl,
          omega (arith, ltb→lt (length runners) desired e, length-copies n x),
          All-copies (IsMade s.object rev) n x (made_runner-IsMade g s.object rev),
        ),
      )
  | inr e ↦ elim (Bool-cases (ltb desired (length runners))) [
    | inl f ↦
        let more = ltb→lt desired (length runners) f in
        let doomed = runners_to_delete w runners (length runners - desired) in
        let many =
          length-runners_to_delete w g runners (length runners - desired) (omega (arith, more))
            (omega (arith, more)) in
        (
          [],
          length doomed,
          rw (e, f) (delete_many-Moves w g doomed s),
          inr (refl, omega (arith, more, many)),
        )
    | inr f ↦ ([], 0, rw (e, f) (refl, refl, refl, omega arith), inr (refl, ground (arith, e, f)))
  ]
]

-- Where the API server grants every creation and deletion, CreateOrUpdate and SetControllerReference
-- do as documented, and the sort keeps the number of runners, one synchronization of the listed
-- runners with a desired number that is not negative succeeds and reaches it: either no runner is
-- asked to be deleted, and those asked to be created, each with the label of the revision, the
-- namespace of the set and the spec of its template, make up with the listed ones the desired
-- number; or none is asked to be created, and the listed runners are as many as the desired ones and
-- the deletions asked for together.
pub sync_runners-IsScaled :
    (w : SetWorld)
    → Grants w
    → (runners : List Runner) (rev : String) (desired : ℕ) (s : Session SetCall RunnerSet)
    → s.object.spec.runners ≡ some (pos desired)
    → IsScaled rev (length runners) desired s (sync_runners w runners rev s)
unfolding sync_runners by_desired sync_count
sync_runners-IsScaled w g runners rev desired s d =
    let (made, gone, m, b) = sync_count-Moves w g runners rev desired s in
    subst (λ o. IsScaled rev (length runners) desired s (by_desired w runners rev o s)) (sym d)
      (by_errors-IsScaled rev (length runners) desired gone made
        (sync_count w runners rev (pos desired) s) s m b)
