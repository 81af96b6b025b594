-- ===== src/RunnerSetController/Rounds.antt =====
-- A whole round of the RunnerSet controller.
use octorun.RunnerSetController.Progress.{IsAdvanced, all_carry, with_history-IsAdvanced}
use octorun.Revision.History.{make_history}
use octorun.RunnerSetController.Current.{IsHistory, make_history-IsHistory}
use octorun.RunnerSetController.Find.{find_runners}
use octorun.RunnerSetController.Reconcile.{with_history, reconcile_set, reconcile_selected}
use octorun.RunnerSetController.Revisions.{runner_set_revisioner}
use octorun.Resources.{Runner, RunnerSet, ControllerRevision}
use octorun.Go.{Session}
use octorun.Go.Keeps.{bind-ok}
use octorun.Errors.{ok, Error, Answer, error, value}
use octorun.Base.{
  none, true, inl, inr, arith, Bool-cases, ◌≡◌, refl, String, List, Option, some, ap, ◌∙◌, length,
  ◌⊎◌, str_eq, subst, is_some, ℕ, if◌then◌else◌,
}
use octorun.Revision.World.{SetCall, SetWorld}

-- The current revision at the end of a round that made the given next one and found these runners.
abbrev pub current_after : String → String → List Runner → String
current_after before next runners =
    if all_carry next runners then next else if str_eq before "" then next else before

-- A round that reached the runners: the revision that MakeHistory makes, the runners that
-- `findRunners` then finds for it, and the set that is left.
abbrev pub IsRolled : ℕ → SetWorld → Session SetCall RunnerSet → RunnerSet → Type 0
IsRolled fuel w s set' =
    (rev : ControllerRevision) × (t : Session SetCall RunnerSet) × (runners : List Runner)
    × (u : Session SetCall RunnerSet) × (make_history fuel w (runner_set_revisioner w) s
        ≡ (ok (some rev), t))
    × (find_runners w rev.meta.name t ≡ (ok runners, u))
    × (set'.meta ≡ s.object.meta)
    × (set'.spec ≡ s.object.spec)
    × (set'.status.runners ≡ length runners)
    × (set'.status.next_revision ≡ rev.meta.name)
    × (set'.status.current_revision
        ≡ current_after s.object.status.current_revision rev.meta.name runners)

IsHistory-IsRolled :
    (fuel : ℕ) (w : SetWorld) (s t u : Session SetCall RunnerSet) (set' : RunnerSet)
    (rev : ControllerRevision) (runners : List Runner)
    → make_history fuel w (runner_set_revisioner w) s ≡ (ok (some rev), t)
    → find_runners w rev.meta.name t ≡ (ok runners, u)
    → IsHistory s.object rev t.object
    → IsAdvanced t.object rev.meta.name runners set'
    → IsRolled fuel w s set'
IsHistory-IsRolled fuel w s t u set' rev runners p f (current, collision, m, c) h =
    let at = subst (λ o. IsAdvanced o rev.meta.name runners set') m h in
    (
      rev,
      t,
      runners,
      u,
      p,
      f,
      at.0,
      at.1,
      at.3,
      at.2,
      at.4 ∙ ap (λ x. if all_carry rev.meta.name runners then rev.meta.name else x) c,
    )

-- What a round without an error comes to.
abbrev pub IsRound : ℕ → SetWorld → Session SetCall RunnerSet → RunnerSet → Type 0
IsRound fuel w s set' =
    ((is_some s.object.meta.deletion_timestamp ≡ true) × (set' ≡ s.object))
    ⊎ ((e : Error) × (w.selector_string s.object.spec.selector ≡ error e) × (set' ≡ s.object))
    ⊎ IsRolled fuel w s set'

with_history-some :
    (w : SetWorld) (selector : String) (rev : Option ControllerRevision)
    (s s' : Session SetCall RunnerSet)
    → with_history w selector rev s ≡ (ok (some tt), s')
    → (r : ControllerRevision) × (rev ≡ some r)
      × ((runners : List Runner) × (u : Session SetCall RunnerSet) × (find_runners w r.meta.name s
            ≡ (ok runners, u))
          × IsAdvanced s.object r.meta.name runners s'.object)
unfolding with_history
with_history-some w selector none s s' h = ground (arith, h)
with_history-some w selector (some r) s s' h =
    (r, refl, with_history-IsAdvanced w selector r s s' h)

reconcile_selected-IsRound :
    (fuel : ℕ) (w : SetWorld) (a : Answer String) (s s' : Session SetCall RunnerSet)
    → w.selector_string s.object.spec.selector ≡ a
    → reconcile_selected fuel w a s ≡ (ok (some tt), s')
    → IsRound fuel w s s'.object
unfolding reconcile_selected
reconcile_selected-IsRound fuel w (error e) s s' a h = inr (inl (e, a, ground (arith, h)))
reconcile_selected-IsRound fuel w (value selector) s s' a h =
    let (found, t, p, q) =
      bind-ok (make_history fuel w (runner_set_revisioner w) s) (with_history w selector) s s'
        (some tt) h in
    let (rev, e, (runners, u, f, adv)) = with_history-some w selector found t s' q in
    let made = p ∙ ap (λ x. (ok x, t)) e in
    inr (
      inr (
        IsHistory-IsRolled fuel w s t u s'.object rev runners made f
          (make_history-IsHistory fuel w s t rev made) adv))

-- A round of the controller that ends without an error, and whose loop on name collisions ends:
-- unless the set is being deleted or its selector cannot be read, where the set stays as it was,
-- MakeHistory succeeded with a revision and findRunners then with a list of runners, and of the set
-- the metadata and the spec stay, the status counts these runners, and the next revision is that
-- one. The current revision is the next one too if every one of these runners carries its label, and
-- otherwise only if there was none before; else it is the one before.
pub reconcile_set-IsRound :
    (fuel : ℕ) (w : SetWorld) (s s' : Session SetCall RunnerSet)
    → reconcile_set fuel w s ≡ (ok (some tt), s')
    → IsRound fuel w s s'.object
unfolding reconcile_set
reconcile_set-IsRound fuel w s s' h = elim (Bool-cases (is_some s.object.meta.deletion_timestamp)) [
  | inl e ↦ inl (e, ground (arith, h, e))
  | inr e ↦
      reconcile_selected-IsRound fuel w (w.selector_string s.object.spec.selector) s s' refl
        (ground (arith, h, e))
]
