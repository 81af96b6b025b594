-- ===== src/Hooks/Triggers.antt =====
-- What an event makes the hook do to the cluster.
use octorun.Go.{Session, attempt, ◌>>◌, pure}
use octorun.Base.{
  ◌≡◌, refl, suc, arith, Bool-cases, [], ◌∷◌, some, true, false, inl, inr, ℕ, Bool, List, String,
  count_if, ◌⊎◌, str_eq, subst, sym,
}
use octorun.Errors.{error, value, ok, Outcome, Answer}
use octorun.Resources.{Runner, ObjectKey, key_of}
use octorun.Hooks.World.{
  Repository, WorkflowJobEvent, HookCall, list_by_index, get_by_key, patch_hooked, HookWorld,
}
use octorun.Hooks.Handle.{
  assigned, after_get, trigger_runner_reconciliation, on_runners, on_second, event_index,
  by_repository, on_first, by_organization, in_repo, process_workflow_job_event,
}

abbrev is_patch : HookCall → Bool
is_patch (patch_hooked _) = true
is_patch _ = false

abbrev pub patches : List HookCall → ℕ
patches calls = count_if is_patch calls

-- The only runner of an answer has this key.
abbrev pub IsSole : Answer (List Runner) → ObjectKey → Type 0
IsSole (value (r ∷ [])) key = key ≡ key_of r.meta
IsSole _ key = ⊥

-- The patched runner is the one that was read, annotated with the time.
abbrev pub IsAnnotated : HookWorld → ℕ → Answer Runner → Runner → Type 0
IsAnnotated w now (value runner) patched = patched ≡ assigned w now runner
IsAnnotated w now (error e) patched = ⊥

-- The newest calls are the annotation of a runner, and before it the reading of that runner by the
-- key of the only runner that the look-up before gave.
abbrev pub IsTrigger : HookWorld → List HookCall → Type 0
IsTrigger w (patch_hooked patched ∷ get_by_key key ∷ list_by_index index ∷ calls) =
    IsSole (w.listed (list_by_index index ∷ calls)) key
    × IsAnnotated w (w.now (get_by_key key ∷ list_by_index index ∷ calls))
        (w.found (get_by_key key ∷ list_by_index index ∷ calls)) patched
IsTrigger w _ = ⊥

-- Success, and no patch was added to that many, or one that is a trigger.
abbrev pub Follows : HookWorld → ℕ → Outcome (Unit {0}) × Session HookCall (Unit {0}) → Type 0
Follows w n (ok _, t) = (patches t.calls ≡ n) ⊎ ((patches t.calls ≡ suc n) × IsTrigger w t.calls)
Follows w n _ = ⊥

abbrev after_read : HookWorld → Answer Runner → List HookCall → List HookCall
after_read w (error e) calls = calls
after_read w (value runner) calls = patch_hooked (assigned w (w.now calls) runner) ∷ calls

attempt-after_get :
    (w : HookWorld) (a : Answer Runner) (s : Session HookCall (Unit {0}))
    → (attempt (after_get w a) >> pure tt) s ≡ (ok tt, record s { calls = after_read w a s.calls })
unfolding after_get
attempt-after_get w (error e) s = ground arith
attempt-after_get w (value runner) s = ground arith

after_read-Follows :
    (w : HookWorld) (a : Answer Runner) (key : ObjectKey) (index : String) (c : List HookCall)
    (s : Session HookCall (Unit {0}))
    → IsSole (w.listed (list_by_index index ∷ c)) key
    → w.found (get_by_key key ∷ list_by_index index ∷ c) ≡ a
    → Follows w
        (patches c)
        (ok tt, record s { calls = after_read w a (get_by_key key ∷ list_by_index index ∷ c) })
after_read-Follows w (error e) key index c s sole f = inl refl
after_read-Follows w (value runner) key index c s sole f = inr (refl, (sole, rw f refl))

-- A list of runners, right after the look-up that gave it.
on_runners-Follows :
    (w : HookWorld) (items : List Runner) (index : String) (c : List HookCall)
    → w.listed (list_by_index index ∷ c) ≡ value items
    → Follows w
        (patches c)
        (on_runners w items (record { object = tt; calls = list_by_index index ∷ c }))
unfolding on_runners trigger_runner_reconciliation
on_runners-Follows w [] index c l = inl refl
on_runners-Follows w (r ∷ q ∷ rest) index c l = inl refl
on_runners-Follows w (r ∷ []) index c l =
    let read = get_by_key (key_of r.meta) ∷ list_by_index index ∷ c in
    let t : Session HookCall (Unit {0}) = record { object = tt; calls = read } in
    subst (Follows w (patches c)) (sym (attempt-after_get w (w.found read) t))
      (after_read-Follows w (w.found read) (key_of r.meta) index c t (rw l refl) refl)

on_second-Follows :
    (w : HookWorld) (a : Answer (List Runner)) (index : String) (c : List HookCall)
    → w.listed (list_by_index index ∷ c) ≡ a
    → Follows w
        (patches c)
        (on_second w a (record { object = tt; calls = list_by_index index ∷ c }))
unfolding on_second
on_second-Follows w (error e) index c l = inl refl
on_second-Follows w (value items) index c l = on_runners-Follows w items index c l

on_first-Follows :
    (w : HookWorld) (event : WorkflowJobEvent) (repo : Repository) (a : Answer (List Runner))
    (index : String) (c : List HookCall)
    → w.listed (list_by_index index ∷ c) ≡ a
    → Follows w
        (patches c)
        (on_first w event repo a (record { object = tt; calls = list_by_index index ∷ c }))
unfolding on_first by_repository
on_first-Follows w event repo (error e) index c l = inl refl
on_first-Follows w event repo (value []) index c l =
    on_second-Follows w _ (event_index w event repo.url) (list_by_index index ∷ c) refl
on_first-Follows w event repo (value (r ∷ rest)) index c l =
    on_runners-Follows w (r ∷ rest) index c l

-- Whatever the cluster answers, the handling of an event ends without an error, and without a panic
-- if the event has a repository; and it adds no patch, or exactly one, as its last call: that of a
-- runner that was the only one of the last look-up, was then read by its key, and is sent as it was
-- read but for the annotation with the time of its assignment.
pub process_workflow_job_event-Follows :
    (w : HookWorld) (event : WorkflowJobEvent) (repo : Repository) (c : List HookCall)
    → event.repo ≡ some repo
    → Follows w (patches c) (process_workflow_job_event w event (record { object = tt; calls = c }))
unfolding process_workflow_job_event in_repo by_organization by_repository
process_workflow_job_event-Follows w event repo c e =
    let org = on_first-Follows w event repo _ (event_index w event repo.owner_url) c refl in
    let own = on_second-Follows w _ (event_index w event repo.url) c refl in
    elim (Bool-cases (str_eq event.action "in_progress")) [
      | inr other ↦ rw other (inl refl)
      | inl started ↦ elim (Bool-cases (str_eq repo.owner_type "Organization")) [
        | inl owned ↦ rw (started, e, owned) org
        | inr single ↦ rw (started, e, single) own
      ]
    ]
