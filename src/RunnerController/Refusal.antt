-- ===== src/RunnerController/Refusal.antt =====
-- How errors of GitHub end a reconciliation.
use octorun.Pods.{runner_id_of}
use octorun.RunnerController.Objects.{secret_for_runner, pod_for_runner}
use octorun.RunnerController.Phases.{IsUp}
use octorun.Sortable.{priority, could_delete}
use octorun.Resources.{Runner, set_phase, pending, Secret, Pod, key_of, runner_secret_failed_reason}
use octorun.RunnerController.Status.{reconcile_status}
use octorun.RunnerController.Tokens.{is_terminal, refresh_token, fetch_token, needs_token}
use octorun.Base.{
  ◌≡◌, ◌≢◌, refl, true, arith, none, ℤ, ℕ, some, ◌⊎◌, inl, inr, ◌∷◌, List, Bool-cases, ◌==◌, subst,
  sym,
}
use octorun.Errors.{
  Error, is_forbidden, Outcome, ok, is_not_found, parse_error_response, err, panic, error_response,
  value,
}
use octorun.Go.{Session}
use octorun.RunnerController.World.{
  World, RunnerCall, exec_in, done, event, github_get_runner, warning, create_runner_token, Result,
}
use octorun.RunnerController.Reconcile.{reconcile_runner, finalize, own_pod, secret_refused}

-- The outcome of the CreateOrUpdate of the secret, in a round that is no deletion.
abbrev pub secret_outcome :
    World → Session RunnerCall Runner → Outcome (Unit {0}) × Session RunnerCall Secret
secret_outcome w s =
    w.create_or_update_secret (refresh_token w (finalize w s.object))
      (record { object = secret_for_runner (finalize w s.object); calls = s.calls })

-- The callback on the secret stops at an error of GitHub.
refresh_token-err :
    (w : World) (runner : Runner) (k : Session RunnerCall Secret) (e : Error)
    → needs_token w (w.now k.calls) k.object ≡ true
    → (w.runner_token (create_runner_token runner.spec.url ∷ k.calls)).1 ≡ some e
    → refresh_token w runner k
      ≡ (err e, record k { calls = create_runner_token runner.spec.url ∷ k.calls })
unfolding refresh_token fetch_token
refresh_token-err w runner k e n g = rw (n, refresh_token) (ground (arith, g))

-- What an error of GitHub makes of a reconciliation that has made these calls so far.
abbrev pub Refusal :
    Error → Runner → List RunnerCall → Outcome Result × Session RunnerCall Runner → Type 0
Refusal e runner calls r =
    (((e ≡ error_response (some 403)) ⊎ (e ≡ error_response (some 404)))
      × (r ≡ (
        ok done,
        record { object = runner; calls = event warning runner_secret_failed_reason ∷ calls },
      )))
    ⊎ ((e ≡ error_response none) × (r ≡ (panic, record { object = runner; calls = calls })))
    ⊎ ((e ≢ error_response (some 403))
        × (e ≢ error_response (some 404))
        × (e ≢ error_response none)
        × (r ≡ (err e, record { object = runner; calls = calls })))

refused_status :
    (n : ℕ) (runner : Runner) (calls : List RunnerCall)
    → Refusal (error_response (some n)) runner calls (
        secret_refused
          (error_response (some n))
          (is_terminal (error_response (some n)))
          (record { object = runner; calls = calls }))
unfolding secret_refused is_terminal is_forbidden is_not_found parse_error_response
refused_status n runner calls = elim (Bool-cases (n == 403)) [
  | inl e ↦ inl (inl (ground (arith, e)), ground (arith, e))
  | inr e ↦ elim (Bool-cases (n == 404)) [
    | inl f ↦ inl (inr (ground (arith, f)), ground (arith, e, f))
    | inr f ↦
        inr (
          inr (λ h. ground (arith, e, h), λ h. ground (arith, f, h), λ h. cc, ground (arith, e, f)))
  ]
]

secret_refused-Refusal :
    (e : Error) (runner : Runner) (calls : List RunnerCall)
    → Refusal e runner calls
        (secret_refused e (is_terminal e) (record { object = runner; calls = calls }))
unfolding secret_refused is_terminal is_forbidden is_not_found parse_error_response
secret_refused-Refusal (error_response none) runner calls = inr (inl (refl, refl))
secret_refused-Refusal (error_response (some n)) runner calls = refused_status n runner calls
secret_refused-Refusal _ runner calls = inr (inr (λ h. cc, λ h. cc, λ h. cc, refl))

reconcile_runner-refused :
    (w : World) (s : Session RunnerCall Runner) (e : Error) (t : Session RunnerCall Secret)
    → s.object.meta.deletion_timestamp ≡ none
    → secret_outcome w s ≡ (err e, t)
    → reconcile_runner w s
      ≡ secret_refused e (is_terminal e) (record { object = finalize w s.object; calls = t.calls })
unfolding reconcile_runner
reconcile_runner-refused w s e t d o = ground (arith, d, o)

-- As documented of CreateOrUpdate: it runs its callback once, in the session `k` that its own reading
-- of the secret leaves, and an error of the callback is its own.
abbrev pub HandsOn : World → Session RunnerCall Runner → Session RunnerCall Secret → Type 0
HandsOn w s k =
    (e : Error) (t : Session RunnerCall Secret)
    → refresh_token w (finalize w s.object) k ≡ (err e, t)
    → secret_outcome w s ≡ (err e, t)

-- A runner that is not being deleted, whose secret needs a token, when GitHub answers the
-- request for one with an error, and CreateOrUpdate hands on the error of its callback, as
-- documented: no call is made after that request but, where the error is the response 403 or
-- 404, one warning, with which the reconciliation succeeds without a requeue; an error response
-- with no response in it makes it panic; any other error is its own. The runner changes in its
-- finalizers only, as the controller's is added.
pub reconcile_runner-Refusal :
    (w : World) (s : Session RunnerCall Runner) (k : Session RunnerCall Secret) (e : Error)
    → s.object.meta.deletion_timestamp ≡ none
    → HandsOn w s k
    → needs_token w (w.now k.calls) k.object ≡ true
    → (w.runner_token (create_runner_token s.object.spec.url ∷ k.calls)).1 ≡ some e
    → Refusal e
        (finalize w s.object)
        (create_runner_token s.object.spec.url ∷ k.calls)
        (reconcile_runner w s)
reconcile_runner-Refusal w s k e d hands n g =
    let calls = create_runner_token s.object.spec.url ∷ k.calls in
    let failed =
      hands e (record k { calls = calls }) (refresh_token-err w (finalize w s.object) k e n g) in
    subst (Refusal e (finalize w s.object) calls)
      (sym (reconcile_runner-refused w s e (record k { calls = calls }) d failed))
      (secret_refused-Refusal e (finalize w s.object) calls)

-- The pod that the second CreateOrUpdate left, and the calls up to there.
abbrev pub pod_outcome :
    World → Session RunnerCall Runner → Outcome (Unit {0}) × Session RunnerCall Pod
pod_outcome w s =
    w.create_or_update_pod (own_pod w (finalize w s.object)) (record {
      object = pod_for_runner (finalize w s.object);
      calls = (secret_outcome w s).1.calls;
    })

-- The session that the status is worked out in.
abbrev pub status_session : World → Session RunnerCall Runner → Session RunnerCall Runner
status_session w s = record {
  object = set_phase pending (finalize w s.object);
  calls = (pod_outcome w s).1.calls;
}

-- Once secret and pod are reconciled, a runner that is not being deleted is handed to
-- reconcileStatus in the Pending phase, whatever its phase was.
reconcile_runner_status :
    (w : World) (s : Session RunnerCall Runner)
    → s.object.meta.deletion_timestamp ≡ none
    → (secret_outcome w s).0 ≡ ok tt
    → (pod_outcome w s).0 ≡ ok tt
    → reconcile_runner w s ≡ reconcile_status w (pod_outcome w s).1.object (status_session w s)
unfolding reconcile_runner
reconcile_runner_status w s d a b = ground arith

-- A runner whose pod is up is reported as Pending, and may then be deleted as if it had no job, when
-- GitHub fails to answer for it in this round: its phase before the round, Active included, is lost.
pub reconcile_runner_forgets :
    (w : World) (s : Session RunnerCall Runner) (id : ℤ) (e : Error)
    → s.object.meta.deletion_timestamp ≡ none
    → (secret_outcome w s).0 ≡ ok tt
    → (pod_outcome w s).0 ≡ ok tt
    → IsUp (pod_outcome w s).1.object
    → runner_id_of
        (w.exec (exec_in (key_of (pod_outcome w s).1.object.meta) ∷ (pod_outcome w s).1.calls))
      ≡ value id
    → (w.github_runner (
        github_get_runner s.object.spec.url id
        ∷ exec_in (key_of (pod_outcome w s).1.object.meta)
        ∷ (pod_outcome w s).1.calls)).1
      ≡ some e
    → ((reconcile_runner w s).0 ≡ err e)
      × ((reconcile_runner w s).1.object.status.phase ≡ pending)
      × (priority (reconcile_runner w s).1.object ≡ could_delete)
unfolding reconcile_status priority
reconcile_runner_forgets w s id e d a b up i g =
    rw (reconcile_runner_status w s d a b) (ground arith)
