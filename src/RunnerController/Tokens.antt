-- ===== src/RunnerController/Tokens.antt =====
-- The two callbacks that `Reconcile` hands to `CreateOrUpdate` for the registration token secret,
-- and the way it treats an error of GitHub that another attempt cannot mend.
use octorun.Base.{
  ℕ, Bool, true, false, not, ◌||◌, Option, none, some, GoMap, Dict, entries, put_key, is_some,
}
use octorun.Annotations.{annotate_token_expires, is_token_expired}
use octorun.Errors.{Error, Outcome, ok, is_forbidden, is_not_found, err, panic}
use octorun.Go.{branch, M, ◌>>=◌, ◌>>◌, pure, get, modify, ask, observe, check, check_answer}
use octorun.Resources.{Runner, Secret}
use octorun.RunnerController.World.{World, RunnerCall, RunnerToken, create_runner_token}

-- `gherrors.IsForbidden(err) || gherrors.IsNotFound(err)`; the first test can panic.
or_not_found : Error → Outcome Bool → Outcome Bool
or_not_found e (ok true) = ok true
or_not_found e (ok false) = ok (is_not_found e)
or_not_found e r = r

unfoldable pub is_terminal : Error → Outcome Bool
unfolding or_not_found
is_terminal e = or_not_found e (is_forbidden e)

abbrev unless_terminal : Error → Outcome Bool → Outcome (Unit {0})
unless_terminal e (ok true) = ok tt
unless_terminal e (ok false) = err e
unless_terminal e _ = panic

module _ {X : Type 0} where
  -- `if err != nil && !(IsForbidden(err) || IsNotFound(err)) { return err }`
  abbrev pub tolerate : Option Error → M RunnerCall X (Unit {0})
  tolerate none s = (ok tt, s)
  tolerate (some e) s = (unless_terminal e (is_terminal e), s)

-- AnnotateTokenExpires with the token's expiry, in UTC.
abbrev pub annotate : World → RunnerToken → Secret → Secret
annotate w rt secret = record secret {
  meta = annotate_token_expires (w.mach.format_time rt.expires_at) secret.meta;
}

abbrev pub with_token : RunnerToken → Dict → Secret → Secret
with_token rt d secret = record secret { contents = some (put_key "token" rt.token d) }

-- `runnerSecret.Data["token"] = …`: a write to a nil map panics.
write_token : RunnerToken → GoMap → M RunnerCall Secret (Unit {0})
write_token rt none s = (panic, s)
write_token rt (some d) s = (ok tt, record s { object = with_token rt d s.object })

-- ctrl.SetControllerReference(runner, runnerSecret, r.Scheme)
unfoldable pub own_secret : World → Runner → M RunnerCall Secret (Unit {0})
own_secret w runner = do
  secret ← get
  m ← check_answer (w.mach.set_controller_reference runner.meta secret.meta)
  modify (λ k. record k { meta = m })

store_token : World → RunnerToken → M RunnerCall Secret (Unit {0})
unfolding write_token
store_token w rt = do modify (annotate w rt); secret ← get; write_token rt secret.contents

unfoldable pub fetch_token : World → Runner → M RunnerCall Secret (Unit {0})
unfolding store_token
fetch_token w runner = do
  (rt, e) ← ask (create_runner_token runner.spec.url) w.runner_token
  check e
  store_token w rt

abbrev pub needs_token : World → ℕ → Secret → Bool
needs_token w now secret =
    not (is_some secret.meta.creation_timestamp) || is_token_expired w.mach now secret.meta

-- The callback when the runner is not being deleted.
unfoldable pub refresh_token : World → Runner → M RunnerCall Secret (Unit {0})
unfolding fetch_token own_secret
refresh_token w runner = do
  secret ← get
  now ← observe w.now
  branch (needs_token w now secret) (fetch_token w runner) (pure tt)
  own_secret w runner

-- While deleting, a refused token is stored as it came, and a nil map is made first.
unfoldable pub fetch_last_token : World → Runner → M RunnerCall Secret (Unit {0})
fetch_last_token w runner = do
  (rt, e) ← ask (create_runner_token runner.spec.url) w.runner_token
  tolerate e
  modify (annotate w rt)
  modify (λ secret. with_token rt (entries secret.contents) secret)

unfoldable pub refresh_last_token : World → Runner → M RunnerCall Secret (Unit {0})
unfolding fetch_last_token own_secret
refresh_last_token w runner = do
  secret ← get
  now ← observe w.now
  branch (is_token_expired w.mach now secret.meta) (fetch_last_token w runner) (pure tt)
  own_secret w runner
