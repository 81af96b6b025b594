-- ===== src/RunnerController/Secrets.antt =====
-- The registration token in the secret: when it is fetched, and what becomes of the secret.
use octorun.Annotations.{is_token_expired}
use octorun.Errors.{panic, ok, Error}
use octorun.RunnerController.Tokens.{
  refresh_last_token, refresh_token, needs_token, fetch_token, fetch_last_token, own_secret,
}
use octorun.Resources.{Runner, Secret}
use octorun.Base.{
  ◌≡◌, true, false, arith, String, if◌then◌else◌, none, ◌↔◌, ◌≢◌, Option, lookup, ◌∷◌, ◌&&◌, str_eq,
  some, find_key-put_key, entries, Bool-cases, inl, inr,
}
use octorun.Go.{Session, ◌>>◌}
use octorun.RunnerController.World.{World, RunnerCall, RunnerToken, create_runner_token}

-- The answer to the request for a token.
abbrev pub token_answer : World → Runner → Session RunnerCall Secret → RunnerToken × Option Error
token_answer w runner s = w.runner_token (create_runner_token runner.spec.url ∷ s.calls)

module _ (w : World) (runner : Runner) (s : Session RunnerCall Secret) where
  fetching :
      needs_token w (w.now s.calls) s.object ≡ true
      → refresh_token w runner s ≡ (fetch_token w runner >> own_secret w runner) s
  unfolding refresh_token
  fetching e = rw (e, refresh_token)

  keeping :
      needs_token w (w.now s.calls) s.object ≡ false
      → refresh_token w runner s ≡ own_secret w runner s
  unfolding refresh_token
  keeping e = rw (e, refresh_token)

  fetching_last :
      is_token_expired w.mach (w.now s.calls) s.object.meta ≡ true
      → refresh_last_token w runner s ≡ (fetch_last_token w runner >> own_secret w runner) s
  unfolding refresh_last_token
  fetching_last e = rw (e, refresh_last_token)

  keeping_last :
      is_token_expired w.mach (w.now s.calls) s.object.meta ≡ false
      → refresh_last_token w runner s ≡ own_secret w runner s
  unfolding refresh_last_token
  keeping_last e = rw (e, refresh_last_token)

-- GitHub is asked for a token exactly when the secret is new, has no readable expiry, or expires
-- within five minutes; no other call is made.
calls-refresh_token :
    (w : World) (runner : Runner) (s : Session RunnerCall Secret)
    → (refresh_token w runner s).1.calls ≡ (
        if needs_token w (w.now s.calls) s.object
        then create_runner_token runner.spec.url ∷ s.calls
        else s.calls)
unfolding refresh_token
calls-refresh_token w runner s = elim (Bool-cases (needs_token w (w.now s.calls) s.object)) [
  | inl e ↦ rw (e, refresh_token) (ground arith)
  | inr e ↦ rw (e, refresh_token) (ground arith)
]

-- When the callback succeeds, every entry of the secret's data is as before, except that the entry
-- `token` holds the token that GitHub gave if one was asked for.
lookup-refresh_token :
    (w : World) (runner : Runner) (s : Session RunnerCall Secret) (k : String)
    → (refresh_token w runner s).0 ≡ ok tt
    → lookup k (refresh_token w runner s).1.object.contents ≡ (
        if needs_token w (w.now s.calls) s.object && str_eq "token" k
        then some (token_answer w runner s).0.token
        else lookup k s.object.contents)
unfolding fetch_token own_secret
lookup-refresh_token w runner s k h = elim (Bool-cases (needs_token w (w.now s.calls) s.object)) [
  | inl e ↦ rw e (
      ground (
        arith,
        fetching w runner s e,
        find_key-put_key "token" k (token_answer w runner s).0.token (entries s.object.contents),
      ))
  | inr e ↦ rw e (ground (arith, keeping w runner s e))
]

-- The callback panics exactly when a token was asked for and granted and the secret has no data map
-- to put it in, as a secret of the cluster with empty data has.
pub refresh_token-panic_iff :
    (w : World) (runner : Runner) (s : Session RunnerCall Secret)
    → ((refresh_token w runner s).0 ≡ panic) ↔ (
        (needs_token w (w.now s.calls) s.object ≡ true)
        × ((token_answer w runner s).1 ≡ none)
        × (s.object.contents ≡ none))
unfolding fetch_token own_secret
refresh_token-panic_iff w runner s = elim (Bool-cases (needs_token w (w.now s.calls) s.object)) [
  | inl e ↦ ground (arith, fetching w runner s e)
  | inr e ↦ ground (arith, keeping w runner s e)
]

-- The callback of a deletion makes the map first: it does not panic if GitHub grants the token.
refresh_last_token-ne-panic :
    (w : World) (runner : Runner) (s : Session RunnerCall Secret)
    → (token_answer w runner s).1 ≡ none
    → (refresh_last_token w runner s).0 ≢ panic
unfolding fetch_last_token own_secret
refresh_last_token-ne-panic w runner s h =
    elim (Bool-cases (is_token_expired w.mach (w.now s.calls) s.object.meta)) [
      | inl e ↦ ground (arith, fetching_last w runner s e)
      | inr e ↦ ground (arith, keeping_last w runner s e)
    ]
