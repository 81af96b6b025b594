-- ===== src/Client/Requests.antt =====
-- Which of GitHub's endpoints the calls about a runner go to.
use octorun.Client.Types.{
  ClientCall, RunnerKey, actions_create_organization_registration_token,
  actions_get_organization_runner, ClientWorld, actions_create_registration_token,
  actions_get_runner, Url,
}
use octorun.Client.Runners.{parse_runner_url, split_slashes, trim_slash, key_of_url, key_of_paths}
use octorun.Client.Runners.{get_runner, create_runner_token}
use octorun.Go.{Session}
use octorun.Errors.{ok, value}
use octorun.Base.{◌≡◌, refl, arith, ℕ, ℤ, List, [], ◌∷◌, ◌++◌, Bool, false, ◌==◌, String, ◌||◌}

-- What the URL of a runner names; the name of a repository is not empty.
pub data Scope : Type 0 where
  organization : List ℕ → Scope
  repository : List ℕ → ℕ → List ℕ → Scope

abbrev pub has_slash : List ℕ → Bool
has_slash [] = false
has_slash (c ∷ cs) = c == b'/' || has_slash cs

abbrev pub scope_key : Scope → RunnerKey
scope_key (organization owner) = record { owner = owner; repository = [] }
scope_key (repository owner c cs) = record { owner = owner; repository = c ∷ cs }

abbrev pub scope_path : Scope → List ℕ
scope_path (organization owner) = b'/' ∷ owner
scope_path (repository owner c cs) = b'/' ∷ owner ++ b'/' ∷ c ∷ cs

abbrev pub runner_call_of : Scope → ℤ → ClientCall
runner_call_of (organization owner) id = actions_get_organization_runner owner id
runner_call_of (repository owner c cs) id = actions_get_runner owner (c ∷ cs) id

abbrev pub token_call_of : Scope → ClientCall
token_call_of (organization owner) = actions_create_organization_registration_token owner
token_call_of (repository owner c cs) = actions_create_registration_token owner (c ∷ cs)

split_slashes-one : (p : List ℕ) → has_slash p ≡ false → split_slashes p ≡ p ∷ []
unfolding split_slashes
split_slashes-one [] h = refl
split_slashes-one (c ∷ p) h =
    let n : (c == b'/') ≡ false = ground arith in
    let t : has_slash p ≡ false = ground arith in rw n (rw (split_slashes-one p t) refl)

split_slashes-append :
    (p q : List ℕ) → has_slash p ≡ false → split_slashes (p ++ b'/' ∷ q) ≡ p ∷ split_slashes q
unfolding split_slashes
split_slashes-append [] q h = refl
split_slashes-append (c ∷ p) q h =
    let n : (c == b'/') ≡ false = ground arith in
    let t : has_slash p ≡ false = ground arith in rw n (rw (split_slashes-append p q t) refl)

key_of_path :
    (scope : Scope)
    → has_slash ((scope_key scope).owner) ≡ false
    → has_slash ((scope_key scope).repository) ≡ false
    → key_of_paths (split_slashes (trim_slash (scope_path scope))) ≡ scope_key scope
unfolding trim_slash key_of_paths
key_of_path (organization owner) h g = rw (split_slashes-one owner h) refl
key_of_path (repository owner c cs) h g =
    rw (split_slashes-append owner (c ∷ cs) h) (rw (split_slashes-one (c ∷ cs) g) refl)

get_runner-scope_key :
    (w : ClientWorld) (u : String) (scope : Scope) (id : ℤ) (s : Session ClientCall (Unit {0}))
    → parse_runner_url w u ≡ scope_key scope
    → get_runner w u id s ≡ (
      ok (w.runner (runner_call_of scope id ∷ s.calls)),
      record s { calls = runner_call_of scope id ∷ s.calls },
    )
unfolding get_runner
get_runner-scope_key w u (organization owner) id s h = rw h refl
get_runner-scope_key w u (repository owner c cs) id s h = rw h refl

create_runner_token-scope_key :
    (w : ClientWorld) (u : String) (scope : Scope) (s : Session ClientCall (Unit {0}))
    → parse_runner_url w u ≡ scope_key scope
    → create_runner_token w u s ≡ (
      ok (w.registration_token (token_call_of scope ∷ s.calls)),
      record s { calls = token_call_of scope ∷ s.calls },
    )
unfolding create_runner_token
create_runner_token-scope_key w u (organization owner) s h = rw h refl
create_runner_token-scope_key w u (repository owner c cs) s h = rw h refl

-- For a runner whose URL has the path of an organization, or of a repository with the organization
-- before it (their names have no slash, and that of the repository is not empty), GetRunner and
-- CreateRunnerToken each make one call, to the endpoint of that organization or repository with
-- these names, and give back what GitHub answers to it.
pub requests-scope :
    (w : ClientWorld) (u : String) (url : Url) (scope : Scope) (id : ℤ)
    (s : Session ClientCall (Unit {0}))
    → w.parse_url u ≡ value url
    → url.path ≡ scope_path scope
    → has_slash ((scope_key scope).owner) ≡ false
    → has_slash ((scope_key scope).repository) ≡ false
    → (get_runner w u id s ≡ (
      ok (w.runner (runner_call_of scope id ∷ s.calls)),
      record s { calls = runner_call_of scope id ∷ s.calls },
    ))
      × (create_runner_token w u s ≡ (
        ok (w.registration_token (token_call_of scope ∷ s.calls)),
        record s { calls = token_call_of scope ∷ s.calls },
      ))
unfolding parse_runner_url key_of_url
requests-scope w u url scope id s p q h g =
    let k : parse_runner_url w u ≡ scope_key scope = rw p (rw q (key_of_path scope h g)) in
    (get_runner-scope_key w u scope id s k, create_runner_token-scope_key w u scope s k)
