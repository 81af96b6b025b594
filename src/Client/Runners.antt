-- ===== src/Client/Runners.antt =====
-- pkg/github/client/action_client.go: the calls about a runner, made for the organization or for
-- the repository that its URL names.
use octorun.RunnerController.World.{RunnerToken, GithubRunner}
use octorun.Client.Types.{
  ClientWorld, RunnerKey, Url, ClientCall, actions_get_runner, actions_create_registration_token,
  actions_create_organization_registration_token, actions_get_organization_runner,
}
use octorun.Base.{ℕ, ℤ, List, [], ◌∷◌, Bool, true, false, String, Option, ◌==◌, if◌then◌else◌}
use octorun.Errors.{Error, Answer, value, error}
use octorun.Go.{M, ask, branch}

-- `strings.TrimPrefix(s, "/")`
unfoldable pub trim_slash : List ℕ → List ℕ
trim_slash [] = []
trim_slash (c ∷ cs) = if c == b'/' then cs else c ∷ cs

-- Puts a character in front of the first part.
abbrev pub onto_first : ℕ → List (List ℕ) → List (List ℕ)
onto_first c [] = (c ∷ []) ∷ []
onto_first c (p ∷ ps) = (c ∷ p) ∷ ps

-- `strings.Split(s, "/")`
unfoldable pub split_slashes : List ℕ → List (List ℕ)
split_slashes [] = [] ∷ []
split_slashes (c ∷ cs) =
    let rest = split_slashes cs in if c == b'/' then [] ∷ rest else onto_first c rest

abbrev pub no_key : RunnerKey
no_key = record { owner = []; repository = [] }

unfoldable pub key_of_paths : List (List ℕ) → RunnerKey
key_of_paths [] = no_key
key_of_paths (p ∷ []) = record { owner = p; repository = [] }
key_of_paths (p ∷ q ∷ _) = record { owner = p; repository = q }

unfoldable pub key_of_url : Answer Url → RunnerKey
unfolding key_of_paths split_slashes trim_slash
key_of_url (error e) = no_key
key_of_url (value url) = key_of_paths (split_slashes (trim_slash url.path))

unfoldable pub parse_runner_url : ClientWorld → String → RunnerKey
unfolding key_of_url
parse_runner_url w u = key_of_url (w.parse_url u)

abbrev pub has_repository : RunnerKey → Bool
has_repository k = elim (k.repository) [ [] ↦ false | _ ∷ _ ↦ true ]

unfoldable pub get_runner :
    ClientWorld → String → ℤ → M ClientCall (Unit {0}) (GithubRunner × Option Error)
unfolding parse_runner_url
get_runner w runner_url runner_id =
    let key = parse_runner_url w runner_url in
    branch (has_repository key)
      (ask (actions_get_runner key.owner key.repository runner_id) w.runner)
      (ask (actions_get_organization_runner key.owner runner_id) w.runner)

unfoldable pub create_runner_token :
    ClientWorld → String → M ClientCall (Unit {0}) (RunnerToken × Option Error)
unfolding parse_runner_url
create_runner_token w runner_url =
    let key = parse_runner_url w runner_url in
    branch (has_repository key)
      (ask (actions_create_registration_token key.owner key.repository) w.registration_token)
      (ask (actions_create_organization_registration_token key.owner) w.registration_token)
