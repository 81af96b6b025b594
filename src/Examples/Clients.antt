-- ===== src/Examples/Clients.antt =====
-- A client of github.com for an app, a job event, and the URL of a runner of a repository.
use octorun.Client.Claims.{claims_at-bounds}
use octorun.Hooks.Handle.{handle}
use octorun.Client.Chosen.{IsAuthenticated, new-IsAuthenticated}
use octorun.Client.Sources.{IsGranted, bearer, token-IsGranted}
use octorun.Client.Urls.{written, written-parse_runner_url}
use octorun.RunnerController.World.{seconds}
use octorun.Examples.Hooks.{hook_world, job_started}
use octorun.Webhooks.Url.{first_segment}
use octorun.Client.Requests.{Scope, repository, runner_call_of, token_call_of, requests-scope}
use octorun.Client.Server.{Hub, serve_http, webhook_for}
use octorun.Client.Events.{Served, serve_http-Served}
use octorun.Errors.{Answer, value, error, ok, message}
use octorun.Client.Types.{
  ClientCall, Client, ClientWorld, InstallationToken, InstallationTokenSource, Url, post,
  close_body,
}
use octorun.Client.Credentials.{
  token, new, on_signed, ClientOption, on_base, claims_at, new_personal_token_source, with_endpoint,
  on_response, token_source_of, on_decoded, apply_options, access_tokens_url, with_app_id,
  with_personal_access_token, no_opts,
}
use octorun.Client.Runners.{get_runner, create_runner_token, parse_runner_url}
use octorun.Hooks.World.{workflow_job_event, HookCall, Event}
use octorun.Go.{Session}
use octorun.Base.{
  if◌then◌else◌, ◌≡◌, refl, arith, ℕ, List, [], ◌∷◌, false, String, some, none, pos, codes,
  after_prefix, ◌+◌, str_eq, ◌≤◌, ◌<◌, ◌≢◌, ◌%◌,
}

abbrev parse_url : String → Answer Url
parse_url s = elim (after_prefix "https://github.com" s) [
  | none ↦ error (message "parse")
  | some path ↦ value (record { path = codes path; text = codes s })
]

abbrev signed_in : InstallationToken
signed_in = record { token = "ghs_1"; expires_at = 3600000000000 }

abbrev pub client_world : ClientWorld
client_world = record {
  parse_url = parse_url;
  clean = λ s. s;
  format_int = λ n. "42";
  parse_key = λ s. value s;
  sign = λ claims key. value "jwt";
  now = λ c. 60500000000;
  file = λ c. value "key";
  posted = λ c. value (record { status_code = 201; decoded = value signed_in });
  runner = λ c. (record { busy = false; os = "linux"; status = "online" }, none);
  registration_token = λ c. (record { token = "t"; expires_at = 0 }, none);
}

abbrev app_of : InstallationTokenSource
app_of = record {
  app_id = pos 42;
  app_private_key = "key";
  installation_id = "7";
  base_url = codes "https://github.com/";
}

abbrev opened : Session ClientCall (Unit {0})
opened = record { object = tt; calls = [] }

abbrev asked : List ClientCall
asked = post (access_tokens_url app_of) "jwt" ∷ []

claims_at-bounds_example :
    (claims_at client_world app_of 60500000000).issued_at + seconds 30 ≤ 60500000000
    × 60500000000 < (claims_at client_world app_of 60500000000).issued_at + seconds 31
    × (claims_at client_world app_of 60500000000).issued_at % seconds 1 ≡ 0
    × 60500000000 + seconds 89 < (claims_at client_world app_of 60500000000).expires_at
    × (claims_at client_world app_of 60500000000).expires_at ≤ 60500000000 + seconds 90
claims_at-bounds_example = claims_at-bounds client_world app_of 60500000000 (omega arith)

token-IsGranted_example :
    (jwt : String) × (client_world.sign (claims_at client_world app_of 60500000000) "key"
      ≡ value jwt)
    × IsGranted
        (client_world.posted (post (access_tokens_url app_of) jwt ∷ []))
        (record opened { calls = post (access_tokens_url app_of) jwt ∷ [] })
        (bearer signed_in)
        (record opened { calls = close_body ∷ asked })
unfolding token on_signed on_response on_decoded
token-IsGranted_example =
    token-IsGranted client_world app_of opened (record opened { calls = close_body ∷ asked })
      (bearer signed_in) refl

abbrev token_options : List ClientOption
token_options =
    with_endpoint "https://github.com/"
    ∷ with_app_id (pos 42)
    ∷ with_personal_access_token "ghp_1"
    ∷ []

abbrev home : Url
home = record { path = codes "/"; text = codes "https://github.com/" }

abbrev pub personal_client : Client
personal_client = record { base_url = home; token_source = new_personal_token_source "ghp_1" }

new-IsAuthenticated_example :
    (client_world.parse_url (apply_options token_options no_opts).endpoint ≡ value home)
    × IsAuthenticated client_world
        (apply_options token_options no_opts)
        opened
        opened
        personal_client
unfolding new on_base token_source_of apply_options after_prefix
new-IsAuthenticated_example =
    new-IsAuthenticated client_world token_options opened opened personal_client refl

abbrev repository_url : Url
repository_url = record {
  path = codes "/octorun/octorun";
  text = codes "https://github.com/octorun/octorun";
}

abbrev octorun_repository : Scope
octorun_repository = repository (codes "octorun") b'o' (codes "ctorun")

requests-scope_example :
    (get_runner client_world "https://github.com/octorun/octorun" (pos 7) opened ≡ (
      ok (client_world.runner (runner_call_of octorun_repository (pos 7) ∷ [])),
      record opened { calls = runner_call_of octorun_repository (pos 7) ∷ [] },
    ))
    × (create_runner_token client_world "https://github.com/octorun/octorun" opened ≡ (
      ok (client_world.registration_token (token_call_of octorun_repository ∷ [])),
      record opened { calls = token_call_of octorun_repository ∷ [] },
    ))
unfolding after_prefix
requests-scope_example =
    requests-scope client_world "https://github.com/octorun/octorun" repository_url
      octorun_repository (pos 7) opened refl refl refl refl

written-parse_runner_url_example :
    (b'/' ∷ written (parse_runner_url client_world "https://github.com/octorun/octorun")
      ≡ codes "/octorun/octorun")
    × ((parse_runner_url client_world "https://github.com/octorun/octorun").owner ≢ [])
unfolding after_prefix first_segment
written-parse_runner_url_example =
    written-parse_runner_url client_world "https://github.com/octorun/octorun" repository_url
      (codes "octorun/octorun") refl refl refl

abbrev hub : Hub String String Event
hub = record {
  validate_payload =
      λ r secret. if str_eq secret "s3cret" then value r else error (message "signature");
  web_hook_type = λ r. "workflow_job";
  parse_web_hook = λ type payload. value (workflow_job_event job_started);
}

abbrev listening : Session HookCall (List ℕ)
listening = record { object = []; calls = [] }

serve_http-Served_example :
    Served hub "s3cret" hook_world "{}" listening
      (serve_http hub (webhook_for (handle hook_world) (value "s3cret")) "{}" listening)
serve_http-Served_example = serve_http-Served hub "s3cret" hook_world "{}" listening
