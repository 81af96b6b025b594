-- ===== src/Client/Credentials.antt =====
-- pkg/github/client/token.go and `New` of client.go.
use octorun.Client.Types.{
  Response, InstallationToken, ClientWorld, Opts, InstallationTokenSource, TokenSource,
  reuse_token_source, Url, RegisteredClaims, ClientCall, installation_token_source, read_file,
  Client, static_token_source, OauthToken, close_body, post,
}
use mathlib.Core.List.{reverse}
use octorun.Base.{
  ℕ, ◌+◌, ◌-◌, ◌%◌, ℤ, pos, int_eq, List, [], ◌∷◌, ◌++◌, String, codes, none, some, Bool, not, ◌&&◌,
  ◌==◌, str_eq, if◌then◌else◌,
}
use octorun.Errors.{message, Answer, value, error}
use octorun.Go.{M, ◌>>=◌, pure, fail, ask, tell, observe, deferred, branch}
use octorun.RunnerController.World.{seconds}

unfoldable pub new_personal_token_source : String → TokenSource
new_personal_token_source token = reuse_token_source none (static_token_source token)

-- `t.Truncate(time.Second)`, as documented; the zero time and the epoch are whole seconds.
unfoldable pub truncate_second : ℕ → ℕ
truncate_second t = t - t % seconds 1

-- The clock shows more than half a minute, so that the subtraction does not stop at 0.
unfoldable pub claims_at : ClientWorld → InstallationTokenSource → ℕ → RegisteredClaims
unfolding truncate_second
claims_at w ts now =
    let iss = truncate_second (now - seconds 30) in
    record { issued_at = iss; expires_at = iss + seconds 120; issuer = w.format_int ts.app_id }

drop_slashes : List ℕ → List ℕ
drop_slashes [] = []
drop_slashes (c ∷ cs) = let rest = drop_slashes cs in if c == b'/' then rest else c ∷ cs

-- `strings.TrimRight(s, "/")`
unfoldable pub trim_right_slashes : List ℕ → List ℕ
unfolding drop_slashes
trim_right_slashes s = reverse (drop_slashes (reverse s))

unfoldable pub access_tokens_url : InstallationTokenSource → List ℕ
unfolding trim_right_slashes
access_tokens_url ts =
    trim_right_slashes ts.base_url
    ++ codes "/app/installations/"
    ++ codes ts.installation_id
    ++ codes "/access_tokens"

unfoldable pub on_decoded : Answer InstallationToken → M ClientCall (Unit {0}) OauthToken
on_decoded (error e) = fail (message "unable to decode app installations access_tokens response")
on_decoded (value it) =
    pure (record { access_token = it.token; token_type = "bearer"; expiry = it.expires_at })

unfoldable pub on_response : Answer Response → M ClientCall (Unit {0}) OauthToken
unfolding on_decoded
on_response (error e) = fail (message "unable create app installations access_tokens")
on_response (value res) = deferred (tell close_body) (
    branch (not (res.status_code == 201))
      (fail
        (message "unable create app installations access_tokens. got non 2xx HTTP response code"))
      (on_decoded res.decoded))

unfoldable pub on_signed :
    ClientWorld → InstallationTokenSource → Answer String → M ClientCall (Unit {0}) OauthToken
unfolding on_response access_tokens_url
on_signed w ts (error e) = fail (message "could not sign jwt")
on_signed w ts (value token_jwt) = do
  res ← ask (post (access_tokens_url ts) token_jwt) w.posted
  on_response res

unfoldable pub token : ClientWorld → InstallationTokenSource → M ClientCall (Unit {0}) OauthToken
unfolding on_signed claims_at
token w ts = do now ← observe w.now; on_signed w ts (w.sign (claims_at w ts now) ts.app_private_key)

unfoldable pub on_key :
    ClientWorld → List ℕ → ℤ → String → Answer String → M ClientCall (Unit {0}) TokenSource
unfolding token
on_key w base_url app_id installation_id (error e) =
    fail (message "unable to parse app private key")
on_key w base_url app_id installation_id (value private_key) =
    let ts : InstallationTokenSource = record {
      app_id = app_id;
      app_private_key = private_key;
      installation_id = installation_id;
      base_url = base_url;
    } in
    token w ts >>= λ tok. pure (reuse_token_source (some tok) (installation_token_source ts))

unfoldable pub on_file :
    ClientWorld → List ℕ → ℤ → String → Answer String → M ClientCall (Unit {0}) TokenSource
unfolding on_key
on_file w base_url app_id installation_id (error e) = fail (message "invalid app private key file")
on_file w base_url app_id installation_id (value f) =
    on_key w base_url app_id installation_id (w.parse_key f)

unfoldable pub new_installation_token_source :
    ClientWorld → List ℕ → ℤ → String → String → M ClientCall (Unit {0}) TokenSource
unfolding on_file
new_installation_token_source w base_url app_id app_key installation_id = do
  f ← ask (read_file (w.clean app_key)) w.file
  on_file w base_url app_id installation_id f

abbrev pub ClientOption : Type 0
ClientOption = Opts → Opts

abbrev pub with_endpoint : String → ClientOption
with_endpoint endpoint o = record o { endpoint = endpoint }

abbrev pub with_app_id : ℤ → ClientOption
with_app_id id o = record o { app_id = id }

abbrev pub with_app_private_key : String → ClientOption
with_app_private_key key o = record o { app_key = key }

abbrev pub with_installation_id : String → ClientOption
with_installation_id id o = record o { installation_id = id }

abbrev pub with_personal_access_token : String → ClientOption
with_personal_access_token token o = record o { personal_token = token }

-- The loop over the options.
unfoldable pub apply_options : List ClientOption → Opts → Opts
apply_options [] option = option
apply_options (o ∷ os) option = apply_options os (o option)

abbrev pub no_opts : Opts
no_opts = record {
  endpoint = "";
  personal_token = "";
  app_id = pos 0;
  app_key = "";
  installation_id = "";
}

abbrev pub has_personal_token : Opts → Bool
has_personal_token o = not (str_eq o.personal_token "")

abbrev pub has_app : Opts → Bool
has_app o =
    not (int_eq o.app_id (pos 0)) && not (str_eq o.app_key "") && not (str_eq o.installation_id "")

unfoldable pub token_source_of : ClientWorld → Opts → Url → M ClientCall (Unit {0}) TokenSource
unfolding new_personal_token_source new_installation_token_source
token_source_of w o base =
    branch (has_personal_token o) (pure (new_personal_token_source o.personal_token)) (
      branch (has_app o)
        (new_installation_token_source w base.text o.app_id o.app_key o.installation_id)
        (fail (message "unable to authenticate Github Client.")))

unfoldable pub on_base : ClientWorld → Opts → Answer Url → M ClientCall (Unit {0}) Client
unfolding token_source_of
on_base w o (error e) = fail e
on_base w o (value base) =
    token_source_of w o base >>= λ ts. pure (record { base_url = base; token_source = ts })

unfoldable pub new : ClientWorld → List ClientOption → M ClientCall (Unit {0}) Client
unfolding on_base apply_options
new w opts = let o = apply_options opts no_opts in on_base w o (w.parse_url o.endpoint)
