-- ===== src/Client/Github.antt =====
-- pkg/github/github.go and options.go: the flags, and the client and the server made from them.
use octorun.Client.Server.{Server}
use octorun.Go.{M, ◌>>=◌, pure}
use octorun.Base.{ℤ, pos, List, [], ◌∷◌, String, none, false}
use octorun.Client.Types.{Client, ClientWorld, ClientCall}
use octorun.Client.Credentials.{
  new, ClientOption, with_endpoint, with_app_id, with_app_private_key, with_installation_id,
  with_personal_access_token,
}

pub record Options : Type 0 where
  pub access_token : String
  pub api_endpoint : String
  pub app_id : ℤ
  pub app_private_key : String
  pub app_installation_id : String
  pub webhook_address : String
  pub webhook_path : String
  pub webhook_secret : String

-- A flag that is bound sets its variable to the default.
abbrev pub bind_flags : Options → Options
bind_flags o = record o {
  access_token = "";
  api_endpoint = "https://api.github.com/";
  app_id = pos 0;
  app_private_key = "";
  app_installation_id = "";
  webhook_address = ":9090";
  webhook_path = "/";
  webhook_secret = "";
}

pub record Github (X : Type 0) : Type 0 where
  pub client : Client
  pub webhook_server : Server X

abbrev pub client_options : Options → List ClientOption
client_options opts =
    with_endpoint opts.api_endpoint
    ∷ with_app_id opts.app_id
    ∷ with_app_private_key opts.app_private_key
    ∷ with_installation_id opts.app_installation_id
    ∷ with_personal_access_token opts.access_token
    ∷ []

unfoldable pub new_github :
    {X : Type 0} → ClientWorld → Options → M ClientCall (Unit {0}) (Github X)
new_github w opts = new w (client_options opts) >>= λ c. pure (record {
  client = c;
  webhook_server = record {
    addr = opts.webhook_address;
    path = opts.webhook_path;
    secret = opts.webhook_secret;
    mux = none;
    defaulting_once = false;
  };
})
