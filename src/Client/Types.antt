-- ===== src/Client/Types.antt =====
-- The data of pkg/github/client, and the packages it stands on. A text that the code walks is the
-- list of its code points.
use octorun.Base.{ℕ, ℤ, List, String, Option}
use octorun.Errors.{Answer, Error}
use octorun.RunnerController.World.{GithubRunner, RunnerToken}

-- `text` is what `URL.String` gives.
pub record Url : Type 0 where
  pub path : List ℕ
  pub text : List ℕ

pub record Opts : Type 0 where
  pub endpoint : String
  pub personal_token : String
  pub app_id : ℤ
  pub app_key : String
  pub installation_id : String

-- The claims of the JSON web token; a time is in nanoseconds.
pub record RegisteredClaims : Type 0 where
  pub issued_at : ℕ
  pub expires_at : ℕ
  pub issuer : String

-- The private key of the app stays the text that jwt parsed it from.
pub record InstallationTokenSource : Type 0 where
  pub app_id : ℤ
  pub app_private_key : String
  pub installation_id : String
  pub base_url : List ℕ

-- The fields of the answer's JSON that the code reads.
pub record InstallationToken : Type 0 where
  pub token : String
  pub expires_at : ℕ

pub record OauthToken : Type 0 where
  pub access_token : String
  pub token_type : String
  pub expiry : ℕ

-- What the code builds with oauth2: the calls of its constructors.
pub data TokenSource : Type 0 where
  static_token_source : String → TokenSource
  installation_token_source : InstallationTokenSource → TokenSource
  reuse_token_source : Option OauthToken → TokenSource → TokenSource

pub record Client : Type 0 where
  pub base_url : Url
  pub token_source : TokenSource

-- An HTTP answer: its status, and what decoding its body gives.
pub record Response : Type 0 where
  pub status_code : ℕ
  pub decoded : Answer InstallationToken

pub record RunnerKey : Type 0 where
  pub owner : List ℕ
  pub repository : List ℕ

pub data ClientCall : Type 0 where
  read_file : String → ClientCall
  post : List ℕ → String → ClientCall
  close_body : ClientCall
  actions_get_runner : List ℕ → List ℕ → ℤ → ClientCall
  actions_get_organization_runner : List ℕ → ℤ → ClientCall
  actions_create_registration_token : List ℕ → List ℕ → ClientCall
  actions_create_organization_registration_token : List ℕ → ClientCall

-- net/url, path/filepath, strconv, jwt and go-github, the clock and the file system.
pub record ClientWorld : Type 0 where
  pub parse_url : String → Answer Url
  pub clean : String → String
  pub format_int : ℤ → String
  pub parse_key : String → Answer String
  pub sign : RegisteredClaims → String → Answer String
  pub now : List ClientCall → ℕ
  pub file : List ClientCall → Answer String
  pub posted : List ClientCall → Answer Response
  pub runner : List ClientCall → GithubRunner × Option Error
  pub registration_token : List ClientCall → RunnerToken × Option Error
