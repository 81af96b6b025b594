-- ===== src/Client/Sources.antt =====
-- What the client authenticates with.
use octorun.Client.Types.{
  InstallationToken, ClientWorld, Response, OauthToken, ClientCall, InstallationTokenSource,
  close_body, post,
}
use octorun.Client.Credentials.{on_decoded, on_response, claims_at, access_tokens_url, on_signed}
use octorun.Client.Credentials.{token}
use octorun.Go.{Session, deferred, tell, branch, fail}
use octorun.Errors.{ok, message, Answer, error, value}
use octorun.Base.{◌≡◌, refl, arith, ◌∷◌, Bool, true, false, not, ◌==◌, String}

abbrev pub bearer : InstallationToken → OauthToken
bearer it = record { access_token = it.token; token_type = "bearer"; expiry = it.expires_at }

-- A token and the session after it was given, from the answer to the request for it.
abbrev pub IsGranted :
    Answer Response
    → Session ClientCall (Unit {0})
    → OauthToken
    → Session ClientCall (Unit {0})
    → Type 0
IsGranted a s t s' =
    (res : Response) × (it : InstallationToken) × (a ≡ value res)
    × (res.status_code ≡ 201)
    × (res.decoded ≡ value it)
    × (t ≡ bearer it)
    × (s'.calls ≡ close_body ∷ s.calls)

on_status-ok :
    (b : Bool) (d : Answer InstallationToken) (s s' : Session ClientCall (Unit {0}))
    (t : OauthToken)
    → deferred
        (tell close_body)
        (branch
          (not b)
          (fail (
            message
              "unable create app installations access_tokens. got non 2xx HTTP response code"))
          (on_decoded d))
        s
      ≡ (ok t, s')
    → (b ≡ true)
      × ((it : InstallationToken) × (d ≡ value it) × (t ≡ bearer it))
      × (s'.calls ≡ close_body ∷ s.calls)
unfolding on_decoded
on_status-ok false d s s' t h = ground arith
on_status-ok true (error e) s s' t h = ground arith
on_status-ok true (value it) s s' t h = (refl, (it, refl, ground arith), ground arith)

on_response-ok :
    (a : Answer Response) (s s' : Session ClientCall (Unit {0})) (t : OauthToken)
    → on_response a s ≡ (ok t, s')
    → IsGranted a s t s'
unfolding on_response
on_response-ok (error e) s s' t h = ground arith
on_response-ok (value res) s s' t h =
    let (b, (it, d, e), c) = on_status-ok (res.status_code == 201) (res.decoded) s s' t h in
    (res, it, refl, ground arith, d, e, c)

on_signed-ok :
    (w : ClientWorld) (ts : InstallationTokenSource) (a : Answer String)
    (s s' : Session ClientCall (Unit {0})) (t : OauthToken)
    → on_signed w ts a s ≡ (ok t, s')
    → (jwt : String) × (a ≡ value jwt)
      × IsGranted
          (w.posted (post (access_tokens_url ts) jwt ∷ s.calls))
          (record s { calls = post (access_tokens_url ts) jwt ∷ s.calls })
          t
          s'
unfolding on_signed
on_signed-ok w ts (error e) s s' t h = ground arith
on_signed-ok w ts (value jwt) s s' t h = (
  jwt,
  refl,
  on_response-ok (w.posted (post (access_tokens_url ts) jwt ∷ s.calls))
      (record s { calls = post (access_tokens_url ts) jwt ∷ s.calls }) s' t h,
)

-- The token that the client gets for the app: if `Token` gives one, then it posted once, with a web
-- token that was signed over the claims for the clock's time, the answer had status 201 and a body
-- that decodes, the token is that of the body with its time of expiry, and the body was closed.
pub token-IsGranted :
    (w : ClientWorld) (ts : InstallationTokenSource) (s s' : Session ClientCall (Unit {0}))
    (t : OauthToken)
    → token w ts s ≡ (ok t, s')
    → (jwt : String) × (w.sign (claims_at w ts (w.now s.calls)) ts.app_private_key ≡ value jwt)
      × IsGranted
          (w.posted (post (access_tokens_url ts) jwt ∷ s.calls))
          (record s { calls = post (access_tokens_url ts) jwt ∷ s.calls })
          t
          s'
unfolding token
token-IsGranted w ts s s' t h =
    on_signed-ok w ts (w.sign (claims_at w ts (w.now s.calls)) ts.app_private_key) s s' t h
