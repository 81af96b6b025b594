-- ===== src/Client/Server.antt =====
-- pkg/github/webhook/webhook.go and server.go: the HTTP handler that GitHub's events come to, and the
-- registration of the hook with it. `Start` of the server is in Serving.
use octorun.Go.{M, ◌>>◌, modify, within}
use octorun.Base.{ℕ, List, ◌∷◌, String, Option, some, none, Bool, true, if◌then◌else◌}
use octorun.Errors.{Answer, value, error}

-- go-github's ValidatePayload, WebHookType and ParseWebHook, on a request, its payload and an event.
pub record Hub (R P E : Type 0) : Type 0 where
  pub validate_payload : R → String → Answer P
  pub web_hook_type : R → String
  pub parse_web_hook : String → P → Answer E

-- A handler makes calls of type `C`. The secret is what `GetSecretFn` gives.
pub record Webhook (C E : Type 0) : Type 0 where
  pub handler : E → M C (Unit {0}) (Unit {0})
  pub secret : Answer String

-- `GetSecretFn` is set by the caller.
abbrev pub webhook_for :
    {C E : Type 0} → (E → M C (Unit {0}) (Unit {0})) → Answer String → Webhook C E
webhook_for h secret = record { handler = h; secret = secret }

-- The statuses written to the response, the newest first.
abbrev http_status : {C : Type 0} → ℕ → M C (List ℕ) (Unit {0})
http_status code = modify (λ written. code ∷ written)

unfoldable pub on_event : {C E : Type 0} → Webhook C E → Answer E → M C (List ℕ) (Unit {0})
on_event wh (error e) = http_status 400
on_event wh (value event) = within tt (wh.handler event) >> http_status 200

module _ {C R P E : Type 0} where
  unfoldable pub on_payload : Hub R P E → Webhook C E → R → Answer P → M C (List ℕ) (Unit {0})
  unfolding on_event
  on_payload hub wh r (error e) = http_status 400
  on_payload hub wh r (value payload) =
      on_event wh (hub.parse_web_hook (hub.web_hook_type r) payload)

  unfoldable pub on_secret : Hub R P E → Webhook C E → R → Answer String → M C (List ℕ) (Unit {0})
  unfolding on_payload
  on_secret hub wh r (error e) = http_status 500
  on_secret hub wh r (value secret) = on_payload hub wh r (hub.validate_payload r secret)

  unfoldable pub serve_http : Hub R P E → Webhook C E → R → M C (List ℕ) (Unit {0})
  unfolding on_secret
  serve_http hub wh r = on_secret hub wh r wh.secret

-- http.NewServeMux and ServeMux.Handle, where `none` is the panic that it documents for a pattern
-- that is registered already.
pub record ServeMux (X C E : Type 0) : Type 0 where
  pub new_serve_mux : X
  pub handle_pattern : X → String → Webhook C E → Option X

-- `defaulting_once` tells whether the `sync.Once` has run.
pub record Server (X : Type 0) : Type 0 where
  pub addr : String
  pub path : String
  pub secret : String
  pub mux : Option X
  pub defaulting_once : Bool

module _ {X C E : Type 0} (lib : ServeMux X C E) where
  abbrev pub set_defaults : Server X → Server X
  set_defaults s = elim (s.mux) [ none ↦ record s { mux = some lib.new_serve_mux } | some _ ↦ s ]

  abbrev pub do_defaults : Server X → Server X
  do_defaults s =
      if s.defaulting_once then s else record (set_defaults s) { defaulting_once = true }

  -- The method of a nil mux panics.
  unfoldable pub register : Server X → Webhook C E → Option X → Option (Server X)
  register s wh none = none
  register s wh (some mux) = elim (lib.handle_pattern mux s.path wh) [
    | none ↦ none
    | some mux' ↦ some (record s { mux = some mux' })
  ]

  unfoldable pub with_handler : Server X → (E → M C (Unit {0}) (Unit {0})) → Option (Server X)
  unfolding register
  with_handler s h = let s' = do_defaults s in register s' (webhook_for h (value s'.secret)) s'.mux
