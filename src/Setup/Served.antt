-- ===== src/Setup/Served.antt =====
-- The webhook server that `main` of main.go adds to the manager, once the manager starts it.
use octorun.Client.Ending.{start-returned}
use octorun.Client.Server.{do_defaults, with_handler}
use octorun.Setup.Order.{IsReady, main-Ran}
use octorun.Client.Serving.{Starting, StartRun, start, returned}
use octorun.Setup.{MainWorld, Error, Options, MainOptions, Server, Github, github_of, ok, handle}
use octorun.Base.{[], arith, ◌≡◌, ℕ, none, some, Bool, ◌∙◌}

module _ {X : Type 0} (w : MainWorld X) (is_server_closed : Error → Bool) where
  kept :
      (opts : Options) (server : Server X)
      → IsReady opts server
      → (do_defaults w.serve_mux server).mux ≡ server.mux
  kept opts server r = ground (arith, r)

  -- When github.New makes a client and the mux takes the webhook's path: if Start of the server that
  -- `main` adds returns without an error, then the http.Server had as its handler the very mux with
  -- which the hook was registered.
  pub main-served :
      {n : ℕ} (opts : MainOptions) (gh : Github X) (server : Server X) (t : Starting X)
      → github_of w opts ≡ ok gh
      → with_handler w.serve_mux gh.webhook_server (handle w.hook_world) ≡ some server
      → StartRun w.serve_mux is_server_closed n (start server) t
      → t.main ≡ returned none
      → t.handler ≡ server.mux
  main-served opts gh server t g h r e =
      let ready = (main-Ran w opts gh server (record { object = tt; calls = [] }) g h).1 in
      (start-returned w.serve_mux is_server_closed server t (λ _. ready.4) r e).1.1
      ∙ kept opts.github server ready
