-- ===== src/Setup/Order.antt =====
-- In which order `main` of main.go puts the parts together.
use octorun.Client.Credentials.{new}
use octorun.Go.Sequence.{Ran, step, then-Ran, and-then-Ran, last-Ran}
use octorun.Go.{◌>>=◌, pure, ◌>>◌}
use octorun.Client.Types.{Client, ClientCall}
use octorun.Client.Github.{Options, Github, new_github, client_options}
use octorun.Setup.{
  MainWorld, ManagerCall, Outcome, with_github, complete_controller, complete_webhook, Main,
  Session, index_field, ok, from_outcome, handle, add_runnable, ◌>>=◌, add_healthz_check,
  add_readyz_check, register_collector, start_manager, err, github_hook_setup, added, main,
  MainOptions, github_of, Error, new_manager, manager_options, exit_status,
}
use octorun.Client.Server.{Server, with_handler, register}
use octorun.Base.{◌≡◌, none, some, true, false, arith, List, [], ◌∷◌, is_some, subst}

-- The calls with the client for GitHub at hand, the last one of which runs the manager.
abbrev pub setup_calls : {X : Type 0} → Server X → List (ManagerCall X)
setup_calls server =
    complete_controller "Runner" "Pod"
    ∷ complete_controller "RunnerSet" "Runner"
    ∷ complete_webhook "Runner"
    ∷ complete_webhook "RunnerSet"
    ∷ index_field "composite_idx"
    ∷ add_runnable server
    ∷ add_healthz_check
    ∷ add_readyz_check
    ∷ register_collector
    ∷ start_manager
    ∷ []

-- A server that the hook was registered with: it has a mux, set once and for all.
abbrev pub IsReady : {X : Type 0} → Options → Server X → Type 0
IsReady opts server =
    (server.addr ≡ opts.webhook_address)
    × (server.path ≡ opts.webhook_path)
    × (server.secret ≡ opts.webhook_secret)
    × (server.defaulting_once ≡ true)
    × (is_some server.mux ≡ true)

module _ {X : Type 0} (w : MainWorld X) where
  abbrev checks : Main X
  checks =
      step w.answer add_healthz_check
      >> (step w.answer add_readyz_check
          >> (step w.answer register_collector >> step w.answer start_manager))

  abbrev check_calls : List (ManagerCall X)
  check_calls = add_healthz_check ∷ add_readyz_check ∷ register_collector ∷ start_manager ∷ []

  checks-Ran : (s : Session (ManagerCall X) (Unit {0})) → Ran w.answer check_calls s (checks s)
  checks-Ran s = then-Ran w.answer add_healthz_check _ _ s (λ t.
      then-Ran w.answer add_readyz_check _ _ t (λ t'.
        then-Ran w.answer register_collector _ _ t' (λ t''. last-Ran w.answer start_manager t'')))

  abbrev hook_calls : Server X → List (ManagerCall X)
  hook_calls server = index_field "composite_idx" ∷ add_runnable server ∷ []

  hook-Ran :
      (old server : Server X) (s : Session (ManagerCall X) (Unit {0}))
      → with_handler w.serve_mux old (handle w.hook_world) ≡ some server
      → Ran w.answer (hook_calls server) s (github_hook_setup w old s)
  hook-Ran old server s h =
      then-Ran w.answer (index_field "composite_idx") (add_runnable server ∷ [])
        (added w (with_handler w.serve_mux old (handle w.hook_world))) s
        (λ t. rw h (last-Ran w.answer (add_runnable server) t))

  with_github-Ran :
      (gh : Github X) (server : Server X) (s : Session (ManagerCall X) (Unit {0}))
      → with_handler w.serve_mux gh.webhook_server (handle w.hook_world) ≡ some server
      → Ran w.answer (setup_calls server) s (with_github w gh s)
  unfolding with_github
  with_github-Ran gh server s h = then-Ran w.answer (complete_controller "Runner" "Pod") _ _ s (λ t.
      then-Ran w.answer (complete_controller "RunnerSet" "Runner") _ _ t (λ t'.
        then-Ran w.answer (complete_webhook "Runner") _ _ t' (λ u.
          then-Ran w.answer (complete_webhook "RunnerSet") _ _ u (λ u'.
            and-then-Ran w.answer (hook_calls server) check_calls u'
              (github_hook_setup w gh.webhook_server u') checks
              (hook-Ran gh.webhook_server server u' h) checks-Ran))))

  -- `main` after the manager is made, with what making the client for GitHub comes to.
  abbrev with_outcome : Outcome (Github X) → Main X
  with_outcome r = from_outcome r >>= with_github w

  with_outcome-Ran :
      (r : Outcome (Github X)) (gh : Github X) (server : Server X)
      (s : Session (ManagerCall X) (Unit {0}))
      → r ≡ ok gh
      → with_handler w.serve_mux gh.webhook_server (handle w.hook_world) ≡ some server
      → Ran w.answer (setup_calls server) s (with_outcome r s)
  with_outcome-Ran r gh server s e h = rw e (with_github-Ran gh server s h)

  abbrev server_of : Options → Server X
  server_of opts = record {
    addr = opts.webhook_address;
    path = opts.webhook_path;
    secret = opts.webhook_secret;
    mux = none;
    defaulting_once = false;
  }

  made-server :
      (opts : Options) (r : Outcome Client × Session ClientCall (Unit {0})) (gh : Github X)
      (s : Session ClientCall (Unit {0}))
      → (((λ _. r) >>= (λ c. pure (record { client = c; webhook_server = server_of opts }))) s).0
        ≡ ok gh
      → gh.webhook_server ≡ server_of opts
  made-server opts (ok c, t) gh s h = ground (arith, h)
  made-server opts (err e, t) gh s h = ground (arith, h)
  made-server opts (octorun.Errors.panic, t) gh s h = ground (arith, h)

  registered-IsReady :
      (opts : Options) (server : Server X)
      → with_handler w.serve_mux (server_of opts) (handle w.hook_world) ≡ some server
      → IsReady opts server
  unfolding with_handler register
  registered-IsReady opts server h = ground (arith, h)

  -- When github.New makes a client and the mux takes the webhook's path, `main` makes its eleven
  -- calls in order, up to the first that fails, whose error is its outcome: the manager is made, the
  -- two controllers, the two webhooks, the index of the hook, the webhook server, the two checks and
  -- the collector are added, and the manager is started last. The server that is added has the
  -- address, the path and the secret of the flags, and a mux that no default replaces.
  pub main-Ran :
      (opts : MainOptions) (gh : Github X) (server : Server X)
      (s : Session (ManagerCall X) (Unit {0}))
      → github_of w opts ≡ ok gh
      → with_handler w.serve_mux gh.webhook_server (handle w.hook_world) ≡ some server
      → Ran w.answer (new_manager (manager_options opts) ∷ setup_calls server) s (main w opts s)
        × IsReady opts.github server
  unfolding main new_github
  main-Ran opts gh server s g h = (
    then-Ran w.answer (new_manager (manager_options opts)) (setup_calls server)
        (with_outcome (github_of w opts)) s
        (λ t. with_outcome-Ran (github_of w opts) gh server t g h),
    registered-IsReady opts.github server (
        subst (λ old. with_handler w.serve_mux old (handle w.hook_world) ≡ some server)
          (made-server opts.github
            (new w.client_world (client_options opts.github) (record { object = tt; calls = [] }))
            gh (record { object = tt; calls = [] }) g)
          h),
  )

  -- When github.New fails, `main` exits with status 1 and the only call it has made is that for the
  -- manager: no controller, webhook or server is added, and the manager is not started.
  pub main-no_client :
      (opts : MainOptions) (e : Error) (s : Session (ManagerCall X) (Unit {0}))
      → github_of w opts ≡ err e
      → ((main w opts s).1.calls ≡ new_manager (manager_options opts) ∷ s.calls)
        × (exit_status (main w opts s).0 ≡ 1)
  unfolding main
  main-no_client opts e s g = ground (arith, g)
