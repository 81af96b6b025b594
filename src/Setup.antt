-- ===== src/Setup.antt =====
-- main.go, with the SetupWithManager of the controllers, the webhooks and the hook: how the parts are
-- put together, and when the manager starts. The manager, its builders and the health checks belong
-- to controller-runtime: what they answer is open.
pub mod Order
pub mod Served
use octorun.Hooks.Handle.{handle}
use octorun.Hooks.World.{HookWorld, HookCall, Event}
use octorun.Client.Types.{ClientWorld}
use octorun.Errors.{Outcome, Error, ok, err}
use octorun.Client.Server.{Server, with_handler, ServeMux}
use octorun.Base.{
  ◌≡◌, refl, inl, inr, zero, suc, arith, if◌then◌else◌, pos, negsuc, Bool-cases, Option-cases, Bool,
  true, false, String, Option, none, some, List, [], ◌∷◌, ℕ,
}
use octorun.Go.{M, Session, ◌>>=◌, ◌>>◌, pure, from_outcome, crash}
use octorun.Go.Sequence.{step}
use octorun.Client.Github.{Options, Github, bind_flags, new_github}

pub record MainOptions : Type 0 where
  pub probe_addr : String
  pub metrics_addr : String
  pub enable_leader_election : Bool
  pub development : Bool
  pub github : Options

-- `bindFlags`: each variable has the flag's default until the flags are parsed.
abbrev pub bind_main_flags : MainOptions → MainOptions
bind_main_flags o = record o {
  probe_addr = ":8081";
  metrics_addr = ":8080";
  enable_leader_election = false;
  development = true;
  github = bind_flags o.github;
}

pub record ManagerOptions : Type 0 where
  pub health_probe_bind_address : String
  pub metrics_bind_address : String
  pub port : ℕ
  pub leader_election : Bool
  pub leader_election_id : String

abbrev pub manager_options : MainOptions → ManagerOptions
manager_options o = record {
  health_probe_bind_address = o.probe_addr;
  metrics_bind_address = o.metrics_addr;
  port = 9443;
  leader_election = o.enable_leader_election;
  leader_election_id = "octorun.github.io";
}

-- A controller or a webhook is named after the type that it is for; a controller owns another type.
pub data ManagerCall (X : Type 0) : Type 0 where
  new_manager : ManagerOptions → ManagerCall X
  complete_controller : String → String → ManagerCall X
  complete_webhook : String → ManagerCall X
  index_field : String → ManagerCall X
  add_runnable : Server X → ManagerCall X
  add_healthz_check add_readyz_check register_collector start_manager : ManagerCall X

pub record MainWorld (X : Type 0) : Type 0 where
  pub answer : ManagerCall X → List (ManagerCall X) → Option Error
  pub client_world : ClientWorld
  pub hook_world : HookWorld
  pub serve_mux : ServeMux X HookCall Event

abbrev pub Main : Type 0 → Type 0
Main X = M (ManagerCall X) (Unit {0}) (Unit {0})

module _ {X : Type 0} (w : MainWorld X) where
  abbrev pub runner_reconciler_setup : Main X
  runner_reconciler_setup = step w.answer (complete_controller "Runner" "Pod")

  abbrev pub runner_set_reconciler_setup : Main X
  runner_set_reconciler_setup = step w.answer (complete_controller "RunnerSet" "Runner")

  abbrev pub runner_webhook_setup : Main X
  runner_webhook_setup = step w.answer (complete_webhook "Runner")

  abbrev pub runner_set_webhook_setup : Main X
  runner_set_webhook_setup = step w.answer (complete_webhook "RunnerSet")

  abbrev pub runner_composite_index_field : String
  runner_composite_index_field = "composite_idx"

  -- WithHandler changes the server that the pointer leads to, or panics.
  abbrev pub added : Option (Server X) → Main X
  added none = crash
  added (some server) = step w.answer (add_runnable server)

  abbrev pub github_hook_setup : Server X → Main X
  github_hook_setup server =
      step w.answer (index_field runner_composite_index_field)
      >> added (with_handler w.serve_mux server (handle w.hook_world))

  abbrev pub github_of : MainOptions → Outcome (Github X)
  github_of opts = (new_github w.client_world opts.github (record { object = tt; calls = [] })).0

  unfoldable pub with_github : Github X → Main X
  with_github gh = do
    runner_reconciler_setup
    runner_set_reconciler_setup
    runner_webhook_setup
    runner_set_webhook_setup
    github_hook_setup gh.webhook_server
    step w.answer add_healthz_check
    step w.answer add_readyz_check
    step w.answer register_collector
    step w.answer start_manager

  -- The body of `main` after the flags are parsed; an error is logged and ends the process.
  unfoldable pub main : MainOptions → Main X
  unfolding with_github
  main opts = do
    step w.answer (new_manager (manager_options opts))
    gh ← from_outcome (github_of opts)
    with_github gh

-- `os.Exit(1)` after an error, and the status of a Go process that panicked.
abbrev pub exit_status : Outcome (Unit {0}) → ℕ
exit_status (ok _) = 0
exit_status (err _) = 1
exit_status octorun.Errors.panic = 2
