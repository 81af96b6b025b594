-- ===== src/Examples/Setups.antt =====
-- A manager that takes all that it is given, and a scheme that takes every conversion.
use octorun.Conversion.Zero.{v1alpha1_runner_zero, v1alpha1_runner_set_zero}
use octorun.Conversion.Lost.{split_runner, split_set, convert_from-IsEquiv}
use std.Equiv.{IsEquiv}
use octorun.Setup.Order.{setup_calls, main-no_client, IsReady, main-Ran}
use octorun.Conversion.Complete.{ups, downs, register_conversions_complete}
use octorun.Errors.{Error, message}
use octorun.Examples.Servers.{counting_mux}
use octorun.Go.Sequence.{in_order, onto, Ran}
use octorun.Client.Credentials.{new, on_base, token_source_of, apply_options}
use octorun.Examples.Clients.{personal_client}
use octorun.Client.Server.{Server, with_handler, register}
use octorun.Conversion.Types.{V1alpha1RunnerStatus}
use octorun.Go.{Session}
use octorun.Client.Github.{new_github, Github}
use octorun.Base.{
  [], ◌∷◌, ◌≡◌, suc, none, some, refl, ℕ, pos, false, true, String, List, Option, after_prefix,
}
use octorun.Setup.{MainWorld, MainOptions, ManagerCall, main, manager_options, exit_status}
use octorun.Conversion.Registration.{
  runner_status_kind, register_conversions, Registration, registrations,
  convert_v1alpha2_to_v1alpha1, convert_v1alpha1_to_v1alpha2,
}
use octorun.Resources.{idle, active, pending, RunnerStatus}
use octorun.Setup.{new_manager}
use octorun.Examples.Clients.{client_world}
use octorun.Examples.Hooks.{hook_world}

abbrev main_world : MainWorld ℕ
main_world = record {
  answer = λ c cs. none;
  client_world = client_world;
  hook_world = hook_world;
  serve_mux = counting_mux;
}

abbrev flags : String → MainOptions
flags access_token = record {
  probe_addr = ":8081";
  metrics_addr = ":8080";
  enable_leader_election = true;
  development = true;
  github = record {
    access_token = access_token;
    api_endpoint = "https://github.com/";
    app_id = pos 0;
    app_private_key = "";
    app_installation_id = "";
    webhook_address = ":9090";
    webhook_path = "/hook";
    webhook_secret = "s3cret";
  };
}

abbrev fresh_server : Server ℕ
fresh_server = record {
  addr = ":9090";
  path = "/hook";
  secret = "s3cret";
  mux = none;
  defaulting_once = false;
}

abbrev hooked_server : Server ℕ
hooked_server = record fresh_server { mux = some 1; defaulting_once = true }

abbrev github_client : Github ℕ
github_client = record { client = personal_client; webhook_server = fresh_server }

abbrev begun : Session (ManagerCall ℕ) (Unit {0})
begun = record { object = tt; calls = [] }

main-Ran_example :
    Ran main_world.answer
      (new_manager (manager_options (flags "ghp_1")) ∷ setup_calls hooked_server)
      begun
      (main main_world (flags "ghp_1") begun)
    × IsReady (flags "ghp_1").github hooked_server
unfolding new_github new on_base token_source_of apply_options after_prefix with_handler register
main-Ran_example = main-Ran main_world (flags "ghp_1") github_client hooked_server begun refl refl

main-no_client_example :
    ((main main_world (flags "") begun).1.calls
      ≡ new_manager (manager_options (flags "")) ∷ begun.calls)
    × (exit_status (main main_world (flags "") begun).0 ≡ 1)
unfolding new_github new on_base token_source_of apply_options after_prefix
main-no_client_example =
    main-no_client main_world (flags "") (message "unable to authenticate Github Client.") begun
      refl

abbrev scheme : Registration → List Registration → Option Error
scheme r rs = none

abbrev registering : Session Registration (Unit {0})
registering = record { object = tt; calls = [] }

abbrev old_status : V1alpha1RunnerStatus
old_status = record { phase = idle; conditions = [] }

abbrev other_status : V1alpha1RunnerStatus
other_status = record { phase = active; conditions = [] }

abbrev new_status : RunnerStatus
new_status = record { phase = pending; conditions = [] }

register_conversions_complete_example :
    let t : Session Registration (Unit {0}) = record {
      object = tt;
      calls = onto registrations [];
    } in
    (ups runner_status_kind t.calls ≡ suc (ups runner_status_kind []))
    × (downs runner_status_kind t.calls ≡ suc (downs runner_status_kind []))
    × (convert_v1alpha2_to_v1alpha1 runner_status_kind
          (convert_v1alpha1_to_v1alpha2 runner_status_kind old_status new_status)
          other_status
        ≡ old_status)
unfolding register_conversions in_order
register_conversions_complete_example =
    register_conversions_complete scheme registering
      (record { object = tt; calls = onto registrations [] }) refl runner_status_kind old_status
      other_status new_status

convert_from-IsEquiv_example :
    IsEquiv (split_runner v1alpha1_runner_zero) × IsEquiv (split_set v1alpha1_runner_set_zero)
convert_from-IsEquiv_example = convert_from-IsEquiv v1alpha1_runner_zero v1alpha1_runner_set_zero
