-- ===== src/Examples/Servers.antt =====
-- A webhook server that listens and is shut down.
use octorun.Base.{◌≡◌, suc, arith, none, some, true, false, refl, Bool, str_eq, ℕ, ◌≤◌, is_some}
use octorun.Errors.{Error, message}
use octorun.Hooks.World.{HookCall, Event}
use octorun.Client.Server.{Server, ServeMux, do_defaults}
use octorun.Client.Serving.{
  Starting, StartRun, start, here, next, cancel, listen, shutdown, close, serve_returns, receive,
  on_served, listening, closed, shutting, returned, waiting,
}
use octorun.Client.Ending.{start-returned, start-bounded, IsShutDown}
use octorun.Client.Shutdown.{start-EndsWell, EndsWell}

abbrev pub counting_mux : ServeMux ℕ HookCall Event
counting_mux = record { new_serve_mux = 0; handle_pattern = λ x path wh. some (suc x) }

abbrev is_closed : Error → Bool
is_closed (message text) = str_eq text "http: Server closed"
is_closed _ = false

abbrev webhook_server : Server ℕ
webhook_server = record {
  addr = ":9090";
  path = "/";
  secret = "s3cret";
  mux = some 1;
  defaulting_once = true;
}

abbrev was_listening : Starting ℕ
was_listening = listening counting_mux is_closed (start webhook_server)

abbrev was_cancelled : Starting ℕ
was_cancelled = record was_listening { cancelled = true }

abbrev cancelled_run : StartRun counting_mux is_closed 2 (start webhook_server) was_cancelled
cancelled_run = next (next here (listen (start webhook_server) refl)) (cancel was_listening refl)

abbrev was_shutting : Starting ℕ
was_shutting = record was_cancelled { watcher = shutting; closing = true }

abbrev was_served : Starting ℕ
was_served = record was_shutting { main = waiting }

abbrev was_closed : Starting ℕ
was_closed = record was_served { watcher = closed }

abbrev was_returned : Starting ℕ
was_returned = record was_closed { main = returned none }

whole_run : StartRun counting_mux is_closed 6 (start webhook_server) was_returned
unfolding on_served
whole_run =
    next
      (next
        (next (next cancelled_run (shutdown was_cancelled refl refl))
          (serve_returns was_shutting (some (message "http: Server closed")) refl (λ _. refl)))
        (close was_served refl))
      (receive was_closed refl refl)

start-returned_example :
    IsShutDown was_returned
    × ((is_some was_returned.handler ≡ true)
        × (was_returned.handler ≡ (do_defaults counting_mux webhook_server).mux))
start-returned_example =
    start-returned counting_mux is_closed webhook_server was_returned (λ _. refl) whole_run refl

start-bounded_example : 6 ≤ 6
start-bounded_example = start-bounded counting_mux is_closed webhook_server was_returned whole_run

start-EndsWell_example : EndsWell counting_mux is_closed was_cancelled
start-EndsWell_example =
    start-EndsWell counting_mux is_closed (message "http: Server closed") refl webhook_server
      was_cancelled cancelled_run refl (λ e p. ground (arith, p))
