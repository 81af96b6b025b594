-- ===== src/Client/Serving.antt =====
-- `Server.Start` of pkg/github/webhook/server.go, as the steps of two threads: the caller's, which
-- listens and serves, and the goroutine, which waits for the context and shuts the server down.
-- net.Listen and http.Server are not in the repository: which of their answers comes is open.
use octorun.Errors.{Error}
use octorun.Base.{◌≡◌, true, false, suc, if◌then◌else◌, Option, none, some, Bool, ℕ}
use octorun.Client.Server.{Server, ServeMux, do_defaults}

-- Where the caller's thread stands; `waiting` is the receive from `idleConnsClosed`.
pub data StartPhase : Type 0 where
  starting serving waiting : StartPhase
  returned : Option Error → StartPhase

-- Where the goroutine stands; `closed` is after `close(idleConnsClosed)`.
pub data WatchPhase : Type 0 where
  absent watching shutting closed : WatchPhase

-- `handler` is that of the http.Server, and `closing` tells whether its `Shutdown` was called.
pub record Starting (X : Type 0) : Type 0 where
  pub server : Server X
  pub handler : Option X
  pub main : StartPhase
  pub watcher : WatchPhase
  pub cancelled : Bool
  pub closing : Bool

abbrev pub start : {X : Type 0} → Server X → Starting X
start s = record {
  server = s;
  handler = none;
  main = starting;
  watcher = absent;
  cancelled = false;
  closing = false;
}

-- What `Start` does with what `Serve` returned.
unfoldable pub on_served : (Error → Bool) → Option Error → StartPhase
on_served is_server_closed none = waiting
on_served is_server_closed (some e) = if is_server_closed e then waiting else returned (some e)

-- Serve returns ErrServerClosed only after Shutdown, and at any time another error.
abbrev pub MayServe : (Error → Bool) → Option Error → Bool → Type 0
MayServe is_server_closed none closing = ⊥
MayServe is_server_closed (some e) closing = is_server_closed e ≡ true → closing ≡ true

module _ {X C E : Type 0} (lib : ServeMux X C E) (is_server_closed : Error → Bool) where
  abbrev pub listening : Starting X → Starting X
  listening s =
      let server = do_defaults lib s.server in
      record s { server = server; handler = server.mux; main = serving; watcher = watching }

  pub data StartStep : Starting X → Starting X → Type 0 where
    -- The context is cancelled by who called `Start`.
    cancel : (s : Starting X) → s.cancelled ≡ false → StartStep s (record s { cancelled = true })
    listen_fails :
        (s : Starting X) (e : Error)
        → s.main ≡ starting
        → StartStep s (record s { server = do_defaults lib s.server; main = returned (some e) })
    listen : (s : Starting X) → s.main ≡ starting → StartStep s (listening s)
    shutdown :
        (s : Starting X)
        → s.watcher ≡ watching
        → s.cancelled ≡ true
        → StartStep s (record s { watcher = shutting; closing = true })
    -- Shutdown returns; its error, if there is one, is only logged.
    close : (s : Starting X) → s.watcher ≡ shutting → StartStep s (record s { watcher = closed })
    serve_returns :
        (s : Starting X) (e : Option Error)
        → s.main ≡ serving
        → MayServe is_server_closed e s.closing
        → StartStep s (record s { main = on_served is_server_closed e })
    receive :
        (s : Starting X)
        → s.main ≡ waiting
        → s.watcher ≡ closed
        → StartStep s (record s { main = returned none })

  -- `StartRun n s t`: `n` steps lead from `s` to `t`.
  pub data StartRun : ℕ → Starting X → Starting X → Type 0 where
    here : {s : Starting X} → StartRun 0 s s
    next : {n : ℕ} {s t u : Starting X} → StartRun n s t → StartStep t u → StartRun (suc n) s u
