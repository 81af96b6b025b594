-- ===== src/Client/Ending.antt =====
-- How `Start` of pkg/github/webhook/server.go ends.
use octorun.Errors.{Error}
use octorun.Base.{
  none, suc, if◌then◌else◌, refl, is_some, ◌≡◌, Bool, true, ◌≢◌, arith, some, false, ℕ, ◌≤◌, ◌+◌,
  Option,
}
use octorun.Client.Server.{Server, ServeMux, do_defaults}
use octorun.Client.Serving.{
  serving, waiting, shutting, here, next, StartStep, cancel, listen_fails, listen, shutdown, close,
  serve_returns, receive, starting, returned, absent, watching, closed, Starting, WatchPhase,
  StartPhase, on_served, start, StartRun,
}

-- What the caller has when `Start` returns without an error.
abbrev pub IsShutDown : {X : Type 0} → Starting X → Type 0
IsShutDown s = (s.cancelled ≡ true) × ((s.closing ≡ true) × (s.watcher ≡ closed))

abbrev pub WatcherFits : {X : Type 0} → Starting X → WatchPhase → Type 0
WatcherFits s absent = s.closing ≡ false
WatcherFits s watching = s.closing ≡ false
WatcherFits s _ = (s.cancelled ≡ true) × (s.closing ≡ true)

-- The goroutine runs from the moment the server listens, on this mux.
abbrev IsListening : {X : Type 0} → Option X → Starting X → Type 0
IsListening mux s = (s.handler ≡ mux) × (s.watcher ≢ absent)

module _ {X C E : Type 0} (lib : ServeMux X C E) (mux : Option X) where
  abbrev pub PhaseFits : Starting X → StartPhase → Type 0
  PhaseFits s starting = (s.watcher ≡ absent) × ((do_defaults lib s.server).mux ≡ mux)
  PhaseFits s (returned none) = IsShutDown s × IsListening mux s
  PhaseFits s (returned (some e)) = Unit
  PhaseFits s _ = IsListening mux s

  pub record IsOrderly (s : Starting X) : Type 0 where
    pub phase : PhaseFits s s.main
    pub watcher : WatcherFits s s.watcher

-- A server whose defaults were set has a mux.
abbrev pub HasMux : {X : Type 0} → Server X → Type 0
HasMux s = s.defaulting_once ≡ true → is_some s.mux ≡ true

-- How many more steps there can be, at most.
left_main : StartPhase → ℕ
left_main starting = 5
left_main serving = 2
left_main waiting = 1
left_main (returned e) = 0

left_watcher : WatchPhase → ℕ
left_watcher watching = 2
left_watcher shutting = 1
left_watcher _ = 0

left : {X : Type 0} → Starting X → ℕ
left s = left_main s.main + (left_watcher s.watcher + (if s.cancelled then 0 else 1))

module _ {X C E : Type 0} (lib : ServeMux X C E) where
  do_defaults-HasMux : (s : Server X) → HasMux s → is_some (do_defaults lib s).mux ≡ true
  do_defaults-HasMux s h = ground arith

  module _ (is_server_closed : Error → Bool) where
    module _ (mux : Option X) where
      StartStep-IsOrderly :
          {s t : Starting X}
          → StartStep lib is_server_closed s t
          → IsOrderly lib mux s
          → IsOrderly lib mux t
      unfolding on_served
      StartStep-IsOrderly (cancel s h) o = record {
        phase = ground (arith, o.phase);
        watcher = ground (arith, o.watcher);
      }
      StartStep-IsOrderly (listen_fails s e h) o = record { phase = tt; watcher = o.watcher }
      StartStep-IsOrderly (listen s h) o = record {
        phase = (ground (arith, o.phase, h), λ p. ground (arith, p));
        watcher = ground (arith, o.watcher, o.phase, h);
      }
      StartStep-IsOrderly (shutdown s h c) o = record {
        phase = ground (arith, o.phase, h);
        watcher = (c, refl);
      }
      StartStep-IsOrderly (close s h) o = record {
        phase = ground (arith, o.phase, h);
        watcher = ground (arith, o.watcher, h);
      }
      StartStep-IsOrderly (serve_returns s e h m) o = record {
        phase = ground (arith, o.phase, h);
        watcher = o.watcher;
      }
      StartStep-IsOrderly (receive s h w) o = record {
        phase = ground (arith, o.phase, o.watcher, h, w);
        watcher = o.watcher;
      }

      pub StartRun-IsOrderly :
          {n : ℕ} {s t : Starting X}
          → StartRun lib is_server_closed n s t
          → IsOrderly lib mux s
          → IsOrderly lib mux t
      StartRun-IsOrderly here o = o
      StartRun-IsOrderly (next r st) o = StartStep-IsOrderly st (StartRun-IsOrderly r o)

    pub start-IsOrderly : (s : Server X) → IsOrderly lib (do_defaults lib s).mux (start s)
    start-IsOrderly s = record { phase = (refl, refl); watcher = refl }

    -- When the server's defaults, if set already, include a mux, then after any steps of `Start`
    -- from its beginning: if it has returned without an error, then the context was cancelled,
    -- Shutdown was called and has returned, and the http.Server had as its handler the mux that
    -- the server has once its defaults are set, which is not nil.
    pub start-returned :
        {n : ℕ} (s : Server X) (t : Starting X)
        → HasMux s
        → StartRun lib is_server_closed n (start s) t
        → t.main ≡ returned none
        → IsShutDown t × ((is_some t.handler ≡ true) × (t.handler ≡ (do_defaults lib s).mux))
    start-returned s t h r e =
        let mux = (do_defaults lib s).mux in
        ground
          (arith, (StartRun-IsOrderly mux r (start-IsOrderly s)).phase, do_defaults-HasMux s h, e)

    StartStep-left : {s t : Starting X} → StartStep lib is_server_closed s t → suc (left t) ≤ left s
    unfolding on_served left left_main left_watcher
    StartStep-left (cancel s h) = ground arith
    StartStep-left (listen_fails s e h) = ground arith
    StartStep-left (listen s h) = ground arith
    StartStep-left (shutdown s h c) = ground arith
    StartStep-left (close s h) = ground arith
    StartStep-left (serve_returns s e h m) = ground arith
    StartStep-left (receive s h w) = ground arith

    StartRun-left :
        {n : ℕ} {s t : Starting X} → StartRun lib is_server_closed n s t → n + left t ≤ left s
    StartRun-left here = omega arith
    StartRun-left (next r st) = omega (arith, StartRun-left r, StartStep-left st)

    -- `Start` takes at most six steps, the cancellation of its context and those of its goroutine
    -- included, whatever net.Listen and Serve answer.
    pub start-bounded :
        {n : ℕ} (s : Server X) (t : Starting X)
        → StartRun lib is_server_closed n (start s) t
        → n ≤ 6
    unfolding left left_main left_watcher
    start-bounded s t r = omega (arith, StartRun-left r)
