-- ===== src/Client/Shutdown.antt =====
-- `Start` of pkg/github/webhook/server.go after its context is cancelled.
use octorun.Errors.{Error}
use octorun.Base.{none, suc, refl, ◌≡◌, Bool, true, ◌≢◌, arith, some, ℕ, Option}
use octorun.Client.Server.{Server, ServeMux, do_defaults}
use octorun.Client.Serving.{
  serving, waiting, shutting, here, next, listening, StartStep, listen, shutdown, close,
  serve_returns, receive, starting, returned, absent, watching, closed, Starting, WatchPhase,
  StartPhase, on_served, start, StartRun,
}
use octorun.Client.Ending.{StartRun-IsOrderly, start-IsOrderly, WatcherFits, IsOrderly}

module _ {X C E : Type 0} (lib : ServeMux X C E) where
  module _ (is_server_closed : Error → Bool) where
    -- A state from which the caller's thread returns without an error.
    abbrev pub EndsWell : Starting X → Type 0
    EndsWell s =
        (m : ℕ) × (t : Starting X) × (StartRun lib is_server_closed m s t
          × (t.main ≡ returned none))

    prepend :
        {m : ℕ} {s t u : Starting X}
        → StartStep lib is_server_closed s t
        → StartRun lib is_server_closed m t u
        → StartRun lib is_server_closed (suc m) s u
    prepend st here = next here st
    prepend st (next r st') = next (prepend st r) st'

    step-EndsWell :
        {s t : Starting X} → StartStep lib is_server_closed s t → EndsWell t → EndsWell s
    step-EndsWell st (m, t, (r, e)) = (suc m, t, (prepend st r, e))

    received-EndsWell : (s : Starting X) → s.main ≡ waiting → s.watcher ≡ closed → EndsWell s
    received-EndsWell s h w =
        step-EndsWell (receive s h w) (0, record s { main = returned none }, (here, refl))

    shutting-EndsWell : (s : Starting X) → s.main ≡ waiting → s.watcher ≡ shutting → EndsWell s
    shutting-EndsWell s h w =
        step-EndsWell (close s w) (received-EndsWell (record s { watcher = closed }) h refl)

    watching-EndsWell :
        (s : Starting X) → s.main ≡ waiting → s.watcher ≡ watching → s.cancelled ≡ true → EndsWell s
    watching-EndsWell s h w c =
        step-EndsWell (shutdown s w c)
          (shutting-EndsWell (record s { watcher = shutting; closing = true }) h refl)

    waiting-EndsWell :
        (s : Starting X)
        → s.main ≡ waiting
        → s.cancelled ≡ true
        → (w : WatchPhase) → s.watcher ≡ w
        → w ≢ absent
        → EndsWell s
    waiting-EndsWell s h c absent w n = absurd (n refl)
    waiting-EndsWell s h c watching w n = watching-EndsWell s h w c
    waiting-EndsWell s h c shutting w n = shutting-EndsWell s h w
    waiting-EndsWell s h c closed w n = received-EndsWell s h w

    module _ (closed_error : Error) (is_closed : is_server_closed closed_error ≡ true) where
      closing-EndsWell :
          (s : Starting X)
          → s.main ≡ serving
          → s.cancelled ≡ true
          → s.closing ≡ true
          → s.watcher ≢ absent
          → EndsWell s
      unfolding on_served
      closing-EndsWell s h c d n = step-EndsWell (serve_returns s (some closed_error) h (λ _. d)) (
          waiting-EndsWell (record s { main = on_served is_server_closed (some closed_error) })
            (rw is_closed refl) c s.watcher refl n)

      serving-EndsWell :
          (s : Starting X)
          → s.main ≡ serving
          → s.cancelled ≡ true
          → (w : WatchPhase) → s.watcher ≡ w
          → w ≢ absent
          → WatcherFits s w
          → EndsWell s
      serving-EndsWell s h c absent w n f = absurd (n refl)
      serving-EndsWell s h c watching w n f = step-EndsWell (shutdown s w c) (
          closing-EndsWell (record s { watcher = shutting; closing = true }) h c refl
            (λ e. ground (arith, e)))
      serving-EndsWell s h c shutting w n f = closing-EndsWell s h c f.1 (λ e. ground (arith, e, w))
      serving-EndsWell s h c closed w n f = closing-EndsWell s h c f.1 (λ e. ground (arith, e, w))

      phase-EndsWell :
          (mux : Option X) (s : Starting X)
          → IsOrderly lib mux s
          → s.cancelled ≡ true
          → (p : StartPhase) → s.main ≡ p
          → ((e : Option Error) → p ≢ returned e)
          → EndsWell s
      phase-EndsWell mux s o c starting h n = step-EndsWell (listen s h) (
          serving-EndsWell (listening lib is_server_closed s) refl c watching refl
            (λ e. ground (arith, e)) (ground (arith, o.phase, o.watcher, h)))
      phase-EndsWell mux s o c serving h n =
          serving-EndsWell s h c s.watcher refl (ground (arith, o.phase, h)) o.watcher
      phase-EndsWell mux s o c waiting h n =
          waiting-EndsWell s h c s.watcher refl (ground (arith, o.phase, h))
      phase-EndsWell mux s o c (returned e) h n = absurd (n e refl)

      -- When ErrServerClosed is a possible answer of Serve: from every state that `Start` reaches
      -- from its beginning, once the context is cancelled and while `Start` has not returned, there
      -- are steps after which it has returned without an error.
      pub start-EndsWell :
          {n : ℕ} (s : Server X) (t : Starting X)
          → StartRun lib is_server_closed n (start s) t
          → t.cancelled ≡ true
          → ((e : Option Error) → t.main ≢ returned e)
          → EndsWell t
      start-EndsWell s t r c n =
          phase-EndsWell (do_defaults lib s).mux t
            (StartRun-IsOrderly lib is_server_closed (do_defaults lib s).mux r
              (start-IsOrderly lib is_server_closed s))
            c t.main refl n
