-- ===== src/Client/Events.antt =====
-- The HTTP handler together with the hook that it hands the events to.
use octorun.Client.Server.{Hub, on_payload, serve_http, on_event, webhook_for}
use octorun.Go.{Session, within, ◌>>◌, modify}
use octorun.Errors.{ok, err, Outcome, value, error, Answer}
use octorun.Hooks.World.{
  Event, workflow_job_event, other_event, WorkflowJobEvent, HookCall, HookWorld,
}
use octorun.Hooks.Handle.{handle, process_workflow_job_event, in_repo}
use octorun.Hooks.Triggers.{Follows, patches, IsTrigger, process_workflow_job_event-Follows}
use octorun.Base.{
  ◌≡◌, refl, suc, Bool-cases, Option-cases, ◌∷◌, none, true, inl, inr, ℕ, List, String, ◌⊎◌, str_eq,
}

-- The one kind of event that makes the hook panic.
abbrev pub IsOrphan : Event → Type 0
IsOrphan (workflow_job_event event) =
    (str_eq event.action "in_progress" ≡ true) × (event.repo ≡ none)
IsOrphan other_event = ⊥

-- As `Follows`, with the panic.
abbrev pub Handled :
    HookWorld → ℕ → Event → Outcome (Unit {0}) × Session HookCall (Unit {0}) → Type 0
Handled w n event (ok _, t) =
    (patches t.calls ≡ n) ⊎ ((patches t.calls ≡ suc n) × IsTrigger w t.calls)
Handled w n event (err e, t) = ⊥
Handled w n event (octorun.Errors.panic, t) = (patches t.calls ≡ n) × IsOrphan event

Follows→Handled :
    (w : HookWorld) (n : ℕ) (event : Event) (r : Outcome (Unit {0}) × Session HookCall (Unit {0}))
    → Follows w n r
    → Handled w n event r
Follows→Handled w n event (ok _, t) f = f
Follows→Handled w n event (err _, t) f = elim f [ ]
Follows→Handled w n event (octorun.Errors.panic, t) f = elim f [ ]

orphan-Handled :
    (w : HookWorld) (event : WorkflowJobEvent) (c : List HookCall)
    → event.repo ≡ none
    → Handled w
        (patches c)
        (workflow_job_event event)
        (process_workflow_job_event w event (record { object = tt; calls = c }))
unfolding process_workflow_job_event in_repo
orphan-Handled w event c e = elim (Bool-cases (str_eq event.action "in_progress")) [
  | inl started ↦ rw (started, e) (refl, (started, refl))
  | inr other ↦ rw other (inl refl)
]

handle-Handled :
    (w : HookWorld) (event : Event) (c : List HookCall)
    → Handled w (patches c) event (handle w event (record { object = tt; calls = c }))
unfolding handle
handle-Handled w other_event c = inl refl
handle-Handled w (workflow_job_event event) c = elim (Option-cases (event.repo)) [
  | inl e ↦ orphan-Handled w event c e
  | inr (repo, e) ↦
      Follows→Handled w (patches c) (workflow_job_event event)
        (process_workflow_job_event w event (record { object = tt; calls = c }))
        (process_workflow_job_event-Follows w event repo c e)
]

-- What the answer to a request is, and what the request did.
abbrev pub Served :
    {R P : Type 0}
    → Hub R P Event
    → String
    → HookWorld
    → R
    → Session HookCall (List ℕ)
    → Outcome (Unit {0}) × Session HookCall (List ℕ)
    → Type 0
Served {P = P} hub secret w r s (ok _, t) =
    ((t.object ≡ 400 ∷ s.object) × (t.calls ≡ s.calls))
    ⊎ ((t.object ≡ 200 ∷ s.object)
        × ((payload : P) × (hub.validate_payload r secret ≡ value payload))
        × ((patches t.calls ≡ patches s.calls)
            ⊎ ((patches t.calls ≡ suc (patches s.calls)) × IsTrigger w t.calls)))
Served hub secret w r s (err e, t) = ⊥
Served {P = P} hub secret w r s (octorun.Errors.panic, t) =
    (t.object ≡ s.object)
    × ((payload : P) × (event : Event) × (hub.validate_payload r secret ≡ value payload)
        × (hub.parse_web_hook (hub.web_hook_type r) payload ≡ value event)
        × IsOrphan event)
    × (patches t.calls ≡ patches s.calls)

after_handle-Served :
    {R P : Type 0} (hub : Hub R P Event) (secret : String) (w : HookWorld) (r : R)
    (s : Session HookCall (List ℕ)) (payload : P) (event : Event)
    (run : Outcome (Unit {0}) × Session HookCall (Unit {0}))
    → hub.validate_payload r secret ≡ value payload
    → hub.parse_web_hook (hub.web_hook_type r) payload ≡ value event
    → Handled w (patches s.calls) event run
    → Served hub secret w r s (((within tt (λ _. run)) >> modify (λ written. 200 ∷ written)) s)
after_handle-Served hub secret w r s payload event (ok _, t) p q h = inr (refl, (payload, p), h)
after_handle-Served hub secret w r s payload event (err e, t) p q h = elim h [ ]
after_handle-Served hub secret w r s payload event (octorun.Errors.panic, t) p q (n, h) =
    (refl, (payload, event, p, q, h), n)

on_event-Served :
    {R P : Type 0} (hub : Hub R P Event) (secret : String) (w : HookWorld) (r : R)
    (s : Session HookCall (List ℕ)) (payload : P) (a : Answer Event)
    → hub.validate_payload r secret ≡ value payload
    → hub.parse_web_hook (hub.web_hook_type r) payload ≡ a
    → Served hub secret w r s (on_event (webhook_for (handle w) (value secret)) a s)
unfolding on_event
on_event-Served hub secret w r s payload (error e) p q = inl (refl, refl)
on_event-Served hub secret w r s payload (value event) p q =
    after_handle-Served hub secret w r s payload event
      (handle w event (record { object = tt; calls = s.calls })) p q
      (handle-Handled w event s.calls)

on_payload-Served :
    {R P : Type 0} (hub : Hub R P Event) (secret : String) (w : HookWorld) (r : R)
    (s : Session HookCall (List ℕ)) (a : Answer P)
    → hub.validate_payload r secret ≡ a
    → Served hub secret w r s (on_payload hub (webhook_for (handle w) (value secret)) r a s)
unfolding on_payload
on_payload-Served hub secret w r s (error e) p = inl (refl, refl)
on_payload-Served hub secret w r s (value payload) p =
    on_event-Served hub secret w r s payload (hub.parse_web_hook (hub.web_hook_type r) payload) p
      refl

-- A request to the webhook server that the hook is registered with: it is never answered twice.
-- An answer 400 is given before the hook makes any call. An answer 200 is given only if the payload
-- was validated with the server's secret, and then at most one runner was patched, as the hook's last
-- call and as a trigger. Otherwise the hook panics, which leaves no answer and no patch, and happens
-- only for a validated job event in progress that names no repository.
pub serve_http-Served :
    {R P : Type 0} (hub : Hub R P Event) (secret : String) (w : HookWorld) (r : R)
    (s : Session HookCall (List ℕ))
    → Served hub secret w r s (serve_http hub (webhook_for (handle w) (value secret)) r s)
unfolding serve_http
serve_http-Served hub secret w r s =
    on_payload-Served hub secret w r s (hub.validate_payload r secret) refl
