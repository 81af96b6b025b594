-- ===== src/Client/Chosen.antt =====
-- Which of its credentials the client that `New` makes works with.
use octorun.Client.Types.{
  ClientCall, ClientWorld, Opts, TokenSource, InstallationTokenSource, Client, Url, read_file,
  OauthToken, reuse_token_source, static_token_source, installation_token_source,
}
use octorun.Client.Credentials.{
  token, new, on_key, new_personal_token_source, on_file, on_base, new_installation_token_source,
  ClientOption, token_source_of, has_personal_token, apply_options, has_app, no_opts,
}
use octorun.Go.{Session, branch, fail, M, ◌>>=◌, pure}
use octorun.Errors.{ok, err, panic, message, Outcome, Answer, value, error}
use octorun.Base.{
  ◌≡◌, refl, sym, subst, arith, ℕ, ℤ, List, ◌∷◌, Bool, true, false, String, ◌⊎◌, inl, inr, some,
  none,
}

abbrev Run : Type 0 → Type 0
Run A = Outcome A × Session ClientCall (Unit {0})

-- What `m >>= λ a. pure (f a)` makes of the run of `m`.
abbrev after_pure : {A B : Type 0} → (A → B) → Run A → Run B
after_pure f r = elim (r.0) [
  | ok a ↦ (ok (f a), r.1)
  | err e ↦ (err e, r.1)
  | octorun.Errors.panic ↦ (octorun.Errors.panic, r.1)
]

after_pure-ok :
    {A B : Type 0} (f : A → B) (r : Run A) (s' : Session ClientCall (Unit {0})) (b : B)
    → after_pure f r ≡ (ok b, s')
    → (a : A) × (r ≡ (ok a, s')) × (f a ≡ b)
after_pure-ok f (ok a, t) s' b h = (a, cc, cc)
after_pure-ok f (err e, t) s' b h = ground arith
after_pure-ok f (octorun.Errors.panic, t) s' b h = ground arith

bind_pure-ok :
    {A B : Type 0} (m : M ClientCall (Unit {0}) A) (f : A → B)
    (s s' : Session ClientCall (Unit {0})) (b : B)
    → (m >>= λ a. pure (f a)) s ≡ (ok b, s')
    → (a : A) × (m s ≡ (ok a, s')) × (f a ≡ b)
bind_pure-ok m f s s' b h = after_pure-ok f (m s) s' b h

-- The token source of an app, and the token that it was tried with.
abbrev pub Tried :
    ClientWorld
    → List ℕ
    → ℤ
    → String
    → String
    → Session ClientCall (Unit {0})
    → Session ClientCall (Unit {0})
    → TokenSource
    → Type 0
Tried w base id inst key s s' source =
    let ts : InstallationTokenSource = record {
      app_id = id;
      app_private_key = key;
      installation_id = inst;
      base_url = base;
    } in
    (tok : OauthToken) × (source ≡ reuse_token_source (some tok) (installation_token_source ts))
    × (token w ts s ≡ (ok tok, s'))

abbrev pub IsAppSource :
    ClientWorld
    → Opts
    → Url
    → Session ClientCall (Unit {0})
    → Session ClientCall (Unit {0})
    → TokenSource
    → Type 0
IsAppSource w o base s s' source =
    let read = read_file (w.clean o.app_key) ∷ s.calls in
    (file : String) × (key : String) × (w.file read ≡ value file)
    × (w.parse_key file ≡ value key)
    × Tried w base.text o.app_id o.installation_id key (record s { calls = read }) s' source

abbrev pub IsAuthenticated :
    ClientWorld
    → Opts
    → Session ClientCall (Unit {0})
    → Session ClientCall (Unit {0})
    → Client
    → Type 0
IsAuthenticated w o s s' c =
    ((has_personal_token o ≡ true)
      × (c.token_source ≡ reuse_token_source none (static_token_source o.personal_token))
      × (s' ≡ s))
    ⊎ ((has_personal_token o ≡ false)
        × (has_app o ≡ true)
        × IsAppSource w o c.base_url s s' c.token_source)

on_key-ok :
    (w : ClientWorld) (base : List ℕ) (id : ℤ) (inst : String) (a : Answer String)
    (s s' : Session ClientCall (Unit {0})) (source : TokenSource)
    → on_key w base id inst a s ≡ (ok source, s')
    → (key : String) × (a ≡ value key) × Tried w base id inst key s s' source
unfolding on_key
on_key-ok w base id inst (error e) s s' source h = ground arith
on_key-ok w base id inst (value key) s s' source h =
    let ts : InstallationTokenSource = record {
      app_id = id;
      app_private_key = key;
      installation_id = inst;
      base_url = base;
    } in
    let (tok, run, eq) =
      bind_pure-ok (token w ts)
        (λ tok. reuse_token_source (some tok) (installation_token_source ts)) s s' source h in
    (key, refl, (tok, sym eq, run))

on_file-ok :
    (w : ClientWorld) (base : List ℕ) (id : ℤ) (inst : String) (a : Answer String)
    (s s' : Session ClientCall (Unit {0})) (source : TokenSource)
    → on_file w base id inst a s ≡ (ok source, s')
    → (file : String) × (key : String) × (a ≡ value file)
      × (w.parse_key file ≡ value key)
      × Tried w base id inst key s s' source
unfolding on_file
on_file-ok w base id inst (error e) s s' source h = ground arith
on_file-ok w base id inst (value file) s s' source h =
    let (key, p, t) = on_key-ok w base id inst (w.parse_key file) s s' source h in
    (file, key, refl, p, t)

sources-ok :
    (w : ClientWorld) (o : Opts) (base : Url) (p a : Bool) (s s' : Session ClientCall (Unit {0}))
    (source : TokenSource)
    → branch p
        (pure (new_personal_token_source o.personal_token))
        (branch a
          (new_installation_token_source w base.text o.app_id o.app_key o.installation_id)
          (fail (message "unable to authenticate Github Client.")))
        s
      ≡ (ok source, s')
    → ((p ≡ true)
        × (source ≡ reuse_token_source none (static_token_source o.personal_token))
        × (s' ≡ s))
      ⊎ ((p ≡ false) × (a ≡ true) × IsAppSource w o base s s' source)
unfolding new_personal_token_source new_installation_token_source
sources-ok w o base true a s s' source h = inl (refl, ground arith, ground arith)
sources-ok w o base false false s s' source h = ground arith
sources-ok w o base false true s s' source h = inr (
  refl,
  refl,
  on_file-ok w base.text o.app_id o.installation_id
      (w.file (read_file (w.clean o.app_key) ∷ s.calls))
      (record s { calls = read_file (w.clean o.app_key) ∷ s.calls }) s' source h,
)

on_base-ok :
    (w : ClientWorld) (o : Opts) (a : Answer Url) (s s' : Session ClientCall (Unit {0}))
    (c : Client)
    → on_base w o a s ≡ (ok c, s')
    → (a ≡ value c.base_url) × IsAuthenticated w o s s' c
unfolding on_base token_source_of
on_base-ok w o (error e) s s' c h = ground arith
on_base-ok w o (value base) s s' c h =
    let (ts, run, eq) =
      bind_pure-ok (token_source_of w o base) (λ ts. record { base_url = base; token_source = ts })
        s s' c h in
    subst (λ c. (value base ≡ value c.base_url) × IsAuthenticated w o s s' c) eq
      (refl, sources-ok w o base (has_personal_token o) (has_app o) s s' ts run)

-- If `New` makes a client, the endpoint that the options end up with parsed to its base URL, and the
-- client authenticates with the personal token alone, for which no call was made, where there is one;
-- where there is none, the options have an app id, a key file and an installation id, the file was read
-- and parsed as a key, and the token of that installation was got, which is the first one in use.
pub new-IsAuthenticated :
    (w : ClientWorld) (opts : List ClientOption) (s s' : Session ClientCall (Unit {0})) (c : Client)
    → new w opts s ≡ (ok c, s')
    → (w.parse_url (apply_options opts no_opts).endpoint ≡ value c.base_url)
      × IsAuthenticated w (apply_options opts no_opts) s s' c
unfolding new
new-IsAuthenticated w opts s s' c h =
    on_base-ok w (apply_options opts no_opts) (w.parse_url (apply_options opts no_opts).endpoint) s
      s' c h
