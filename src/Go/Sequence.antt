-- ===== src/Go/Sequence.antt =====
-- A sequence of calls that stops at the first one that fails.
use octorun.Base.{◌≡◌, refl, List, [], ◌∷◌, Option, none, some, ◌++◌}
use octorun.Go.{M, Session, ◌>>=◌, ◌>>◌, pure, ask, check, Error, Outcome, ok, err}

-- The calls put in front of those made before.
abbrev pub onto : {C : Type 0} → List C → List C → List C
onto [] ds = ds
onto (c ∷ cs) ds = onto cs (c ∷ ds)

module _ {C X : Type 0} (answer : C → List C → Option Error) where
  -- `if err := call; err != nil { return err }`
  abbrev pub step : C → M C X (Unit {0})
  step c = ask c (answer c) >>= check

  unfoldable pub in_order : List C → M C X (Unit {0})
  in_order [] = pure tt
  in_order (c ∷ cs) = let rest = in_order cs in step c >> rest

  -- `Ran cs s r`: from `s` the calls `cs` were made one after the other up to the first that failed,
  -- whose error is the outcome, or all of them with success.
  pub data Ran : List C → Session C X → Outcome (Unit {0}) × Session C X → Type 0 where
    done : (s : Session C X) → Ran [] s (ok tt, s)
    stopped :
        (c : C) (cs : List C) (s : Session C X) (e : Error)
        → answer c (c ∷ s.calls) ≡ some e
        → Ran (c ∷ cs) s (err e, record s { calls = c ∷ s.calls })
    passed :
        (c : C) (cs : List C) (s : Session C X) (r : Outcome (Unit {0}) × Session C X)
        → answer c (c ∷ s.calls) ≡ none
        → Ran cs (record s { calls = c ∷ s.calls }) r
        → Ran (c ∷ cs) s r

  step-Ran :
      (c : C) (cs : List C) (k : M C X (Unit {0})) (s : Session C X) (e : Option Error)
      → answer c (c ∷ s.calls) ≡ e
      → ((t : Session C X) → Ran cs t (k t))
      → Ran (c ∷ cs) s ((check e >> k) (record s { calls = c ∷ s.calls }))
  step-Ran c cs k s none h r = passed c cs s _ h (r (record s { calls = c ∷ s.calls }))
  step-Ran c cs k s (some e) h r = stopped c cs s e h

  pub then-Ran :
      (c : C) (cs : List C) (k : M C X (Unit {0})) (s : Session C X)
      → ((t : Session C X) → Ran cs t (k t))
      → Ran (c ∷ cs) s ((step c >> k) s)
  then-Ran c cs k s r = step-Ran c cs k s (answer c (c ∷ s.calls)) refl r

  pub in_order-Ran : (cs : List C) (s : Session C X) → Ran cs s (in_order cs s)
  unfolding in_order
  in_order-Ran [] s = done s
  in_order-Ran (c ∷ cs) s = then-Ran c cs (in_order cs) s (in_order-Ran cs)

  pub Ran-ok : (cs : List C) (s t : Session C X) → Ran cs s (ok tt, t) → t.calls ≡ onto cs s.calls
  Ran-ok cs s t (done s') = refl
  Ran-ok cs s t (passed c cs' s' r h more) = Ran-ok cs' (record s' { calls = c ∷ s'.calls }) t more

  pub and-then-Ran :
      (cs ds : List C) (s : Session C X) (r : Outcome (Unit {0}) × Session C X)
      (k : M C X (Unit {0}))
      → Ran cs s r
      → ((t : Session C X) → Ran ds t (k t))
      → Ran (cs ++ ds) s (((λ _. r) >> k) s)
  and-then-Ran cs ds s r k (done s') g = g s'
  and-then-Ran cs ds s r k (stopped c cs' s' e h) g = stopped c (cs' ++ ds) s' e h
  and-then-Ran cs ds s r k (passed c cs' s' r' h more) g =
      passed c (cs' ++ ds) s' _ h
        (and-then-Ran cs' ds (record s' { calls = c ∷ s'.calls }) r k more g)

  last-step :
      (c : C) (s : Session C X) (e : Option Error)
      → answer c (c ∷ s.calls) ≡ e
      → Ran (c ∷ []) s (check e (record s { calls = c ∷ s.calls }))
  last-step c s none h = passed c [] s _ h (done (record s { calls = c ∷ s.calls }))
  last-step c s (some e) h = stopped c [] s e h

  pub last-Ran : (c : C) (s : Session C X) → Ran (c ∷ []) s (step c s)
  last-Ran c s = last-step c s (answer c (c ∷ s.calls)) refl
