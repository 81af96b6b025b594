-- ===== src/Go/Keeps.antt =====
-- Runs of methods put one after the other: what they leave of the object, and how a run that
-- succeeds is made of its parts.
use octorun.Base.{◌≡◌, refl, arith, ◌∙◌}
use octorun.Errors.{Outcome, ok, err, panic, Answer}
use octorun.Go.{Session, M, ◌>>=◌, within, attempt}

module _ {C X : Type 0} where
  -- The object is as it was.
  abbrev pub Keeps : {A : Type 0} → X → Outcome A × Session C X → Type 0
  Keeps o r = r.1.object ≡ o

  pub bind-Keeps :
      {A B : Type 0} (x : Outcome A × Session C X) (k : A → M C X B) (o : X) (s : Session C X)
      → Keeps o x
      → ((a : A) (t : Session C X) → Keeps t.object (k a t))
      → Keeps o (((λ _. x) >>= k) s)
  bind-Keeps (ok a, t) k o s h f = f a t ∙ h
  bind-Keeps (err e, t) k o s h f = h
  bind-Keeps (panic, t) k o s h f = h

  -- Work on another object, whose error is handled here, leaves this one as it was.
  pub attempt-Keeps :
      {Y A B : Type 0} (y : Y) (x : Outcome A × Session C Y) (k : Answer (A × Y) → M C X B)
      (s : Session C X)
      → ((a : Answer (A × Y)) (t : Session C X) → Keeps t.object (k a t))
      → Keeps s.object ((attempt (within y (λ _. x)) >>= k) s)
  attempt-Keeps y (ok a, t) k s f = f _ _
  attempt-Keeps y (err e, t) k s f = f _ _
  attempt-Keeps y (panic, t) k s f = refl

  pub within-Keeps :
      {Y A : Type 0} (y : Y) (x : Outcome A × Session C Y) (s : Session C X)
      → Keeps s.object (within y (λ _. x) s)
  within-Keeps y (ok a, t) s = refl
  within-Keeps y (err e, t) s = refl
  within-Keeps y (panic, t) s = refl

  pub bind-ok :
      {A B : Type 0} (x : Outcome A × Session C X) (k : A → M C X B) (s s' : Session C X) (b : B)
      → ((λ _. x) >>= k) s ≡ (ok b, s')
      → (a : A) × (t : Session C X) × (x ≡ (ok a, t)) × (k a t ≡ (ok b, s'))
  bind-ok (ok a, t) k s s' b h = (a, t, refl, h)
  bind-ok (err e, t) k s s' b h = ground arith
  bind-ok (panic, t) k s s' b h = ground arith
