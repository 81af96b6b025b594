-- ===== src/Go.antt =====
-- The way a Go method is modelled: it works on an object that it holds a pointer to, and on the
-- world behind it (the API server, GitHub, the pods), which answers each call. The world is any
-- function of the calls made so far, so nothing is assumed of what others do in between.
pub mod Keeps
pub mod Sequence
use octorun.Base.{
  [], ◌≡◌, refl, true, false, inl, inr, zero, suc, arith, pos, negsuc, Bool-cases, Option-cases,
  Bool, if◌then◌else◌, Option, none, some, List, ◌∷◌,
}
use octorun.Errors.{Error, Outcome, ok, err, panic, Answer, value, error}

-- `C` is the type of the calls, `X` that of the object; the newest call stands first.
pub record Session (C X : Type 0) : Type 0 where
  pub object : X
  pub calls : List C

abbrev pub M : Type 0 → Type 0 → Type 0 → Type 0
M C X A = Session C X → Outcome A × Session C X

-- `defer func() { if err := cleanup(); err != nil { reterr = err } }()`: the cleanup runs after a
-- panic too, and a panic stays one.
abbrev pub with_error : {A : Type 0} → Outcome A → Outcome (Unit {0}) → Outcome A
with_error panic d = panic
with_error r (ok _) = r
with_error r (err e) = err e
with_error r panic = panic

module _ {C X : Type 0} where
  infixl 5 ◌>>=◌ ◌>>◌
  abbrev pub ◌>>=◌ : {A B : Type 0} → M C X A → (A → M C X B) → M C X B
  ◌>>=◌ m f s =
      let (r, s') = m s in elim r [ ok a ↦ f a s' | err e ↦ (err e, s') | panic ↦ (panic, s') ]

  abbrev pub ◌>>◌ : {A B : Type 0} → M C X A → M C X B → M C X B
  m >> k = m >>= λ _. k

  abbrev pub pure : {A : Type 0} → A → M C X A
  pure a s = (ok a, s)

  abbrev pub fail : {A : Type 0} → Error → M C X A
  fail e s = (err e, s)

  abbrev pub crash : {A : Type 0} → M C X A
  crash s = (panic, s)

  abbrev pub get : M C X X
  get s = (ok s.object, s)

  abbrev pub modify : (X → X) → M C X (Unit {0})
  modify f s = (ok tt, record s { object = f s.object })

  -- A call whose answer the code inspects.
  abbrev pub ask : {A : Type 0} → C → (List C → A) → M C X A
  ask c answer s = (ok (answer (c ∷ s.calls)), record s { calls = c ∷ s.calls })

  -- What the world shows without a recorded call, such as the time.
  abbrev pub observe : {A : Type 0} → (List C → A) → M C X A
  observe f s = (ok (f s.calls), s)

  -- A call whose answer is not used, such as an event.
  abbrev pub tell : C → M C X (Unit {0})
  tell c s = (ok tt, record s { calls = c ∷ s.calls })

  -- `if err != nil { return err }`
  abbrev pub check : Option Error → M C X (Unit {0})
  check e s = (elim e [ none ↦ ok tt | some x ↦ err x ], s)

  abbrev pub check_answer : {A : Type 0} → Answer A → M C X A
  check_answer a s = (elim a [ value x ↦ ok x | error e ↦ err e ], s)

  -- The outcome of a function that makes no calls.
  abbrev pub from_outcome : {A : Type 0} → Outcome A → M C X A
  from_outcome r s = (r, s)

  -- `if test { … } else { … }`
  abbrev pub branch : {A : Type 0} → Bool → M C X A → M C X A → M C X A
  branch test m k s = if test then m s else k s

  -- `if err := call; err != nil { … }`: an error is handed on as a value.
  abbrev pub attempt : {A : Type 0} → M C X A → M C X (Answer A)
  attempt m s =
      let (r, s') = m s in
      elim r [ ok a ↦ (ok (value a), s') | err e ↦ (ok (error e), s') | panic ↦ (panic, s') ]

  -- Runs a method of another object, and gives that object back with the result.
  abbrev pub within : {Y A : Type 0} → Y → M C Y A → M C X (A × Y)
  within y m s =
      let (r, t) = m (record { object = y; calls = s.calls }) in
      let s' : Session C X = record s { calls = t.calls } in
      elim r [ ok a ↦ (ok (a, t.object), s') | err e ↦ (err e, s') | panic ↦ (panic, s') ]

  -- `defer` of a cleanup whose error replaces the one that the body returned.
  abbrev pub deferred : {A : Type 0} → M C X (Unit {0}) → M C X A → M C X A
  deferred cleanup body s =
      let (r, s') = body s in let (d, s'') = cleanup s' in (with_error r d, s'')
