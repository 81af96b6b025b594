-- ===== src/Revision/CreateRound.antt =====
-- The three ways in which a round of the loop of `MakeHistory` goes.
use octorun.Errors.{
  api_status, error, ok, already_exists, value, Answer, Error, api_is_already_exists,
}
use octorun.Resources.{ControllerRevision, RunnerSet, key_of}
use octorun.Base.{
  ◌∷◌, ◌≡◌, refl, true, false, arith, List, ◌≢◌, str_eq, ◌⊎◌, inl, inr, eq_iff, Bool-cases,
}
use octorun.Go.{Session}
use octorun.Revision.World.{SetCall, SetWorld, create_revision, get_revision}
use octorun.Revision.History.{create_round, collided, settled, failed}

-- The API server keeps answering that a revision of this name exists, and that it holds `exists`.
abbrev pub Occupied : SetWorld → ControllerRevision → ControllerRevision → Type 0
Occupied w next exists =
    (c : List SetCall)
    → (w.created_revision (create_revision next ∷ c) ≡ error (api_status already_exists))
      × (w.got_revision (get_revision (key_of next.meta) ∷ create_revision next ∷ c) ≡ value exists)

pub Occupied-round :
    (w : SetWorld) (next exists : ControllerRevision) (s : Session SetCall RunnerSet)
    → Occupied w next exists
    → str_eq exists.raw next.raw ≡ false
    → create_round w next s ≡ (
      ok collided,
      record s { calls = get_revision (key_of next.meta) ∷ create_revision next ∷ s.calls },
    )
unfolding create_round
Occupied-round w next exists s o d = ground (arith, o s.calls)

-- After these calls the server refuses the creation since the name is taken, and the revision of that
-- name, which it then gives, has other data.
abbrev pub IsTaken : SetWorld → ControllerRevision → List SetCall → Type 0
IsTaken w next calls =
    (e : Error) × (exists : ControllerRevision) × (w.created_revision (create_revision next ∷ calls)
      ≡ error e)
    × (api_is_already_exists e ≡ true)
    × (w.got_revision (get_revision (key_of next.meta) ∷ create_revision next ∷ calls)
        ≡ value exists)
    × (exists.raw ≢ next.raw)

-- After these calls a round ends the loop with this revision: the server stored it, or refused the
-- creation since the name is taken and gave this one, which has the data of the new one.
abbrev pub Settles :
    SetWorld → ControllerRevision → ControllerRevision → List SetCall → List SetCall → Type 0
Settles w next rev calls calls' =
    ((w.created_revision (create_revision next ∷ calls) ≡ value rev)
      × (calls' ≡ create_revision next ∷ calls))
    ⊎ ((e : Error) × (w.created_revision (create_revision next ∷ calls) ≡ error e)
        × (api_is_already_exists e ≡ true)
        × (w.got_revision (get_revision (key_of next.meta) ∷ create_revision next ∷ calls)
            ≡ value rev)
        × (rev.raw ≡ next.raw)
        × (calls' ≡ get_revision (key_of next.meta) ∷ create_revision next ∷ calls))

-- After these calls a round ends the loop with this error: that of the creation, unless it says that
-- the name is taken, or that of reading the revision of that name.
abbrev pub Fails : SetWorld → ControllerRevision → Error → List SetCall → List SetCall → Type 0
Fails w next e calls calls' =
    ((w.created_revision (create_revision next ∷ calls) ≡ error e)
      × (api_is_already_exists e ≡ false)
      × (calls' ≡ create_revision next ∷ calls))
    ⊎ ((e' : Error) × (w.created_revision (create_revision next ∷ calls) ≡ error e')
        × (api_is_already_exists e' ≡ true)
        × (w.got_revision (get_revision (key_of next.meta) ∷ create_revision next ∷ calls)
            ≡ error e)
        × (calls' ≡ get_revision (key_of next.meta) ∷ create_revision next ∷ calls))

-- The three ways in which a round goes.
abbrev pub RoundCases : SetWorld → ControllerRevision → Session SetCall RunnerSet → Type 0
RoundCases w next s =
    ((rev : ControllerRevision) × (calls' : List SetCall) × (create_round w next s
        ≡ (ok (settled rev), record s { calls = calls' }))
      × Settles w next rev s.calls calls')
    ⊎ ((create_round w next s ≡ (
      ok collided,
      record s { calls = get_revision (key_of next.meta) ∷ create_revision next ∷ s.calls },
    ))
        × IsTaken w next s.calls)
    ⊎ ((e : Error) × (calls' : List SetCall) × (create_round w next s
          ≡ (ok (failed e), record s { calls = calls' }))
        × Fails w next e s.calls calls')

round_of :
    (w : SetWorld) (next : ControllerRevision) (s : Session SetCall RunnerSet)
    (a b : Answer ControllerRevision)
    → w.created_revision (create_revision next ∷ s.calls) ≡ a
    → w.got_revision (get_revision (key_of next.meta) ∷ create_revision next ∷ s.calls) ≡ b
    → RoundCases w next s
unfolding create_round
round_of w next s (value stored) b p q =
    inl (stored, create_revision next ∷ s.calls, ground (arith, p), inl (p, refl))
round_of w next s (error e) (error e') p q =
    let made = create_revision next ∷ s.calls in
    let read = get_revision (key_of next.meta) ∷ made in
    elim (Bool-cases (api_is_already_exists e)) [
      | inl f ↦ inr (inr (e', read, ground (arith, p, q, f), inr (e, p, f, q, refl)))
      | inr f ↦ inr (inr (e, made, ground (arith, p, f), inl (p, f, refl)))
    ]
round_of w next s (error e) (value exists) p q =
    let made = create_revision next ∷ s.calls in
    let read = get_revision (key_of next.meta) ∷ made in
    let same = eq_iff exists.raw next.raw in
    elim (Bool-cases (api_is_already_exists e)) [
      | inr f ↦ inr (inr (e, made, ground (arith, p, f), inl (p, f, refl)))
      | inl f ↦ elim (Bool-cases (str_eq exists.raw next.raw)) [
        | inl g ↦ inl (exists, read, ground (arith, p, q, f, g), inr (e, p, f, q, same.0 g, refl))
        | inr g ↦ inr (
            inl
              (ground (arith, p, q, f, g), (e, exists, p, f, q, λ h. ground (arith, g, same.1 h))))
      ]
    ]

pub round_cases :
    (w : SetWorld) (next : ControllerRevision) (s : Session SetCall RunnerSet) → RoundCases w next s
round_cases w next s =
    round_of w next s (w.created_revision (create_revision next ∷ s.calls))
      (w.got_revision (get_revision (key_of next.meta) ∷ create_revision next ∷ s.calls)) refl refl
