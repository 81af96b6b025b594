-- ===== src/Revision/CreateLoop.antt =====
-- When the loop of `MakeHistory` ends, and with what.
use octorun.Revision.CreateRound.{Occupied, Occupied-round, IsTaken, Settles, Fails, round_cases}
use octorun.Errors.{Outcome, err, ok, Error}
use octorun.Resources.{ControllerRevision, RunnerSet, key_of}
use octorun.Base.{
  Option, ◌∷◌, ◌≡◌, refl, none, some, false, zero, suc, arith, List, ℤ, ℕ, str_eq, ◌⊎◌, inl, inr,
  wrapping_suc, ◌^◌, ◌<◌, sym, subst, ◌∙◌,
}
use octorun.Go.{Session}
use octorun.Revision.World.{SetCall, SetWorld, create_revision, get_revision}
use octorun.Revision.History.{create_loop, create_round, collided, settled, failed}

-- How the loop goes on after a round.
module _ (fuel : ℕ) (w : SetWorld) (next : ControllerRevision) (collision : ℤ)
    (s t : Session SetCall RunnerSet) where
  loop-collided :
      create_round w next s ≡ (ok collided, t)
      → create_loop (suc fuel) w next collision s
        ≡ create_loop fuel w next (wrapping_suc (2 ^ 31) collision) t
  unfolding create_loop
  loop-collided r = ground (arith, r)

  loop-settled :
      (rev : ControllerRevision)
      → create_round w next s ≡ (ok (settled rev), t)
      → create_loop (suc fuel) w next collision s ≡ (ok (some (rev, collision)), t)
  unfolding create_loop
  loop-settled rev r = ground (arith, r)

  loop-failed :
      (e : Error)
      → create_round w next s ≡ (ok (failed e), t)
      → create_loop (suc fuel) w next collision s ≡ (err e, t)
  unfolding create_loop
  loop-failed e r = ground (arith, r)

-- The calls of so many rounds: each asks to create the very same revision, and reads the one there.
abbrev pub asked : ℕ → ControllerRevision → List SetCall → List SetCall
asked zero next calls = calls
asked (suc n) next calls =
    asked n next (get_revision (key_of next.meta) ∷ create_revision next ∷ calls)

-- If the name of the new revision is taken by one with other data, and stays so, the loop never
-- ends: for every number of rounds it has no result, and has made two calls in each round and no
-- other: it asked to create the very same revision once more, and read the one of that name.
pub create_loop_diverges :
    (fuel : ℕ) (w : SetWorld) (next exists : ControllerRevision) (collision : ℤ)
    (s : Session SetCall RunnerSet)
    → Occupied w next exists
    → str_eq exists.raw next.raw ≡ false
    → create_loop fuel w next collision s ≡ (ok none, record s { calls = asked fuel next s.calls })
unfolding create_loop
create_loop_diverges zero w next exists collision s o d = refl
create_loop_diverges (suc fuel) w next exists collision s o d =
    let s' : Session SetCall RunnerSet = record s {
      calls = get_revision (key_of next.meta) ∷ create_revision next ∷ s.calls;
    } in
    let rest = create_loop_diverges fuel w next exists (wrapping_suc (2 ^ 31) collision) s' o d in
    loop-collided fuel w next collision s s' (Occupied-round w next exists s o d) ∙ rest

-- So it goes in each of so many rounds.
abbrev pub StaysTaken : ℕ → SetWorld → ControllerRevision → List SetCall → Type 0
StaysTaken zero w next calls = Unit
StaysTaken (suc n) w next calls =
    IsTaken w next calls
    × StaysTaken n w next (get_revision (key_of next.meta) ∷ create_revision next ∷ calls)

-- The collision count after so many collisions.
abbrev pub counted_up : ℕ → ℤ → ℤ
counted_up zero collision = collision
counted_up (suc n) collision = counted_up n (wrapping_suc (2 ^ 31) collision)

-- How the loop comes out: all of its rounds collide, or all before one that ends it.
abbrev pub IsOutcome :
    ℕ
    → SetWorld
    → ControllerRevision
    → ℤ
    → Session SetCall RunnerSet
    → Outcome (Option (ControllerRevision × ℤ)) × Session SetCall RunnerSet
    → Type 0
IsOutcome fuel w next collision s r =
    (StaysTaken fuel w next s.calls × (r ≡ (ok none, record s { calls = asked fuel next s.calls })))
    ⊎ ((n : ℕ) × (rev : ControllerRevision) × (calls' : List SetCall) × (n < fuel)
        × StaysTaken n w next s.calls
        × Settles w next rev (asked n next s.calls) calls'
        × (r ≡ (ok (some (rev, counted_up n collision)), record s { calls = calls' })))
    ⊎ ((n : ℕ) × (e : Error) × (calls' : List SetCall) × (n < fuel)
        × StaysTaken n w next s.calls
        × Fails w next e (asked n next s.calls) calls'
        × (r ≡ (err e, record s { calls = calls' })))

-- One more collision before.
later :
    (fuel : ℕ) (w : SetWorld) (next : ControllerRevision) (collision : ℤ)
    (s : Session SetCall RunnerSet)
    (r : Outcome (Option (ControllerRevision × ℤ)) × Session SetCall RunnerSet)
    → IsTaken w next s.calls
    → IsOutcome fuel w next
        (wrapping_suc (2 ^ 31) collision)
        (record s { calls = get_revision (key_of next.meta) ∷ create_revision next ∷ s.calls })
        r
    → IsOutcome (suc fuel) w next collision s r
later fuel w next collision s r taken (inl (stays, p)) = inl ((taken, stays), p)
later fuel w next collision s r taken (inr (inl (n, rev, calls', lt, stays, last, p))) =
    inr (inl (suc n, rev, calls', omega (arith, lt), (taken, stays), last, p))
later fuel w next collision s r taken (inr (inr (n, x, calls', lt, stays, last, p))) =
    inr (inr (suc n, x, calls', omega (arith, lt), (taken, stays), last, p))

-- For any number of rounds the loop comes out in one of three ways. Either each round was refused
-- since the name is taken, by a revision of other data: then it is cut off. Or there is a first round
-- where that is not so, and the loop ends in it: with the revision that the server stored, or with
-- the one that has the name and the same data, and the collision count raised by the rounds before;
-- or with the error of the creation, if it does not say that the name is taken, or of the reading.
-- Each round before made two calls, which ask for the very same revision and read the one there.
pub create_loop-IsOutcome :
    (fuel : ℕ) (w : SetWorld) (next : ControllerRevision) (collision : ℤ)
    (s : Session SetCall RunnerSet)
    → IsOutcome fuel w next collision s (create_loop fuel w next collision s)
create_loop-IsOutcome zero w next collision s = inl (tt, unfold create_loop in refl)
create_loop-IsOutcome (suc fuel) w next collision s = elim (round_cases w next s) [
  | inl (rev, calls', r, p) ↦ inr (
      inl (
        0,
        rev,
        calls',
        omega arith,
        tt,
        p,
        loop-settled fuel w next collision s (record s { calls = calls' }) rev r,
      ))
  | inr (inl (r, taken)) ↦
      let t : Session SetCall RunnerSet = record s {
        calls = get_revision (key_of next.meta) ∷ create_revision next ∷ s.calls;
      } in
      subst (IsOutcome (suc fuel) w next collision s)
        (sym (loop-collided fuel w next collision s t r))
        (later fuel w next collision s _ taken
          (create_loop-IsOutcome fuel w next (wrapping_suc (2 ^ 31) collision) t))
  | inr (inr (e, calls', r, p)) ↦ inr (
      inr (
        0,
        e,
        calls',
        omega arith,
        tt,
        p,
        loop-failed fuel w next collision s (record s { calls = calls' }) e r,
      ))
]
