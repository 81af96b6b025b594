-- ===== src/RunnerSetController/Choice.antt =====
-- Which runners `prioritizedRunnersToDelete` picks.
use octorun.Base.{
  ◌≡◌, refl, true, false, inl, inr, zero, suc, arith, Bool-cases, [], ◌∷◌, Bool, List, ℕ, ◌==◌, not,
  count_if, All, ◌&&◌, ◌+◌, take, is_some, length, ◌≤◌, ◌-◌, leb, leb→le, length-take,
}
use Prim.Native.Nat.{min}
use octorun.Resources.{Runner, active, phase_eq}
use octorun.Revision.World.{SetWorld}
use octorun.RunnerSetController.Sync.{runners_to_delete}
use octorun.Sortable.{priority, less}

-- No later item of the list is less than an earlier one.
abbrev pub IsSorted : List Runner → Type 0
IsSorted [] = Unit
IsSorted (r ∷ rs) = All (λ q. less q r ≡ false) rs × IsSorted rs

-- An Active runner that is not being deleted already.
abbrev pub is_busy : Runner → Bool
is_busy runner = phase_eq runner.status.phase active && not (is_some runner.meta.deletion_timestamp)

abbrev is_free : Runner → Bool
is_free runner = not (is_busy runner)

priority-is_busy : (r : Runner) → (priority r == 0) ≡ is_busy r
unfolding priority
priority-is_busy r = ground arith

less-is_busy : (q r : Runner) → less q r ≡ false → is_busy r ≡ true → is_free q ≡ false
unfolding less
less-is_busy q r = ground (arith, priority-is_busy q, priority-is_busy r)

All-busy :
    (r : Runner) (rs : List Runner)
    → is_busy r ≡ true
    → All (λ q. less q r ≡ false) rs
    → count_if is_free rs ≡ 0
All-busy r [] b h = refl
All-busy r (q ∷ rs) b h = ground (arith, less-is_busy q r h.0 b, All-busy r rs b h.1)

count_if-is_busy : (rs : List Runner) → count_if is_busy rs + count_if is_free rs ≡ length rs
count_if-is_busy [] = refl
count_if-is_busy (r ∷ rs) = ground (arith, count_if-is_busy rs)

count_if-take :
    (p : Runner → Bool) (n : ℕ) (rs : List Runner) → count_if p (take n rs) ≤ count_if p rs
count_if-take p zero rs = omega arith
count_if-take p (suc n) [] = omega arith
count_if-take p (suc n) (r ∷ rs) = ground (arith, count_if-take p n rs)

-- In a sorted list the free ones come first.
take-sorted :
    (n : ℕ) (rs : List Runner)
    → IsSorted rs
    → count_if is_free (take n rs) ≡ min n (count_if is_free rs)
take-sorted zero rs h = ground arith
take-sorted (suc n) [] h = ground arith
take-sorted (suc n) (r ∷ rs) h = elim (Bool-cases (is_busy r)) [
  | inl b ↦ ground (arith, b, All-busy r rs b h.0, count_if-take is_free n rs)
  | inr f ↦ ground (arith, f, take-sorted n rs h.1)
]

module _ (w : SetWorld) (runners : List Runner)
    (kept : (p : Runner → Bool) → count_if p (w.sort less runners) ≡ count_if p runners)
    (sorted : IsSorted (w.sort less runners)) where
  length-sort : length (w.sort less runners) ≡ length runners
  length-sort = ground (
    arith,
    count_if-is_busy (w.sort less runners),
    count_if-is_busy runners,
    kept is_busy,
    kept is_free,
  )

  -- With a sort that keeps the items of the list and orders it by `Less`, the choice has as many
  -- runners as are to go, or all of them; and an Active runner that is not being deleted already is
  -- chosen only where all other runners do not suffice: exactly as many are as those lack.
  pub runners_to_delete-is_busy :
      (diff : ℕ)
      → (length (runners_to_delete w runners diff) ≡ min diff (length runners))
        × (count_if is_busy (runners_to_delete w runners diff)
            ≡ min diff (length runners) - count_if is_free runners)
  unfolding runners_to_delete
  runners_to_delete-is_busy diff = elim (Bool-cases (leb (length runners) diff)) [
    | inl all ↦
        rw all
          (omega (arith, leb→le _ _ all), omega (arith, leb→le _ _ all, count_if-is_busy runners))
    | inr few ↦ ground (
      arith,
      few,
      length-sort,
      length-take diff (w.sort less runners),
      take-sorted diff (w.sort less runners) sorted,
      count_if-is_busy (take diff (w.sort less runners)),
      count_if-is_busy runners,
      kept is_free,
    )
  ]
