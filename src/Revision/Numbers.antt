-- ===== src/Revision/Numbers.antt =====
-- `Less` of SortableRevisions and `nextRevisionNumber`: why the numbers of a history grow.
use octorun.Base.{
  Bool, true, false, Option, none, some, List, [], ◌∷◌, arith, All, int_ltb, if◌then◌else◌, ℤ, ℕ,
  insert_stable, ◌≡◌, sort_stable, int_eq, Bool-cases, pos, last?, ◌==◌, wrapping_suc, inl,
  All-insert_stable, ◌^◌, ltb, inr, ◌-◌, All-of_sort_stable,
}
use octorun.Resources.{ControllerRevision}
use Prim.Native.String.{compare}
use text.Mathlib.Text.{is_lt}

-- The zero time is before every other.
abbrev pub instant : Option ℕ → ℕ
instant none = 0
instant (some t) = t

later_name : ControllerRevision → ControllerRevision → Bool
later_name a b = is_lt (compare a.meta.name b.meta.name)

unfoldable pub less : ControllerRevision → ControllerRevision → Bool
unfolding later_name
less a b =
    if int_eq a.revision b.revision
    then (if instant b.meta.creation_timestamp == instant a.meta.creation_timestamp
        then later_name a b
        else ltb (instant a.meta.creation_timestamp) (instant b.meta.creation_timestamp))
    else int_ltb a.revision b.revision

number_after : Option ControllerRevision → ℤ
number_after none = pos 1
number_after (some r) = wrapping_suc (2 ^ 63) r.revision

-- `revisions[count-1].Revision + 1`, an int64.
unfoldable pub next_revision_number : List ControllerRevision → ℤ
unfolding number_after
next_revision_number revisions = number_after (last? revisions)

abbrev IsBefore : ControllerRevision → ControllerRevision → Type 0
IsBefore a b = int_ltb b.revision a.revision ≡ false

abbrev Ascends : List ControllerRevision → Type 0
Ascends [] = Unit
Ascends (x ∷ xs) = All (IsBefore x) xs × Ascends xs

IsBefore-trans : (a b c : ControllerRevision) → IsBefore a b → IsBefore b c → IsBefore a c
IsBefore-trans a b c h k = ground arith

IsBefore-all :
    (a b : ControllerRevision) (cs : List ControllerRevision)
    → IsBefore a b
    → All (IsBefore b) cs
    → All (IsBefore a) cs
IsBefore-all a b [] h k = tt
IsBefore-all a b (c ∷ cs) h k = (IsBefore-trans a b c h k.0, IsBefore-all a b cs h k.1)

less-IsBefore : (a b : ControllerRevision) → less a b ≡ true → IsBefore a b
unfolding less
less-IsBefore a b h = ground arith

not-less-IsBefore : (a b : ControllerRevision) → less a b ≡ false → IsBefore b a
unfolding less
not-less-IsBefore a b h = ground arith

insert-Ascends :
    (x : ControllerRevision) (ys : List ControllerRevision)
    → Ascends ys
    → Ascends (insert_stable less x ys)
unfolding insert_stable
insert-Ascends x [] h = (tt, tt)
insert-Ascends x (y ∷ ys) h = elim (Bool-cases (less y x)) [
  | inl e ↦
      rw (e, insert_stable)
        (
          All-insert_stable (IsBefore y) less x ys (less-IsBefore y x e) h.0,
          insert-Ascends x ys h.1,
        )
  | inr e ↦
      rw (e, insert_stable)
        ((not-less-IsBefore y x e, IsBefore-all x y ys (not-less-IsBefore y x e) h.0), h)
]

sort-Ascends : (xs : List ControllerRevision) → Ascends (sort_stable less xs)
unfolding sort_stable
sort-Ascends [] = tt
sort-Ascends (x ∷ xs) = insert-Ascends x (sort_stable less xs) (sort-Ascends xs)

abbrev pub IsAbove : ℤ → ControllerRevision → Type 0
IsAbove n r = int_ltb r.revision n ≡ true

last-IsBefore :
    (xs : List ControllerRevision) (l : ControllerRevision)
    → Ascends xs
    → last? xs ≡ some l
    → All (λ r. IsBefore r l) xs
last-IsBefore [] l h e = tt
last-IsBefore (x ∷ []) l h e = ground arith
last-IsBefore (x ∷ y ∷ ys) l h e =
    let rest = last-IsBefore (y ∷ ys) l h.1 e in (IsBefore-trans x y l h.0.0 rest.0, rest)

all-IsAbove :
    (xs : List ControllerRevision) (l : ControllerRevision)
    → int_eq l.revision (pos (2 ^ 63 - 1)) ≡ false
    → int_ltb (pos (2 ^ 63 - 1)) l.revision ≡ false
    → All (λ r. IsBefore r l) xs
    → All (IsAbove (wrapping_suc (2 ^ 63) l.revision)) xs
all-IsAbove [] l n m h = tt
all-IsAbove (x ∷ xs) l n m h = (ground arith, all-IsAbove xs l n m h.1)

-- If the newest revision of the sorted history has a number less than the greatest int64, the
-- number of the next revision is greater than that of every revision in the history, in whatever
-- order the history is listed.
pub next_revision_number-IsAbove :
    (revisions : List ControllerRevision) (l : ControllerRevision)
    → last? (sort_stable less revisions) ≡ some l
    → int_eq l.revision (pos (2 ^ 63 - 1)) ≡ false
    → int_ltb (pos (2 ^ 63 - 1)) l.revision ≡ false
    → All (IsAbove (next_revision_number (sort_stable less revisions))) revisions
unfolding next_revision_number
next_revision_number-IsAbove revisions l e n m = All-of_sort_stable _ less revisions (
    rw e (
      all-IsAbove (sort_stable less revisions) l n m
        (last-IsBefore (sort_stable less revisions) l (sort-Ascends revisions) e)))
