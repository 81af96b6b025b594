-- ===== src/Base/Lists.antt =====
-- Lists measured by native numbers, filtered by Boolean tests, and predicates by recursion.
use Prim.Native.Nat.{ℕ, zero, suc, ◌+◌, min}
use mathlib.Core.Path.{◌≡◌, refl, ap, ◌∙◌}
use mathlib.Core.Bool.{Bool, true, false}
use mathlib.Core.List.{List, [], ◌∷◌, ◌++◌, map}
use native.Mathlib.Omega.{arith}
use mathlib.Core.Option.{Option, none, some}
use octorun.Base.Tests.{if◌then◌else◌}

module _ {ℓ} {A : Type ℓ} where
  abbrev pub length : List A → ℕ
  length [] = 0
  length (x ∷ xs) = suc (length xs)

  abbrev pub take : ℕ → List A → List A
  take zero xs = []
  take (suc n) [] = []
  take (suc n) (x ∷ xs) = x ∷ take n xs

  abbrev pub drop : ℕ → List A → List A
  drop zero xs = xs
  drop (suc n) [] = []
  drop (suc n) (x ∷ xs) = drop n xs

  pub length-append : (xs ys : List A) → length (xs ++ ys) ≡ length xs + length ys
  length-append [] ys = omega arith
  length-append (x ∷ xs) ys = omega (arith, length-append xs ys)

  pub take-append-drop : (n : ℕ) (xs : List A) → take n xs ++ drop n xs ≡ xs
  take-append-drop zero xs = refl
  take-append-drop (suc n) [] = refl
  take-append-drop (suc n) (x ∷ xs) = ap (◌∷◌ x) (take-append-drop n xs)

  pub length-take : (n : ℕ) (xs : List A) → length (take n xs) ≡ min n (length xs)
  length-take zero xs = omega arith
  length-take (suc n) [] = omega arith
  length-take (suc n) (x ∷ xs) = omega (arith, length-take n xs)

  -- The items that pass a Boolean test, in their order.
  abbrev pub keep : (A → Bool) → List A → List A
  keep p [] = []
  keep p (x ∷ xs) = if p x then x ∷ keep p xs else keep p xs

  abbrev pub count_if : (A → Bool) → List A → ℕ
  count_if p [] = 0
  count_if p (x ∷ xs) = if p x then suc (count_if p xs) else count_if p xs

  pub length-keep : (p : A → Bool) (xs : List A) → length (keep p xs) ≡ count_if p xs
  length-keep p [] = refl
  length-keep p (x ∷ xs) = ground (arith, length-keep p xs)

  abbrev pub All {κ} : (A → Type κ) → List A → Type κ
  All P [] = Unit
  All P (x ∷ xs) = P x × All P xs

  pub All-append {κ} : (P : A → Type κ) (xs ys : List A) → All P xs → All P ys → All P (xs ++ ys)
  All-append P [] ys hx hy = hy
  All-append P (x ∷ xs) ys hx hy = (hx.0, All-append P xs ys hx.1 hy)

  pub All-keep : (p : A → Bool) (xs : List A) → All (λ x. p x ≡ true) (keep p xs)
  All-keep p [] = tt
  All-keep p (x ∷ xs) = ground (arith, All-keep p xs)

pub length-map {ℓ κ} :
    {A : Type ℓ} {B : Type κ} (f : A → B) (xs : List A) → length (map f xs) ≡ length xs
length-map f [] = refl
length-map f (x ∷ xs) = ap suc (length-map f xs)

module _ {ℓ} {A : Type ℓ} where
  unfoldable pub get_elem? : List A → ℕ → Option A
  get_elem? [] n = none
  get_elem? (x ∷ xs) zero = some x
  get_elem? (x ∷ xs) (suc n) = get_elem? xs n

  abbrev pub last? : List A → Option A
  last? [] = none
  last? (x ∷ []) = some x
  last? (x ∷ y ∷ ys) = last? (y ∷ ys)

  -- `sort.Stable`: an item goes in front of the first one that is not less than it.
  unfoldable pub insert_stable : (A → A → Bool) → A → List A → List A
  insert_stable less x [] = x ∷ []
  insert_stable less x (y ∷ ys) = if less y x then y ∷ insert_stable less x ys else x ∷ y ∷ ys

  unfoldable pub sort_stable : (A → A → Bool) → List A → List A
  unfolding insert_stable
  sort_stable less [] = []
  sort_stable less (x ∷ xs) = insert_stable less x (sort_stable less xs)

  pub All-insert_stable {κ} :
      (P : A → Type κ) (less : A → A → Bool) (x : A) (ys : List A)
      → P x
      → All P ys
      → All P (insert_stable less x ys)
  unfolding insert_stable
  All-insert_stable P less x [] p h = (p, tt)
  All-insert_stable P less x (y ∷ ys) p h =
      elim (less y x) as (λ b. All P (if b then y ∷ insert_stable less x ys else x ∷ y ∷ ys)) [
        | true ↦ (h.0, All-insert_stable P less x ys p h.1)
        | false ↦ (p, h)
      ]

  pub All-sort_stable {κ} :
      (P : A → Type κ) (less : A → A → Bool) (xs : List A) → All P xs → All P (sort_stable less xs)
  unfolding sort_stable
  All-sort_stable P less [] h = tt
  All-sort_stable P less (x ∷ xs) h =
      All-insert_stable P less x (sort_stable less xs) h.0 (All-sort_stable P less xs h.1)

  pub All-of_insert_stable {κ} :
      (P : A → Type κ) (less : A → A → Bool) (x : A) (ys : List A)
      → All P (insert_stable less x ys)
      → P x × All P ys
  unfolding insert_stable
  All-of_insert_stable P less x [] h = (h.0, tt)
  All-of_insert_stable P less x (y ∷ ys) h =
      (elim (less y x)
          as (λ b.
            All P (if b then y ∷ insert_stable less x ys else x ∷ y ∷ ys)
            → P x × (P y × All P ys)) [
              | true ↦ λ k. let r = All-of_insert_stable P less x ys k.1 in (r.0, (k.0, r.1))
              | false ↦ λ k. k
            ])
        h

  pub All-of_sort_stable {κ} :
      (P : A → Type κ) (less : A → A → Bool) (xs : List A) → All P (sort_stable less xs) → All P xs
  unfolding sort_stable
  All-of_sort_stable P less [] h = tt
  All-of_sort_stable P less (x ∷ xs) h =
      let r = All-of_insert_stable P less x (sort_stable less xs) h in
      (r.0, All-of_sort_stable P less xs r.1)

  length-insert_stable :
      (less : A → A → Bool) (x : A) (ys : List A)
      → length (insert_stable less x ys) ≡ suc (length ys)
  unfolding insert_stable
  length-insert_stable less x [] = refl
  length-insert_stable less x (y ∷ ys) = ground (arith, length-insert_stable less x ys)

  pub length-sort_stable :
      (less : A → A → Bool) (xs : List A) → length (sort_stable less xs) ≡ length xs
  unfolding sort_stable
  length-sort_stable less [] = refl
  length-sort_stable less (x ∷ xs) =
      length-insert_stable less x (sort_stable less xs) ∙ ap suc (length-sort_stable less xs)

-- The lengths of what the functions on lists make.
pub ruleset length_laws = (length-map, length-take, length-keep, length-sort_stable)
