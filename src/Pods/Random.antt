-- ===== src/Pods/Random.antt =====
-- `RandomString` of util/util.go. math/rand is not in the repository: `intn` draws a number and gives
-- the next state of the source.
use mathlib.Core.Option
use octorun.Base.{
  ◌≡◌, refl, zero, suc, arith, ℕ, ℤ, pos, negsuc, List, [], ◌∷◌, Option, none, some, codes, length,
  get_elem?, All, ◌≤◌, ◌<◌, ◌⊎◌,
}

abbrev charset : List ℕ
charset = codes "0123456789abcdefghijklmnopqrstuvwxyz"

module _ {S : Type 0} (intn : S → ℕ → ℕ × S) where
  -- `result[i] = charset[…]`, or the panic of an index out of range.
  unfoldable pub fill : ℕ → S → Option (List ℕ)
  fill zero s = some []
  fill (suc n) s =
      let (i, s') = intn s (length charset) in
      let rest = fill n s' in
      elim (get_elem? charset i) [ none ↦ none | some c ↦ Option.map (λ cs. c ∷ cs) rest ]

  -- `make` panics for a negative length.
  unfoldable pub random_string : ℤ → S → Option (List ℕ)
  unfolding fill
  random_string (pos n) s = fill n s
  random_string (negsuc n) s = none

  -- Documented of Intn: the number is below the bound, unless the bound is 0.
  abbrev pub DrawsBelow : Type 0
  DrawsBelow = (s : S) (n : ℕ) → 0 < n → (intn s n).0 < n

  abbrev pub IsAlphanumeric : ℕ → Type 0
  IsAlphanumeric c = ((48 ≤ c) × (c ≤ 57)) ⊎ ((97 ≤ c) × (c ≤ 122))

  abbrev pub IsRandomText : ℕ → List ℕ → Type 0
  IsRandomText n cs = (length cs ≡ n) × All IsAlphanumeric cs

  draw :
      (cs : List ℕ) (i : ℕ)
      → All IsAlphanumeric cs
      → i < length cs
      → (c : ℕ) × (get_elem? cs i ≡ some c) × IsAlphanumeric c
  unfolding get_elem?
  draw [] i h l = absurd (omega (arith, l))
  draw (c ∷ cs) zero h l = (c, refl, h.0)
  draw (c ∷ cs) (suc i) h l = draw cs i h.1 (omega (arith, l))

  charset-IsAlphanumeric : All IsAlphanumeric charset
  charset-IsAlphanumeric = ground arith

  fill-IsRandomText :
      (n : ℕ) (s : S) → DrawsBelow → (cs : List ℕ) × (fill n s ≡ some cs) × IsRandomText n cs
  unfolding fill
  fill-IsRandomText zero s d = ([], refl, (refl, tt))
  fill-IsRandomText (suc n) s d =
      let (c, e, h) = draw charset (intn s 36).0 charset-IsAlphanumeric (d s 36 (omega arith)) in
      let (cs, e', (l, a)) = fill-IsRandomText n (intn s 36).1 d in
      (c ∷ cs, ground (arith, e, e'), (omega (arith, l), (h, a)))

  -- Where Intn draws below its bound, RandomString of a length that is not negative does not panic:
  -- it gives a text of this length of digits and small letters.
  pub random_string-IsRandomText :
      (n : ℕ) (s : S)
      → DrawsBelow
      → (cs : List ℕ) × (random_string (pos n) s ≡ some cs) × IsRandomText n cs
  unfolding random_string
  random_string-IsRandomText n s d = fill-IsRandomText n s d
