-- ===== src/DeepCopy/Separate.antt =====
-- A deep copy shares nothing with what it is a copy of.
use mathlib.Core.List.{append-nil}
use octorun.DeepCopy.Deep.{
  Traced, pointer_view, pointer_addresses, IsDeep, pointed, copied-Makes, copy_pointer-IsDeep,
}
use octorun.Base.{ℕ, suc, List, [], ◌∷◌, ◌≡◌, ◌≢◌, ◌≤◌, ◌<◌, All, none, some, refl, arith}
use octorun.DeepCopy.Memory.{
  ◌>>=◌, IsFresh, Alloc, copy_pointer, as_object, Pointer, Makes, pure-Makes,
}

-- No address stands in both lists, or twice in one.
abbrev pub AreSeparate : List ℕ → List ℕ → Type 0
AreSeparate xs ys = All (λ x. All (λ y. x ≢ y) ys) xs

abbrev pub AreDistinct : List ℕ → Type 0
AreDistinct [] = Unit
AreDistinct (x ∷ xs) = All (λ y. x ≢ y) xs × AreDistinct xs

-- `y` shows what `x` shows, shares no memory with it, and no part of it with another part.
abbrev pub IsSeparateCopy : {A : Type 0} → Traced A → A → A → Type 0
IsSeparateCopy t x y =
    (t.view y ≡ t.view x)
    × AreSeparate (t.addresses x) (t.addresses y)
    × AreDistinct (t.addresses y)

above : (n m k : ℕ) (xs : List ℕ) → n ≤ m → IsFresh m k xs → All (λ x. n ≤ x) xs
unfolding IsFresh
above n m k [] h f = tt
above n m k (x ∷ xs) h f = (omega (arith, h, f.0), above n (suc x) k xs (omega (arith, h, f.0)) f.1)

apart : (x m : ℕ) (ys : List ℕ) → x < m → All (λ y. m ≤ y) ys → All (λ y. x ≢ y) ys
apart x m [] h f = tt
apart x m (y ∷ ys) h f = (λ e. omega (arith, h, f.0, e), apart x m ys h f.1)

separate : (m : ℕ) (xs ys : List ℕ) → All (λ x. x < m) xs → All (λ y. m ≤ y) ys → AreSeparate xs ys
separate m [] ys h f = tt
separate m (x ∷ xs) ys h f = (apart x m ys h.0 f, separate m xs ys h.1 f)

distinct : (n k : ℕ) (xs : List ℕ) → IsFresh n k xs → AreDistinct xs
unfolding IsFresh
distinct n k [] f = tt
distinct n k (x ∷ xs) f = (
  apart x (suc x) xs (omega arith) (above (suc x) (suc x) k xs (omega arith) f.1),
  distinct (suc x) k xs f.1,
)

pub IsDeep-separate :
    {A : Type 0} (t : Traced A) (f : A → Alloc A)
    → IsDeep t f
    → (x : A) (n : ℕ) → All (λ a. a < n) (t.addresses x)
    → IsSeparateCopy t x (f x n).0
IsDeep-separate t f d x n h =
    let run = d x n in
    rw (run.holds.1) (
      run.holds.0,
      separate n (t.addresses x) run.taken h (above n n _ run.taken (omega arith) run.fresh),
      distinct n _ run.taken run.fresh,
    )

as_object-Makes :
    {A : Type 0} (y : Pointer A) (Q : Pointer A → List ℕ → Type 0) → Q y [] → Makes (as_object y) Q
as_object-Makes none Q h = pure-Makes none Q h
as_object-Makes (some c) Q h = pure-Makes (some c) Q h

pub as_object-IsDeep :
    {A : Type 0} (t : Traced A) (f : A → Alloc A)
    → IsDeep t f
    → IsDeep (pointed t) (λ i. copy_pointer f i >>= as_object)
unfolding pointer_view pointer_addresses
as_object-IsDeep t f d i =
    copied-Makes (pointed t) (copy_pointer f) i as_object _ (copy_pointer-IsDeep t f d)
      (λ y new g. as_object-Makes y _ (g.0, rw (append-nil, g.1) refl))
