-- ===== src/DeepCopy/Deep.antt =====
-- What it is for a copy to be deep: it shows what the original shows, and holds fresh addresses only.
use mathlib.Core.List.{append-nil}
use octorun.DeepCopy.Memory.{
  ◌>>=◌, pure, allocate, Alloc, copy_slice, copy_pointer, Pointer, copy_each, pure-Makes, Makes,
  IsFresh, bind-Makes,
}
use octorun.Base.{◌≡◌, arith, List, [], ◌∷◌, none, some, refl, ℕ, ◌++◌}

-- How a type is looked at: `view` forgets where a value stands, `addresses` lists the addresses that
-- are reached from it, in the order in which a copy allocates them.
pub record Traced (A : Type 0) : Type 0 where
  pub view : A → A
  pub addresses : A → List ℕ

abbrev pub IsCopy : {A : Type 0} → Traced A → A → A → List ℕ → Type 0
IsCopy t x y new = (t.view y ≡ t.view x) × (t.addresses y ≡ new)

abbrev pub IsDeep : {A : Type 0} → Traced A → (A → Alloc A) → Type 0
IsDeep t f = (x : _) → Makes (f x) (IsCopy t x)

-- A value without pointers.
abbrev pub plain : {A : Type 0} → Traced A
plain = record { view = λ x. x; addresses = λ x. [] }

unfoldable pub pointer_view : {A : Type 0} → (A → A) → Pointer A → Pointer A
pointer_view f none = none
pointer_view f (some cell) = some (record { address = 0; target = f cell.target })

unfoldable pub pointer_addresses : {A : Type 0} → (A → List ℕ) → Pointer A → List ℕ
pointer_addresses f none = []
pointer_addresses f (some cell) = cell.address ∷ f cell.target

unfoldable pub list_view : {A : Type 0} → (A → A) → List A → List A
list_view f [] = []
list_view f (x ∷ xs) = f x ∷ list_view f xs

unfoldable pub list_addresses : {A : Type 0} → (A → List ℕ) → List A → List ℕ
list_addresses f [] = []
list_addresses f (x ∷ xs) = f x ++ list_addresses f xs

abbrev pub pointed : {A : Type 0} → Traced A → Traced (Pointer A)
pointed t = record { view = pointer_view t.view; addresses = pointer_addresses t.addresses }

abbrev pub listed : {A : Type 0} → Traced A → Traced (List A)
listed t = record { view = list_view t.view; addresses = list_addresses t.addresses }

abbrev pub sliced : {A : Type 0} → Traced A → Traced (Pointer (List A))
sliced t = pointed (listed t)

allocate-Makes : Makes allocate (λ a new. new ≡ a ∷ [])
unfolding allocate IsFresh
allocate-Makes n = record { taken = n ∷ []; fresh = (omega arith, omega arith); holds = refl }

module _ {A : Type 0} where
  pub pure-IsDeep : IsDeep (plain {A = A}) pure
  pure-IsDeep x = pure-Makes x _ (refl, refl)

  pub copy_pointer-IsDeep :
      (t : Traced A) (f : A → Alloc A) → IsDeep t f → IsDeep (pointed t) (copy_pointer f)
  unfolding copy_pointer pointer_view pointer_addresses
  copy_pointer-IsDeep t f h none = pure-Makes none _ (refl, refl)
  copy_pointer-IsDeep t f h (some cell) =
      bind-Makes allocate _ (λ a new. new ≡ a ∷ []) _ allocate-Makes
        (λ a new e.
          bind-Makes (f cell.target) _ (IsCopy t cell.target) _ (h cell.target) (λ y more g.
            pure-Makes (some (record { address = a; target = y })) _
              (rw (g.0) refl, rw (e, append-nil, g.1) refl)))

  copy_each-IsDeep : (t : Traced A) (f : A → Alloc A) → IsDeep t f → IsDeep (listed t) (copy_each f)
  unfolding copy_each list_view list_addresses
  copy_each-IsDeep t f h [] = pure-Makes [] _ (refl, refl)
  copy_each-IsDeep t f h (x ∷ xs) = bind-Makes (f x) _ (IsCopy t x) _ (h x) (λ y new g.
      bind-Makes (copy_each f xs) _ (IsCopy (listed t) xs) _ (copy_each-IsDeep t f h xs)
        (λ ys more e. pure-Makes (y ∷ ys) _ (rw (g.0, e.0) refl, rw (g.1, e.1, append-nil) refl)))

pub copy_slice-IsDeep :
    {A : Type 0} (t : Traced A) (f : A → Alloc A) → IsDeep t f → IsDeep (sliced t) (copy_slice f)
unfolding copy_slice
copy_slice-IsDeep t f h = copy_pointer-IsDeep (listed t) (copy_each f) (copy_each-IsDeep t f h)

-- A copy in a sequence of copies.
pub copied-Makes :
    {A B : Type 0} (t : Traced A) (f : A → Alloc A) (x : A) (k : A → Alloc B)
    (R : B → List ℕ → Type 0)
    → IsDeep t f
    → ((y : A) (new : List ℕ) → IsCopy t x y new → Makes (k y) (λ b more. R b (new ++ more)))
    → Makes (f x >>= k) R
copied-Makes t f x k R h g = bind-Makes (f x) k (IsCopy t x) R (h x) g
