-- ===== src/DeepCopy/Memory.antt =====
-- Values that hold pointers, and code that allocates: `new` and `make` of the generated deep copies.
use octorun.Base.{ℕ, suc, List, [], ◌∷◌, Option, none, some, ◌++◌, ◌≤◌, arith}

-- What a pointer leads to, with the address where it stands; `none` is the nil pointer. A slice or a
-- map is the list of its entries, behind a pointer.
pub record Cell (A : Type 0) : Type 0 where
  pub address : ℕ
  pub target : A

abbrev pub Pointer : Type 0 → Type 0
Pointer A = Option (Cell A)

-- The state is the next free address.
abbrev pub Alloc : Type 0 → Type 0
Alloc A = ℕ → A × ℕ

infixl 5 ◌>>=◌
unfoldable pub ◌>>=◌ : {A B : Type 0} → Alloc A → (A → Alloc B) → Alloc B
◌>>=◌ m k n = let (a, n') = m n in k a n'

unfoldable pub pure : {A : Type 0} → A → Alloc A
pure a n = (a, n)

unfoldable pub allocate : Alloc ℕ
allocate n = (n, suc n)

-- `for i := range *in { (*in)[i].DeepCopyInto(&(*out)[i]) }`
unfoldable pub copy_each : {A : Type 0} → (A → Alloc A) → List A → Alloc (List A)
unfolding ◌>>=◌ pure
copy_each f [] = pure []
copy_each f (x ∷ xs) = do y ← f x; ys ← copy_each f xs; pure (y ∷ ys)

-- `if in.F != nil { *out = new(T); … }`: the target is copied by `f` into what was allocated.
unfoldable pub copy_pointer : {A : Type 0} → (A → Alloc A) → Pointer A → Alloc (Pointer A)
unfolding ◌>>=◌ pure allocate
copy_pointer f none = pure none
copy_pointer f (some cell) = do
  a ← allocate
  y ← f cell.target
  pure (some (record { address = a; target = y }))

-- `if in.F != nil { *out = make([]T, len(*in)); … }`
unfoldable pub copy_slice :
    {A : Type 0} → (A → Alloc A) → Pointer (List A) → Alloc (Pointer (List A))
unfolding copy_pointer copy_each
copy_slice f = copy_pointer (copy_each f)

-- The addresses follow each other from `n` up to `n'`: each is free at `n`, and they all differ.
unfoldable pub IsFresh : ℕ → ℕ → List ℕ → Type 0
IsFresh n n' [] = n ≤ n'
IsFresh n n' (a ∷ xs) = (n ≤ a) × IsFresh (suc a) n' xs

pub IsFresh-append :
    (n m k : ℕ) (xs bs : List ℕ) → IsFresh n m xs → IsFresh m k bs → IsFresh n k (xs ++ bs)
unfolding IsFresh
IsFresh-append n m k [] [] h g = omega (arith, h, g)
IsFresh-append n m k [] (b ∷ bs) h g = (omega (arith, h, g.0), g.1)
IsFresh-append n m k (a ∷ xs) bs h g = (h.0, IsFresh-append (suc a) m k xs bs h.1 g)

-- The run of `m` from each state allocates fresh addresses, which are in `Q` with its result.
pub record Run {A : Type 0} (r : A × ℕ) (n : ℕ) (Q : A → List ℕ → Type 0) : Type 0 where
  pub taken : List ℕ
  pub fresh : IsFresh n r.1 taken
  pub holds : Q r.0 taken

abbrev pub Makes : {A : Type 0} → Alloc A → (A → List ℕ → Type 0) → Type 0
Makes m Q = (n : ℕ) → Run (m n) n Q

module _ {A : Type 0} where
  pub pure-Makes : (a : A) (Q : A → List ℕ → Type 0) → Q a [] → Makes (pure a) Q
  unfolding IsFresh pure
  pure-Makes a Q h n = record { taken = []; fresh = omega arith; holds = h }

  pub bind-Makes :
      {B : Type 0} (m : Alloc A) (k : A → Alloc B) (Q : A → List ℕ → Type 0)
      (R : B → List ℕ → Type 0)
      → Makes m Q
      → ((a : A) (xs : List ℕ) → Q a xs → Makes (k a) (λ b bs. R b (xs ++ bs)))
      → Makes (m >>= k) R
  unfolding ◌>>=◌
  bind-Makes m k Q R h g n =
      let first = h n in
      let second = g (m n).0 first.taken first.holds (m n).1 in
      record {
        taken = first.taken ++ second.taken;
        fresh = IsFresh-append n (m n).1 _ first.taken second.taken first.fresh second.fresh;
        holds = second.holds;
      }

-- `if c := in.DeepCopy(); c != nil { return c }`, and nil as an interface otherwise.
abbrev pub as_object : {A : Type 0} → Pointer A → Alloc (Pointer A)
as_object none = pure none
as_object (some c) = pure (some c)
