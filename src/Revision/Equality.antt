-- ===== src/Revision/Equality.antt =====
-- `IsEqual` and `FindEqual` of pkg/revision/util.go.
use octorun.Base.{
  [], refl, Bool, true, false, Option, none, some, List, String, parse_int, ◌∷◌, if◌then◌else◌, ℤ,
  ℕ, ◌≡◌, not, arith, eq_refl, ◌≢◌, to_uint32, str_eq, codes, lookup, ◌==◌, ◌&&◌, eq_iff,
}
use octorun.Resources.{ControllerRevision, Raw}

-- The hash in the label, if there is one that is a number: `uint32(hash)` of `ParseInt(hs, 10, 32)`.
number_of : Option ℤ → Option ℕ
number_of none = none
number_of (some n) = some (to_uint32 n)

parsed_hash : Option String → Option ℕ
unfolding parse_int number_of
parsed_hash none = none
parsed_hash (some hs) = number_of (parse_int 32 (codes hs))

unfoldable pub label_hash : String → ControllerRevision → Option ℕ
unfolding parsed_hash
label_hash key r = parsed_hash (lookup key r.meta.labels)

-- Both hashes are known and differ.
abbrev pub hashes_differ : Option ℕ → Option ℕ → Bool
hashes_differ (some a) (some b) = not (a == b)
hashes_differ _ _ = false

-- `apiequality.Semantic.DeepEqual` on the decoded objects, by their encoded form.
abbrev pub same_object : Option Raw → Option Raw → Bool
same_object none none = true
same_object (some a) (some b) = str_eq a b
same_object _ _ = false

unfoldable pub same_content : ControllerRevision → ControllerRevision → String → Bool
same_content lhs rhs key =
    if hashes_differ (label_hash key lhs) (label_hash key rhs)
    then false
    else str_eq lhs.raw rhs.raw && same_object lhs.object rhs.object

-- `none` is a nil pointer.
unfoldable pub is_equal : Option ControllerRevision → Option ControllerRevision → String → Bool
unfolding same_content
is_equal none none key = true
is_equal none (some rhs) key = false
is_equal (some lhs) none key = false
is_equal (some lhs) (some rhs) key = same_content lhs rhs key

unfoldable pub find_equal :
    List ControllerRevision → ControllerRevision → String → List ControllerRevision
unfolding is_equal
find_equal [] needle key = []
find_equal (r ∷ rs) needle key =
    if is_equal (some r) (some needle) key
    then r ∷ find_equal rs needle key
    else find_equal rs needle key

same_object_refl : (o : Option Raw) → same_object o o ≡ true
same_object_refl none = refl
same_object_refl (some t) = eq_refl t

hashes_differ_refl : (h : Option ℕ) → hashes_differ h h ≡ false
hashes_differ_refl none = refl
hashes_differ_refl (some n) = ground arith

pub is_equal-raw :
    (a b : ControllerRevision) (key : String)
    → is_equal (some a) (some b) key ≡ true
    → a.raw ≡ b.raw
unfolding is_equal
is_equal-raw a b key h = ground (arith, eq_iff a.raw b.raw, h)

pub is_equal-same_hash :
    (a b : ControllerRevision) (key : String)
    → label_hash key a ≡ label_hash key b
    → a.object ≡ b.object
    → a.raw ≡ b.raw
    → is_equal (some a) (some b) key ≡ true
unfolding is_equal
is_equal-same_hash a b key l o e = ground (
  arith,
  hashes_differ_refl (label_hash key b),
  eq_refl b.raw,
  same_object_refl b.object,
  l,
  o,
  e,
)

pub label_hash-lookup :
    (key : String) (a b : ControllerRevision)
    → lookup key a.meta.labels ≡ lookup key b.meta.labels
    → label_hash key a ≡ label_hash key b
unfolding label_hash
label_hash-lookup key a b h = rw h refl

-- The label of the revision holds the text of an int32, whose bits are those of the number.
abbrev pub IsLabelled : String → ControllerRevision → ℕ → Type 0
IsLabelled key r n =
    (hs : String) × (hash : ℤ) × (lookup key r.meta.labels ≡ some hs)
    × (parse_int 32 (codes hs) ≡ some hash)
    × (n ≡ to_uint32 hash)

-- Both labels hold a number, and the numbers differ.
abbrev pub LabelsDiffer : String → ControllerRevision → ControllerRevision → Type 0
LabelsDiffer key a b = (m : ℕ) × (n : ℕ) × IsLabelled key a m × IsLabelled key b n × (m ≢ n)

-- What IsEqual is to tell: both are nil, or neither is and their labels do not hold different
-- numbers, and the data is the same, as bytes and as an object.
abbrev pub SameRevision : String → Option ControllerRevision → Option ControllerRevision → Type 0
SameRevision key none none = Unit
SameRevision key (some a) (some b) =
    (¬ LabelsDiffer key a b) × (a.raw ≡ b.raw) × (a.object ≡ b.object)
SameRevision key _ _ = ⊥

-- IsEqual is reflexive, also on a nil pointer, whatever the label holds.
pub is_equal_refl : (key : String) (a : Option ControllerRevision) → is_equal a a key ≡ true
unfolding is_equal
is_equal_refl key none = refl
is_equal_refl key (some a) = is_equal-same_hash a a key refl refl refl
