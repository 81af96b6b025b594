-- ===== src/Base/Maps.antt =====
-- A Go `map[string]string`: `none` is the nil map, which reads as empty and cannot be written.
-- The entries stand in the order in which a `range` over the map visits them.
use Prim.Native.String.{String}
use mathlib.Core.Path.{◌≡◌, refl}
use mathlib.Core.Option.{Option, none, some}
use mathlib.Core.List.{List, [], ◌∷◌}
use native.Mathlib.Omega.{arith}
use text.Mathlib.TextEquality.{eq_iff}
use octorun.Base.Tests.{str_eq, if◌then◌else◌}

abbrev pub Dict : Type 0
Dict = List (String × String)

abbrev pub GoMap : Type 0
GoMap = Option Dict

-- The entries of a map; a nil map has none.
abbrev pub entries : GoMap → Dict
entries none = []
entries (some d) = d

unfoldable pub find_key : String → Dict → Option String
find_key k [] = none
find_key k ((j, v) ∷ rest) = if str_eq j k then some v else find_key k rest

unfoldable pub put_key : String → String → Dict → Dict
put_key k v [] = (k, v) ∷ []
put_key k v ((j, w) ∷ rest) = if str_eq j k then (k, v) ∷ rest else (j, w) ∷ put_key k v rest

-- `m[k]` with its second result.
abbrev pub lookup : String → GoMap → Option String
lookup k m = find_key k (entries m)

-- `m[k]` alone: the zero value where the key is absent.
abbrev pub value_at : String → GoMap → String
value_at k m = elim (lookup k m) [ none ↦ "" | some v ↦ v ]

-- `m[k] = v` on a map that was made when it was nil.
abbrev pub assign : String → String → GoMap → GoMap
assign k v m = some (put_key k v (entries m))

pub find_key-put_key :
    (k j v : String) (d : Dict)
    → find_key j (put_key k v d) ≡ (if str_eq k j then some v else find_key j d)
unfolding find_key put_key
find_key-put_key k j v [] = refl
find_key-put_key k j v ((i, w) ∷ d) =
    ground (arith, eq_iff i k, eq_iff k j, eq_iff i j, find_key-put_key k j v d)
