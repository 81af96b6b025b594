-- ===== src/Base/Text.antt =====
-- The parts of Go's `strings` and `strconv` that the source uses, over the code points of a text
-- (`Go` strings are bytes; the texts that are walked here are ASCII).
use Prim.Native.Nat.{ℕ, zero, suc, ◌+◌, ◌-◌, ◌*◌, ◌^◌}
use Prim.Native.Char.{code}
use Prim.Native.String.{String, ◌++◌ as ◌<>◌}
use mathlib.Core.Bool.{Bool, true, false, ◌&&◌, ◌||◌}
use mathlib.Core.Option.{Option, none, some}
use mathlib.Core.List.{List, [], ◌∷◌, reverse}
use octorun.Base.Tests.{◌==◌, leb, ltb, if◌then◌else◌}
use octorun.Base.Int.{ℤ, pos, negsuc}

abbrev pub codes : String → List ℕ
codes String.[] = []
codes (String.◌∷◌ c s) = code c ∷ codes s

-- `strings.HasPrefix`, and `strings.TrimPrefix` for a text that has it: what follows the prefix.
unfoldable pub after_prefix : String → String → Option String
after_prefix String.[] s = some s
after_prefix (String.◌∷◌ c p) String.[] = none
after_prefix (String.◌∷◌ c p) (String.◌∷◌ d s) = if code c == code d then after_prefix p s else none

-- `strings.Join`
unfoldable pub join : String → List String → String
join sep [] = ""
join sep (s ∷ []) = s
join sep (s ∷ t ∷ rest) = s <> (sep <> join sep (t ∷ rest))

is_space : ℕ → Bool
is_space c = c == 32 || (leb 9 c && leb c 13) || c == 0x85 || c == 0xa0

drop_spaces : List ℕ → List ℕ
drop_spaces [] = []
drop_spaces (c ∷ cs) = if is_space c then drop_spaces cs else c ∷ cs

-- `strings.TrimSpace`
unfoldable pub trim_space : List ℕ → List ℕ
unfolding drop_spaces is_space
trim_space s = reverse (drop_spaces (reverse (drop_spaces s)))

digits_from : ℕ → List ℕ → Option ℕ
digits_from n [] = some n
digits_from n (c ∷ cs) =
    if leb b'0' c && leb c b'9' then digits_from (n * 10 + (c - b'0')) cs else none

digits : List ℕ → Option ℕ
unfolding digits_from
digits [] = none
digits (c ∷ cs) = digits_from 0 (c ∷ cs)

-- The value with its sign, if it fits in `bits` bits.
in_range : ℕ → Bool → ℕ → Option ℤ
in_range bits false n = if ltb n (2 ^ (bits - 1)) then some (pos n) else none
in_range bits true zero = some (pos zero)
in_range bits true (suc n) = if ltb n (2 ^ (bits - 1)) then some (negsuc n) else none

signed : ℕ → Bool → Option ℕ → Option ℤ
unfolding in_range
signed bits negative none = none
signed bits negative (some n) = in_range bits negative n

-- `strconv.ParseInt(s, 10, bits)`; `none` is an error.
unfoldable pub parse_int : ℕ → List ℕ → Option ℤ
unfolding digits signed
parse_int bits [] = none
parse_int bits (c ∷ cs) =
    if c == b'-'
    then signed bits true (digits cs)
    else if c == b'+'
    then signed bits false (digits cs)
    else signed bits false (digits (c ∷ cs))
