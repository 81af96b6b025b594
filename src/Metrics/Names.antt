-- ===== src/Metrics/Names.antt =====
-- metrics/util.go: the names of Kubernetes labels as names of Prometheus labels.
use octorun.Base.{
  if◌then◌else◌, [], ◌∷◌, true, false, ℕ, ◌++◌, map, ◌+◌, Bool, ◌||◌, leb, ◌==◌, ◌&&◌,
}
use octorun.Metrics.Family.{Text}

abbrev pub is_upper : ℕ → Bool
is_upper c = leb b'A' c && leb c b'Z'

abbrev pub is_lower : ℕ → Bool
is_lower c = leb b'a' c && leb c b'z'

abbrev pub is_digit : ℕ → Bool
is_digit c = leb b'0' c && leb c b'9'

-- The class `[a-zA-Z0-9_]`.
abbrev pub is_word : ℕ → Bool
is_word c = is_upper c || is_lower c || is_digit c || c == b'_'

abbrev sanitized : ℕ → ℕ
sanitized c = if is_word c then c else b'_'

unfoldable pub sanitize_label_name : Text → Text
sanitize_label_name s = map sanitized s

-- The pattern `([a-z0-9])([A-Z])` at two neighbours.
abbrev pub splits : ℕ → ℕ → Bool
splits c d = (is_lower c || is_digit c) && is_upper d

-- Every match from left to right gets an underscore between its two characters.
unfoldable pub snake : Text → Text
snake [] = []
snake (c ∷ []) = c ∷ []
snake (c ∷ d ∷ rest) = elim (splits c d) [
  | true ↦ c ∷ b'_' ∷ d ∷ snake rest
  | false ↦ c ∷ snake (d ∷ rest)
]

-- `strings.ToLower`, of ASCII characters.
abbrev pub to_lower : ℕ → ℕ
to_lower c = if is_upper c then c + 32 else c

unfoldable pub normalize_label_name : Text → Text → Text
unfolding sanitize_label_name snake
normalize_label_name prefix s = prefix ++ b'_' ∷ map to_lower (snake (sanitize_label_name s))
