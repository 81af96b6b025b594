-- ===== src/Metrics/Alphabet.antt =====
-- Which characters a normalized label name is made of.
use octorun.Base.{◌≡◌, refl, arith, [], ◌∷◌, true, false, All, ℕ, map, All-append, Bool, ◌||◌, ◌==◌}
use octorun.Metrics.Family.{Text}
use octorun.Metrics.Names.{
  is_lower, is_digit, is_word, sanitize_label_name, splits, snake, to_lower, normalize_label_name,
}

abbrev pub is_label : ℕ → Bool
is_label c = is_lower c || is_digit c || c == b'_'

abbrev IsWord : ℕ → Type 0
IsWord c = is_word c ≡ true

abbrev pub IsLabel : ℕ → Type 0
IsLabel c = is_label c ≡ true

All-sanitize_label_name : (s : Text) → All IsWord (sanitize_label_name s)
unfolding sanitize_label_name
All-sanitize_label_name [] = tt
All-sanitize_label_name (c ∷ s) = (ground arith, All-sanitize_label_name s)

All-snake : (s : Text) → All IsWord s → All IsWord (snake s)
unfolding snake
All-snake [] h = tt
All-snake (c ∷ []) h = h
All-snake (c ∷ d ∷ rest) h =
    elim (splits c d)
      as (λ b.
        All IsWord (elim b [ true ↦ c ∷ b'_' ∷ d ∷ snake rest | false ↦ c ∷ snake (d ∷ rest) ])) [
          | true ↦ (h.0, (refl, (h.1.0, All-snake rest h.1.1)))
          | false ↦ (h.0, All-snake (d ∷ rest) h.1)
        ]

All-to_lower : (s : Text) → All IsWord s → All IsLabel (map to_lower s)
All-to_lower [] h = tt
All-to_lower (c ∷ s) h = (ground (arith, h.0), All-to_lower s h.1)

-- The name of a label consists of lower-case letters, digits and underscores, whatever characters
-- the Kubernetes label has, if its prefix does.
All-normalize_label_name :
    (prefix s : Text) → All IsLabel prefix → All IsLabel (normalize_label_name prefix s)
unfolding normalize_label_name
All-normalize_label_name prefix s h =
    All-append IsLabel prefix (b'_' ∷ map to_lower (snake (sanitize_label_name s))) h (
      refl,
      All-to_lower (snake (sanitize_label_name s))
          (All-snake (sanitize_label_name s) (All-sanitize_label_name s)),
    )
