-- ===== src/Webhooks/Url.antt =====
-- webhooks/doc.go: the pattern that the URL of a runner has to match, `http` or `https`, the host,
-- and one or two segments up to the end of the text. It may start anywhere in the text.

use text.Mathlib.TextLemmas.{nil-append, cons-append}
use octorun.Base.{
  ◌≡◌, arith, if◌then◌else◌, [], ◌∷◌, some, none, true, false, Bool, Option, String, List, ◌<>◌,
  ◌||◌, after_prefix, codes, ℕ, not, ◌==◌, ◌&&◌,
}

unfoldable pub second_segment : Bool → List ℕ → Bool
second_segment seen [] = seen
second_segment seen (c ∷ cs) = not (c == b'/') && second_segment true cs

unfoldable pub first_segment : Bool → List ℕ → Bool
unfolding second_segment
first_segment seen [] = seen
first_segment seen (c ∷ cs) =
    if c == b'/' then seen && second_segment false cs else first_segment true cs

segments : Option String → Bool
unfolding first_segment
segments none = false
segments (some s) = first_segment false (codes s)

unfoldable pub matches_here : String → Bool
unfolding segments
matches_here s =
    segments (after_prefix "http://github.com/" s)
    || segments (after_prefix "https://github.com/" s)

-- `matchOrgOrRepoURLRegexp.MatchString`
unfoldable pub matches_url : String → Bool
unfolding matches_here
matches_url String.[] = false
matches_url (String.◌∷◌ c s) = matches_here (String.◌∷◌ c s) || matches_url s

-- Whatever stands before a URL that is accepted, the whole is accepted too.
pub matches_url-suffix : (p s : String) → matches_url s ≡ true → matches_url (p <> s) ≡ true
unfolding matches_url
matches_url-suffix String.[] s h = rw (nil-append s) h
matches_url-suffix (String.◌∷◌ c p) s h =
    rw (cons-append c p s) (ground (arith, matches_url-suffix p s h))
