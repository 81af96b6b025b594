-- ===== src/Client/Urls.antt =====
-- `parseRunnerURL` on the paths that the admission webhook lets a runner have.
use octorun.Errors.{value}
use octorun.Client.Types.{RunnerKey, ClientWorld, Url}
use octorun.Client.Runners.{
  split_slashes, key_of_paths, onto_first, parse_runner_url, key_of_url, trim_slash,
}
use octorun.Base.{
  inl, inr, Bool-cases, ◌≡◌, ◌≢◌, refl, ap, arith, ℕ, List, [], ◌∷◌, ◌++◌, Bool, true, false, ◌==◌,
  String, ◌∙◌,
}
use octorun.Webhooks.Url.{first_segment, second_segment}

-- The path of a key, as it is written in a URL.
abbrev pub segment_of : List ℕ → List ℕ
segment_of [] = []
segment_of (c ∷ cs) = b'/' ∷ c ∷ cs

abbrev pub written : RunnerKey → List ℕ
written k = k.owner ++ segment_of (k.repository)

pub split_slashes-second_segment :
    (seen : Bool) (cs : List ℕ) → second_segment seen cs ≡ true → split_slashes cs ≡ cs ∷ []
unfolding split_slashes second_segment
split_slashes-second_segment seen [] h = refl
split_slashes-second_segment seen (c ∷ cs) h = elim (Bool-cases (c == b'/')) [
  | inl e ↦ ground arith
  | inr n ↦ rw n (rw (split_slashes-second_segment true cs (ground arith)) refl)
]

written-onto_first :
    (c : ℕ) (ps : List (List ℕ))
    → written (key_of_paths (onto_first c ps)) ≡ c ∷ written (key_of_paths ps)
unfolding key_of_paths
written-onto_first c [] = refl
written-onto_first c (p ∷ []) = refl
written-onto_first c (p ∷ q ∷ ps) = refl

segment_of-second_segment :
    (cs : List ℕ) → second_segment false cs ≡ true → segment_of cs ≡ b'/' ∷ cs
unfolding second_segment
segment_of-second_segment [] h = ground arith
segment_of-second_segment (c ∷ cs) h = refl

is_slash : (c : ℕ) → (c == b'/') ≡ true → b'/' ≡ c
is_slash c e = ground arith

written-split_slashes :
    (seen : Bool) (cs : List ℕ)
    → first_segment seen cs ≡ true
    → written (key_of_paths (split_slashes cs)) ≡ cs
unfolding split_slashes first_segment key_of_paths
written-split_slashes seen [] h = refl
written-split_slashes seen (c ∷ cs) h = elim (Bool-cases (c == b'/')) [
  | inl e ↦
      let second : second_segment false cs ≡ true = ground arith in
      rw e (
        rw (split_slashes-second_segment false cs second)
          (segment_of-second_segment cs second ∙ ap (λ d. d ∷ cs) (is_slash c e)))
  | inr n ↦
      let first : first_segment true cs ≡ true = ground arith in
      rw n (
        written-onto_first c (split_slashes cs)
        ∙ ap (λ t. c ∷ t) (written-split_slashes true cs first))
]

onto_first_ne_nil : (c : ℕ) (ps : List (List ℕ)) → (key_of_paths (onto_first c ps)).owner ≢ []
unfolding key_of_paths
onto_first_ne_nil c [] h = ground arith
onto_first_ne_nil c (p ∷ []) h = ground arith
onto_first_ne_nil c (p ∷ q ∷ ps) h = ground arith

owner_ne_nil :
    (cs : List ℕ) → first_segment false cs ≡ true → (key_of_paths (split_slashes cs)).owner ≢ []
unfolding split_slashes first_segment key_of_paths
owner_ne_nil [] h = ground arith
owner_ne_nil (c ∷ cs) h = elim (Bool-cases (c == b'/')) [
  | inl e ↦ ground arith
  | inr n ↦ rw n (onto_first_ne_nil c (split_slashes cs))
]

-- Where the URL of a runner parses to a path with one or two segments after its first slash, as the
-- admission webhook's pattern demands, `parseRunnerURL` finds an owner, and its owner and repository
-- written as a path again are the whole of that path: nothing of it is dropped.
pub written-parse_runner_url :
    (w : ClientWorld) (u : String) (url : Url) (cs : List ℕ)
    → w.parse_url u ≡ value url
    → url.path ≡ b'/' ∷ cs
    → first_segment false cs ≡ true
    → (b'/' ∷ written (parse_runner_url w u) ≡ url.path) × ((parse_runner_url w u).owner ≢ [])
unfolding parse_runner_url key_of_url trim_slash
written-parse_runner_url w u url cs p q h =
    rw p (rw q (ap (λ t. b'/' ∷ t) (written-split_slashes false cs h), owner_ne_nil cs h))
