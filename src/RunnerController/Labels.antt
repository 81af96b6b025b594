-- ===== src/RunnerController/Labels.antt =====
-- Which labels of the Runner become labels of the GitHub runner.
use octorun.Resources.{label_prefix}
use octorun.Base.{
  [], ◌∷◌, some, inl, inr, ◌≡◌, refl, arith, after_prefix, Dict, String, ◌++◌, some, ◌<>◌, ◌∷◌, ◌⊎◌,
  ◌≢◌, Option-cases, Bool-cases, ◌==◌, sym, ap,
}
use text.Mathlib.TextLemmas.{nil-append, cons-append}
use text.Mathlib.TextEquality.{Char-path}
use Prim.Native.Char.{code}
use octorun.RunnerController.Objects.{runner_labels}

after_prefix-append : (p s : String) → after_prefix p (p <> s) ≡ some s
unfolding after_prefix
after_prefix-append String.[] s = rw nil-append
after_prefix-append (String.◌∷◌ c p) s = rw cons-append (ground (arith, after_prefix-append p s))

after_prefix-eq_some : (p s r : String) → after_prefix p s ≡ some r → s ≡ p <> r
unfolding after_prefix
after_prefix-eq_some String.[] s r e = rw nil-append (ground arith)
after_prefix-eq_some (String.◌∷◌ c p) String.[] r e = cc
after_prefix-eq_some (String.◌∷◌ c p) (String.◌∷◌ d s) r e = elim (Bool-cases (code c == code d)) [
  | inl same ↦
      let rest : s ≡ p <> r = after_prefix-eq_some p s r (rw same at e) in
      rw cons-append (rw (Char-path c d (ground arith)) (ap (String.◌∷◌ d) rest))
  | inr other ↦ absurd (ground arith)
]

runner_labels-append : (d e : Dict) → runner_labels (d ++ e) ≡ runner_labels d ++ runner_labels e
unfolding runner_labels
runner_labels-append [] e = refl
runner_labels-append ((k, v) ∷ d) e = ground (arith, runner_labels-append d e)

-- Each label of a Runner either has a key that begins with the well-known prefix, and then yields
-- exactly the label `name=value` for the rest `name` of its key, in its place in the order; or its
-- key does not begin so, and it yields nothing.
runner_labels_split :
    (before after : Dict) (k v : String)
    → ((name : String) × (k ≡ label_prefix <> name)
        × (runner_labels (before ++ (k, v) ∷ after)
            ≡ runner_labels before ++ (name <> ("=" <> v)) ∷ runner_labels after))
      ⊎ (((name : String) → k ≢ label_prefix <> name)
          × (runner_labels (before ++ (k, v) ∷ after)
              ≡ runner_labels before ++ runner_labels after))
unfolding runner_labels
runner_labels_split before after k v = elim (Option-cases (after_prefix label_prefix k)) [
  | inl absent ↦ inr (
    λ name e.
        cc (sym absent, ap (after_prefix label_prefix) e, after_prefix-append label_prefix name),
    rw (runner_labels-append before ((k, v) ∷ after)) (ground arith),
  )
  | inr (name, found) ↦ inl (
    name,
    after_prefix-eq_some label_prefix k name found,
    rw (runner_labels-append before ((k, v) ∷ after)) (ground arith),
  )
]
