-- ===== src/Examples/Metrics.antt =====
-- A Runner with two labels, `a-b` and `a_b`, of which Prometheus would see one name.
use octorun.Errors.{value}
use octorun.Metrics.Runners.{runner_provider, phase_metrics}
use octorun.Metrics.Names.{normalize_label_name}
use octorun.Metrics.Collisions.{Repeats, In, collect-eq_none}
use octorun.Examples.Worlds.{runner_in}
use octorun.Metrics.Family.{Text}
use octorun.Resources.{Runner, idle}
use octorun.Metrics.Ones.{labels_of, is_one, phase_metrics-ones}
use octorun.Metrics.Scrape.{collect, Prometheus, scrape}
use octorun.Base.{
  inl, inr, [], ◌∷◌, Bool, true, false, not, ◌||◌, ◌&&◌, ◌==◌, none, some, List, String, refl, ◌≡◌,
  arith, keep, codes, length, ap, find_key, str_eq,
}

abbrev doubled : Runner
doubled = record (runner_in idle) {
  meta = record ((runner_in idle).meta) { labels = some (("a-b", "1") ∷ ("a_b", "2") ∷ []) };
}

abbrev text_eq : Text → Text → Bool
text_eq [] [] = true
text_eq (c ∷ s) (d ∷ t) = c == d && text_eq s t
text_eq _ _ = false

abbrev occurs : Text → List Text → Bool
occurs t [] = false
occurs t (u ∷ us) = text_eq t u || occurs t us

abbrev repeats : List Text → Bool
repeats [] = false
repeats (t ∷ ts) = occurs t ts || repeats ts

abbrev prometheus : Prometheus
prometheus = record { build_fq_name = λ n s m. m; accepts = λ name ks vs. not (repeats ks) }

text_eq_refl : (s : Text) → text_eq s s ≡ true
text_eq_refl [] = refl
text_eq_refl (c ∷ s) = ground (arith, text_eq_refl s)

In→occurs : (t : Text) (ts : List Text) → In t ts → occurs t ts ≡ true
In→occurs t [] h = elim h [ ]
In→occurs t (u ∷ ts) (inl h) = rw h (rw (text_eq_refl u) refl)
In→occurs t (u ∷ ts) (inr h) = ground (arith, In→occurs t ts h)

Repeats→repeats : (ts : List Text) → Repeats ts → repeats ts ≡ true
Repeats→repeats [] h = elim h [ ]
Repeats→repeats (t ∷ ts) (inl h) = rw (In→occurs t ts h) refl
Repeats→repeats (t ∷ ts) (inr h) = ground (arith, Repeats→repeats ts h)

refuses : (name : String) (ks vs : List Text) → Repeats ks → prometheus.accepts name ks vs ≡ false
refuses name ks vs h = rw (Repeats→repeats ks h) refl

distinct : Path String "a-b" "a_b" → ⊥
distinct e = let t : Path Bool false true = ap (λ t. str_eq t "a_b") e in ground (arith, t)

collect-eq_none_example :
    collect (scrape prometheus (runner_provider (λ xs. xs)) (value (doubled ∷ [])) ∷ []) ≡ none
unfolding find_key normalize_label_name
collect-eq_none_example =
    collect-eq_none prometheus (λ xs. xs) (doubled ∷ []) doubled "a-b" "a_b" "1" "2" [] refuses
      (λ s xs h. h) (inl refl) refl refl distinct refl

phase_metrics-ones_example :
    (labels_of (keep is_one (phase_metrics idle)) ≡ (codes "Idle" ∷ []) ∷ [])
    × (length (phase_metrics idle) ≡ 4)
phase_metrics-ones_example = phase_metrics-ones idle
