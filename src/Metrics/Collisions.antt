-- ===== src/Metrics/Collisions.antt =====
-- Two labels whose names are normalized to the same name.
use octorun.Metrics.Names.{normalize_label_name}
use octorun.Resources.{Runner}
use octorun.Metrics.Runners.{runner_provider, runner_family}
use octorun.Metrics.Family.{MetricFamily, Text, ValueType, Metric}
use octorun.Metrics.Scrape.{
  Sample, both, Prometheus, collect, scrape, scrape_families, scrape_objects, scrape_metrics,
}
use octorun.Errors.{value}
use octorun.Base.{
  refl, none, false, ◌≡◌, arith, Bool-cases, [], ◌∷◌, some, inl, inr, find_key, List, String, map,
  ◌⊎◌, ◌≢◌, ◌∙◌, Dict, ap, str_eq, sym, eq_iff, subst, Option, lookup, codes, GoMap, entries,
}
use octorun.Metrics.Shared.{keys_of, map_to_prometheus_labels, label_metrics}

module _ {A : Type 0} where
  abbrev pub In : A → List A → Type 0
  In a [] = ⊥
  In a (x ∷ xs) = (a ≡ x) ⊎ In a xs

  -- An item that occurs twice.
  abbrev pub Repeats : List A → Type 0
  Repeats [] = ⊥
  Repeats (x ∷ xs) = In x xs ⊎ Repeats xs

module _ {A B : Type 0} (f : A → B) where
  In-map : (a : A) (xs : List A) → In a xs → In (f a) (map f xs)
  In-map a [] h = elim h [ ]
  In-map a (x ∷ xs) (inl e) = inl (ap f e)
  In-map a (x ∷ xs) (inr h) = inr (In-map a xs h)

  Repeats-map : (a b : A) (xs : List A) → In a xs → In b xs → a ≢ b → f a ≡ f b → Repeats (map f xs)
  Repeats-map a b [] p q n e = elim p [ ]
  Repeats-map a b (x ∷ xs) (inl p) (inl q) n e = absurd (n (p ∙ sym q))
  Repeats-map a b (x ∷ xs) (inl p) (inr q) n e =
      inl (subst (λ y. In y (map f xs)) (sym e ∙ ap f p) (In-map b xs q))
  Repeats-map a b (x ∷ xs) (inr p) (inl q) n e =
      inl (subst (λ y. In y (map f xs)) (e ∙ ap f q) (In-map a xs p))
  Repeats-map a b (x ∷ xs) (inr p) (inr q) n e = inr (Repeats-map a b xs p q n e)

In-keys_of : (k v : String) (d : Dict) → find_key k d ≡ some v → In k (keys_of d)
unfolding keys_of find_key
In-keys_of k v [] h = cc
In-keys_of k v ((j, w) ∷ d) h = elim (Bool-cases (str_eq j k)) [
  | inl e ↦ inl (sym ((eq_iff j k).0 e))
  | inr e ↦ inr (In-keys_of k v d (ground (arith, h, e)))
]

both-none : (r : Option (List Sample)) → both r none ≡ none
both-none none = refl
both-none (some xs) = refl

module _ (prom : Prometheus) {X : Type 0} (name : String) (p : MetricFamily X) where
  scrape_objects-eq_none :
      (x : X) (xs : List X)
      → In x xs
      → scrape_metrics prom name p.help p.type (p.metrics_func x) ≡ none
      → scrape_objects prom name p xs ≡ none
  unfolding scrape_objects
  scrape_objects-eq_none x [] h e = elim h [ ]
  scrape_objects-eq_none x (y ∷ xs) (inl h) e = rw (← h) (rw e refl)
  scrape_objects-eq_none x (y ∷ xs) (inr h) e = rw (scrape_objects-eq_none x xs h e) (both-none _)

refused :
    (prom : Prometheus) (name help : String) (type : ValueType) (m : Metric)
    → prom.accepts name m.label_keys m.label_values ≡ false
    → scrape_metrics prom name help type (m ∷ []) ≡ none
unfolding scrape_metrics
refused prom name help type m e = rw e refl

label_keys-Repeats :
    (sort_strings : List String → List String) (labels : GoMap) (k j u v : String)
    → ((s : String) (xs : List String) → In s xs → In s (sort_strings xs))
    → lookup k labels ≡ some u
    → lookup j labels ≡ some v
    → k ≢ j
    → normalize_label_name (codes "label") (codes k)
      ≡ normalize_label_name (codes "label") (codes j)
    → Repeats (map_to_prometheus_labels sort_strings "label" labels).0
unfolding map_to_prometheus_labels
label_keys-Repeats sort_strings labels k j u v keeps hk hj n e =
    let keys = keys_of (entries labels) in
    Repeats-map (λ s. normalize_label_name (codes "label") (codes s)) k j (sort_strings keys)
      (keeps k keys (In-keys_of k u (entries labels) hk))
      (keeps j keys (In-keys_of j v (entries labels) hj)) n e

-- If the Prometheus client refuses repeated label names, and the sort keeps the names, then one
-- listed Runner with two different labels whose names are normalized to the same name makes the
-- scrape of the Runners panic, and with it the collection from all providers.
pub collect-eq_none :
    (prom : Prometheus) (sort_strings : List String → List String) (objs : List Runner) (r : Runner)
    (k j u v : String) (others : List (Option (List Sample)))
    → ((name : String) (ks vs : List Text) → Repeats ks → prom.accepts name ks vs ≡ false)
    → ((s : String) (xs : List String) → In s xs → In s (sort_strings xs))
    → In r objs
    → lookup k r.meta.labels ≡ some u
    → lookup j r.meta.labels ≡ some v
    → k ≢ j
    → normalize_label_name (codes "label") (codes k)
      ≡ normalize_label_name (codes "label") (codes j)
    → collect (scrape prom (runner_provider sort_strings) (value objs) ∷ others) ≡ none
unfolding collect scrape scrape_families runner_provider label_metrics
collect-eq_none prom sort_strings objs r k j u v others refuses keeps listed hk hj n e =
    let (ks, vs) = map_to_prometheus_labels sort_strings "label" r.meta.labels in
    let name = prom.build_fq_name "octorun" "runner" "labels" in
    let family =
      runner_family "labels" "Kubernetes labels converted to Prometheus labels."
        (λ x. label_metrics sort_strings x.meta.labels) in
    let repeated =
      inr (inr (label_keys-Repeats sort_strings r.meta.labels k j u v keeps hk hj n e)) in
    let labels =
      scrape_objects-eq_none prom name family r objs listed
        (refused prom name _ _ _ (refuses name _ _ repeated)) in
    rw labels refl
