-- ===== src/Pods/Laws.antt =====
-- The readiness of a pod, and the id of the runner in it.
use octorun.Base.{
  ap, subst, sym, inl, inr, Bool-cases, ◌≡◌, refl, ◌↔◌, ◌≢◌, true, none, some, List, [], ◌∷◌, ◌++◌,
  ℤ, arith, str_eq, eq_iff, codes, trim_space, parse_int, All,
}
use octorun.Errors.{value}
use octorun.Resources.{Pod, PodCondition, condition_true}
use octorun.Pods.{
  pod_ready, find_condition, condition_is_true, pod_condition_is_ready, ExecOutput, runner_id_of,
}

-- A pod is ready exactly when the first condition of type Ready in its status is true.
abbrev pub FirstReady : List PodCondition → Type 0
FirstReady conditions =
    (before after : List PodCondition) × (c : PodCondition) × (conditions ≡ before ++ c ∷ after)
    × All (λ b. b.type ≢ pod_ready) before
    × (c.type ≡ pod_ready)
    × (c.status ≡ condition_true)

found_first :
    (cs : List PodCondition) (c : PodCondition)
    → find_condition pod_ready cs ≡ some c
    → c.status ≡ condition_true
    → FirstReady cs
unfolding find_condition
found_first [] c e t = cc
found_first (x ∷ cs) c e t = elim (Bool-cases (str_eq x.type pod_ready)) [
  | inl hit ↦
      let same : x ≡ c = ground arith in
      (
        [],
        cs,
        x,
        refl,
        tt,
        (eq_iff x.type pod_ready).0 hit,
        subst (λ k. k.status ≡ condition_true) (sym same) t,
      )
  | inr miss ↦
      let (before, after, d, split, none_before, type, status) =
        found_first cs c (ground arith) t in
      (
        x ∷ before,
        after,
        d,
        ap (◌∷◌ x) split,
        (ground (arith, eq_iff x.type pod_ready), none_before),
        type,
        status,
      )
]

first_found :
    (before after : List PodCondition) (c : PodCondition)
    → All (λ b. b.type ≢ pod_ready) before
    → c.type ≡ pod_ready
    → find_condition pod_ready (before ++ c ∷ after) ≡ some c
unfolding find_condition
first_found [] after c h e = ground (arith, eq_iff c.type pod_ready)
first_found (b ∷ before) after c h e =
    ground (arith, eq_iff b.type pod_ready, first_found before after c h.1 e)

is_true_cases :
    (cs : List PodCondition)
    → condition_is_true (find_condition pod_ready cs) ≡ true
    → (c : PodCondition) × (find_condition pod_ready cs ≡ some c) × (c.status ≡ condition_true)
unfolding condition_is_true
is_true_cases cs h = ground arith

-- A pod counts as ready exactly when its status has a condition of type Ready and the first such
-- condition is true; later conditions of that type do not matter.
pod_condition_is_ready-iff_FirstReady :
    (pod : Pod) → (pod_condition_is_ready pod ≡ true) ↔ FirstReady pod.status.conditions
unfolding pod_condition_is_ready
pod_condition_is_ready-iff_FirstReady pod = (
  λ h.
      let (c, e, t) = is_true_cases pod.status.conditions h in
      found_first pod.status.conditions c e t,
  λ (before, after, c, split, h, e, t).
      rw (split) (rw (first_found before after c h e) (ground arith)),
)

-- A runner id is returned only if the remote command reported no error and wrote nothing but
-- white space to its error stream, and it is then the number that the output spells.
runner_id_of-eq_value :
    (out : ExecOutput) (id : ℤ)
    → runner_id_of out ≡ value id
    → (out.exec_error ≡ none)
      × (trim_space (codes out.stderr) ≡ [])
      × (parse_int 64 (trim_space (codes out.stdout)) ≡ some id)
unfolding runner_id_of
runner_id_of-eq_value out id h = ground arith
