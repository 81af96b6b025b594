-- ===== src/Webhooks/Immutable.antt =====
-- What an update may change.
use octorun.Errors.{Answer, value}
use octorun.Webhooks.Admission.{Object, accepted}
use octorun.Base.{
  ◌≡◌, refl, arith, if◌then◌else◌, [], ◌∷◌, some, none, true, Option, Dict, find_key, ◌↔◌, String,
  eq_iff, is_some, str_eq, ◌||◌, sym, ◌∙◌,
}
use octorun.Webhooks.Runners.{
  delete_key, same_value, agree_on, deep_equal, without_managed, validate_runner_update,
}

find_key-delete_key :
    (k j : String) (d : Dict)
    → find_key j (delete_key k d) ≡ (if str_eq k j then none else find_key j d)
unfolding find_key delete_key
find_key-delete_key k j [] = ground arith
find_key-delete_key k j ((i, v) ∷ d) =
    ground (arith, eq_iff i k, eq_iff i j, eq_iff k j, find_key-delete_key k j d)

same_value_iff : (a b : Option String) → (same_value a b ≡ true) ↔ (a ≡ b)
same_value_iff none none = ground arith
same_value_iff none (some w) = ground arith
same_value_iff (some v) none = ground arith
same_value_iff (some v) (some w) = ground (arith, eq_iff v w)

agree_on-lookup :
    (ks a b : Dict) (k : String)
    → agree_on ks a b ≡ true
    → is_some (find_key k ks) ≡ true
    → find_key k a ≡ find_key k b
unfolding agree_on find_key
agree_on-lookup [] a b k h f = ground (arith, f)
agree_on-lookup ((j, v) ∷ ks) a b k h f = ground (
  arith,
  h,
  f,
  eq_iff j k,
  same_value_iff (find_key j a) (find_key j b),
  agree_on-lookup ks a b k,
)

agree_on-same :
    (ks a b : Dict) → ((k : String) → find_key k a ≡ find_key k b) → agree_on ks a b ≡ true
unfolding agree_on
agree_on-same [] a b h = refl
agree_on-same ((j, v) ∷ ks) a b h =
    ground (arith, h j, same_value_iff (find_key j a) (find_key j b), agree_on-same ks a b h)

deep_equal_iff :
    (a b : Dict) → (deep_equal a b ≡ true) ↔ ((k : String) → find_key k a ≡ find_key k b)
unfolding deep_equal
deep_equal_iff a b = (
  λ h k. ground (arith, h, agree_on-lookup a a b k, agree_on-lookup b a b k),
  λ h. ground (arith, agree_on-same a a b h, agree_on-same b a b h),
)

-- The field of a spec, unless it is one of the two that the controller fills in.
abbrev pub guarded : String → Dict → Option String
guarded k spec = if str_eq k "id" || str_eq k "os" then none else find_key k spec

find_key-without_managed : (k : String) (d : Dict) → find_key k (without_managed d) ≡ guarded k d
unfolding without_managed
find_key-without_managed k d = ground (
  arith,
  find_key-delete_key "os" k (delete_key "id" d),
  find_key-delete_key "id" k d,
  eq_iff k "id",
  eq_iff k "os",
  eq_iff "id" k,
  eq_iff "os" k,
)

validate_runner_update-deep_equal :
    (convert : Object → Answer (Option Dict)) (old new : Object) (a b : Dict)
    → convert old ≡ value (some a)
    → convert new ≡ value (some b)
    → (validate_runner_update convert old new ≡ accepted)
      ↔ (deep_equal (without_managed a) (without_managed b) ≡ true)
unfolding validate_runner_update
validate_runner_update-deep_equal convert old new a b ha hb = ground (arith, ha, hb)

-- Where both objects convert, and their content has a spec, an update is accepted exactly if
-- every field of the two specs but `id` and `os` is the same, or absent from both.
pub validate_runner_update-accepted_iff :
    (convert : Object → Answer (Option Dict)) (old new : Object) (a b : Dict)
    → convert old ≡ value (some a)
    → convert new ≡ value (some b)
    → (validate_runner_update convert old new ≡ accepted)
      ↔ ((k : String) → guarded k a ≡ guarded k b)
unfolding validate_runner_update
validate_runner_update-accepted_iff convert old new a b ha hb =
    let same = deep_equal_iff (without_managed a) (without_managed b) in
    let verdict = validate_runner_update-deep_equal convert old new a b ha hb in
    (
      λ h k.
          sym (find_key-without_managed k a)
          ∙ same.0 (verdict.0 h) k
          ∙ find_key-without_managed k b,
      λ h.
          verdict.1
            (same.1 (λ k. find_key-without_managed k a ∙ h k ∙ sym (find_key-without_managed k b))),
    )
