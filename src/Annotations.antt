-- ===== src/Annotations.antt =====
-- util/annotations/annotations.go: the expiry of the registration token, kept as an annotation.
pub mod Laws
use octorun.Base.{
  [], ◌∷◌, ◌≡◌, refl, false, inl, inr, zero, suc, arith, if◌then◌else◌, pos, negsuc, Bool-cases,
  Option-cases, ℕ, ◌+◌, ◌*◌, ◌^◌, Bool, true, Option, none, some, String, lookup, assign, ltb,
  find_key, put_key,
}
use octorun.Resources.{ObjectMeta, annotation_runner_token_expires_at}
use octorun.Machinery.{Machinery}

-- 5 * time.Minute, in nanoseconds.
abbrev pub five_minutes : ℕ
five_minutes = 5 * 60 * 10 ^ 9

-- The map is made first where it was nil.
unfoldable pub annotate_token_expires : String → ObjectMeta → ObjectMeta
annotate_token_expires expires_at m = record m {
  annotations = assign annotation_runner_token_expires_at expires_at m.annotations;
}

-- `exp.Before(n.Add(5 * time.Minute))`, where the time in the annotation was read.
abbrev expires_before : ℕ → Option ℕ → Bool
expires_before now none = true
expires_before now (some exp) = ltb exp (now + five_minutes)

abbrev token_time : Machinery → Option String → Option ℕ
token_time mach none = none
token_time mach (some token_expire) = mach.parse_time token_expire

-- A missing annotation and one that is no RFC 3339 time count as expired.
unfoldable pub is_token_expired : Machinery → ℕ → ObjectMeta → Bool
is_token_expired mach now m =
    expires_before now (token_time mach (lookup annotation_runner_token_expires_at m.annotations))
