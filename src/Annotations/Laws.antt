-- ===== src/Annotations/Laws.antt =====
-- What a written expiry means to the later check.
use octorun.Base.{
  ℕ, ◌+◌, ◌≤◌, ◌≡◌, ◌↔◌, false, some, String, arith, lookup, ltb, find_key-put_key, str_eq,
  if◌then◌else◌, entries,
}
use octorun.Resources.{ObjectMeta, annotation_runner_token_expires_at}
use octorun.Machinery.{Machinery}
use octorun.Annotations.{five_minutes, annotate_token_expires, is_token_expired}

-- The annotation holds the written expiry afterwards, and every other one is as it was.
pub lookup-annotate_token_expires :
    (t k : String) (m : ObjectMeta)
    → lookup k (annotate_token_expires t m).annotations
      ≡ (if str_eq annotation_runner_token_expires_at k then some t else lookup k m.annotations)
unfolding annotate_token_expires
lookup-annotate_token_expires t k m =
    find_key-put_key annotation_runner_token_expires_at k t (entries m.annotations)

-- After a token with expiry `t` is annotated, the check reports it expired exactly when what the
-- written time reads back as lies before now plus five minutes.
is_token_expired-annotate :
    (mach : Machinery) (now t t' : ℕ) (m : ObjectMeta)
    → mach.parse_time (mach.format_time t) ≡ some t'
    → is_token_expired mach now (annotate_token_expires (mach.format_time t) m)
      ≡ ltb t' (now + five_minutes)
unfolding is_token_expired
is_token_expired-annotate mach now t t' m reads = ground (
  arith,
  reads,
  lookup-annotate_token_expires (mach.format_time t) annotation_runner_token_expires_at m,
)

-- A token is taken as good exactly when its annotation is there, reads as a time, and that time is
-- at least five minutes away.
is_token_expired-false_iff :
    (mach : Machinery) (now : ℕ) (m : ObjectMeta)
    → (is_token_expired mach now m ≡ false) ↔ (
        (s : String) × (exp : ℕ) × (lookup annotation_runner_token_expires_at m.annotations
          ≡ some s)
        × (mach.parse_time s ≡ some exp)
        × (now + five_minutes ≤ exp))
unfolding is_token_expired
is_token_expired-false_iff mach now m = ground arith
