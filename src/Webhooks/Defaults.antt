-- ===== src/Webhooks/Defaults.antt =====
-- What the defaulting webhooks guarantee.
use octorun.Base.{
  ◌≡◌, arith, if◌then◌else◌, some, String, lookup, str_eq, ◌&&◌, not, is_some, eq_iff,
  find_key-put_key, entries,
}
use octorun.Resources.{Runner, RunnerSet, label_runner_name, label_runner_set_name}
use octorun.Webhooks.Runners.{default_runner}
use octorun.Webhooks.RunnerSets.{default_runner_set}

-- After defaulting, the label of the runner's name is the one that was there, or the name of the
-- runner where none was there and the name is not empty; every other label is as it was.
default_runner-labels :
    (r : Runner) (k : String)
    → lookup k (default_runner r).meta.labels ≡ (
        if str_eq label_runner_name k
          && not (is_some (lookup k r.meta.labels))
          && not (str_eq r.meta.name "")
        then some r.meta.name
        else lookup k r.meta.labels)
unfolding default_runner
default_runner-labels r k = ground (
  arith,
  eq_iff label_runner_name k,
  eq_iff r.meta.name "",
  find_key-put_key label_runner_name k r.meta.name (entries r.meta.labels),
)

-- A second defaulting of a runner changes nothing.
default_runner-idempotent : (r : Runner) → default_runner (default_runner r) ≡ default_runner r
unfolding default_runner
default_runner-idempotent r = ground (
  arith,
  find_key-put_key label_runner_name label_runner_name r.meta.name (entries r.meta.labels),
)

-- A second defaulting of a runner set changes nothing.
default_runner_set-idempotent :
    (s : RunnerSet) → default_runner_set (default_runner_set s) ≡ default_runner_set s
unfolding default_runner_set
default_runner_set-idempotent s = ground (
  arith,
  find_key-put_key label_runner_set_name label_runner_set_name s.meta.name
      (entries s.spec.template.meta.labels),
)
