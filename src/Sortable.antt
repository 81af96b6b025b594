-- ===== src/Sortable.antt =====
-- util/sortable/sortable.go: which runners go first when there are too many. The priorities are
-- whole numbers, so natural numbers stand for the `float64`.
use octorun.Base.{ℕ, Bool, Option, none, some, ltb}
use octorun.Resources.{Runner, RunnerPhase}

abbrev pub must_delete : ℕ
must_delete = 100

abbrev pub could_delete : ℕ
could_delete = 50

abbrev pub must_not_delete : ℕ
must_not_delete = 0

phase_priority : RunnerPhase → ℕ
phase_priority RunnerPhase.active = must_not_delete
phase_priority _ = could_delete

priority_of : Option ℕ → RunnerPhase → ℕ
unfolding phase_priority
priority_of (some _) phase = must_delete
priority_of none phase = phase_priority phase

unfoldable pub priority : Runner → ℕ
unfolding priority_of
priority runner = priority_of runner.meta.deletion_timestamp runner.status.phase

-- `Less(i, j)` of RunnersToDelete, on the runners at the two positions.
unfoldable pub less : Runner → Runner → Bool
unfolding priority
less a b = ltb (priority b) (priority a)
