-- ===== src/Conversion/Lost.antt =====
-- What of an object v1alpha1 does not hold.
use octorun.Conversion.Down.{runner_set_convert_from, runner_convert_from}
use octorun.Conversion.Up.{runner_set_convert_to, runner_convert_to}
use octorun.Conversion.Types.{V1alpha1RunnerSet, V1alpha1Runner}
use octorun.Resources.{RunnerSetUpdateStrategyType, RunnerSet, RunnerEvictionPolicy, Runner}
use std.Equiv.{Iso, IsEquiv, iso_to_equiv}
use octorun.Base.{refl, String, Option, ℤ}
use octorun.Conversion.Zero.{runner_zero, runner_set_zero}

-- The fields of a RunnerSet that v1alpha1 does not have.
pub record LostOfSet : Type 0 where
  pub update_strategy : RunnerSetUpdateStrategyType
  pub revision_history_limit : Option ℤ
  pub eviction_policy : RunnerEvictionPolicy
  pub current_revision : String
  pub next_revision : String
  pub collision_count : Option ℤ

abbrev lost_of_set : RunnerSet → LostOfSet
lost_of_set s = record {
  update_strategy = s.spec.update_strategy;
  revision_history_limit = s.spec.revision_history_limit;
  eviction_policy = s.spec.template.spec.eviction_policy;
  current_revision = s.status.current_revision;
  next_revision = s.status.next_revision;
  collision_count = s.status.collision_count;
}

-- A set with these fields, and with no others.
abbrev with_lost : LostOfSet → RunnerSet
with_lost l = record runner_set_zero {
  spec = record (runner_set_zero.spec) {
    update_strategy = l.update_strategy;
    revision_history_limit = l.revision_history_limit;
    template = record (runner_set_zero.spec.template) {
      spec = record (runner_set_zero.spec.template.spec) { eviction_policy = l.eviction_policy };
    };
  };
  status = record (runner_set_zero.status) {
    current_revision = l.current_revision;
    next_revision = l.next_revision;
    collision_count = l.collision_count;
  };
}

abbrev with_policy : RunnerEvictionPolicy → Runner
with_policy p = record runner_zero { spec = record (runner_zero.spec) { eviction_policy = p } }

abbrev pub split_runner : V1alpha1Runner → Runner → V1alpha1Runner × RunnerEvictionPolicy
split_runner old r = (runner_convert_from old r, r.spec.eviction_policy)

abbrev pub split_set : V1alpha1RunnerSet → RunnerSet → V1alpha1RunnerSet × LostOfSet
split_set old s = (runner_set_convert_from old s, lost_of_set s)

runner-Iso : V1alpha1Runner → Iso Runner (V1alpha1Runner × RunnerEvictionPolicy)
runner-Iso old = record {
  fun = split_runner old;
  inv = λ p. runner_convert_to p.0 (with_policy p.1);
  rinv = λ p. refl;
  linv = λ r. refl;
}

set-Iso : V1alpha1RunnerSet → Iso RunnerSet (V1alpha1RunnerSet × LostOfSet)
set-Iso old = record {
  fun = split_set old;
  inv = λ p. runner_set_convert_to p.0 (with_lost p.1);
  rinv = λ p. refl;
  linv = λ s. refl;
}

-- A Runner of v1alpha2 is its conversion to v1alpha1, over whatever object this is written, together
-- with its eviction policy, and a RunnerSet is its conversion together with the update strategy, the
-- history limit, the eviction policy, the two revisions and the collision count: the maps to these
-- pairs are equivalences of types. So the conversions lose these fields, and nothing else.
pub convert_from-IsEquiv :
    (r : V1alpha1Runner) (s : V1alpha1RunnerSet) → IsEquiv (split_runner r) × IsEquiv (split_set s)
unfolding runner-Iso set-Iso
convert_from-IsEquiv r s = ((iso_to_equiv (runner-Iso r)).1, (iso_to_equiv (set-Iso s)).1)
