-- ===== src/Conversion/Items.antt =====
-- The conversions of lists, whose items are converted into fresh objects.
use octorun.Conversion.Zero.{
  convert_items, v1alpha1_runner_zero, runner_zero, runner_set_zero, v1alpha1_runner_set_zero,
}
use octorun.Conversion.Up.{
  runner_list_convert_to, runner_set_list_convert_to, runner_to_v1alpha2, runner_set_to_v1alpha2,
}
use octorun.Conversion.Down.{
  runner_list_convert_from, runner_set_list_convert_from, runner_to_v1alpha1,
  runner_set_to_v1alpha1,
}
use octorun.Conversion.Types.{V1alpha1RunnerList, V1alpha1RunnerSetList}
use octorun.Resources.{Runner, RunnerSet, unset_strategy, unset_policy, RunnerList, RunnerSetList}
use mathlib.Core.Path.{fun_ext}
use mathlib.Core.List.{map-map, map-id}
use octorun.Base.{◌∙◌, none, some, ◌≡◌, refl, ap, List, map, Option}

-- The runner with the fields that v1alpha1 does not have unset.
abbrev pub forget_runner : Runner → Runner
forget_runner r = record r { spec = record (r.spec) { eviction_policy = unset_policy } }

abbrev pub forget_runner_set : RunnerSet → RunnerSet
forget_runner_set s = record s {
  spec = record (s.spec) {
    update_strategy = unset_strategy;
    revision_history_limit = none;
    template = record (s.spec.template) {
      spec = record (s.spec.template.spec) { eviction_policy = unset_policy };
    };
  };
  status = record (s.status) { current_revision = ""; next_revision = ""; collision_count = none };
}

convert_items-convert_items :
    {A B C : Type 0} (f : B → C) (g : A → B) (k : A → C)
    → ((x : A) → f (g x) ≡ k x)
    → (xs : Option (List A)) → convert_items f (convert_items g xs) ≡ convert_items k xs
convert_items-convert_items f g k h none = refl
convert_items-convert_items f g k h (some xs) =
    ap some (map-map f g xs ∙ ap (λ u. map u xs) (fun_ext h))

convert_items_id : {A : Type 0} (xs : Option (List A)) → convert_items (λ x. x) xs ≡ xs
convert_items_id none = refl
convert_items_id (some xs) = ap some (map-id xs)

-- A list of runners or of runner sets that is converted to v1alpha2 and back is the list it was,
-- a nil slice included.
pub list_convert_from-list_convert_to :
    ((l l' : V1alpha1RunnerList) (out : RunnerList)
      → runner_list_convert_from l' (runner_list_convert_to l out) ≡ l)
    × ((l l' : V1alpha1RunnerSetList) (out : RunnerSetList)
        → runner_set_list_convert_from l' (runner_set_list_convert_to l out) ≡ l)
list_convert_from-list_convert_to = (
  λ l l' out.
      ap (λ t. record { list_meta = l.list_meta; items = t })
        (convert_items-convert_items (λ x. runner_to_v1alpha1 x v1alpha1_runner_zero)
            (λ x. runner_to_v1alpha2 x runner_zero) (λ x. x) (λ x. refl) (l.items)
          ∙ convert_items_id (l.items)),
  λ l l' out.
      ap (λ t. record { list_meta = l.list_meta; items = t })
        (convert_items-convert_items (λ x. runner_set_to_v1alpha1 x v1alpha1_runner_set_zero)
            (λ x. runner_set_to_v1alpha2 x runner_set_zero) (λ x. x) (λ x. refl) (l.items)
          ∙ convert_items_id (l.items)),
)

-- A list of runners or of runner sets that is converted to v1alpha1 and back keeps its items and
-- their order, but each item comes back with the fields that v1alpha1 does not have unset: the
-- eviction policy, and of a set also the update strategy, the history limit and the revisions.
list_convert_to-list_convert_from :
    ((l out : RunnerList) (l' : V1alpha1RunnerList)
      → runner_list_convert_to (runner_list_convert_from l' l) out
        ≡ record l { items = convert_items forget_runner (l.items) })
    × ((l out : RunnerSetList) (l' : V1alpha1RunnerSetList)
        → runner_set_list_convert_to (runner_set_list_convert_from l' l) out
          ≡ record l { items = convert_items forget_runner_set (l.items) })
list_convert_to-list_convert_from = (
  λ l out l'.
      ap (λ t. record { list_meta = l.list_meta; items = t })
        (convert_items-convert_items (λ x. runner_to_v1alpha2 x runner_zero)
          (λ x. runner_to_v1alpha1 x v1alpha1_runner_zero) forget_runner (λ x. refl) (l.items)),
  λ l out l'.
      ap (λ t. record { list_meta = l.list_meta; items = t })
        (convert_items-convert_items (λ x. runner_set_to_v1alpha2 x runner_set_zero)
          (λ x. runner_set_to_v1alpha1 x v1alpha1_runner_set_zero) forget_runner_set (λ x. refl)
          (l.items)),
)
