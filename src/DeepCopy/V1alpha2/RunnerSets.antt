-- ===== src/DeepCopy/V1alpha2/RunnerSets.antt =====
-- The copies of a RunnerSet in api/v1alpha2/zz_generated.deepcopy.go are deep.
use octorun.DeepCopy.V1alpha2.Runners.{runner_template_spec_deep_copy_into-IsDeep}
use octorun.DeepCopy.V1alpha2.Views.{
  runner_set_list_traced, runner_set_spec_traced, runner_set_update_strategy_traced,
  runner_set_status_traced, runner_set_traced, runner_template_spec_traced,
}
use octorun.DeepCopy.Deep.{
  IsDeep, copied-Makes, pure-IsDeep, pointed, plain, sliced, copy_pointer-IsDeep, copy_slice-IsDeep,
}
use octorun.DeepCopy.V1alpha2.Copies.{
  runner_set_update_strategy_deep_copy_into, runner_set_spec_deep_copy_into,
  runner_set_list_deep_copy_into, runner_set_status_deep_copy_into, runner_set_deep_copy_into,
  runner_template_spec_deep_copy_into,
}
use octorun.DeepCopy.Library.{Library, DeepLibrary, foreign}
use octorun.Base.{refl}
use octorun.DeepCopy.Memory.{pure, pure-Makes, copy_slice, copy_pointer}
use mathlib.Core.List.{append-nil}

module _ (lib : Library) (d : DeepLibrary lib) where
  pub runner_set_update_strategy_deep_copy_into-IsDeep :
      IsDeep runner_set_update_strategy_traced (runner_set_update_strategy_deep_copy_into lib)
  unfolding runner_set_update_strategy_deep_copy_into
  runner_set_update_strategy_deep_copy_into-IsDeep = pure-IsDeep

  pub runner_set_spec_deep_copy_into-IsDeep :
      IsDeep runner_set_spec_traced (runner_set_spec_deep_copy_into lib)
  unfolding runner_set_spec_deep_copy_into
  runner_set_spec_deep_copy_into-IsDeep i =
      copied-Makes (pointed plain) (copy_pointer pure) i.runners _ _
        (copy_pointer-IsDeep plain pure pure-IsDeep)
        (λ runners new0 g0.
          copied-Makes (foreign) lib.label_selector i.selector _ _ d.label_selector
            (λ selector new1 g1.
              copied-Makes (pointed plain) (copy_pointer pure) i.revision_history_limit _ _
                (copy_pointer-IsDeep plain pure pure-IsDeep)
                (λ revision_history_limit new2 g2.
                  copied-Makes (runner_template_spec_traced)
                    (runner_template_spec_deep_copy_into lib) i.template _ _
                    (runner_template_spec_deep_copy_into-IsDeep lib d)
                    (λ template new3 g3.
                      pure-Makes
                        (record i {
                          runners = runners;
                          selector = selector;
                          revision_history_limit = revision_history_limit;
                          template = template;
                        })
                        _
                        (
                          rw (g0.0, g1.0, g2.0, g3.0) refl,
                          rw (g0.1, g1.1, g2.1, g3.1, append-nil) refl,
                        )))))

  pub runner_set_status_deep_copy_into-IsDeep :
      IsDeep runner_set_status_traced (runner_set_status_deep_copy_into lib)
  unfolding runner_set_status_deep_copy_into
  runner_set_status_deep_copy_into-IsDeep i =
      copied-Makes (pointed plain) (copy_pointer pure) i.collision_count _ _
        (copy_pointer-IsDeep plain pure pure-IsDeep)
        (λ collision_count new0 g0.
          copied-Makes (sliced foreign) (copy_slice lib.condition) i.conditions _ _
            (copy_slice-IsDeep foreign lib.condition d.condition)
            (λ conditions new1 g1.
              pure-Makes (record i { collision_count = collision_count; conditions = conditions }) _
                (rw (g0.0, g1.0) refl, rw (g0.1, g1.1, append-nil) refl)))

  pub runner_set_deep_copy_into-IsDeep : IsDeep runner_set_traced (runner_set_deep_copy_into lib)
  unfolding runner_set_deep_copy_into
  runner_set_deep_copy_into-IsDeep i =
      copied-Makes (foreign) lib.object_meta i.object_meta _ _ d.object_meta (λ object_meta new0 g0.
        copied-Makes (runner_set_spec_traced) (runner_set_spec_deep_copy_into lib) i.spec _ _
          runner_set_spec_deep_copy_into-IsDeep
          (λ spec new1 g1.
            copied-Makes (runner_set_status_traced) (runner_set_status_deep_copy_into lib) i.status
              _ _ runner_set_status_deep_copy_into-IsDeep
              (λ status new2 g2.
                pure-Makes (record i { object_meta = object_meta; spec = spec; status = status }) _
                  (rw (g0.0, g1.0, g2.0) refl, rw (g0.1, g1.1, g2.1, append-nil) refl))))

  pub runner_set_list_deep_copy_into-IsDeep :
      IsDeep runner_set_list_traced (runner_set_list_deep_copy_into lib)
  unfolding runner_set_list_deep_copy_into
  runner_set_list_deep_copy_into-IsDeep i =
      copied-Makes (foreign) lib.list_meta i.list_meta _ _ d.list_meta (λ list_meta new0 g0.
        copied-Makes (sliced runner_set_traced) (copy_slice (runner_set_deep_copy_into lib)) i.items
          _ _
          (copy_slice-IsDeep runner_set_traced (runner_set_deep_copy_into lib)
            runner_set_deep_copy_into-IsDeep)
          (λ items new1 g1.
            pure-Makes (record i { list_meta = list_meta; items = items }) _
              (rw (g0.0, g1.0) refl, rw (g0.1, g1.1, append-nil) refl)))
