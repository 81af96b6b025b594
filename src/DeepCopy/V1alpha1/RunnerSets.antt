-- ===== src/DeepCopy/V1alpha1/RunnerSets.antt =====
-- The copies of a RunnerSet in api/v1alpha1/zz_generated.deepcopy.go are deep.
use octorun.DeepCopy.V1alpha1.Runners.{v1alpha1_runner_template_spec_deep_copy_into-IsDeep}
use octorun.DeepCopy.V1alpha1.Views.{
  v1alpha1_runner_set_list_traced, v1alpha1_runner_set_traced, v1alpha1_runner_set_spec_traced,
  v1alpha1_runner_set_status_traced, v1alpha1_runner_template_spec_traced,
}
use octorun.DeepCopy.Deep.{
  IsDeep, copied-Makes, pointed, sliced, plain, copy_slice-IsDeep, copy_pointer-IsDeep, pure-IsDeep,
}
use octorun.DeepCopy.V1alpha1.Copies.{
  v1alpha1_runner_set_deep_copy_into, v1alpha1_runner_set_spec_deep_copy_into,
  v1alpha1_runner_set_list_deep_copy_into, v1alpha1_runner_set_status_deep_copy_into,
  v1alpha1_runner_template_spec_deep_copy_into,
}
use octorun.DeepCopy.Library.{Library, DeepLibrary, foreign}
use octorun.Base.{refl}
use octorun.DeepCopy.Memory.{pure, pure-Makes, copy_slice, copy_pointer}
use mathlib.Core.List.{append-nil}

module _ (lib : Library) (d : DeepLibrary lib) where
  pub v1alpha1_runner_set_spec_deep_copy_into-IsDeep :
      IsDeep v1alpha1_runner_set_spec_traced (v1alpha1_runner_set_spec_deep_copy_into lib)
  unfolding v1alpha1_runner_set_spec_deep_copy_into
  v1alpha1_runner_set_spec_deep_copy_into-IsDeep i =
      copied-Makes (pointed plain) (copy_pointer pure) i.runners _ _
        (copy_pointer-IsDeep plain pure pure-IsDeep)
        (λ runners new0 g0.
          copied-Makes (foreign) lib.label_selector i.selector _ _ d.label_selector
            (λ selector new1 g1.
              copied-Makes (v1alpha1_runner_template_spec_traced)
                (v1alpha1_runner_template_spec_deep_copy_into lib) i.template _ _
                (v1alpha1_runner_template_spec_deep_copy_into-IsDeep lib d)
                (λ template new2 g2.
                  pure-Makes
                    (record i { runners = runners; selector = selector; template = template }) _
                    (rw (g0.0, g1.0, g2.0) refl, rw (g0.1, g1.1, g2.1, append-nil) refl))))

  pub v1alpha1_runner_set_status_deep_copy_into-IsDeep :
      IsDeep v1alpha1_runner_set_status_traced (v1alpha1_runner_set_status_deep_copy_into lib)
  unfolding v1alpha1_runner_set_status_deep_copy_into
  v1alpha1_runner_set_status_deep_copy_into-IsDeep i =
      copied-Makes (sliced foreign) (copy_slice lib.condition) i.conditions _ _
        (copy_slice-IsDeep foreign lib.condition d.condition)
        (λ conditions new0 g0.
          pure-Makes (record i { conditions = conditions }) _
            (rw (g0.0) refl, rw (g0.1, append-nil) refl))

  pub v1alpha1_runner_set_deep_copy_into-IsDeep :
      IsDeep v1alpha1_runner_set_traced (v1alpha1_runner_set_deep_copy_into lib)
  unfolding v1alpha1_runner_set_deep_copy_into
  v1alpha1_runner_set_deep_copy_into-IsDeep i =
      copied-Makes (foreign) lib.object_meta i.object_meta _ _ d.object_meta (λ object_meta new0 g0.
        copied-Makes (v1alpha1_runner_set_spec_traced) (v1alpha1_runner_set_spec_deep_copy_into lib)
          i.spec _ _ v1alpha1_runner_set_spec_deep_copy_into-IsDeep
          (λ spec new1 g1.
            copied-Makes (v1alpha1_runner_set_status_traced)
              (v1alpha1_runner_set_status_deep_copy_into lib) i.status _ _
              v1alpha1_runner_set_status_deep_copy_into-IsDeep
              (λ status new2 g2.
                pure-Makes (record i { object_meta = object_meta; spec = spec; status = status }) _
                  (rw (g0.0, g1.0, g2.0) refl, rw (g0.1, g1.1, g2.1, append-nil) refl))))

  pub v1alpha1_runner_set_list_deep_copy_into-IsDeep :
      IsDeep v1alpha1_runner_set_list_traced (v1alpha1_runner_set_list_deep_copy_into lib)
  unfolding v1alpha1_runner_set_list_deep_copy_into
  v1alpha1_runner_set_list_deep_copy_into-IsDeep i =
      copied-Makes (foreign) lib.list_meta i.list_meta _ _ d.list_meta (λ list_meta new0 g0.
        copied-Makes (sliced v1alpha1_runner_set_traced)
          (copy_slice (v1alpha1_runner_set_deep_copy_into lib)) i.items _ _
          (copy_slice-IsDeep v1alpha1_runner_set_traced (v1alpha1_runner_set_deep_copy_into lib)
            v1alpha1_runner_set_deep_copy_into-IsDeep)
          (λ items new1 g1.
            pure-Makes (record i { list_meta = list_meta; items = items }) _
              (rw (g0.0, g1.0) refl, rw (g0.1, g1.1, append-nil) refl)))
