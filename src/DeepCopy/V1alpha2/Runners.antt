-- ===== src/DeepCopy/V1alpha2/Runners.antt =====
-- The copies of a Runner in api/v1alpha2/zz_generated.deepcopy.go are deep.
use octorun.DeepCopy.V1alpha2.Views.{
  runner_template_spec_traced, runner_image_traced, runner_traced, runner_status_traced,
  runner_spec_traced, runner_list_traced, runner_placement_traced,
}
use octorun.DeepCopy.Deep.{
  IsDeep, copied-Makes, pointed, sliced, plain, copy_slice-IsDeep, copy_pointer-IsDeep, pure-IsDeep,
}
use octorun.DeepCopy.V1alpha2.Copies.{
  runner_image_deep_copy_into, runner_deep_copy_into, runner_list_deep_copy_into,
  runner_placement_deep_copy_into, runner_template_spec_deep_copy_into,
  runner_status_deep_copy_into, runner_spec_deep_copy_into,
}
use octorun.DeepCopy.Library.{Library, DeepLibrary, foreign}
use octorun.Base.{refl}
use octorun.DeepCopy.Memory.{pure, pure-Makes, copy_slice, copy_pointer}
use mathlib.Core.List.{append-nil}

module _ (lib : Library) (d : DeepLibrary lib) where
  pub runner_image_deep_copy_into-IsDeep :
      IsDeep runner_image_traced (runner_image_deep_copy_into lib)
  unfolding runner_image_deep_copy_into
  runner_image_deep_copy_into-IsDeep i =
      copied-Makes (sliced plain) (copy_slice pure) i.pull_secrets _ _
        (copy_slice-IsDeep plain pure pure-IsDeep)
        (λ pull_secrets new0 g0.
          pure-Makes (record i { pull_secrets = pull_secrets }) _
            (rw (g0.0) refl, rw (g0.1, append-nil) refl))

  pub runner_placement_deep_copy_into-IsDeep :
      IsDeep runner_placement_traced (runner_placement_deep_copy_into lib)
  unfolding runner_placement_deep_copy_into
  runner_placement_deep_copy_into-IsDeep i =
      copied-Makes (sliced plain) (copy_slice pure) i.node_selector _ _
        (copy_slice-IsDeep plain pure pure-IsDeep)
        (λ node_selector new0 g0.
          copied-Makes (sliced foreign) (copy_slice lib.toleration) i.tolerations _ _
            (copy_slice-IsDeep foreign lib.toleration d.toleration)
            (λ tolerations new1 g1.
              copied-Makes (pointed foreign) (copy_pointer lib.affinity) i.affinity _ _
                (copy_pointer-IsDeep foreign lib.affinity d.affinity)
                (λ affinity new2 g2.
                  pure-Makes
                    (record i {
                      node_selector = node_selector;
                      tolerations = tolerations;
                      affinity = affinity;
                    })
                    _ (rw (g0.0, g1.0, g2.0) refl, rw (g0.1, g1.1, g2.1, append-nil) refl))))

  pub runner_spec_deep_copy_into-IsDeep : IsDeep runner_spec_traced (runner_spec_deep_copy_into lib)
  unfolding runner_spec_deep_copy_into
  runner_spec_deep_copy_into-IsDeep i =
      copied-Makes (pointed plain) (copy_pointer pure) i.id _ _
        (copy_pointer-IsDeep plain pure pure-IsDeep)
        (λ id new0 g0.
          copied-Makes (runner_image_traced) (runner_image_deep_copy_into lib) i.image _ _
            runner_image_deep_copy_into-IsDeep
            (λ image new1 g1.
              copied-Makes (runner_placement_traced) (runner_placement_deep_copy_into lib)
                i.placement _ _ runner_placement_deep_copy_into-IsDeep
                (λ placement new2 g2.
                  copied-Makes (foreign) lib.resource_requirements i.resources _ _
                    d.resource_requirements
                    (λ resources new3 g3.
                      copied-Makes (pointed foreign) (copy_pointer lib.security_context)
                        i.security_context _ _
                        (copy_pointer-IsDeep foreign lib.security_context d.security_context)
                        (λ security_context new4 g4.
                          copied-Makes (pointed plain) (copy_pointer pure) i.runtime_class_name _ _
                            (copy_pointer-IsDeep plain pure pure-IsDeep)
                            (λ runtime_class_name new5 g5.
                              copied-Makes (sliced foreign) (copy_slice lib.volume) i.volumes _ _
                                (copy_slice-IsDeep foreign lib.volume d.volume)
                                (λ volumes new6 g6.
                                  copied-Makes (sliced foreign) (copy_slice lib.volume_mount)
                                    i.volume_mounts _ _
                                    (copy_slice-IsDeep foreign lib.volume_mount d.volume_mount)
                                    (λ volume_mounts new7 g7.
                                      pure-Makes
                                        (record i {
                                          id = id;
                                          image = image;
                                          placement = placement;
                                          resources = resources;
                                          security_context = security_context;
                                          runtime_class_name = runtime_class_name;
                                          volumes = volumes;
                                          volume_mounts = volume_mounts;
                                        })
                                        _
                                        (
                                          rw (g0.0, g1.0, g2.0, g3.0, g4.0, g5.0, g6.0, g7.0) refl,
                                          rw
                                              (
                                                g0.1, g1.1, g2.1, g3.1, g4.1, g5.1, g6.1, g7.1,
                                                append-nil,
                                              )
                                              refl,
                                        )))))))))

  pub runner_status_deep_copy_into-IsDeep :
      IsDeep runner_status_traced (runner_status_deep_copy_into lib)
  unfolding runner_status_deep_copy_into
  runner_status_deep_copy_into-IsDeep i =
      copied-Makes (sliced foreign) (copy_slice lib.condition) i.conditions _ _
        (copy_slice-IsDeep foreign lib.condition d.condition)
        (λ conditions new0 g0.
          pure-Makes (record i { conditions = conditions }) _
            (rw (g0.0) refl, rw (g0.1, append-nil) refl))

  pub runner_deep_copy_into-IsDeep : IsDeep runner_traced (runner_deep_copy_into lib)
  unfolding runner_deep_copy_into
  runner_deep_copy_into-IsDeep i =
      copied-Makes (foreign) lib.object_meta i.object_meta _ _ d.object_meta (λ object_meta new0 g0.
        copied-Makes (runner_spec_traced) (runner_spec_deep_copy_into lib) i.spec _ _
          runner_spec_deep_copy_into-IsDeep
          (λ spec new1 g1.
            copied-Makes (runner_status_traced) (runner_status_deep_copy_into lib) i.status _ _
              runner_status_deep_copy_into-IsDeep
              (λ status new2 g2.
                pure-Makes (record i { object_meta = object_meta; spec = spec; status = status }) _
                  (rw (g0.0, g1.0, g2.0) refl, rw (g0.1, g1.1, g2.1, append-nil) refl))))

  pub runner_list_deep_copy_into-IsDeep : IsDeep runner_list_traced (runner_list_deep_copy_into lib)
  unfolding runner_list_deep_copy_into
  runner_list_deep_copy_into-IsDeep i =
      copied-Makes (foreign) lib.list_meta i.list_meta _ _ d.list_meta (λ list_meta new0 g0.
        copied-Makes (sliced runner_traced) (copy_slice (runner_deep_copy_into lib)) i.items _ _
          (copy_slice-IsDeep runner_traced (runner_deep_copy_into lib) runner_deep_copy_into-IsDeep)
          (λ items new1 g1.
            pure-Makes (record i { list_meta = list_meta; items = items }) _
              (rw (g0.0, g1.0) refl, rw (g0.1, g1.1, append-nil) refl)))

  pub runner_template_spec_deep_copy_into-IsDeep :
      IsDeep runner_template_spec_traced (runner_template_spec_deep_copy_into lib)
  unfolding runner_template_spec_deep_copy_into
  runner_template_spec_deep_copy_into-IsDeep i =
      copied-Makes (foreign) lib.object_meta i.object_meta _ _ d.object_meta (λ object_meta new0 g0.
        copied-Makes (runner_spec_traced) (runner_spec_deep_copy_into lib) i.spec _ _
          runner_spec_deep_copy_into-IsDeep
          (λ spec new1 g1.
            pure-Makes (record i { object_meta = object_meta; spec = spec }) _
              (rw (g0.0, g1.0) refl, rw (g0.1, g1.1, append-nil) refl)))
