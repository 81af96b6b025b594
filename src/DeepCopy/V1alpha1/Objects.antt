-- ===== src/DeepCopy/V1alpha1/Objects.antt =====
-- `DeepCopyObject` of api/v1alpha1/zz_generated.deepcopy.go.
use octorun.DeepCopy.V1alpha1.RunnerSets.{
  v1alpha1_runner_set_deep_copy_into-IsDeep, v1alpha1_runner_set_list_deep_copy_into-IsDeep,
}
use octorun.DeepCopy.V1alpha1.Runners.{
  v1alpha1_runner_deep_copy_into-IsDeep, v1alpha1_runner_list_deep_copy_into-IsDeep,
}
use octorun.DeepCopy.Separate.{IsSeparateCopy, IsDeep-separate, as_object-IsDeep}
use octorun.DeepCopy.V1alpha1.Views.{
  v1alpha1_runner_traced, v1alpha1_runner_list_traced, v1alpha1_runner_set_traced,
  v1alpha1_runner_set_list_traced,
}
use octorun.DeepCopy.Deep.{pointed}
use octorun.DeepCopy.V1alpha1.Types.{
  V1alpha1HeapRunner, V1alpha1HeapRunnerList, V1alpha1HeapRunnerSet, V1alpha1HeapRunnerSetList,
}
use octorun.DeepCopy.Memory.{Pointer}
use octorun.DeepCopy.Library.{Library, DeepLibrary}
use octorun.Base.{All, ◌<◌, ℕ}
use octorun.DeepCopy.V1alpha1.Copies.{
  v1alpha1_runner_set_list_deep_copy_object, v1alpha1_runner_deep_copy_object,
  v1alpha1_runner_list_deep_copy_object, v1alpha1_runner_set_deep_copy_object,
  v1alpha1_runner_deep_copy_into, v1alpha1_runner_list_deep_copy_into,
  v1alpha1_runner_set_deep_copy_into, v1alpha1_runner_set_list_deep_copy_into,
}

module _ (lib : Library) (d : DeepLibrary lib) where
  -- If the DeepCopyInto of the library's types makes deep copies, then so do the DeepCopyObject of
  -- Runner, RunnerList, RunnerSet and RunnerSetList of v1alpha1: from a memory in which all that the
  -- objects reach is allocated, the result of each shows what its object shows (nil for nil), shares
  -- no address with it, and reaches no address twice.
  pub v1alpha1_deep_copy_object-IsSeparateCopy :
      (n : ℕ) (i : Pointer V1alpha1HeapRunner) (list : Pointer V1alpha1HeapRunnerList)
      (set : Pointer V1alpha1HeapRunnerSet) (sets : Pointer V1alpha1HeapRunnerSetList)
      → All (λ a. a < n) ((pointed v1alpha1_runner_traced).addresses i)
      → All (λ a. a < n) ((pointed v1alpha1_runner_list_traced).addresses list)
      → All (λ a. a < n) ((pointed v1alpha1_runner_set_traced).addresses set)
      → All (λ a. a < n) ((pointed v1alpha1_runner_set_list_traced).addresses sets)
      → IsSeparateCopy
          (pointed v1alpha1_runner_traced)
          i
          (v1alpha1_runner_deep_copy_object lib i n).0
        × IsSeparateCopy
            (pointed v1alpha1_runner_list_traced)
            list
            (v1alpha1_runner_list_deep_copy_object lib list n).0
        × IsSeparateCopy
            (pointed v1alpha1_runner_set_traced)
            set
            (v1alpha1_runner_set_deep_copy_object lib set n).0
        × IsSeparateCopy
            (pointed v1alpha1_runner_set_list_traced)
            sets
            (v1alpha1_runner_set_list_deep_copy_object lib sets n).0
  v1alpha1_deep_copy_object-IsSeparateCopy n i list set sets a b c e = (
    IsDeep-separate (pointed v1alpha1_runner_traced) (v1alpha1_runner_deep_copy_object lib)
        (as_object-IsDeep v1alpha1_runner_traced (v1alpha1_runner_deep_copy_into lib)
          (v1alpha1_runner_deep_copy_into-IsDeep lib d))
        i n a,
    IsDeep-separate (pointed v1alpha1_runner_list_traced)
        (v1alpha1_runner_list_deep_copy_object lib)
        (as_object-IsDeep v1alpha1_runner_list_traced (v1alpha1_runner_list_deep_copy_into lib)
          (v1alpha1_runner_list_deep_copy_into-IsDeep lib d))
        list n b,
    IsDeep-separate (pointed v1alpha1_runner_set_traced) (v1alpha1_runner_set_deep_copy_object lib)
        (as_object-IsDeep v1alpha1_runner_set_traced (v1alpha1_runner_set_deep_copy_into lib)
          (v1alpha1_runner_set_deep_copy_into-IsDeep lib d))
        set n c,
    IsDeep-separate (pointed v1alpha1_runner_set_list_traced)
        (v1alpha1_runner_set_list_deep_copy_object lib)
        (as_object-IsDeep v1alpha1_runner_set_list_traced
          (v1alpha1_runner_set_list_deep_copy_into lib)
          (v1alpha1_runner_set_list_deep_copy_into-IsDeep lib d))
        sets n e,
  )
