-- ===== src/DeepCopy/V1alpha2/Objects.antt =====
-- `DeepCopyObject` of api/v1alpha2/zz_generated.deepcopy.go.
use octorun.DeepCopy.V1alpha2.RunnerSets.{
  runner_set_deep_copy_into-IsDeep, runner_set_list_deep_copy_into-IsDeep,
}
use octorun.DeepCopy.V1alpha2.Runners.{
  runner_deep_copy_into-IsDeep, runner_list_deep_copy_into-IsDeep,
}
use octorun.DeepCopy.Separate.{IsSeparateCopy, IsDeep-separate, as_object-IsDeep}
use octorun.DeepCopy.V1alpha2.Views.{
  runner_traced, runner_list_traced, runner_set_traced, runner_set_list_traced,
}
use octorun.DeepCopy.Deep.{pointed}
use octorun.DeepCopy.V1alpha2.Types.{HeapRunner, HeapRunnerList, HeapRunnerSet, HeapRunnerSetList}
use octorun.DeepCopy.Memory.{Pointer}
use octorun.DeepCopy.Library.{Library, DeepLibrary}
use octorun.Base.{All, ◌<◌, ℕ}
use octorun.DeepCopy.V1alpha2.Copies.{
  runner_set_list_deep_copy_object, runner_deep_copy_object, runner_list_deep_copy_object,
  runner_set_deep_copy_object, runner_deep_copy_into, runner_list_deep_copy_into,
  runner_set_deep_copy_into, runner_set_list_deep_copy_into,
}

module _ (lib : Library) (d : DeepLibrary lib) where
  -- If the DeepCopyInto of the library's types makes deep copies, then so do the DeepCopyObject of
  -- Runner, RunnerList, RunnerSet and RunnerSetList of v1alpha2: from a memory in which all that the
  -- objects reach is allocated, the result of each shows what its object shows (nil for nil), shares
  -- no address with it, and reaches no address twice.
  pub deep_copy_object-IsSeparateCopy :
      (n : ℕ) (i : Pointer HeapRunner) (list : Pointer HeapRunnerList) (set : Pointer HeapRunnerSet)
      (sets : Pointer HeapRunnerSetList)
      → All (λ a. a < n) ((pointed runner_traced).addresses i)
      → All (λ a. a < n) ((pointed runner_list_traced).addresses list)
      → All (λ a. a < n) ((pointed runner_set_traced).addresses set)
      → All (λ a. a < n) ((pointed runner_set_list_traced).addresses sets)
      → IsSeparateCopy (pointed runner_traced) i (runner_deep_copy_object lib i n).0
        × IsSeparateCopy
            (pointed runner_list_traced)
            list
            (runner_list_deep_copy_object lib list n).0
        × IsSeparateCopy (pointed runner_set_traced) set (runner_set_deep_copy_object lib set n).0
        × IsSeparateCopy
            (pointed runner_set_list_traced)
            sets
            (runner_set_list_deep_copy_object lib sets n).0
  deep_copy_object-IsSeparateCopy n i list set sets a b c e = (
    IsDeep-separate (pointed runner_traced) (runner_deep_copy_object lib)
        (as_object-IsDeep runner_traced (runner_deep_copy_into lib)
          (runner_deep_copy_into-IsDeep lib d))
        i n a,
    IsDeep-separate (pointed runner_list_traced) (runner_list_deep_copy_object lib)
        (as_object-IsDeep runner_list_traced (runner_list_deep_copy_into lib)
          (runner_list_deep_copy_into-IsDeep lib d))
        list n b,
    IsDeep-separate (pointed runner_set_traced) (runner_set_deep_copy_object lib)
        (as_object-IsDeep runner_set_traced (runner_set_deep_copy_into lib)
          (runner_set_deep_copy_into-IsDeep lib d))
        set n c,
    IsDeep-separate (pointed runner_set_list_traced) (runner_set_list_deep_copy_object lib)
        (as_object-IsDeep runner_set_list_traced (runner_set_list_deep_copy_into lib)
          (runner_set_list_deep_copy_into-IsDeep lib d))
        sets n e,
  )
