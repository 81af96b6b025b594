-- ===== src/Conversion/Registration.antt =====
-- `RegisterConversions` of api/v1alpha1/zz_generated.conversion.go. A scheme is the Kubernetes
-- libraries': whether it takes a registration is open.
use octorun.Go.{M}
use octorun.Errors.{Error}
use octorun.Conversion.Up.{
  runner_to_v1alpha2, runner_image_to_v1alpha2, runner_list_to_v1alpha2,
  runner_placement_to_v1alpha2, runner_set_to_v1alpha2, runner_set_list_to_v1alpha2,
  runner_set_spec_to_v1alpha2, runner_set_status_to_v1alpha2, runner_spec_to_v1alpha2,
  runner_status_to_v1alpha2, runner_template_spec_to_v1alpha2,
}
use octorun.Conversion.Down.{
  runner_to_v1alpha1, runner_image_to_v1alpha1, runner_list_to_v1alpha1,
  runner_placement_to_v1alpha1, runner_set_to_v1alpha1, runner_set_list_to_v1alpha1,
  runner_set_spec_to_v1alpha1, runner_set_status_to_v1alpha1, runner_spec_to_v1alpha1,
  runner_status_to_v1alpha1, runner_template_spec_to_v1alpha1,
}
use octorun.Resources.{
  Runner, RunnerImage, RunnerList, RunnerPlacement, RunnerSet, RunnerSetList, RunnerSetSpec,
  RunnerSetStatus, RunnerSpec, RunnerStatus, RunnerTemplateSpec,
}
use octorun.Conversion.Types.{
  V1alpha1Runner, V1alpha1RunnerImage, V1alpha1RunnerList, V1alpha1RunnerPlacement,
  V1alpha1RunnerSet, V1alpha1RunnerSetList, V1alpha1RunnerSetSpec, V1alpha1RunnerSetStatus,
  V1alpha1RunnerSpec, V1alpha1RunnerStatus, V1alpha1RunnerTemplateSpec,
}
use octorun.Go.Sequence.{in_order}
use octorun.Base.{List, [], ◌∷◌, Option}

-- The types of which there are two versions.
pub data Kind : Type 0 where
  runner_kind runner_image_kind runner_list_kind runner_placement_kind runner_set_kind
        runner_set_list_kind runner_set_spec_kind runner_set_status_kind runner_spec_kind
        runner_status_kind runner_template_spec_kind :
      Kind

abbrev pub V1alpha1 : Kind → Type 0
V1alpha1 runner_kind = V1alpha1Runner
V1alpha1 runner_image_kind = V1alpha1RunnerImage
V1alpha1 runner_list_kind = V1alpha1RunnerList
V1alpha1 runner_placement_kind = V1alpha1RunnerPlacement
V1alpha1 runner_set_kind = V1alpha1RunnerSet
V1alpha1 runner_set_list_kind = V1alpha1RunnerSetList
V1alpha1 runner_set_spec_kind = V1alpha1RunnerSetSpec
V1alpha1 runner_set_status_kind = V1alpha1RunnerSetStatus
V1alpha1 runner_spec_kind = V1alpha1RunnerSpec
V1alpha1 runner_status_kind = V1alpha1RunnerStatus
V1alpha1 runner_template_spec_kind = V1alpha1RunnerTemplateSpec

abbrev pub V1alpha2 : Kind → Type 0
V1alpha2 runner_kind = Runner
V1alpha2 runner_image_kind = RunnerImage
V1alpha2 runner_list_kind = RunnerList
V1alpha2 runner_placement_kind = RunnerPlacement
V1alpha2 runner_set_kind = RunnerSet
V1alpha2 runner_set_list_kind = RunnerSetList
V1alpha2 runner_set_spec_kind = RunnerSetSpec
V1alpha2 runner_set_status_kind = RunnerSetStatus
V1alpha2 runner_spec_kind = RunnerSpec
V1alpha2 runner_status_kind = RunnerStatus
V1alpha2 runner_template_spec_kind = RunnerTemplateSpec

-- The function that is registered for two types, by which it is named: it converts an object into
-- another one.
abbrev pub convert_v1alpha1_to_v1alpha2 : (k : Kind) → V1alpha1 k → V1alpha2 k → V1alpha2 k
convert_v1alpha1_to_v1alpha2 runner_kind = runner_to_v1alpha2
convert_v1alpha1_to_v1alpha2 runner_image_kind = runner_image_to_v1alpha2
convert_v1alpha1_to_v1alpha2 runner_list_kind = runner_list_to_v1alpha2
convert_v1alpha1_to_v1alpha2 runner_placement_kind = runner_placement_to_v1alpha2
convert_v1alpha1_to_v1alpha2 runner_set_kind = runner_set_to_v1alpha2
convert_v1alpha1_to_v1alpha2 runner_set_list_kind = runner_set_list_to_v1alpha2
convert_v1alpha1_to_v1alpha2 runner_set_spec_kind = runner_set_spec_to_v1alpha2
convert_v1alpha1_to_v1alpha2 runner_set_status_kind = runner_set_status_to_v1alpha2
convert_v1alpha1_to_v1alpha2 runner_spec_kind = runner_spec_to_v1alpha2
convert_v1alpha1_to_v1alpha2 runner_status_kind = runner_status_to_v1alpha2
convert_v1alpha1_to_v1alpha2 runner_template_spec_kind = runner_template_spec_to_v1alpha2

abbrev pub convert_v1alpha2_to_v1alpha1 : (k : Kind) → V1alpha2 k → V1alpha1 k → V1alpha1 k
convert_v1alpha2_to_v1alpha1 runner_kind = runner_to_v1alpha1
convert_v1alpha2_to_v1alpha1 runner_image_kind = runner_image_to_v1alpha1
convert_v1alpha2_to_v1alpha1 runner_list_kind = runner_list_to_v1alpha1
convert_v1alpha2_to_v1alpha1 runner_placement_kind = runner_placement_to_v1alpha1
convert_v1alpha2_to_v1alpha1 runner_set_kind = runner_set_to_v1alpha1
convert_v1alpha2_to_v1alpha1 runner_set_list_kind = runner_set_list_to_v1alpha1
convert_v1alpha2_to_v1alpha1 runner_set_spec_kind = runner_set_spec_to_v1alpha1
convert_v1alpha2_to_v1alpha1 runner_set_status_kind = runner_set_status_to_v1alpha1
convert_v1alpha2_to_v1alpha1 runner_spec_kind = runner_spec_to_v1alpha1
convert_v1alpha2_to_v1alpha1 runner_status_kind = runner_status_to_v1alpha1
convert_v1alpha2_to_v1alpha1 runner_template_spec_kind = runner_template_spec_to_v1alpha1

-- AddGeneratedConversionFunc, or AddConversionFunc for what is written by hand, from a version to
-- the other one.
pub data Registration : Type 0 where
  generated_up generated_down written_down : Kind → Registration

abbrev pub registrations : List Registration
registrations =
    generated_up runner_kind
    ∷ generated_down runner_kind
    ∷ generated_up runner_image_kind
    ∷ generated_down runner_image_kind
    ∷ generated_up runner_list_kind
    ∷ generated_down runner_list_kind
    ∷ generated_up runner_placement_kind
    ∷ generated_down runner_placement_kind
    ∷ generated_up runner_set_kind
    ∷ generated_down runner_set_kind
    ∷ generated_up runner_set_list_kind
    ∷ generated_down runner_set_list_kind
    ∷ generated_up runner_set_spec_kind
    ∷ generated_up runner_set_status_kind
    ∷ generated_up runner_spec_kind
    ∷ generated_up runner_status_kind
    ∷ generated_down runner_status_kind
    ∷ generated_up runner_template_spec_kind
    ∷ generated_down runner_template_spec_kind
    ∷ written_down runner_set_spec_kind
    ∷ written_down runner_set_status_kind
    ∷ written_down runner_spec_kind
    ∷ []

-- Each registration in turn, up to the first that the scheme refuses.
unfoldable pub register_conversions :
    (Registration → List Registration → Option Error) → M Registration (Unit {0}) (Unit {0})
unfolding in_order
register_conversions scheme = in_order scheme registrations
