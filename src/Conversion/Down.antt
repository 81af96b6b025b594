-- ===== src/Conversion/Down.antt =====
-- api/v1alpha1/zz_generated.conversion.go, conversion.go and the ConvertTo and ConvertFrom methods:
-- v1alpha2 to v1alpha1. A function writes the fields of `out` that the other version has, and leaves
-- the rest of it; none of them can return an error, and none reads the scope. What v1alpha1 has no
-- field for is dropped.
use octorun.Conversion.Zero.{v1alpha1_runner_set_zero, v1alpha1_runner_zero, convert_items}
use octorun.Conversion.Types.{
  V1alpha1Runner, V1alpha1RunnerSetList, V1alpha1RunnerList, V1alpha1RunnerSet,
  V1alpha1RunnerStatus, V1alpha1RunnerSetStatus, V1alpha1RunnerSetSpec, V1alpha1RunnerTemplateSpec,
  V1alpha1RunnerImage, V1alpha1RunnerPlacement, V1alpha1RunnerSpec,
}
use octorun.Resources.{
  Runner, RunnerSetStatus, RunnerSetSpec, RunnerSet, RunnerPlacement, RunnerStatus, RunnerSpec,
  RunnerTemplateSpec, RunnerSetList, RunnerImage, RunnerList,
}

abbrev pub runner_image_to_v1alpha1 : RunnerImage → V1alpha1RunnerImage → V1alpha1RunnerImage
runner_image_to_v1alpha1 i out = record out {
  name = i.name;
  pull_policy = i.pull_policy;
  pull_secrets = i.pull_secrets;
}

abbrev pub runner_placement_to_v1alpha1 :
    RunnerPlacement → V1alpha1RunnerPlacement → V1alpha1RunnerPlacement
runner_placement_to_v1alpha1 i out = record out {
  node_selector = i.node_selector;
  tolerations = i.tolerations;
  affinity = i.affinity;
}

abbrev pub runner_spec_to_v1alpha1 : RunnerSpec → V1alpha1RunnerSpec → V1alpha1RunnerSpec
runner_spec_to_v1alpha1 i out = record out {
  url = i.url;
  id = i.id;
  os = i.os;
  group = i.group;
  workdir = i.workdir;
  image = runner_image_to_v1alpha1 (i.image) (out.image);
  placement = runner_placement_to_v1alpha1 (i.placement) (out.placement);
  resources = i.resources;
  service_account_name = i.service_account_name;
  security_context = i.security_context;
  runtime_class_name = i.runtime_class_name;
  volumes = i.volumes;
  volume_mounts = i.volume_mounts;
}

abbrev pub runner_status_to_v1alpha1 : RunnerStatus → V1alpha1RunnerStatus → V1alpha1RunnerStatus
runner_status_to_v1alpha1 i out = record out { phase = i.phase; conditions = i.conditions }

abbrev pub runner_to_v1alpha1 : Runner → V1alpha1Runner → V1alpha1Runner
runner_to_v1alpha1 i out = record out {
  meta = i.meta;
  spec = runner_spec_to_v1alpha1 (i.spec) (out.spec);
  status = runner_status_to_v1alpha1 (i.status) (out.status);
}

abbrev pub runner_template_spec_to_v1alpha1 :
    RunnerTemplateSpec → V1alpha1RunnerTemplateSpec → V1alpha1RunnerTemplateSpec
runner_template_spec_to_v1alpha1 i out = record out {
  meta = i.meta;
  spec = runner_spec_to_v1alpha1 (i.spec) (out.spec);
}

abbrev pub runner_set_spec_to_v1alpha1 :
    RunnerSetSpec → V1alpha1RunnerSetSpec → V1alpha1RunnerSetSpec
runner_set_spec_to_v1alpha1 i out = record out {
  runners = i.runners;
  selector = i.selector;
  template = runner_template_spec_to_v1alpha1 (i.template) (out.template);
}

abbrev pub runner_set_status_to_v1alpha1 :
    RunnerSetStatus → V1alpha1RunnerSetStatus → V1alpha1RunnerSetStatus
runner_set_status_to_v1alpha1 i out = record out {
  runners = i.runners;
  idle_runners = i.idle_runners;
  active_runners = i.active_runners;
  conditions = i.conditions;
  selector = i.selector;
}

abbrev pub runner_set_to_v1alpha1 : RunnerSet → V1alpha1RunnerSet → V1alpha1RunnerSet
runner_set_to_v1alpha1 i out = record out {
  meta = i.meta;
  spec = runner_set_spec_to_v1alpha1 (i.spec) (out.spec);
  status = runner_set_status_to_v1alpha1 (i.status) (out.status);
}

abbrev pub runner_list_to_v1alpha1 : RunnerList → V1alpha1RunnerList → V1alpha1RunnerList
runner_list_to_v1alpha1 i out = record out {
  list_meta = i.list_meta;
  items = convert_items (λ x. runner_to_v1alpha1 x v1alpha1_runner_zero) (i.items);
}

abbrev pub runner_set_list_to_v1alpha1 :
    RunnerSetList → V1alpha1RunnerSetList → V1alpha1RunnerSetList
runner_set_list_to_v1alpha1 i out = record out {
  list_meta = i.list_meta;
  items = convert_items (λ x. runner_set_to_v1alpha1 x v1alpha1_runner_set_zero) (i.items);
}

abbrev pub runner_convert_from : V1alpha1Runner → Runner → V1alpha1Runner
runner_convert_from dst src = runner_to_v1alpha1 src dst

abbrev pub runner_list_convert_from : V1alpha1RunnerList → RunnerList → V1alpha1RunnerList
runner_list_convert_from dst src = runner_list_to_v1alpha1 src dst

abbrev pub runner_set_convert_from : V1alpha1RunnerSet → RunnerSet → V1alpha1RunnerSet
runner_set_convert_from dst src = runner_set_to_v1alpha1 src dst

abbrev pub runner_set_list_convert_from :
    V1alpha1RunnerSetList → RunnerSetList → V1alpha1RunnerSetList
runner_set_list_convert_from dst src = runner_set_list_to_v1alpha1 src dst
