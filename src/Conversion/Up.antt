-- ===== src/Conversion/Up.antt =====
-- api/v1alpha1/zz_generated.conversion.go, conversion.go and the ConvertTo and ConvertFrom methods:
-- v1alpha1 to v1alpha2. A function writes the fields of `out` that the other version has, and leaves
-- the rest of it; none of them can return an error, and none reads the scope.
use octorun.Conversion.Zero.{runner_zero, runner_set_zero, convert_items}
use octorun.Resources.{
  Runner, RunnerSetStatus, RunnerSetSpec, RunnerSet, RunnerPlacement, RunnerStatus, RunnerSpec,
  RunnerTemplateSpec, RunnerSetList, RunnerImage, RunnerList,
}
use octorun.Conversion.Types.{
  V1alpha1Runner, V1alpha1RunnerStatus, V1alpha1RunnerSetStatus, V1alpha1RunnerSetList,
  V1alpha1RunnerSetSpec, V1alpha1RunnerTemplateSpec, V1alpha1RunnerList, V1alpha1RunnerSet,
  V1alpha1RunnerImage, V1alpha1RunnerPlacement, V1alpha1RunnerSpec,
}

abbrev pub runner_image_to_v1alpha2 : V1alpha1RunnerImage → RunnerImage → RunnerImage
runner_image_to_v1alpha2 i out = record out {
  name = i.name;
  pull_policy = i.pull_policy;
  pull_secrets = i.pull_secrets;
}

abbrev pub runner_placement_to_v1alpha2 :
    V1alpha1RunnerPlacement → RunnerPlacement → RunnerPlacement
runner_placement_to_v1alpha2 i out = record out {
  node_selector = i.node_selector;
  tolerations = i.tolerations;
  affinity = i.affinity;
}

abbrev pub runner_spec_to_v1alpha2 : V1alpha1RunnerSpec → RunnerSpec → RunnerSpec
runner_spec_to_v1alpha2 i out = record out {
  url = i.url;
  id = i.id;
  os = i.os;
  group = i.group;
  workdir = i.workdir;
  image = runner_image_to_v1alpha2 (i.image) (out.image);
  placement = runner_placement_to_v1alpha2 (i.placement) (out.placement);
  resources = i.resources;
  service_account_name = i.service_account_name;
  security_context = i.security_context;
  runtime_class_name = i.runtime_class_name;
  volumes = i.volumes;
  volume_mounts = i.volume_mounts;
}

abbrev pub runner_status_to_v1alpha2 : V1alpha1RunnerStatus → RunnerStatus → RunnerStatus
runner_status_to_v1alpha2 i out = record out { phase = i.phase; conditions = i.conditions }

abbrev pub runner_to_v1alpha2 : V1alpha1Runner → Runner → Runner
runner_to_v1alpha2 i out = record out {
  meta = i.meta;
  spec = runner_spec_to_v1alpha2 (i.spec) (out.spec);
  status = runner_status_to_v1alpha2 (i.status) (out.status);
}

abbrev pub runner_template_spec_to_v1alpha2 :
    V1alpha1RunnerTemplateSpec → RunnerTemplateSpec → RunnerTemplateSpec
runner_template_spec_to_v1alpha2 i out = record out {
  meta = i.meta;
  spec = runner_spec_to_v1alpha2 (i.spec) (out.spec);
}

abbrev pub runner_set_spec_to_v1alpha2 : V1alpha1RunnerSetSpec → RunnerSetSpec → RunnerSetSpec
runner_set_spec_to_v1alpha2 i out = record out {
  runners = i.runners;
  selector = i.selector;
  template = runner_template_spec_to_v1alpha2 (i.template) (out.template);
}

abbrev pub runner_set_status_to_v1alpha2 :
    V1alpha1RunnerSetStatus → RunnerSetStatus → RunnerSetStatus
runner_set_status_to_v1alpha2 i out = record out {
  runners = i.runners;
  idle_runners = i.idle_runners;
  active_runners = i.active_runners;
  conditions = i.conditions;
  selector = i.selector;
}

abbrev pub runner_set_to_v1alpha2 : V1alpha1RunnerSet → RunnerSet → RunnerSet
runner_set_to_v1alpha2 i out = record out {
  meta = i.meta;
  spec = runner_set_spec_to_v1alpha2 (i.spec) (out.spec);
  status = runner_set_status_to_v1alpha2 (i.status) (out.status);
}

abbrev pub runner_list_to_v1alpha2 : V1alpha1RunnerList → RunnerList → RunnerList
runner_list_to_v1alpha2 i out = record out {
  list_meta = i.list_meta;
  items = convert_items (λ x. runner_to_v1alpha2 x runner_zero) (i.items);
}

abbrev pub runner_set_list_to_v1alpha2 : V1alpha1RunnerSetList → RunnerSetList → RunnerSetList
runner_set_list_to_v1alpha2 i out = record out {
  list_meta = i.list_meta;
  items = convert_items (λ x. runner_set_to_v1alpha2 x runner_set_zero) (i.items);
}

abbrev pub runner_convert_to : V1alpha1Runner → Runner → Runner
runner_convert_to src dst = runner_to_v1alpha2 src dst

abbrev pub runner_list_convert_to : V1alpha1RunnerList → RunnerList → RunnerList
runner_list_convert_to src dst = runner_list_to_v1alpha2 src dst

abbrev pub runner_set_convert_to : V1alpha1RunnerSet → RunnerSet → RunnerSet
runner_set_convert_to src dst = runner_set_to_v1alpha2 src dst

abbrev pub runner_set_list_convert_to : V1alpha1RunnerSetList → RunnerSetList → RunnerSetList
runner_set_list_convert_to src dst = runner_set_list_to_v1alpha2 src dst
