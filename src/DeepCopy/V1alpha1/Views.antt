-- ===== src/DeepCopy/V1alpha1/Views.antt =====
-- How the copies of api/v1alpha1/zz_generated.deepcopy.go are looked at.
use octorun.DeepCopy.Library.{foreign}
use octorun.DeepCopy.V1alpha1.Types.{
  V1alpha1HeapRunnerPlacement, V1alpha1HeapRunnerSetStatus, V1alpha1HeapRunnerImage,
  V1alpha1HeapRunnerSpec, V1alpha1HeapRunnerStatus, V1alpha1HeapRunnerTemplateSpec,
  V1alpha1HeapRunnerList, V1alpha1HeapRunner, V1alpha1HeapRunnerSetSpec, V1alpha1HeapRunnerSet,
  V1alpha1HeapRunnerSetList,
}
use octorun.DeepCopy.Deep.{Traced, pointed, sliced, plain}
use octorun.Base.{◌++◌}

abbrev pub v1alpha1_runner_image_traced : Traced V1alpha1HeapRunnerImage
v1alpha1_runner_image_traced = record {
  view = λ i. record i { pull_secrets = (sliced plain).view i.pull_secrets };
  addresses = λ i. (sliced plain).addresses i.pull_secrets;
}

abbrev pub v1alpha1_runner_placement_traced : Traced V1alpha1HeapRunnerPlacement
v1alpha1_runner_placement_traced = record {
  view = λ i. record i {
    node_selector = (sliced plain).view i.node_selector;
    tolerations = (sliced foreign).view i.tolerations;
    affinity = (pointed foreign).view i.affinity;
  };
  addresses = λ i.
      (sliced plain).addresses i.node_selector
      ++ ((sliced foreign).addresses i.tolerations ++ ((pointed foreign).addresses i.affinity));
}

abbrev pub v1alpha1_runner_spec_traced : Traced V1alpha1HeapRunnerSpec
v1alpha1_runner_spec_traced = record {
  view = λ i. record i {
    id = (pointed plain).view i.id;
    image = (v1alpha1_runner_image_traced).view i.image;
    placement = (v1alpha1_runner_placement_traced).view i.placement;
    resources = (foreign).view i.resources;
    security_context = (pointed foreign).view i.security_context;
    runtime_class_name = (pointed plain).view i.runtime_class_name;
    volumes = (sliced foreign).view i.volumes;
    volume_mounts = (sliced foreign).view i.volume_mounts;
  };
  addresses = λ i.
      (pointed plain).addresses i.id
      ++ ((v1alpha1_runner_image_traced).addresses i.image
          ++ ((v1alpha1_runner_placement_traced).addresses i.placement
              ++ ((foreign).addresses i.resources
                  ++ ((pointed foreign).addresses i.security_context
                      ++ ((pointed plain).addresses i.runtime_class_name
                          ++ ((sliced foreign).addresses i.volumes
                              ++ ((sliced foreign).addresses i.volume_mounts)))))));
}

abbrev pub v1alpha1_runner_status_traced : Traced V1alpha1HeapRunnerStatus
v1alpha1_runner_status_traced = record {
  view = λ i. record i { conditions = (sliced foreign).view i.conditions };
  addresses = λ i. (sliced foreign).addresses i.conditions;
}

abbrev pub v1alpha1_runner_traced : Traced V1alpha1HeapRunner
v1alpha1_runner_traced = record {
  view = λ i. record i {
    object_meta = (foreign).view i.object_meta;
    spec = (v1alpha1_runner_spec_traced).view i.spec;
    status = (v1alpha1_runner_status_traced).view i.status;
  };
  addresses = λ i.
      (foreign).addresses i.object_meta
      ++ ((v1alpha1_runner_spec_traced).addresses i.spec
          ++ ((v1alpha1_runner_status_traced).addresses i.status));
}

abbrev pub v1alpha1_runner_list_traced : Traced V1alpha1HeapRunnerList
v1alpha1_runner_list_traced = record {
  view = λ i. record i {
    list_meta = (foreign).view i.list_meta;
    items = (sliced v1alpha1_runner_traced).view i.items;
  };
  addresses =
      λ i. (foreign).addresses i.list_meta ++ ((sliced v1alpha1_runner_traced).addresses i.items);
}

abbrev pub v1alpha1_runner_template_spec_traced : Traced V1alpha1HeapRunnerTemplateSpec
v1alpha1_runner_template_spec_traced = record {
  view = λ i. record i {
    object_meta = (foreign).view i.object_meta;
    spec = (v1alpha1_runner_spec_traced).view i.spec;
  };
  addresses =
      λ i. (foreign).addresses i.object_meta ++ ((v1alpha1_runner_spec_traced).addresses i.spec);
}

abbrev pub v1alpha1_runner_set_spec_traced : Traced V1alpha1HeapRunnerSetSpec
v1alpha1_runner_set_spec_traced = record {
  view = λ i. record i {
    runners = (pointed plain).view i.runners;
    selector = (foreign).view i.selector;
    template = (v1alpha1_runner_template_spec_traced).view i.template;
  };
  addresses = λ i.
      (pointed plain).addresses i.runners
      ++ ((foreign).addresses i.selector
          ++ ((v1alpha1_runner_template_spec_traced).addresses i.template));
}

abbrev pub v1alpha1_runner_set_status_traced : Traced V1alpha1HeapRunnerSetStatus
v1alpha1_runner_set_status_traced = record {
  view = λ i. record i { conditions = (sliced foreign).view i.conditions };
  addresses = λ i. (sliced foreign).addresses i.conditions;
}

abbrev pub v1alpha1_runner_set_traced : Traced V1alpha1HeapRunnerSet
v1alpha1_runner_set_traced = record {
  view = λ i. record i {
    object_meta = (foreign).view i.object_meta;
    spec = (v1alpha1_runner_set_spec_traced).view i.spec;
    status = (v1alpha1_runner_set_status_traced).view i.status;
  };
  addresses = λ i.
      (foreign).addresses i.object_meta
      ++ ((v1alpha1_runner_set_spec_traced).addresses i.spec
          ++ ((v1alpha1_runner_set_status_traced).addresses i.status));
}

abbrev pub v1alpha1_runner_set_list_traced : Traced V1alpha1HeapRunnerSetList
v1alpha1_runner_set_list_traced = record {
  view = λ i. record i {
    list_meta = (foreign).view i.list_meta;
    items = (sliced v1alpha1_runner_set_traced).view i.items;
  };
  addresses = λ i.
      (foreign).addresses i.list_meta ++ ((sliced v1alpha1_runner_set_traced).addresses i.items);
}
