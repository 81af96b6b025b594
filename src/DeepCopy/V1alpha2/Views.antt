-- ===== src/DeepCopy/V1alpha2/Views.antt =====
-- How the copies of api/v1alpha2/zz_generated.deepcopy.go are looked at.
use octorun.DeepCopy.Library.{foreign}
use octorun.DeepCopy.V1alpha2.Types.{
  HeapRunnerImage, HeapRunner, HeapRunnerSetList, HeapRunnerSetStatus, HeapRunnerPlacement,
  HeapRunnerSet, HeapRunnerSetSpec, HeapRunnerSpec, HeapRunnerSetUpdateStrategy,
  HeapRunnerTemplateSpec, HeapRunnerList, HeapRunnerStatus,
}
use octorun.DeepCopy.Deep.{Traced, plain, pointed, sliced}
use octorun.Base.{◌++◌}

abbrev pub runner_image_traced : Traced HeapRunnerImage
runner_image_traced = record {
  view = λ i. record i { pull_secrets = (sliced plain).view i.pull_secrets };
  addresses = λ i. (sliced plain).addresses i.pull_secrets;
}

abbrev pub runner_placement_traced : Traced HeapRunnerPlacement
runner_placement_traced = record {
  view = λ i. record i {
    node_selector = (sliced plain).view i.node_selector;
    tolerations = (sliced foreign).view i.tolerations;
    affinity = (pointed foreign).view i.affinity;
  };
  addresses = λ i.
      (sliced plain).addresses i.node_selector
      ++ ((sliced foreign).addresses i.tolerations ++ ((pointed foreign).addresses i.affinity));
}

abbrev pub runner_spec_traced : Traced HeapRunnerSpec
runner_spec_traced = record {
  view = λ i. record i {
    id = (pointed plain).view i.id;
    image = (runner_image_traced).view i.image;
    placement = (runner_placement_traced).view i.placement;
    resources = (foreign).view i.resources;
    security_context = (pointed foreign).view i.security_context;
    runtime_class_name = (pointed plain).view i.runtime_class_name;
    volumes = (sliced foreign).view i.volumes;
    volume_mounts = (sliced foreign).view i.volume_mounts;
  };
  addresses = λ i.
      (pointed plain).addresses i.id
      ++ ((runner_image_traced).addresses i.image
          ++ ((runner_placement_traced).addresses i.placement
              ++ ((foreign).addresses i.resources
                  ++ ((pointed foreign).addresses i.security_context
                      ++ ((pointed plain).addresses i.runtime_class_name
                          ++ ((sliced foreign).addresses i.volumes
                              ++ ((sliced foreign).addresses i.volume_mounts)))))));
}

abbrev pub runner_status_traced : Traced HeapRunnerStatus
runner_status_traced = record {
  view = λ i. record i { conditions = (sliced foreign).view i.conditions };
  addresses = λ i. (sliced foreign).addresses i.conditions;
}

abbrev pub runner_traced : Traced HeapRunner
runner_traced = record {
  view = λ i. record i {
    object_meta = (foreign).view i.object_meta;
    spec = (runner_spec_traced).view i.spec;
    status = (runner_status_traced).view i.status;
  };
  addresses = λ i.
      (foreign).addresses i.object_meta
      ++ ((runner_spec_traced).addresses i.spec ++ ((runner_status_traced).addresses i.status));
}

abbrev pub runner_list_traced : Traced HeapRunnerList
runner_list_traced = record {
  view = λ i. record i {
    list_meta = (foreign).view i.list_meta;
    items = (sliced runner_traced).view i.items;
  };
  addresses = λ i. (foreign).addresses i.list_meta ++ ((sliced runner_traced).addresses i.items);
}

abbrev pub runner_template_spec_traced : Traced HeapRunnerTemplateSpec
runner_template_spec_traced = record {
  view = λ i. record i {
    object_meta = (foreign).view i.object_meta;
    spec = (runner_spec_traced).view i.spec;
  };
  addresses = λ i. (foreign).addresses i.object_meta ++ ((runner_spec_traced).addresses i.spec);
}

abbrev pub runner_set_update_strategy_traced : Traced HeapRunnerSetUpdateStrategy
runner_set_update_strategy_traced = plain

abbrev pub runner_set_spec_traced : Traced HeapRunnerSetSpec
runner_set_spec_traced = record {
  view = λ i. record i {
    runners = (pointed plain).view i.runners;
    selector = (foreign).view i.selector;
    revision_history_limit = (pointed plain).view i.revision_history_limit;
    template = (runner_template_spec_traced).view i.template;
  };
  addresses = λ i.
      (pointed plain).addresses i.runners
      ++ ((foreign).addresses i.selector
          ++ ((pointed plain).addresses i.revision_history_limit
              ++ ((runner_template_spec_traced).addresses i.template)));
}

abbrev pub runner_set_status_traced : Traced HeapRunnerSetStatus
runner_set_status_traced = record {
  view = λ i. record i {
    collision_count = (pointed plain).view i.collision_count;
    conditions = (sliced foreign).view i.conditions;
  };
  addresses =
      λ i. (pointed plain).addresses i.collision_count ++ ((sliced foreign).addresses i.conditions);
}

abbrev pub runner_set_traced : Traced HeapRunnerSet
runner_set_traced = record {
  view = λ i. record i {
    object_meta = (foreign).view i.object_meta;
    spec = (runner_set_spec_traced).view i.spec;
    status = (runner_set_status_traced).view i.status;
  };
  addresses = λ i.
      (foreign).addresses i.object_meta
      ++ ((runner_set_spec_traced).addresses i.spec
          ++ ((runner_set_status_traced).addresses i.status));
}

abbrev pub runner_set_list_traced : Traced HeapRunnerSetList
runner_set_list_traced = record {
  view = λ i. record i {
    list_meta = (foreign).view i.list_meta;
    items = (sliced runner_set_traced).view i.items;
  };
  addresses =
      λ i. (foreign).addresses i.list_meta ++ ((sliced runner_set_traced).addresses i.items);
}
