-- ===== src/DeepCopy/V1alpha2/Copies.antt =====
-- api/v1alpha2/zz_generated.deepcopy.go: DeepCopyInto, DeepCopy and DeepCopyObject of each type. What
-- `*out = *in` copies and no later line replaces stays as it is in the record that is given.
use octorun.DeepCopy.V1alpha2.Types.{
  HeapRunnerImage, HeapRunner, HeapRunnerSetList, HeapRunnerSetStatus, HeapRunnerPlacement,
  HeapRunnerSet, HeapRunnerSetSpec, HeapRunnerSpec, HeapRunnerSetUpdateStrategy,
  HeapRunnerTemplateSpec, HeapRunnerList, HeapRunnerStatus,
}
use octorun.DeepCopy.Library.{Library}
use octorun.DeepCopy.Memory.{◌>>=◌, pure, Pointer, Alloc, as_object, copy_slice, copy_pointer}

module _ (lib : Library) where
  unfoldable pub runner_image_deep_copy_into : HeapRunnerImage → Alloc HeapRunnerImage
  runner_image_deep_copy_into i = do
    pull_secrets ← copy_slice pure i.pull_secrets
    pure (record i { pull_secrets = pull_secrets })

  abbrev pub runner_image_deep_copy : Pointer HeapRunnerImage → Alloc (Pointer HeapRunnerImage)
  runner_image_deep_copy = copy_pointer runner_image_deep_copy_into

  unfoldable pub runner_placement_deep_copy_into : HeapRunnerPlacement → Alloc HeapRunnerPlacement
  runner_placement_deep_copy_into i = do
    node_selector ← copy_slice pure i.node_selector
    tolerations ← copy_slice lib.toleration i.tolerations
    affinity ← copy_pointer lib.affinity i.affinity
    pure
        (record i { node_selector = node_selector; tolerations = tolerations; affinity = affinity })

  abbrev pub runner_placement_deep_copy :
      Pointer HeapRunnerPlacement → Alloc (Pointer HeapRunnerPlacement)
  runner_placement_deep_copy = copy_pointer runner_placement_deep_copy_into

  unfoldable pub runner_spec_deep_copy_into : HeapRunnerSpec → Alloc HeapRunnerSpec
  runner_spec_deep_copy_into i = do
    id ← copy_pointer pure i.id
    image ← runner_image_deep_copy_into i.image
    placement ← runner_placement_deep_copy_into i.placement
    resources ← lib.resource_requirements i.resources
    security_context ← copy_pointer lib.security_context i.security_context
    runtime_class_name ← copy_pointer pure i.runtime_class_name
    volumes ← copy_slice lib.volume i.volumes
    volume_mounts ← copy_slice lib.volume_mount i.volume_mounts
    pure (record i {
      id = id;
      image = image;
      placement = placement;
      resources = resources;
      security_context = security_context;
      runtime_class_name = runtime_class_name;
      volumes = volumes;
      volume_mounts = volume_mounts;
    })

  abbrev pub runner_spec_deep_copy : Pointer HeapRunnerSpec → Alloc (Pointer HeapRunnerSpec)
  runner_spec_deep_copy = copy_pointer runner_spec_deep_copy_into

  unfoldable pub runner_status_deep_copy_into : HeapRunnerStatus → Alloc HeapRunnerStatus
  runner_status_deep_copy_into i = do
    conditions ← copy_slice lib.condition i.conditions
    pure (record i { conditions = conditions })

  abbrev pub runner_status_deep_copy : Pointer HeapRunnerStatus → Alloc (Pointer HeapRunnerStatus)
  runner_status_deep_copy = copy_pointer runner_status_deep_copy_into

  unfoldable pub runner_deep_copy_into : HeapRunner → Alloc HeapRunner
  runner_deep_copy_into i = do
    object_meta ← lib.object_meta i.object_meta
    spec ← runner_spec_deep_copy_into i.spec
    status ← runner_status_deep_copy_into i.status
    pure (record i { object_meta = object_meta; spec = spec; status = status })

  abbrev pub runner_deep_copy : Pointer HeapRunner → Alloc (Pointer HeapRunner)
  runner_deep_copy = copy_pointer runner_deep_copy_into

  abbrev pub runner_deep_copy_object : Pointer HeapRunner → Alloc (Pointer HeapRunner)
  runner_deep_copy_object i = runner_deep_copy i >>= as_object

  unfoldable pub runner_list_deep_copy_into : HeapRunnerList → Alloc HeapRunnerList
  runner_list_deep_copy_into i = do
    list_meta ← lib.list_meta i.list_meta
    items ← copy_slice runner_deep_copy_into i.items
    pure (record i { list_meta = list_meta; items = items })

  abbrev pub runner_list_deep_copy : Pointer HeapRunnerList → Alloc (Pointer HeapRunnerList)
  runner_list_deep_copy = copy_pointer runner_list_deep_copy_into

  abbrev pub runner_list_deep_copy_object : Pointer HeapRunnerList → Alloc (Pointer HeapRunnerList)
  runner_list_deep_copy_object i = runner_list_deep_copy i >>= as_object

  unfoldable pub runner_template_spec_deep_copy_into :
      HeapRunnerTemplateSpec → Alloc HeapRunnerTemplateSpec
  runner_template_spec_deep_copy_into i = do
    object_meta ← lib.object_meta i.object_meta
    spec ← runner_spec_deep_copy_into i.spec
    pure (record i { object_meta = object_meta; spec = spec })

  abbrev pub runner_template_spec_deep_copy :
      Pointer HeapRunnerTemplateSpec → Alloc (Pointer HeapRunnerTemplateSpec)
  runner_template_spec_deep_copy = copy_pointer runner_template_spec_deep_copy_into

  unfoldable pub runner_set_update_strategy_deep_copy_into :
      HeapRunnerSetUpdateStrategy → Alloc HeapRunnerSetUpdateStrategy
  runner_set_update_strategy_deep_copy_into i = pure i

  abbrev pub runner_set_update_strategy_deep_copy :
      Pointer HeapRunnerSetUpdateStrategy → Alloc (Pointer HeapRunnerSetUpdateStrategy)
  runner_set_update_strategy_deep_copy = copy_pointer runner_set_update_strategy_deep_copy_into

  unfoldable pub runner_set_spec_deep_copy_into : HeapRunnerSetSpec → Alloc HeapRunnerSetSpec
  runner_set_spec_deep_copy_into i = do
    runners ← copy_pointer pure i.runners
    selector ← lib.label_selector i.selector
    revision_history_limit ← copy_pointer pure i.revision_history_limit
    template ← runner_template_spec_deep_copy_into i.template
    pure (record i {
      runners = runners;
      selector = selector;
      revision_history_limit = revision_history_limit;
      template = template;
    })

  abbrev pub runner_set_spec_deep_copy :
      Pointer HeapRunnerSetSpec → Alloc (Pointer HeapRunnerSetSpec)
  runner_set_spec_deep_copy = copy_pointer runner_set_spec_deep_copy_into

  unfoldable pub runner_set_status_deep_copy_into : HeapRunnerSetStatus → Alloc HeapRunnerSetStatus
  runner_set_status_deep_copy_into i = do
    collision_count ← copy_pointer pure i.collision_count
    conditions ← copy_slice lib.condition i.conditions
    pure (record i { collision_count = collision_count; conditions = conditions })

  abbrev pub runner_set_status_deep_copy :
      Pointer HeapRunnerSetStatus → Alloc (Pointer HeapRunnerSetStatus)
  runner_set_status_deep_copy = copy_pointer runner_set_status_deep_copy_into

  unfoldable pub runner_set_deep_copy_into : HeapRunnerSet → Alloc HeapRunnerSet
  runner_set_deep_copy_into i = do
    object_meta ← lib.object_meta i.object_meta
    spec ← runner_set_spec_deep_copy_into i.spec
    status ← runner_set_status_deep_copy_into i.status
    pure (record i { object_meta = object_meta; spec = spec; status = status })

  abbrev pub runner_set_deep_copy : Pointer HeapRunnerSet → Alloc (Pointer HeapRunnerSet)
  runner_set_deep_copy = copy_pointer runner_set_deep_copy_into

  abbrev pub runner_set_deep_copy_object : Pointer HeapRunnerSet → Alloc (Pointer HeapRunnerSet)
  runner_set_deep_copy_object i = runner_set_deep_copy i >>= as_object

  unfoldable pub runner_set_list_deep_copy_into : HeapRunnerSetList → Alloc HeapRunnerSetList
  runner_set_list_deep_copy_into i = do
    list_meta ← lib.list_meta i.list_meta
    items ← copy_slice runner_set_deep_copy_into i.items
    pure (record i { list_meta = list_meta; items = items })

  abbrev pub runner_set_list_deep_copy :
      Pointer HeapRunnerSetList → Alloc (Pointer HeapRunnerSetList)
  runner_set_list_deep_copy = copy_pointer runner_set_list_deep_copy_into

  abbrev pub runner_set_list_deep_copy_object :
      Pointer HeapRunnerSetList → Alloc (Pointer HeapRunnerSetList)
  runner_set_list_deep_copy_object i = runner_set_list_deep_copy i >>= as_object
