-- ===== src/DeepCopy/V1alpha1/Copies.antt =====
-- api/v1alpha1/zz_generated.deepcopy.go: DeepCopyInto, DeepCopy and DeepCopyObject of each type. What
-- `*out = *in` copies and no later line replaces stays as it is in the record that is given.
use octorun.DeepCopy.V1alpha1.Types.{
  V1alpha1HeapRunnerPlacement, V1alpha1HeapRunnerSetStatus, V1alpha1HeapRunnerImage,
  V1alpha1HeapRunnerSpec, V1alpha1HeapRunnerStatus, V1alpha1HeapRunnerTemplateSpec,
  V1alpha1HeapRunnerList, V1alpha1HeapRunner, V1alpha1HeapRunnerSetSpec, V1alpha1HeapRunnerSet,
  V1alpha1HeapRunnerSetList,
}
use octorun.DeepCopy.Library.{Library}
use octorun.DeepCopy.Memory.{◌>>=◌, pure, Pointer, Alloc, as_object, copy_slice, copy_pointer}

module _ (lib : Library) where
  unfoldable pub v1alpha1_runner_image_deep_copy_into :
      V1alpha1HeapRunnerImage → Alloc V1alpha1HeapRunnerImage
  v1alpha1_runner_image_deep_copy_into i = do
    pull_secrets ← copy_slice pure i.pull_secrets
    pure (record i { pull_secrets = pull_secrets })

  abbrev pub v1alpha1_runner_image_deep_copy :
      Pointer V1alpha1HeapRunnerImage → Alloc (Pointer V1alpha1HeapRunnerImage)
  v1alpha1_runner_image_deep_copy = copy_pointer v1alpha1_runner_image_deep_copy_into

  unfoldable pub v1alpha1_runner_placement_deep_copy_into :
      V1alpha1HeapRunnerPlacement → Alloc V1alpha1HeapRunnerPlacement
  v1alpha1_runner_placement_deep_copy_into i = do
    node_selector ← copy_slice pure i.node_selector
    tolerations ← copy_slice lib.toleration i.tolerations
    affinity ← copy_pointer lib.affinity i.affinity
    pure
        (record i { node_selector = node_selector; tolerations = tolerations; affinity = affinity })

  abbrev pub v1alpha1_runner_placement_deep_copy :
      Pointer V1alpha1HeapRunnerPlacement → Alloc (Pointer V1alpha1HeapRunnerPlacement)
  v1alpha1_runner_placement_deep_copy = copy_pointer v1alpha1_runner_placement_deep_copy_into

  unfoldable pub v1alpha1_runner_spec_deep_copy_into :
      V1alpha1HeapRunnerSpec → Alloc V1alpha1HeapRunnerSpec
  v1alpha1_runner_spec_deep_copy_into i = do
    id ← copy_pointer pure i.id
    image ← v1alpha1_runner_image_deep_copy_into i.image
    placement ← v1alpha1_runner_placement_deep_copy_into i.placement
    resources ← lib.resource_requirements i.resources
    security_context ← copy_pointer lib.security_context i.security_context
    runtime_class_name ← copy_pointer pure i.runtime_class_name
    volumes ← copy_slice lib.volume i.volumes
    volume_mounts ← copy_slice lib.volume_mount i.volume_mounts
    pure (record i {
      id = id;
      image = image;
      placement = placement;
      resources = resources;
      security_context = security_context;
      runtime_class_name = runtime_class_name;
      volumes = volumes;
      volume_mounts = volume_mounts;
    })

  abbrev pub v1alpha1_runner_spec_deep_copy :
      Pointer V1alpha1HeapRunnerSpec → Alloc (Pointer V1alpha1HeapRunnerSpec)
  v1alpha1_runner_spec_deep_copy = copy_pointer v1alpha1_runner_spec_deep_copy_into

  unfoldable pub v1alpha1_runner_status_deep_copy_into :
      V1alpha1HeapRunnerStatus → Alloc V1alpha1HeapRunnerStatus
  v1alpha1_runner_status_deep_copy_into i = do
    conditions ← copy_slice lib.condition i.conditions
    pure (record i { conditions = conditions })

  abbrev pub v1alpha1_runner_status_deep_copy :
      Pointer V1alpha1HeapRunnerStatus → Alloc (Pointer V1alpha1HeapRunnerStatus)
  v1alpha1_runner_status_deep_copy = copy_pointer v1alpha1_runner_status_deep_copy_into

  unfoldable pub v1alpha1_runner_deep_copy_into : V1alpha1HeapRunner → Alloc V1alpha1HeapRunner
  v1alpha1_runner_deep_copy_into i = do
    object_meta ← lib.object_meta i.object_meta
    spec ← v1alpha1_runner_spec_deep_copy_into i.spec
    status ← v1alpha1_runner_status_deep_copy_into i.status
    pure (record i { object_meta = object_meta; spec = spec; status = status })

  abbrev pub v1alpha1_runner_deep_copy :
      Pointer V1alpha1HeapRunner → Alloc (Pointer V1alpha1HeapRunner)
  v1alpha1_runner_deep_copy = copy_pointer v1alpha1_runner_deep_copy_into

  abbrev pub v1alpha1_runner_deep_copy_object :
      Pointer V1alpha1HeapRunner → Alloc (Pointer V1alpha1HeapRunner)
  v1alpha1_runner_deep_copy_object i = v1alpha1_runner_deep_copy i >>= as_object

  unfoldable pub v1alpha1_runner_list_deep_copy_into :
      V1alpha1HeapRunnerList → Alloc V1alpha1HeapRunnerList
  v1alpha1_runner_list_deep_copy_into i = do
    list_meta ← lib.list_meta i.list_meta
    items ← copy_slice v1alpha1_runner_deep_copy_into i.items
    pure (record i { list_meta = list_meta; items = items })

  abbrev pub v1alpha1_runner_list_deep_copy :
      Pointer V1alpha1HeapRunnerList → Alloc (Pointer V1alpha1HeapRunnerList)
  v1alpha1_runner_list_deep_copy = copy_pointer v1alpha1_runner_list_deep_copy_into

  abbrev pub v1alpha1_runner_list_deep_copy_object :
      Pointer V1alpha1HeapRunnerList → Alloc (Pointer V1alpha1HeapRunnerList)
  v1alpha1_runner_list_deep_copy_object i = v1alpha1_runner_list_deep_copy i >>= as_object

  unfoldable pub v1alpha1_runner_template_spec_deep_copy_into :
      V1alpha1HeapRunnerTemplateSpec → Alloc V1alpha1HeapRunnerTemplateSpec
  v1alpha1_runner_template_spec_deep_copy_into i = do
    object_meta ← lib.object_meta i.object_meta
    spec ← v1alpha1_runner_spec_deep_copy_into i.spec
    pure (record i { object_meta = object_meta; spec = spec })

  abbrev pub v1alpha1_runner_template_spec_deep_copy :
      Pointer V1alpha1HeapRunnerTemplateSpec → Alloc (Pointer V1alpha1HeapRunnerTemplateSpec)
  v1alpha1_runner_template_spec_deep_copy =
      copy_pointer v1alpha1_runner_template_spec_deep_copy_into

  unfoldable pub v1alpha1_runner_set_spec_deep_copy_into :
      V1alpha1HeapRunnerSetSpec → Alloc V1alpha1HeapRunnerSetSpec
  v1alpha1_runner_set_spec_deep_copy_into i = do
    runners ← copy_pointer pure i.runners
    selector ← lib.label_selector i.selector
    template ← v1alpha1_runner_template_spec_deep_copy_into i.template
    pure (record i { runners = runners; selector = selector; template = template })

  abbrev pub v1alpha1_runner_set_spec_deep_copy :
      Pointer V1alpha1HeapRunnerSetSpec → Alloc (Pointer V1alpha1HeapRunnerSetSpec)
  v1alpha1_runner_set_spec_deep_copy = copy_pointer v1alpha1_runner_set_spec_deep_copy_into

  unfoldable pub v1alpha1_runner_set_status_deep_copy_into :
      V1alpha1HeapRunnerSetStatus → Alloc V1alpha1HeapRunnerSetStatus
  v1alpha1_runner_set_status_deep_copy_into i = do
    conditions ← copy_slice lib.condition i.conditions
    pure (record i { conditions = conditions })

  abbrev pub v1alpha1_runner_set_status_deep_copy :
      Pointer V1alpha1HeapRunnerSetStatus → Alloc (Pointer V1alpha1HeapRunnerSetStatus)
  v1alpha1_runner_set_status_deep_copy = copy_pointer v1alpha1_runner_set_status_deep_copy_into

  unfoldable pub v1alpha1_runner_set_deep_copy_into :
      V1alpha1HeapRunnerSet → Alloc V1alpha1HeapRunnerSet
  v1alpha1_runner_set_deep_copy_into i = do
    object_meta ← lib.object_meta i.object_meta
    spec ← v1alpha1_runner_set_spec_deep_copy_into i.spec
    status ← v1alpha1_runner_set_status_deep_copy_into i.status
    pure (record i { object_meta = object_meta; spec = spec; status = status })

  abbrev pub v1alpha1_runner_set_deep_copy :
      Pointer V1alpha1HeapRunnerSet → Alloc (Pointer V1alpha1HeapRunnerSet)
  v1alpha1_runner_set_deep_copy = copy_pointer v1alpha1_runner_set_deep_copy_into

  abbrev pub v1alpha1_runner_set_deep_copy_object :
      Pointer V1alpha1HeapRunnerSet → Alloc (Pointer V1alpha1HeapRunnerSet)
  v1alpha1_runner_set_deep_copy_object i = v1alpha1_runner_set_deep_copy i >>= as_object

  unfoldable pub v1alpha1_runner_set_list_deep_copy_into :
      V1alpha1HeapRunnerSetList → Alloc V1alpha1HeapRunnerSetList
  v1alpha1_runner_set_list_deep_copy_into i = do
    list_meta ← lib.list_meta i.list_meta
    items ← copy_slice v1alpha1_runner_set_deep_copy_into i.items
    pure (record i { list_meta = list_meta; items = items })

  abbrev pub v1alpha1_runner_set_list_deep_copy :
      Pointer V1alpha1HeapRunnerSetList → Alloc (Pointer V1alpha1HeapRunnerSetList)
  v1alpha1_runner_set_list_deep_copy = copy_pointer v1alpha1_runner_set_list_deep_copy_into

  abbrev pub v1alpha1_runner_set_list_deep_copy_object :
      Pointer V1alpha1HeapRunnerSetList → Alloc (Pointer V1alpha1HeapRunnerSetList)
  v1alpha1_runner_set_list_deep_copy_object i = v1alpha1_runner_set_list_deep_copy i >>= as_object
