-- ===== src/Machinery.antt =====
-- What the controllers take from k8s.io/apimachinery, controller-runtime and the standard library's
-- clock format, none of which is in this repository: pure functions, as parameters of the model.
use octorun.Base.{ℕ, Bool, Option, List, String}
use octorun.Errors.{Answer}
use octorun.Resources.{ObjectMeta, OwnerReference, Condition}

pub record Machinery : Type 0 where
  -- ctrl.SetControllerReference(owner, object, scheme): the object's metadata with the reference
  pub set_controller_reference : ObjectMeta → ObjectMeta → Answer ObjectMeta
  -- metav1.GetControllerOf and metav1.IsControlledBy, by the owner references and the owner's uid
  pub get_controller_of : List OwnerReference → Option OwnerReference
  pub is_controlled_by : List OwnerReference → String → Bool
  -- meta.SetStatusCondition
  pub set_status_condition : Condition → List Condition → List Condition
  -- controllerutil.AddFinalizer and RemoveFinalizer
  pub add_finalizer : String → List String → List String
  pub remove_finalizer : String → List String → List String
  -- time.Time's Format and time.Parse with the layout time.RFC3339
  pub format_time : ℕ → String
  pub parse_time : String → Option ℕ
