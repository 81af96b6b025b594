-- ===== src/Revision/World.antt =====
-- The calls that the RunnerSet controller and the revision package make, and the world that answers
-- them. Answers may depend on all calls made so far; one that returns an object is what the API
-- server stored, and overwrites the object that was sent.
use octorun.Revision.Data.{Codec, Hasher}
use octorun.Patch.{PatchClient}
use octorun.Go.{M}
use octorun.Machinery.{Machinery}
use octorun.Base.{List, String, ℤ, Dict, Option, Bool}
use octorun.Errors.{Error, Answer}
use octorun.Resources.{ObjectKey, Runner, RunnerSet, ControllerRevision, Raw}

pub data SetCall : Type 0 where
  get_set : ObjectKey → SetCall
  patch_set patch_set_status : RunnerSet → SetCall
  list_runners : String → Dict → SetCall
  patch_runner : Runner → SetCall
  -- the creation that ctrl.CreateOrUpdate asks for
  create_runner : Runner → SetCall
  delete_runner : ObjectKey → SetCall
  list_revisions : String → Raw → SetCall
  create_revision update_revision : ControllerRevision → SetCall
  get_revision delete_revision : ObjectKey → SetCall
  event : String → SetCall

-- `retry.RetryOnConflict` and `ctrl.CreateOrUpdate` take the callback of the source.
pub record SetWorld : Type 0 where
  pub mach : Machinery
  pub found_set : List SetCall → Answer RunnerSet
  pub client : PatchClient SetCall RunnerSet
  -- metav1.LabelSelectorAsSelector, by what its `String()` and `Matches` are, and LabelSelectorAsMap
  pub selector_string : Raw → Answer String
  pub selector_map : Raw → Answer Dict
  pub listed_runners : List SetCall → Answer (List Runner)
  pub patched_runner : List SetCall → Answer Runner
  pub deleted_runner : List SetCall → Option Error
  -- the Kind of the owner's TypeMeta: what the answers so far left in it, maybe the empty text
  pub owner_kind : List SetCall → String
  pub create_or_update_runner : M SetCall Runner (Unit {0}) → M SetCall Runner (Unit {0})
  -- sort.Sort with a `Less` of two items
  pub sort : (Runner → Runner → Bool) → List Runner → List Runner
  -- the conversions of the owner to and from its unstructured form
  pub to_unstructured : RunnerSet → Option Error
  pub from_unstructured : RunnerSet → Option Error
  pub listed_revisions : List SetCall → Answer (List ControllerRevision)
  pub created_revision : List SetCall → Answer ControllerRevision
  pub updated_revision : List SetCall → Answer ControllerRevision
  pub got_revision : List SetCall → Answer ControllerRevision
  pub deleted_revision : List SetCall → Option Error
  pub retry_on_conflict :
      M SetCall ControllerRevision (Unit {0}) → M SetCall ControllerRevision (Unit {0})
  pub codec : Codec RunnerSet
  pub hasher : Hasher

-- The interface Revisioner of pkg/revision/revision.go, for a RunnerSet as the owner.
pub record Revisioner : Type 0 where
  pub hash_label_key : String
  pub next_revision : ℤ → M SetCall RunnerSet ControllerRevision
  pub list_revision : M SetCall RunnerSet (List ControllerRevision)
