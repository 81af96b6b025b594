-- ===== src/Hooks/World.antt =====
-- The events that the hook is given, and the calls that it makes.
use octorun.Errors.{Answer, Error}
use octorun.Machinery.{Machinery}
use octorun.Base.{String, ℤ, Option, List, ℕ}
use octorun.Resources.{Runner, ObjectKey}

-- The getters of github.WorkflowJobEvent, whose `Repo` may be nil.
pub record Repository : Type 0 where
  pub owner_type : String
  pub owner_url : String
  pub url : String

pub record WorkflowJobEvent : Type 0 where
  pub action : String
  pub runner_id : ℤ
  pub runner_name : String
  pub runner_group : String
  pub repo : Option Repository

pub data Event : Type 0 where
  workflow_job_event : WorkflowJobEvent → Event
  other_event : Event

pub data HookCall : Type 0 where
  list_by_index : String → HookCall
  get_by_key : ObjectKey → HookCall
  patch_hooked : Runner → HookCall

-- strconv.Itoa and base64.StdEncoding are parameters too.
pub record HookWorld : Type 0 where
  pub mach : Machinery
  pub itoa : ℤ → String
  pub encode : String → String
  pub now : List HookCall → ℕ
  pub listed : List HookCall → Answer (List Runner)
  pub found : List HookCall → Answer Runner
  pub patched : List HookCall → Option Error
