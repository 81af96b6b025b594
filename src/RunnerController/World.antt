-- ===== src/RunnerController/World.antt =====
-- The calls that the runner controller makes, and the world that answers them.
use octorun.Base.{ℕ, ◌*◌, ◌^◌, Bool, false, Option, List, String, ℤ}
use octorun.Errors.{Error, Answer}
use octorun.Go.{M}
use octorun.Machinery.{Machinery}
use octorun.Patch.{PatchClient}
use octorun.Pods.{ExecOutput}
use octorun.Resources.{ObjectKey, Runner, Pod, Secret}

pub data EventType : Type 0 where
  normal warning : EventType

pub data RunnerCall : Type 0 where
  get_runner : ObjectKey → RunnerCall
  patch_runner patch_runner_status : Runner → RunnerCall
  github_get_runner : String → ℤ → RunnerCall
  create_runner_token : String → RunnerCall
  exec_in : ObjectKey → RunnerCall
  patch_pod : Pod → RunnerCall
  delete_pod delete_secret : ObjectKey → RunnerCall
  event : EventType → String → RunnerCall

-- The getters of client.Runner and client.RunnerToken, on a value that may be nil.
pub record GithubRunner : Type 0 where
  pub busy : Bool
  pub os : String
  pub status : String

pub record RunnerToken : Type 0 where
  pub token : String
  pub expires_at : ℕ

-- Each answer may depend on all calls made so far. `ctrl.CreateOrUpdate` is a parameter that takes
-- the callback of the source: it may read and write the object and make calls of its own, and it
-- has no hold on the Runner.
pub record World : Type 0 where
  pub mach : Machinery
  pub now : List RunnerCall → ℕ
  pub found_runner : List RunnerCall → Answer Runner
  pub client : PatchClient RunnerCall Runner
  pub github_runner : List RunnerCall → GithubRunner × Option Error
  pub runner_token : List RunnerCall → RunnerToken × Option Error
  pub exec : List RunnerCall → ExecOutput
  pub create_or_update_secret : M RunnerCall Secret (Unit {0}) → M RunnerCall Secret (Unit {0})
  pub create_or_update_pod : M RunnerCall Pod (Unit {0}) → M RunnerCall Pod (Unit {0})
  pub patched_pod : List RunnerCall → Option Error
  pub deleted_pod : List RunnerCall → Option Error
  pub deleted_secret : List RunnerCall → Option Error

-- ctrl.Result, with the duration in nanoseconds.
pub record Result : Type 0 where
  pub requeue : Bool
  pub requeue_after : ℕ

abbrev pub done : Result
done = record { requeue = false; requeue_after = 0 }

abbrev pub seconds : ℕ → ℕ
seconds n = n * 10 ^ 9
