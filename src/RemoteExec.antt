-- ===== src/RemoteExec.antt =====
-- util/remoteexec: a command that is run in a container of a pod, and the executor of the tests. The
-- Kubernetes client is not in the repository.
pub mod Requests
use octorun.Pods.{ExecOutput, runner_id_of}
use octorun.Base.{
  ◌≡◌, refl, none, inl, inr, zero, suc, arith, if◌then◌else◌, pos, negsuc, Bool-cases, Option-cases,
  [], ◌∷◌, true, false, String, List, Bool, Option, some, ℤ,
}
use octorun.Errors.{Error, Answer, value, error}
use octorun.Resources.{Pod}

-- A stream that is given or nil.
pub record PodExecOptions : Type 0 where
  pub container : String
  pub command : List String
  pub stdin : Bool
  pub stdout : Bool
  pub stderr : Bool

-- A request of the REST client, as it was put together.
pub record Request : Type 0 where
  pub method : String
  pub name : String
  pub namespace : String
  pub resource : String
  pub sub_resource : String
  pub params : PodExecOptions

-- apiutil.GVKForObject and RESTClientForGVK, the URL of a request, NewSPDYExecutor and Stream, which
-- gives what was written to the two streams.
pub record RemoteClient (G R E : Type 0) : Type 0 where
  pub gvk_for_object : Pod → Answer G
  pub rest_client_for_gvk : G → Answer R
  pub url : R → Request → String
  pub new_spdy_executor : String → String → Answer E
  pub stream : E → Bool → ExecOutput

-- What is written when the command was not run.
abbrev pub not_run : Error → ExecOutput
not_run e = record { exec_error = some e; stdout = ""; stderr = "" }

abbrev pub exec_request : Pod → String → List String → Request
exec_request pod container command = record {
  method = "POST";
  name = pod.meta.name;
  namespace = pod.meta.namespace;
  resource = "pods";
  sub_resource = "exec";
  params = record {
    container = container;
    command = command;
    stdin = true;
    stdout = true;
    stderr = true;
  };
}

module _ {G R E : Type 0} (lib : RemoteClient G R E) where
  unfoldable pub on_executor : Answer E → ExecOutput
  on_executor (error e) = not_run e
  on_executor (value exec') = lib.stream exec' false

  unfoldable pub on_rest : Pod → String → List String → Answer R → ExecOutput
  unfolding on_executor
  on_rest pod container command (error e) = not_run e
  on_rest pod container command (value rest) =
      on_executor (lib.new_spdy_executor "POST" (lib.url rest (exec_request pod container command)))

  unfoldable pub on_gvk : Pod → String → List String → Answer G → ExecOutput
  unfolding on_rest
  on_gvk pod container command (error e) = not_run e
  on_gvk pod container command (value gvk) =
      on_rest pod container command (lib.rest_client_for_gvk gvk)

  -- `Exec` with three streams that are given.
  unfoldable pub exec : Pod → String → List String → ExecOutput
  unfolding on_gvk
  exec pod container command = on_gvk pod container command (lib.gvk_for_object pod)

-- The interface RemoteExecutor.
abbrev pub RemoteExecutor : Type 0
RemoteExecutor = Pod → String → List String → ExecOutput

abbrev pub runner_command : List String
runner_command = "bash" ∷ "-c" ∷ "cat .runner | jq .agentId | tr -d '\n'" ∷ []

-- `FindRunnerIDFromPod` of util/util.go, up to what is made of the streams.
unfoldable pub find_runner_id_from_pod : Pod → RemoteExecutor → Answer ℤ
find_runner_id_from_pod pod executor = runner_id_of (executor pod "runner" runner_command)

-- Its buffers are drained by a call.
pub record FakeRemoteExecutor : Type 0 where
  pub out : String
  pub errout : String
  pub execerr : Option Error

unfoldable pub fake_exec : FakeRemoteExecutor → ExecOutput × FakeRemoteExecutor
fake_exec re = (
  record { exec_error = re.execerr; stdout = re.out; stderr = re.errout },
  record re { out = ""; errout = "" },
)
