-- ===== src/RemoteExec/Requests.antt =====
-- Which requests `Exec` of util/remoteexec/pod_remoteexec.go makes.
use octorun.RemoteExec.{
  RemoteClient, Pod, find_runner_id_from_pod, on_rest, on_gvk, on_executor, exec, exec_request,
  runner_command, not_run,
}
use octorun.Base.{false, arith, ◌≡◌, refl, ℤ, ◌≢◌}
use octorun.Errors.{value, error, Error, Answer}
use octorun.Pods.{runner_id_of, ExecOutput}

module _ {G R E : Type 0} (lib : RemoteClient G R E) (pod : Pod) where
  -- The streams of the runner's command, where the client has carried it out in the pod.
  abbrev pub IsAnswered : ExecOutput → Type 0
  IsAnswered out =
      (gvk : G) × (rest : R) × (executor : E) × (lib.gvk_for_object pod ≡ value gvk)
      × (lib.rest_client_for_gvk gvk ≡ value rest)
      × (lib.new_spdy_executor "POST" (lib.url rest (exec_request pod "runner" runner_command))
          ≡ value executor)
      × (out ≡ lib.stream executor false)

  failed : (e : Error) (id : ℤ) → runner_id_of (not_run e) ≢ value id
  unfolding runner_id_of
  failed e id h = ground (arith, h)

  IsAnswered-on_executor :
      (gvk : G) (rest : R) (a : Answer E) (id : ℤ)
      → lib.gvk_for_object pod ≡ value gvk
      → lib.rest_client_for_gvk gvk ≡ value rest
      → lib.new_spdy_executor "POST" (lib.url rest (exec_request pod "runner" runner_command)) ≡ a
      → runner_id_of (on_executor lib a) ≡ value id
      → IsAnswered (on_executor lib a)
  unfolding on_executor
  IsAnswered-on_executor gvk rest (error e) id g r x h = absurd (failed e id h)
  IsAnswered-on_executor gvk rest (value executor) id g r x h = (gvk, rest, executor, g, r, x, refl)

  IsAnswered-on_rest :
      (gvk : G) (a : Answer R) (id : ℤ)
      → lib.gvk_for_object pod ≡ value gvk
      → lib.rest_client_for_gvk gvk ≡ a
      → runner_id_of (on_rest lib pod "runner" runner_command a) ≡ value id
      → IsAnswered (on_rest lib pod "runner" runner_command a)
  unfolding on_rest
  IsAnswered-on_rest gvk (error e) id g r h = absurd (failed e id h)
  IsAnswered-on_rest gvk (value rest) id g r h = IsAnswered-on_executor gvk rest _ id g r refl h

  IsAnswered-on_gvk :
      (a : Answer G) (id : ℤ)
      → lib.gvk_for_object pod ≡ a
      → runner_id_of (on_gvk lib pod "runner" runner_command a) ≡ value id
      → IsAnswered (on_gvk lib pod "runner" runner_command a)
  unfolding on_gvk
  IsAnswered-on_gvk (error e) id g h = absurd (failed e id h)
  IsAnswered-on_gvk (value gvk) id g h = IsAnswered-on_rest gvk _ id g refl h

  -- FindRunnerIDFromPod finds an id with the executor of the pods only if the client resolved the
  -- pod's kind, made a connection for it, and streamed the command that was posted to the exec
  -- resource of that very pod, in its container `runner`, with the three streams attached; and the
  -- id is what those streams give.
  pub find_runner_id_from_pod-IsAnswered :
      (id : ℤ)
      → find_runner_id_from_pod pod (exec lib) ≡ value id
      → (out : ExecOutput) × IsAnswered out × (runner_id_of out ≡ value id)
  unfolding find_runner_id_from_pod exec
  find_runner_id_from_pod-IsAnswered id h =
      (exec lib pod "runner" runner_command, IsAnswered-on_gvk _ id refl h, h)
