-- ===== src/Lib.antt =====
-- Verification of octorun, the Kubernetes operator that runs self-hosted GitHub Actions runners.
--
-- The program. A RunnerSet asks for a number of Runners; a Runner owns a pod, in which the GitHub
-- runner works, and a secret with its registration token. Two controllers reconcile them: they read
-- an object, ask the API server, GitHub and the pod, and send back what changed. The revision package
-- keeps the history of a RunnerSet's template, webhooks admit the objects, and a hook makes a runner's
-- controller look again when GitHub starts a job: its events come to a webhook server. The client
-- for GitHub signs in as an app or with a personal token. Objects of an older API version are
-- converted, and a collector turns the objects into metrics. The entry point makes a manager, adds the
-- controllers, the webhooks, the server and the collector to it, and starts it.
--
-- Which file models which part:
--   * Resources: the types of api/v1alpha2 and of the Kubernetes objects that are owned. `Runner`,
--     `RunnerSet`, `Pod`, `Secret` and `ControllerRevision` are records with the source's fields.
--   * RunnerController: controllers/runner_controller.go. `reconcile` is Reconcile, of which
--     `reconcile_runner` is the body, `await_job` and `delete_resources` the two ways of a deletion,
--     `refresh_token` and `refresh_last_token` the callbacks on the secret, and `reconcile_status` is
--     reconcileStatus; `secret_for_runner` and `pod_for_runner` make the owned objects.
--   * RunnerSetController: controllers/runnerset_controller.go. `find_runners`, `sync_runners` and
--     `adopt_runner` have the source's names, Revisions is RunnerSetRevisioner.
--   * Revision: pkg/revision. `make_history`, `truncate_history`, `is_equal`, `find_equal` and
--     `next_revision_number`; Data is `object_patch` and `hash`, Detection what they tell apart;
--     CreateRound and CreateLoop are about the loop of MakeHistory, `create_loop`.
--   * Webhooks: webhooks/. Defaults, validation and the pattern of the URL.
--   * Hooks: hooks/github_hook.go. `process_workflow_job_event` and `trigger_runner_reconciliation`.
--   * Client: pkg/github. Credentials is New of client/client.go with client/token.go, Runners is
--     client/action_client.go, Server is webhook/, Serving its Start, and Github is github.go with
--     options.go. `token` is Token, `serve_http` ServeHTTP, `with_handler` WithHandler.
--   * Conversion: api/v1alpha1. Types holds its types, named after their version; `runner_to_v1alpha2`
--     of Up is Convert_v1alpha1_Runner_To_v1alpha2_Runner with the function that it calls, and so on;
--     Down is the way back; Zero holds the objects that a new slice is filled with, and Registration
--     is RegisterConversions.
--   * DeepCopy: the generated deep copies of api/v1alpha2 and api/v1alpha1, on values that hold
--     addresses: `runner_deep_copy_into` is DeepCopyInto of Runner, and so on. Memory is the state of
--     an allocation, Deep and Separate what it is for a copy to be deep.
--   * Setup: main.go with every SetupWithManager; `main` is the body of main. RemoteExec:
--     util/remoteexec.
--   * Metrics: metrics/ and pkg/statemetrics. Family is the types of the collector, Scrape its two
--     methods, Runners and RunnerSets the families of the providers, Shared and Names metrics/util.go.
--   * Patch, Annotations, Pods, Sortable: util/patch, util/annotations, util/pod with util/util.go,
--     util/sortable.
--   * Errors: pkg/github/errors, with the errors of the API server that the code tells apart.
--   * Go: how a method is modelled, as a state monad with errors and panics; Machinery: the pure
--     functions of the Kubernetes libraries, as parameters; Base: numbers, lists, maps and texts.
--   * Examples: concrete objects and worlds at which the theorems are applied.
--
-- How it is modelled. A method works on the object that it holds a pointer to, and on a list of
-- the calls made so far. Each answer of the API server, of GitHub, of the clock or of a pod is
-- any function of that list, so nothing is assumed of what others do in between. CreateOrUpdate,
-- RetryOnConflict and the sort are parameters that take the source's callback. The kind in the
-- TypeMeta of a RunnerSet is a function of the calls too, since only answers fill it. A call
-- that returns an object overwrites the one that was sent. A panic is an outcome of its own. A
-- call of GitHub gives a value and an error, as in the source, where the value is used in spite
-- of an error.
--
-- Bounds. A map is the list of its entries in the order of a visit; texts are walked as code points.
-- Fields that are only copied are encoded texts of type `Raw`, and equality of encoded values stands
-- for reflect.DeepEqual. Times are nanoseconds. The `int32` counters of a status count the runners
-- of one set and are natural numbers; the revision numbers, the collision count and the parsed
-- integers keep their width. The loop of MakeHistory has no
-- bound in the source, so `create_loop` and what calls it take a number of rounds, any number, and
-- `none` says that the loop has not ended by then.
--
-- Start of the webhook server is a relation between states of its two threads, with one constructor
-- for each thing that either of them, net/http or the caller can do next. A deep copy works on values
-- with addresses and a counter of the addresses in use, since what counts there is what is shared.
--
-- Not modelled: logging; the mocks; init of main.go, which fills the scheme; the getters of
-- pkg/github. The libraries are parameters: controller-runtime, client-go, encoding/json and the
-- codecs, FNV and spew, url.Parse, jwt, HTTP, go-github, Prometheus, math/rand and the arithmetic of
-- floats.
pub mod Base
pub mod Errors
pub mod Go
pub mod Resources
pub mod Machinery
pub mod Annotations
pub mod Pods
pub mod Patch
pub mod Sortable
pub mod RunnerController
pub mod Revision
pub mod RunnerSetController
pub mod Webhooks
pub mod Hooks
pub mod Metrics
pub mod Conversion
pub mod Client
pub mod DeepCopy
pub mod Setup
pub mod RemoteExec
pub mod Examples
