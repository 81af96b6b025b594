-- ===== src/Pods.antt =====
-- util/pod/condition.go: the readiness of a pod, and util/util.go: the id of the runner in it.
pub mod Laws
pub mod Random
use octorun.Base.{
  ◌≡◌, refl, inl, inr, zero, suc, arith, pos, negsuc, Bool-cases, Option-cases, ℕ, Bool, true,
  false, Option, none, some, List, [], ◌∷◌, String, ℤ, minus_one, str_eq, codes, trim_space,
  parse_int, if◌then◌else◌,
}
use octorun.Errors.{Error, message, Answer, value, error}
use octorun.Resources.{Pod, PodStatus, PodCondition, condition_true, status_eq}

abbrev pub pod_ready : String
pod_ready = "Ready"

-- The loop of `PodCondition`: the first condition of the type.
find_condition : String → List PodCondition → Option PodCondition
find_condition type [] = none
find_condition type (c ∷ cs) = if str_eq c.type type then some c else find_condition type cs

-- `none` for the status is the nil pointer.
unfoldable pub pod_condition : Option PodStatus → String → Option PodCondition
unfolding find_condition
pod_condition none type = none
pod_condition (some status) type = find_condition type status.conditions

condition_is_true : Option PodCondition → Bool
condition_is_true none = false
condition_is_true (some c) = status_eq c.status condition_true

unfoldable pub pod_condition_is_ready : Pod → Bool
unfolding pod_condition condition_is_true
pod_condition_is_ready pod = condition_is_true (pod_condition (some pod.status) pod_ready)

-- What the remote command left: its error, and the two streams.
pub record ExecOutput : Type 0 where
  pub exec_error : Option Error
  pub stdout : String
  pub stderr : String

-- `FindRunnerIDFromPod`, from what `Exec` did; the id that goes with an error is not used.
unfoldable pub runner_id_of : ExecOutput → Answer ℤ
unfolding trim_space parse_int
runner_id_of out = elim out.exec_error [
  | some e ↦ error e
  | none ↦ elim (trim_space (codes out.stderr)) [
    | c ∷ cs ↦ error (message "error executing command")
    | [] ↦ elim (parse_int 64 (trim_space (codes out.stdout))) [
      | none ↦ error (message "invalid syntax")
      | some id ↦ value id
    ]
  ]
]
