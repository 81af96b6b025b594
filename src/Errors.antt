-- ===== src/Errors.antt =====
-- pkg/github/errors/errors.go: the classes of errors that the controllers tell apart. An error of
-- the Kubernetes API carries a reason, one of go-github the HTTP response that it was made from.
pub mod Classes
use octorun.Base.{
  [], ◌∷◌, ◌≡◌, refl, inl, inr, arith, if◌then◌else◌, pos, negsuc, Bool-cases, Option-cases, ℕ,
  zero, suc, Bool, true, false, Option, none, some, String, ◌==◌,
}

-- The reasons of `apierrors.StatusError` that the code asks for.
pub data Reason : Type 0 where
  not_found already_exists conflict other_reason : Reason

-- `error_response` is `*github.ErrorResponse`, with the status code of its `Response` unless that
-- pointer is nil; `aggregate` is what `kerrors.NewAggregate` makes of that many errors, and `message`
-- is an error of any other type.
pub data Error : Type 0 where
  api_status : Reason → Error
  rate_limit_error : Error
  error_response : Option ℕ → Error
  aggregate : ℕ → Error
  message : String → Error

-- The result of a call: a value, a Go `error`, or a run-time panic.
pub data Outcome (A : Type 0) : Type 0 where
  ok : A → Outcome A
  err : Error → Outcome A
  panic : Outcome A

abbrev pub is_ok : {A : Type 0} → Outcome A → Bool
is_ok (ok _) = true
is_ok _ = false

-- What a call of another component gives back.
pub data Answer (A : Type 0) : Type 0 where
  value : A → Answer A
  error : Error → Answer A

-- `kerrors.NewAggregate` of a list with this many errors; that of no error is nil.
abbrev pub new_aggregate : ℕ → Option Error
new_aggregate zero = none
new_aggregate (suc n) = some (aggregate (suc n))

-- `apierrors.IsNotFound`, `IsAlreadyExists` and `IsConflict`, as documented: the reason decides.
abbrev pub api_is_not_found : Error → Bool
api_is_not_found (api_status Reason.not_found) = true
api_is_not_found _ = false

abbrev pub api_is_already_exists : Error → Bool
api_is_already_exists (api_status Reason.already_exists) = true
api_is_already_exists _ = false

abbrev pub api_is_conflict : Error → Bool
api_is_conflict (api_status Reason.conflict) = true
api_is_conflict _ = false

-- `client.IgnoreNotFound(err)`, as documented; `none` is a nil error.
abbrev pub ignore_not_found : Option Error → Option Error
ignore_not_found none = none
ignore_not_found (some (api_status Reason.not_found)) = none
ignore_not_found (some e) = some e

unfoldable pub is_rete_limit : Error → Bool
is_rete_limit rate_limit_error = true
is_rete_limit _ = false

-- `none` is the nil `*http.Response`.
unfoldable pub parse_error_response : Error → Option ℕ
parse_error_response (error_response r) = r
parse_error_response _ = none

-- The common shape of the tests that go through `parseErrorResponse`.
abbrev has_status : ℕ → Option ℕ → Bool
has_status code none = false
has_status code (some status) = status == code

unfoldable pub is_bad_request : Error → Bool
unfolding parse_error_response
is_bad_request e = has_status 400 (parse_error_response e)

unfoldable pub is_unauthorized : Error → Bool
unfolding parse_error_response
is_unauthorized e = has_status 401 (parse_error_response e)

-- This one reads `rerr.Response.StatusCode` with no test for nil.
unfoldable pub is_forbidden : Error → Outcome Bool
is_forbidden (error_response (some status)) = ok (status == 403)
is_forbidden (error_response none) = panic
is_forbidden _ = ok false

unfoldable pub is_not_found : Error → Bool
unfolding parse_error_response
is_not_found e = has_status 404 (parse_error_response e)

unfoldable pub is_request_timeout : Error → Bool
unfolding parse_error_response
is_request_timeout e = has_status 408 (parse_error_response e)

unfoldable pub is_conflict : Error → Bool
unfolding parse_error_response
is_conflict e = has_status 409 (parse_error_response e)

unfoldable pub is_gone : Error → Bool
unfolding parse_error_response
is_gone e = has_status 410 (parse_error_response e)
