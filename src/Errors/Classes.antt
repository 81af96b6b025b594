-- ===== src/Errors/Classes.antt =====
-- How the classes of GitHub errors in pkg/github/errors relate.
use octorun.Base.{ℕ, ◌≡◌, ◌↔◌, Bool, true, false, none, some, arith, ◌+◌, ◌≤◌, if◌then◌else◌}
use octorun.Errors.{
  Error, error_response, Outcome, ok, panic, is_bad_request, is_unauthorized, is_forbidden,
  is_not_found, is_request_timeout, is_conflict, is_gone, is_rete_limit,
}

abbrev pub holds : Bool → ℕ
holds b = if b then 1 else 0

abbrev pub answers : Outcome Bool → Bool
answers (ok b) = b
answers _ = false

-- How many of the eight tests a Go error passes.
abbrev pub class_count : Error → ℕ
class_count e =
    holds (is_rete_limit e)
    + holds (is_bad_request e)
    + holds (is_unauthorized e)
    + holds (answers (is_forbidden e))
    + holds (is_not_found e)
    + holds (is_request_timeout e)
    + holds (is_conflict e)
    + holds (is_gone e)

-- An error passes at most one of the eight tests of the package.
class_count_le : (e : Error) → class_count e ≤ 1
unfolding is_rete_limit is_bad_request is_unauthorized is_forbidden is_not_found is_request_timeout
    is_conflict is_gone
class_count_le Error.rate_limit_error = ground arith
class_count_le (Error.error_response none) = ground arith
class_count_le (Error.error_response (some n)) = ground arith
class_count_le _ = ground arith

-- IsForbidden panics on exactly the ErrorResponse that holds no HTTP response; on every other
-- error it returns, and it returns true on exactly the ErrorResponse with status 403.
is_forbidden_cases :
    (e : Error)
    → ((is_forbidden e ≡ panic) ↔ (e ≡ error_response none))
      × ((is_forbidden e ≡ ok true) ↔ (e ≡ error_response (some 403)))
unfolding is_forbidden
is_forbidden_cases (Error.error_response none) = ground arith
is_forbidden_cases (Error.error_response (some n)) = ground arith
is_forbidden_cases _ = ground arith
