-- ===== src/Patch.antt =====
-- util/patch/patch.go: sends to the API server what a reconciliation changed, the status apart from
-- the rest, which is a subresource. An object is compared in its unstructured form.
pub mod Laws
use octorun.Base.{
  [], ◌∷◌, ◌≡◌, refl, inl, inr, zero, suc, arith, pos, negsuc, Bool-cases, Option-cases, ℕ, ◌+◌,
  Bool, true, false, not, ◌&&◌, ◌||◌, Option, none, some, List, str_eq, is_some, if◌then◌else◌,
}
use octorun.Errors.{Error, ok, Answer, value, error, new_aggregate}
use octorun.Go.{branch, M, ◌>>=◌, ◌>>◌, pure, get, modify, ask, check, check_answer}
use octorun.Resources.{Raw}

-- An unstructured object without its status, and the status if it has one.
pub record Unstructured : Type 0 where
  pub rest : Raw
  pub status : Option Raw

-- `status` is `beforeStatus`, and present when `beforeHasStatus`.
pub record Patcher : Type 0 where
  pub before : Raw
  pub before_status : Option Raw

unfoldable pub new_patcher : Answer Unstructured → Answer Patcher
new_patcher (value u) = value (record { before = u.rest; before_status = u.status })
new_patcher (error e) = error e

-- The client as the patcher uses it: the conversion, and the two calls with their answers, in which
-- the API server returns the object that it stored.
pub record PatchClient (C X : Type 0) : Type 0 where
  pub convert : X → Answer Unstructured
  pub patch_call : X → C
  pub patch_answer : List C → Answer X
  pub status_call : X → C
  pub status_answer : List C → Answer X

-- `reflect.DeepEqual` on the two statuses.
abbrev pub same_status : Option Raw → Option Raw → Bool
same_status none none = true
same_status (some a) (some b) = str_eq a b
same_status _ _ = false

-- The tests of `Patch` before its two calls.
abbrev pub rest_changed : Patcher → Unstructured → Bool
rest_changed p after = not (str_eq p.before after.rest)

abbrev pub status_changed : Patcher → Unstructured → Bool
status_changed p after =
    (is_some p.before_status || is_some after.status)
    && not (same_status p.before_status after.status)

module _ {C X : Type 0} where
  -- An answer overwrites the object that was sent; an error is counted.
  took : Answer X → M C X ℕ
  took (value stored) s = (ok 0, record s { object = stored })
  took (error e) s = (ok 1, s)

  send : (X → C) → (List C → Answer X) → M C X ℕ
  unfolding took
  send call answer = do obj ← get; a ← ask (call obj) answer; took a

  send_if : Bool → (X → C) → (List C → Answer X) → M C X ℕ
  unfolding send
  send_if b call answer = branch b (send call answer) (pure 0)

  unfoldable pub patch : PatchClient C X → Patcher → M C X (Unit {0})
  unfolding send_if
  patch client p = do
    obj ← get
    after ← check_answer (client.convert obj)
    failed ← send_if (rest_changed p after) client.patch_call client.patch_answer
    failed_status ← send_if (status_changed p after) client.status_call client.status_answer
    check (new_aggregate (failed + failed_status))
