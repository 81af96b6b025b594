-- ===== src/Patch/Laws.antt =====
-- Which calls a patch makes, and what each of them carries.
use octorun.Base.{String, ◌≡◌, refl, true, ◌∷◌, arith, eq_refl, none, some, Option}
use octorun.Errors.{value, ok}
use octorun.Go.{Session}
use octorun.Patch.{
  Unstructured, Patcher, new_patcher, PatchClient, rest_changed, status_changed, patch, same_status,
}

same_status_refl : (o : Option String) → same_status o o ≡ true
same_status_refl none = refl
same_status_refl (some t) = eq_refl t

module _ {C X : Type 0} (client : PatchClient C X) where
  -- A patcher made from an object and applied to an object with the same unstructured form makes no
  -- call, reports no error and changes nothing.
  pub patch_unchanged :
      (p : Patcher) (u : Unstructured) (s : Session C X)
      → new_patcher (value u) ≡ value p
      → client.convert s.object ≡ value u
      → patch client p s ≡ (ok tt, s)
  unfolding patch new_patcher
  patch_unchanged p u s made same = ground (arith, eq_refl u.rest, same_status_refl u.status)

  -- When both the status and the rest changed and the server accepts the patch, the status
  -- call carries the object that the server returned, not the one with the new status.
  pub patch_both :
      (p : Patcher) (u : Unstructured) (stored : X) (s : Session C X)
      → client.convert s.object ≡ value u
      → rest_changed p u ≡ true
      → status_changed p u ≡ true
      → client.patch_answer (client.patch_call s.object ∷ s.calls) ≡ value stored
      → (patch client p s).1.calls
        ≡ client.status_call stored ∷ client.patch_call s.object ∷ s.calls
  unfolding patch
  patch_both p u stored s c r t a = ground arith
