-- ===== src/Conversion/Complete.antt =====
-- What a scheme has after `RegisterConversions` of api/v1alpha1/zz_generated.conversion.go.
use octorun.Conversion.Items.{list_convert_from-list_convert_to}
use octorun.Go.{Session}
use octorun.Errors.{Error, ok}
use octorun.Go.Sequence.{onto, Ran, Ran-ok, in_order-Ran}
use octorun.Base.{[], ◌∷◌, if◌then◌else◌, refl, none, some, ◌≡◌, ℕ, suc, Option, List, ◌==◌, subst}
use octorun.Conversion.Registration.{
  generated_up, generated_down, written_down, runner_kind, runner_image_kind, runner_list_kind,
  runner_placement_kind, runner_set_kind, runner_set_list_kind, runner_set_spec_kind,
  runner_set_status_kind, runner_spec_kind, runner_status_kind, runner_template_spec_kind,
  Registration, register_conversions, Kind, V1alpha1, V1alpha2, registrations,
  convert_v1alpha2_to_v1alpha1, convert_v1alpha1_to_v1alpha2,
}

kind_number : Kind → ℕ
kind_number runner_kind = 0
kind_number runner_image_kind = 1
kind_number runner_list_kind = 2
kind_number runner_placement_kind = 3
kind_number runner_set_kind = 4
kind_number runner_set_list_kind = 5
kind_number runner_set_spec_kind = 6
kind_number runner_set_status_kind = 7
kind_number runner_spec_kind = 8
kind_number runner_status_kind = 9
kind_number runner_template_spec_kind = 10

-- How often a conversion up, and one down, was registered for the type.
unfoldable pub ups : Kind → List Registration → ℕ
unfolding kind_number
ups k [] = 0
ups k (generated_up j ∷ rs) =
    let rest = ups k rs in if kind_number j == kind_number k then suc rest else rest
ups k (_ ∷ rs) = ups k rs

down_of : Registration → Option Kind
down_of (generated_up j) = none
down_of (generated_down j) = some j
down_of (written_down j) = some j

unfoldable pub downs : Kind → List Registration → ℕ
unfolding kind_number down_of
downs k [] = 0
downs k (r ∷ rs) =
    let rest = downs k rs in
    elim (down_of r) [
      | none ↦ rest
      | some j ↦ if kind_number j == kind_number k then suc rest else rest
    ]

convert_back :
    (k : Kind) (x x' : V1alpha1 k) (out : V1alpha2 k)
    → convert_v1alpha2_to_v1alpha1 k (convert_v1alpha1_to_v1alpha2 k x out) x' ≡ x
convert_back runner_kind x x' out = refl
convert_back runner_image_kind x x' out = refl
convert_back runner_list_kind x x' out = (list_convert_from-list_convert_to).0 x x' out
convert_back runner_placement_kind x x' out = refl
convert_back runner_set_kind x x' out = refl
convert_back runner_set_list_kind x x' out = (list_convert_from-list_convert_to).1 x x' out
convert_back runner_set_spec_kind x x' out = refl
convert_back runner_set_status_kind x x' out = refl
convert_back runner_spec_kind x x' out = refl
convert_back runner_status_kind x x' out = refl
convert_back runner_template_spec_kind x x' out = refl

once :
    (k : Kind) (cs : List Registration)
    → (ups k (onto registrations cs) ≡ suc (ups k cs))
      × (downs k (onto registrations cs) ≡ suc (downs k cs))
unfolding ups downs
once runner_kind cs = (refl, refl)
once runner_image_kind cs = (refl, refl)
once runner_list_kind cs = (refl, refl)
once runner_placement_kind cs = (refl, refl)
once runner_set_kind cs = (refl, refl)
once runner_set_list_kind cs = (refl, refl)
once runner_set_spec_kind cs = (refl, refl)
once runner_set_status_kind cs = (refl, refl)
once runner_spec_kind cs = (refl, refl)
once runner_status_kind cs = (refl, refl)
once runner_template_spec_kind cs = (refl, refl)

-- If RegisterConversions succeeds, then for each of the eleven types it has registered one conversion
-- from v1alpha1 to v1alpha2 and one back, once each, and an object that the first converts into any
-- other is converted back by the second into what it was.
pub register_conversions_complete :
    (scheme : Registration → List Registration → Option Error)
    (s t : Session Registration (Unit {0}))
    → register_conversions scheme s ≡ (ok tt, t)
    → (k : Kind) (x x' : V1alpha1 k) (out : V1alpha2 k)
    → (ups k t.calls ≡ suc (ups k s.calls))
      × (downs k t.calls ≡ suc (downs k s.calls))
      × (convert_v1alpha2_to_v1alpha1 k (convert_v1alpha1_to_v1alpha2 k x out) x' ≡ x)
unfolding register_conversions
register_conversions_complete scheme s t h k x x' out =
    let made =
      Ran-ok scheme registrations s t
        (subst (λ r. Ran scheme registrations s r) h (in_order-Ran scheme registrations s)) in
    let both = once k s.calls in (rw (made) (both.0), rw (made) (both.1), convert_back k x x' out)
