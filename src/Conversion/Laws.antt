-- ===== src/Conversion/Laws.antt =====
-- What a conversion between two versions promises, stated without the fields: v1alpha1 is a view
-- of v1alpha2.
use octorun.Base.{◌≡◌, refl}
use octorun.Conversion.Up.{runner_convert_to, runner_set_convert_to}
use octorun.Conversion.Down.{runner_convert_from, runner_set_convert_from}

-- `put` writes a view into an object, `get` reads the view of an object over an older view.
pub record IsView {H V : Type 0} (put : V → H → H) (get : V → H → V) : Type 0 where
  pub get_put : (v v' : V) (h : H) → get v' (put v h) ≡ v
  pub put_get : (v : V) (h : H) → put (get v h) h ≡ h
  pub put_put : (v v' : V) (h : H) → put v' (put v h) ≡ put v' h
  pub get_old : (v v' : V) (h : H) → get v h ≡ get v' h

-- ConvertTo and ConvertFrom of Runner and of RunnerSet make v1alpha1 a view of v1alpha2: an object
-- that is converted to v1alpha2 and back is the object it was, an object of v1alpha2 that is
-- converted to v1alpha1 and back into itself keeps every field, the last of two conversions into
-- one object counts, and converting to v1alpha1 leaves nothing of the object it writes to.
pub convert-IsView :
    IsView runner_convert_to runner_convert_from
    × IsView runner_set_convert_to runner_set_convert_from
convert-IsView = (
  record {
    get_put = λ _ _ _. refl;
    put_get = λ _ _. refl;
    put_put = λ _ _ _. refl;
    get_old = λ _ _ _. refl;
  },
  record {
    get_put = λ _ _ _. refl;
    put_get = λ _ _. refl;
    put_put = λ _ _ _. refl;
    get_old = λ _ _ _. refl;
  },
)
