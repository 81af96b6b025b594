-- ===== src/Revision/Detection.antt =====
-- When `MakeHistory` of pkg/revision/revision.go sees a change: the next revision of a RunnerSet, and
-- `IsEqual` on it.
use octorun.Revision.Numbers.{next_revision_number, less}
use octorun.Go.{Session}
use octorun.Revision.World.{SetWorld, Revisioner, SetCall}
use octorun.Errors.{value, ok}
use octorun.Resources.{RunnerSet, ControllerRevision, Raw, RunnerTemplateSpec}
use octorun.Revision.History.{make_history, by_equal, settle, collision_count_of}
use octorun.Base.{
  List, last?, ℕ, String, ◌≡◌, some, ◌∷◌, true, arith, Bool-cases, none, inl, inr, sort_stable,
}
use octorun.Base.{[], ◌∷◌, refl, inl, inr}
use octorun.Revision.Data.{
  object, Fields, Codec, find_field, object_patch, patch_of, on_encoded, on_unmarshalled, on_spec,
  on_template, as_object,
}
use octorun.Revision.Equality.{is_equal, find_equal, is_equal_refl}

-- Documented of the codec and of encoding/json: a RunnerSet is encoded as an object whose `spec` has
-- the encoded template under `template`, and a decoded value can be encoded again.
pub record Encodes (c : Codec RunnerSet) : Type 0 where
  pub template : RunnerTemplateSpec → Fields
  pub raw : RunnerSet → Raw
  pub fields : RunnerSet → Fields
  pub spec : RunnerSet → Fields
  pub marshalled : Fields → Raw
  pub encodes : (set : RunnerSet) → c.encode set ≡ value (raw set)
  pub decodes : (set : RunnerSet) → c.unmarshal (raw set) ≡ value (fields set)
  pub has_spec : (set : RunnerSet) → find_field "spec" (fields set) ≡ some (object (spec set))
  pub has_template :
      (set : RunnerSet)
      → find_field "template" (spec set) ≡ some (object (template set.spec.template))
  pub marshals : (m : Fields) → c.marshal m ≡ value (marshalled m)

abbrev pub template_patch : {c : Codec RunnerSet} → Encodes c → RunnerSet → Raw
template_patch d set = d.marshalled (patch_of (d.template set.spec.template))

pub object_patch-Encodes :
    {c : Codec RunnerSet} (d : Encodes c) (set : RunnerSet)
    → object_patch c set ≡ ok (template_patch d set)
unfolding object_patch on_encoded on_unmarshalled on_spec on_template as_object
object_patch-Encodes d set =
    rw (d.encodes set, d.decodes set, d.has_spec set, d.has_template set, d.marshals _) refl

last-cons : {A : Type 0} (x y : A) (xs : List A) → last? xs ≡ some y → last? (x ∷ xs) ≡ some y
last-cons x y [] h = ground (arith, h)
last-cons x y (z ∷ zs) h = h

last-find_equal :
    (rs : List ControllerRevision) (newest needle : ControllerRevision) (key : String)
    → last? rs ≡ some newest
    → is_equal (some newest) (some needle) key ≡ true
    → last? (find_equal rs needle key) ≡ some newest
unfolding find_equal
last-find_equal [] newest needle key l e = ground (arith, l)
last-find_equal (r ∷ []) newest needle key l e = ground (arith, l, e)
last-find_equal (r ∷ q ∷ rs) newest needle key l e =
    let rest = last-find_equal (q ∷ rs) newest needle key l e in
    elim (Bool-cases (is_equal (some r) (some needle) key)) [
      | inl h ↦ rw h (last-cons r newest (find_equal (q ∷ rs) needle key) rest)
      | inr h ↦ rw h rest
    ]

-- If the owner is read, the newest revision listed is equal to the next one, and the listing and the
-- making of the next one succeed, then the history is left alone: for every number of rounds the
-- result is that of settling the status on the newest revision, with no call made after those two.
pub make_history-quiet :
    (fuel : ℕ) (w : SetWorld) (r : Revisioner) (s t u : Session SetCall RunnerSet)
    (listed : List ControllerRevision) (next newest : ControllerRevision)
    → w.to_unstructured s.object ≡ none
    → r.list_revision s ≡ (ok listed, t)
    → r.next_revision (next_revision_number (sort_stable less listed)) t ≡ (ok next, u)
    → last? (sort_stable less listed) ≡ some newest
    → is_equal (some newest) (some next) r.hash_label_key ≡ true
    → make_history fuel w r s
      ≡ settle w
          (sort_stable less listed)
          (some (newest, collision_count_of s.object.status.collision_count))
          u
unfolding make_history by_equal
make_history-quiet fuel w r s t u listed next newest c l n h e =
    let revisions = sort_stable less listed in
    let collision = collision_count_of s.object.status.collision_count in
    let is_newest = last-find_equal revisions newest next r.hash_label_key h e in
    let same = is_equal_refl r.hash_label_key (some newest) in
    ground (arith, is_newest, same, c, l, n, h, e)
