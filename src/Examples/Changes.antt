-- ===== src/Examples/Changes.antt =====
-- A RunnerSet that is scaled, and its revisions.
use octorun.RunnerSetController.Detection.{next_revision-detects}
use octorun.Revision.History.{make_history, settle, collision_count_of}
use octorun.Errors.{ok}
use octorun.Revision.Equality.{is_equal, label_hash}
use octorun.Revision.Numbers.{less, next_revision_number}
use octorun.Examples.SetWorlds.{runner_set, revision, url_codec, set_world, set_session, flat}
use octorun.Revision.World.{Revisioner}
use octorun.Revision.Detection.{Encodes, template_patch, make_history-quiet}
use octorun.Resources.{ControllerRevision, RunnerSet, label_controller_revision_hash}
use octorun.RunnerSetController.Revisions.{next_revision}
use octorun.Revision.Data.{field, end, object, text, find_field}
use octorun.Base.{[], ◌∷◌, ◌≡◌, true, pos, refl, some, sort_stable, ◌↔◌, find_key}

url_encoding : Encodes url_codec
unfolding find_field
url_encoding = record {
  template = λ t. field "url" (text t.spec.url) end;
  raw = λ s. s.spec.template.spec.url;
  fields = λ s.
      field "spec"
        (object (field "template" (object (field "url" (text s.spec.template.spec.url) end)) end))
        end;
  spec = λ s. field "template" (object (field "url" (text s.spec.template.spec.url) end)) end;
  marshalled = flat;
  encodes = λ s. refl;
  decodes = λ s. refl;
  has_spec = λ s. refl;
  has_template = λ s. refl;
  marshals = λ m. refl;
}

abbrev scaled : RunnerSet
scaled = record runner_set { spec = record (runner_set.spec) { runners = some (pos 7) } }

next_revision-detects_example :
    (r : ControllerRevision) × (r' : ControllerRevision) × (next_revision set_world
        (pos 4)
        (set_session runner_set)
      ≡ (ok r, set_session runner_set))
    × (next_revision set_world (pos 5) (set_session scaled) ≡ (ok r', set_session scaled))
    × ((is_equal (some r) (some r') label_controller_revision_hash ≡ true)
        ↔ (template_patch url_encoding runner_set ≡ template_patch url_encoding scaled))
next_revision-detects_example =
    next_revision-detects set_world url_encoding (pos 4) (pos 5) (set_session runner_set)
      (set_session scaled) refl

abbrev newest : ControllerRevision
newest = record (revision "r3" (pos 3)) { raw = "{}" }

abbrev recorded : Revisioner
recorded = record {
  hash_label_key = label_controller_revision_hash;
  next_revision = λ n s. (ok (record newest { revision = n }), s);
  list_revision = λ s. (ok (newest ∷ revision "r1" (pos 1) ∷ []), s);
}

make_history-quiet_example :
    make_history 0 set_world recorded (set_session runner_set)
    ≡ settle set_world
        (sort_stable less (newest ∷ revision "r1" (pos 1) ∷ []))
        (some (newest, collision_count_of runner_set.status.collision_count))
        (set_session runner_set)
unfolding sort_stable less is_equal label_hash next_revision_number find_key
make_history-quiet_example =
    make_history-quiet 0 set_world recorded (set_session runner_set) (set_session runner_set)
      (set_session runner_set) (newest ∷ revision "r1" (pos 1) ∷ [])
      (record newest { revision = pos 4 }) newest refl refl refl refl refl
