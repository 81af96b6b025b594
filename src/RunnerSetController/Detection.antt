-- ===== src/RunnerSetController/Detection.antt =====
-- Which changes of a RunnerSet its revisions tell apart.
use octorun.Errors.{ok}
use octorun.Go.{Session}
use octorun.Revision.Detection.{Encodes, template_patch, object_patch-Encodes}
use octorun.Resources.{RunnerSet, Raw, ControllerRevision, label_controller_revision_hash}
use octorun.Revision.Equality.{is_equal, is_equal-raw, is_equal-same_hash, label_hash-lookup}
use octorun.Revision.Data.{hash, write_raw, write_object, write_probe}
use octorun.RunnerSetController.Revisions.{with_name, unnamed, next_revision}
use octorun.Revision.World.{SetWorld, SetCall}
use octorun.Base.{
  String, ◌≡◌, some, true, refl, ℤ, lookup, ◌↔◌, find_key-put_key, entries, ◌∙◌, sym,
}

-- The revision of a set whose template is encoded in this way.
revision_of : SetWorld → RunnerSet → String → Raw → ℤ → ControllerRevision
revision_of w set kind raw n =
    with_name set (hash w.hasher (unnamed set kind raw n) set.status.collision_count)
      (unnamed set kind raw n)

label_hash-revision_of :
    (w : SetWorld) (set : RunnerSet) (kind : String) (raw : Raw) (n : ℤ)
    → lookup label_controller_revision_hash (revision_of w set kind raw n).meta.labels
      ≡ some (hash w.hasher (unnamed set kind raw n) set.status.collision_count)
unfolding revision_of with_name
label_hash-revision_of w set kind raw n =
    find_key-put_key label_controller_revision_hash label_controller_revision_hash
      (hash w.hasher (unnamed set kind raw n) set.status.collision_count)
      (entries (unnamed set kind raw n).meta.labels)
    ∙ refl

same_hash :
    (w : SetWorld) (set set' : RunnerSet) (kind kind' : String) (raw raw' : Raw) (n n' : ℤ)
    → set.status.collision_count ≡ set'.status.collision_count
    → raw ≡ raw'
    → hash w.hasher (unnamed set kind raw n) set.status.collision_count
      ≡ hash w.hasher (unnamed set' kind' raw' n') set'.status.collision_count
unfolding hash unnamed write_raw write_object write_probe
same_hash w set set' kind kind' raw raw' n n' c e = rw (c, e) refl

is_equal-revision_of :
    (w : SetWorld) (set set' : RunnerSet) (kind kind' : String) (raw raw' : Raw) (n n' : ℤ)
    → set.status.collision_count ≡ set'.status.collision_count
    → (is_equal
          (some (revision_of w set kind raw n))
          (some (revision_of w set' kind' raw' n'))
          label_controller_revision_hash
        ≡ true)
      ↔ (raw ≡ raw')
unfolding revision_of with_name unnamed
is_equal-revision_of w set set' kind kind' raw raw' n n' c = (
  is_equal-raw (revision_of w set kind raw n) (revision_of w set' kind' raw' n')
      label_controller_revision_hash,
  λ e.
      is_equal-same_hash (revision_of w set kind raw n) (revision_of w set' kind' raw' n')
        label_controller_revision_hash
        (label_hash-lookup label_controller_revision_hash (revision_of w set kind raw n)
          (revision_of w set' kind' raw' n')
          (label_hash-revision_of w set kind raw n
            ∙ (rw (same_hash w set set' kind kind' raw raw' n n' c e) refl
                ∙ sym (label_hash-revision_of w set' kind' raw' n'))))
        refl e,
)

next_revision-made :
    (w : SetWorld) (d : Encodes w.codec) (n : ℤ) (s : Session SetCall RunnerSet)
    → next_revision w n s
      ≡ (ok (revision_of w s.object (w.owner_kind s.calls) (template_patch d s.object) n), s)
unfolding next_revision revision_of
next_revision-made w d n s = rw (object_patch-Encodes d s.object) refl

-- If the codec encodes a RunnerSet as documented, then two RunnerSets, or one at two times, have
-- each a next revision, made without a call, and when their collision counts agree these two are
-- equal for IsEqual exactly if their templates have the same patch: the number of runners, the
-- strategy, the selector, the history limit, the metadata and the revision's number play no part.
pub next_revision-detects :
    (w : SetWorld) (d : Encodes w.codec) (n n' : ℤ) (s s' : Session SetCall RunnerSet)
    → s.object.status.collision_count ≡ s'.object.status.collision_count
    → (r : ControllerRevision) × (r' : ControllerRevision) × (next_revision w n s ≡ (ok r, s))
      × (next_revision w n' s' ≡ (ok r', s'))
      × ((is_equal (some r) (some r') label_controller_revision_hash ≡ true)
          ↔ (template_patch d s.object ≡ template_patch d s'.object))
next_revision-detects w d n n' s s' c = (
  revision_of w s.object (w.owner_kind s.calls) (template_patch d s.object) n,
  revision_of w s'.object (w.owner_kind s'.calls) (template_patch d s'.object) n',
  next_revision-made w d n s,
  next_revision-made w d n' s',
  is_equal-revision_of w s.object s'.object (w.owner_kind s.calls) (w.owner_kind s'.calls)
      (template_patch d s.object) (template_patch d s'.object) n n' c,
)
