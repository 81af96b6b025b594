-- ===== src/RunnerSetController/Revisions.antt =====
-- RunnerSetRevisioner: the interface of pkg/revision for a RunnerSet, and `Name` of its util.go.
use octorun.Revision.Data.{object_patch, hash}
use octorun.Errors.{panic, ok}
use octorun.Base.{
  [], ◌∷◌, none, some, true, if◌then◌else◌, List, String, ltb, ℤ, Option, entries, str_eq, ◌<>◌,
  assign,
}
use octorun.Go.{M, ◌>>=◌, ◌>>◌, pure, get, ask, check_answer, from_outcome, observe}
use octorun.Resources.{
  ControllerRevision, RunnerSet, label_controller_revision_hash, Raw, empty_meta,
}
use octorun.Revision.World.{SetCall, SetWorld, Revisioner, list_revisions}
use Prim.Native.String.{len, slice}

-- The prefix is cut to 223 bytes.
unfoldable pub revision_name : String → String → String
revision_name prefix hash =
    (if ltb 223 (len prefix) then slice prefix 0 223 else prefix) <> ("-" <> hash)

-- The revision before its name: `Hash` reads its data and the collision count. The reference has the
-- kind that the set's TypeMeta has.
unfoldable pub unnamed : RunnerSet → String → Raw → ℤ → ControllerRevision
unnamed set kind raw rev = record {
  meta = record empty_meta {
    labels = some (entries set.spec.template.meta.labels);
    owner_references =
        record { kind = kind; name = set.meta.name; uid = set.meta.uid; is_controller = true } ∷ [];
  };
  raw = raw;
  object = none;
  revision = rev;
}

unfoldable pub with_name : RunnerSet → String → ControllerRevision → ControllerRevision
unfolding revision_name
with_name set hash r = record r {
  meta = record (r.meta) {
    name = revision_name set.meta.name hash;
    namespace = set.meta.namespace;
    annotations = some (entries set.meta.annotations);
    labels = assign label_controller_revision_hash hash r.meta.labels;
  };
}

unfoldable pub next_revision : SetWorld → ℤ → M SetCall RunnerSet ControllerRevision
unfolding unnamed with_name
next_revision w rev = do
  set ← get
  raw ← from_outcome (object_patch w.codec set)
  kind ← observe w.owner_kind
  let cr = unnamed set kind raw rev
  pure (with_name set (hash w.hasher cr set.status.collision_count) cr)

-- A revision without a controller makes `ref.UID` panic.
unfoldable pub owned_by :
    SetWorld → String → List ControllerRevision → Option (List ControllerRevision)
owned_by w uid [] = some []
owned_by w uid (r ∷ rs) =
    let rest = owned_by w uid rs in
    elim (w.mach.get_controller_of r.meta.owner_references) [
      | none ↦ none
      | some ref ↦ elim rest [
        | none ↦ none
        | some found ↦ if str_eq ref.uid uid then some (r ∷ found) else some found
      ]
    ]

unfoldable pub or_crash : {A : Type 0} → Option A → M SetCall RunnerSet A
or_crash none s = (panic, s)
or_crash (some a) s = (ok a, s)

unfoldable pub list_revision : SetWorld → M SetCall RunnerSet (List ControllerRevision)
unfolding owned_by or_crash
list_revision w = do
  set ← get
  check_answer (w.selector_string set.spec.selector)
  a ← ask (list_revisions set.meta.namespace set.spec.selector) w.listed_revisions
  items ← check_answer a
  or_crash (owned_by w set.meta.uid items)

unfoldable pub runner_set_revisioner : SetWorld → Revisioner
runner_set_revisioner w = record {
  hash_label_key = label_controller_revision_hash;
  next_revision = next_revision w;
  list_revision = list_revision w;
}
