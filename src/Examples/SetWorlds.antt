-- ===== src/Examples/SetWorlds.antt =====
-- A RunnerSet, revisions, and a world in which every call succeeds.
use octorun.Patch.{PatchClient}
use octorun.Go.{Session, M}
use octorun.Base.{[], ◌∷◌, ◌<>◌, some, none, pos, List, String, sort_stable, ℤ, codes}
use octorun.Errors.{value, Outcome, ok}
use octorun.Resources.{
  Runner, RunnerSet, empty_meta, rolling_update, idle, active, label_controller_revision_hash,
  ControllerRevision,
}
use octorun.Revision.World.{SetWorld, SetCall, patch_set, patch_set_status, create_runner}
use octorun.Revision.Data.{field, object, end, text, other, Json, Fields, Codec}
use octorun.Examples.Worlds.{machinery, runner_spec, runner_in, unstructured}

abbrev pub runner_set : RunnerSet
runner_set = record {
  meta = record empty_meta { name = "set-a"; namespace = "ci"; uid = "s1" };
  spec = record {
    runners = some (pos 1);
    selector = "app=ci";
    update_strategy = rolling_update;
    revision_history_limit = some (pos 1);
    template = record { meta = empty_meta; spec = runner_spec };
  };
  status = record {
    runners = 0;
    idle_runners = 0;
    active_runners = 0;
    current_revision = "r1";
    next_revision = "r1";
    collision_count = none;
    conditions = [];
    selector = "";
  };
}

abbrev pub revision : String → ℤ → ControllerRevision
revision name n = record {
  meta = record empty_meta { name = name; namespace = "ci" };
  raw = name;
  object = none;
  revision = n;
}

abbrev pub set_session : RunnerSet → Session SetCall RunnerSet
set_session s = record { object = s; calls = [] }

abbrev pub labelled : Runner → Runner
labelled r = record r {
  meta = record (r.meta) { labels = some ((label_controller_revision_hash, "r1") ∷ []) };
}

abbrev pub two_runners : List Runner
two_runners = labelled (runner_in active) ∷ labelled (runner_in idle) ∷ []

abbrev pub set_client : PatchClient SetCall RunnerSet
set_client = record {
  convert = λ s. value unstructured;
  patch_call = patch_set;
  patch_answer = λ c. value runner_set;
  status_call = patch_set_status;
  status_answer = λ c. value runner_set;
}

-- An encoding that keeps of a RunnerSet the URL in its template.
unfoldable mutual
  pub shown : Json → String
  shown (object m) = "{" <> (flat m <> "}")
  shown (text t) = t
  shown (other r) = r

  pub flat : Fields → String
  flat end = ""
  flat (field k v rest) = k <> (":" <> (shown v <> ("," <> flat rest)))

abbrev pub url_codec : Codec RunnerSet
url_codec = record {
  encode = λ s. value s.spec.template.spec.url;
  unmarshal = λ d.
      value (field "spec" (object (field "template" (object (field "url" (text d) end)) end)) end);
  marshal = λ m. value (flat m);
}

-- The name of a new runner is generated, so it is never found: the callback runs, and if it succeeds
-- the object that it leaves is created.
abbrev created_after :
    Outcome (Unit {0}) → Session SetCall Runner → Outcome (Unit {0}) × Session SetCall Runner
created_after (ok _) s = (ok tt, record s { calls = create_runner s.object ∷ s.calls })
created_after r s = (r, s)

abbrev create_with : M SetCall Runner (Unit {0}) → M SetCall Runner (Unit {0})
create_with f s = let (r, t) = f s in created_after r t

abbrev pub set_world : SetWorld
set_world = record {
  mach = machinery;
  found_set = λ c. value runner_set;
  client = set_client;
  selector_string = λ s. value s;
  selector_map = λ s. value [];
  listed_runners = λ c. value two_runners;
  patched_runner = λ c. value (labelled (runner_in idle));
  deleted_runner = λ c. none;
  owner_kind = λ c. "RunnerSet";
  create_or_update_runner = create_with;
  sort = λ less rs. sort_stable less rs;
  to_unstructured = λ s. none;
  from_unstructured = λ s. none;
  listed_revisions =
      λ c. value (revision "r1" (pos 1) ∷ revision "r2" (pos 2) ∷ revision "r3" (pos 3) ∷ []);
  created_revision = λ c. value (revision "r4" (pos 4));
  updated_revision = λ c. value (revision "r1" (pos 4));
  got_revision = λ c. value (revision "r1" (pos 4));
  deleted_revision = λ c. none;
  retry_on_conflict = λ f s. f s;
  codec = url_codec;
  hasher = record {
    sum32 = λ b. 7;
    bytes = λ t. codes t;
    dump = λ o. codes o;
    format_int = λ n. "1";
    sprint = λ n. "7";
    safe_encode_string = λ t. "hash";
  };
}
