-- ===== src/RunnerSetController/Moves.antt =====
-- What a creation and a deletion of a runner add to the calls of a synchronization, where the API
-- server grants them.
use octorun.Sortable.{less}
use octorun.RunnerSetController.Find.{revision_of}
use octorun.RunnerSetController.Sync.{
  create_one, errors_in, new_runner, own_runner, delete_many, create_many, delete_one, error_count,
}
use octorun.Resources.{
  Runner, RunnerSet, key_of, runner_created_reason, ObjectMeta, OwnerReference,
  label_controller_revision_hash,
}
use octorun.Go.{Session, pure, ◌>>=◌, M, attempt, within, tell, ◌>>◌}
use octorun.Errors.{ok, Outcome, err, new_aggregate, value}
use octorun.Base.{
  ◌≡◌, refl, arith, [], ◌∷◌, none, List, String, ℕ, zero, suc, length, ◌+◌, Bool, true, false,
  count_if, ◌++◌, All, ◌∙◌, subst, find_key-put_key, entries, eq_refl, length-append, All-append,
}
use octorun.Revision.World.{SetCall, SetWorld, delete_runner, create_runner, event}
use mathlib.Core.List.{append_assoc}

-- The runners that were asked to be created, the newest first.
abbrev pub creations : List SetCall → List Runner
creations [] = []
creations (create_runner r ∷ calls) = r ∷ creations calls
creations (_ ∷ calls) = creations calls

abbrev is_deleted : SetCall → Bool
is_deleted (delete_runner _) = true
is_deleted _ = false

-- How many deletions were asked for.
abbrev pub removals : List SetCall → ℕ
removals calls = count_if is_deleted calls

-- What the set wants of a runner: made of its template, for the given revision.
abbrev pub IsMade : RunnerSet → String → Runner → Type 0
IsMade set rev r =
    (revision_of r ≡ rev)
    × (r.meta.namespace ≡ set.meta.namespace)
    × (r.spec ≡ set.spec.template.spec)

-- The API server grants the calls. As documented, CreateOrUpdate of a runner that does not exist, as
-- one whose name is yet to be generated, runs the callback and creates what it leaves, and
-- SetControllerReference of an object without owners changes its owner references alone; deleting a runner succeeds; and the
-- sort keeps the number of runners.
pub record Grants (w : SetWorld) : Type 0 where
  pub creates :
      (f : M SetCall Runner (Unit {0})) (s t : Session SetCall Runner)
      → s.object.meta.name ≡ ""
      → f s ≡ (ok tt, t)
      → ((w.create_or_update_runner f s).0 ≡ ok tt)
        × (creations (w.create_or_update_runner f s).1.calls ≡ t.object ∷ creations t.calls)
        × (removals (w.create_or_update_runner f s).1.calls ≡ removals t.calls)
  pub owners : ObjectMeta → ObjectMeta → List OwnerReference
  pub owns :
      (owner m : ObjectMeta)
      → m.owner_references ≡ []
      → w.mach.set_controller_reference owner m
        ≡ value (record m { owner_references = owners owner m })
  pub deletes : (c : List SetCall) → w.deleted_runner c ≡ none
  pub sorts : (rs : List Runner) → length (w.sort less rs) ≡ length rs

-- The runner that a creation makes.
abbrev pub made_runner : {w : SetWorld} → Grants w → RunnerSet → String → Runner
made_runner g set rev =
    let r = new_runner set rev in
    record r { meta = record (r.meta) { owner_references = g.owners set.meta r.meta } }

pub made_runner-IsMade :
    {w : SetWorld} (g : Grants w) (set : RunnerSet) (rev : String)
    → IsMade set rev (made_runner g set rev)
made_runner-IsMade g set rev = (
  ground (
    arith,
    find_key-put_key label_controller_revision_hash label_controller_revision_hash rev
        (entries set.spec.template.meta.labels),
    eq_refl label_controller_revision_hash,
  ),
  refl,
  refl,
)

own_runner-made :
    {w : SetWorld} (g : Grants w) (set : RunnerSet) (rev : String) (calls : List SetCall)
    → own_runner w set (record { object = new_runner set rev; calls = calls })
      ≡ (ok tt, record { object = made_runner g set rev; calls = calls })
unfolding own_runner
own_runner-made g set rev calls = rw (g.owns set.meta (new_runner set rev).meta refl) refl

-- No error, the set as it was, and these creations and this many removals more.
abbrev pub Moves :
    List Runner → ℕ → Session SetCall RunnerSet → Outcome ℕ × Session SetCall RunnerSet → Type 0
Moves made gone s r =
    (r.0 ≡ ok 0)
    × (r.1.object ≡ s.object)
    × (creations r.1.calls ≡ made ++ creations s.calls)
    × (removals r.1.calls ≡ gone + removals s.calls)

-- What `create_one` makes of a granted creation.
created-Moves :
    (y x : Runner) (r : Outcome (Unit {0}) × Session SetCall Runner) (s : Session SetCall RunnerSet)
    → r.0 ≡ ok tt
    → creations r.1.calls ≡ x ∷ creations s.calls
    → removals r.1.calls ≡ removals s.calls
    → Moves (x ∷ []) 0 s (
        (attempt (within y (λ _. r)) >>= λ a.
        tell (event runner_created_reason) >> pure (errors_in a))
          s)
unfolding errors_in
created-Moves y x (ok _, t) s h c d = (refl, refl, c, ground (arith, d))
created-Moves y x (err e, t) s h c d = ground arith
created-Moves y x (octorun.Errors.panic, t) s h c d = ground arith

create_one-Moves :
    (w : SetWorld) (g : Grants w) (rev : String) (s : Session SetCall RunnerSet)
    → Moves (made_runner g s.object rev ∷ []) 0 s (create_one w rev s)
unfolding create_one
create_one-Moves w g rev s =
    let start : Session SetCall Runner = record {
      object = new_runner s.object rev;
      calls = s.calls;
    } in
    let made : Session SetCall Runner = record {
      object = made_runner g s.object rev;
      calls = s.calls;
    } in
    let granted =
      g.creates (own_runner w s.object) start made refl (own_runner-made g s.object rev s.calls) in
    created-Moves (new_runner s.object rev) (made_runner g s.object rev)
      (w.create_or_update_runner (own_runner w s.object) start) s granted.0 granted.1 granted.2

-- Two parts of a loop, one after the other.
bind-Moves :
    (a c m : List Runner) (b d n : ℕ) (r : Outcome ℕ × Session SetCall RunnerSet)
    (k : M SetCall RunnerSet ℕ) (s : Session SetCall RunnerSet)
    → m ≡ c ++ a
    → n ≡ b + d
    → Moves a b s r
    → ((t : Session SetCall RunnerSet) → t.object ≡ s.object → Moves c d t (k t))
    → Moves m n s (((λ _. r) >>= λ e. k >>= λ es. pure (e + es)) s)
bind-Moves a c m b d n (ok e, t) k s p q h f =
    let rest = f t h.1 in
    let joined = append_assoc c a (creations s.calls) in
    (
      ground (arith, h, rest),
      ground (arith, h, rest),
      ground (arith, p, h, rest, joined),
      ground (arith, q, h, rest),
    )
bind-Moves a c m b d n (err e, t) k s p q h f = ground (arith, h)
bind-Moves a c m b d n (octorun.Errors.panic, t) k s p q h f = ground (arith, h)

abbrev pub copies : ℕ → Runner → List Runner
copies zero x = []
copies (suc n) x = copies n x ++ x ∷ []

pub length-copies : (n : ℕ) (x : Runner) → length (copies n x) ≡ n
length-copies zero x = refl
length-copies (suc n) x = omega (arith, length-append (copies n x) (x ∷ []), length-copies n x)

pub All-copies : (P : Runner → Type 0) (n : ℕ) (x : Runner) → P x → All P (copies n x)
All-copies P zero x p = tt
All-copies P (suc n) x p = All-append P (copies n x) (x ∷ []) (All-copies P n x p) (p, tt)

pub create_many-Moves :
    (n : ℕ) (w : SetWorld) (g : Grants w) (rev : String) (set : RunnerSet)
    (s : Session SetCall RunnerSet)
    → s.object ≡ set
    → Moves (copies n (made_runner g set rev)) 0 s (create_many n w rev s)
unfolding create_many
create_many-Moves zero w g rev set s e = (refl, refl, refl, omega arith)
create_many-Moves (suc n) w g rev set s e =
    bind-Moves (made_runner g set rev ∷ []) (copies n (made_runner g set rev))
      (copies (suc n) (made_runner g set rev)) 0 0 0 (create_one w rev s) (create_many n w rev) s
      refl (omega arith)
      (subst (λ o. Moves (made_runner g o rev ∷ []) 0 s (create_one w rev s)) e
        (create_one-Moves w g rev s))
      (λ t h. create_many-Moves n w g rev set t (h ∙ e))

delete_one-Moves :
    (w : SetWorld)
    → Grants w
    → (r : Runner) (s : Session SetCall RunnerSet) → Moves [] 1 s (delete_one w r s)
unfolding delete_one error_count
delete_one-Moves w g r s = ground (arith, g.deletes (delete_runner (key_of r.meta) ∷ s.calls))

pub delete_many-Moves :
    (w : SetWorld)
    → Grants w
    → (rs : List Runner) (s : Session SetCall RunnerSet)
    → Moves [] (length rs) s (delete_many w rs s)
unfolding delete_many
delete_many-Moves w g [] s = (refl, refl, refl, omega arith)
delete_many-Moves w g (r ∷ rs) s =
    bind-Moves [] [] [] 1 (length rs) (suc (length rs)) (delete_one w r s) (delete_many w rs) s refl
      (omega arith) (delete_one-Moves w g r s) (λ t h. delete_many-Moves w g rs t)
