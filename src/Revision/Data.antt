-- ===== src/Revision/Data.antt =====
-- `ObjectPatch` and `Hash` of pkg/revision/util.go: the data of a revision, and the hash in its name.
-- encoding/json, the codec, FNV, spew and SafeEncodeString are not in the repository.
use octorun.Base.{ℕ, ℤ, Option, none, some, List, [], ◌++◌, String, if◌then◌else◌, str_eq}
use octorun.Errors.{Outcome, ok, err, panic, Answer, value, error}
use octorun.Resources.{ControllerRevision, Raw}

-- A decoded JSON value: `other` is any that is neither an object nor a text, in its encoded form.
mutual
  pub data Json : Type 0 where
    object : Fields → Json
    text : String → Json
    other : Raw → Json

  pub data Fields : Type 0 where
    end : Fields
    field : String → Json → Fields → Fields

-- runtime.Encode with the codec, json.Unmarshal into a `map[string]interface{}`, and json.Marshal.
pub record Codec (X : Type 0) : Type 0 where
  pub encode : X → Answer Raw
  pub unmarshal : Raw → Answer Fields
  pub marshal : Fields → Answer Raw

unfoldable pub find_field : String → Fields → Option Json
find_field k end = none
find_field k (field j v rest) = if str_eq j k then some v else find_field k rest

-- `m[k] = v`
unfoldable pub put_field : String → Json → Fields → Fields
put_field k v end = field k v end
put_field k v (field j w rest) =
    if str_eq j k then field j v rest else field j w (put_field k v rest)

-- `x.(map[string]interface{})`, which panics on a nil interface and on any other value.
unfoldable pub as_object : Option Json → Outcome Fields
as_object (some (object m)) = ok m
as_object _ = panic

-- The template, marked to replace the old one as a whole; it is the map that was decoded.
abbrev pub patch_of : Fields → Fields
patch_of template =
    field "spec"
      (object (field "template" (object (put_field "$patch" (text "replace") template)) end)) end

abbrev from_answer : {A : Type 0} → Answer A → Outcome A
from_answer (value a) = ok a
from_answer (error e) = err e

module _ {X : Type 0} (c : Codec X) where
  unfoldable pub on_template : Outcome Fields → Outcome Raw
  on_template (ok template) = from_answer (c.marshal (patch_of template))
  on_template (err e) = err e
  on_template panic = panic

  unfoldable pub on_spec : Outcome Fields → Outcome Raw
  unfolding on_template as_object find_field
  on_spec (ok spec) = on_template (as_object (find_field "template" spec))
  on_spec (err e) = err e
  on_spec panic = panic

  unfoldable pub on_unmarshalled : Answer Fields → Outcome Raw
  unfolding on_spec
  on_unmarshalled (error e) = err e
  on_unmarshalled (value raw) = on_spec (as_object (find_field "spec" raw))

  unfoldable pub on_encoded : Answer Raw → Outcome Raw
  unfolding on_unmarshalled
  on_encoded (error e) = err e
  on_encoded (value data') = on_unmarshalled (c.unmarshal data')

  unfoldable pub object_patch : X → Outcome Raw
  unfolding on_encoded
  object_patch obj = on_encoded (c.encode obj)

-- The sum of the bytes written since the last reset; `dump` is what spew prints of an object.
pub record Hasher : Type 0 where
  pub sum32 : List ℕ → ℕ
  pub bytes : String → List ℕ
  pub dump : Raw → List ℕ
  pub format_int : ℤ → String
  pub sprint : ℕ → String
  pub safe_encode_string : String → String

module _ (h : Hasher) where
  unfoldable pub write_raw : Raw → List ℕ → List ℕ
  write_raw raw hf = if str_eq raw "" then hf else hf ++ h.bytes raw

  -- The reset drops what was written of the raw data.
  unfoldable pub write_object : Option Raw → List ℕ → List ℕ
  write_object none hf = hf
  write_object (some obj) hf = [] ++ h.dump obj

  unfoldable pub write_probe : Option ℤ → List ℕ → List ℕ
  write_probe none hf = hf
  write_probe (some probe) hf = hf ++ h.bytes (h.format_int probe)

  unfoldable pub hash : ControllerRevision → Option ℤ → String
  unfolding write_raw write_object write_probe
  hash revision probe = h.safe_encode_string (
      h.sprint
        (h.sum32 (write_probe probe (write_object revision.object (write_raw revision.raw [])))))
