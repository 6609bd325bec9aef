-- ===== src/Patches.antt =====
-- cloudcoil/patches.py: the JSON Patch between two values, and the guarded one between two snapshots
-- of a resource. A recursion of `visit` goes one dictionary down, so it takes the height as fuel.
pub mod Pointers
mod Keys
pub mod Application
pub mod Agreement
mod Located
pub mod Edits
pub mod RoundTrip
pub mod Guards
mod Tests
use cloudcoil.Base.{
  ℕ, zero, suc, Bool, true, false, not, ◌&&◌, ◌||◌, Option, none, some, List, [], ◌∷◌, ◌++◌,
  if◌then◌else◌, ◌==◌,
}
use cloudcoil.Base.Json.{
  Text, codes, text_discrete, text_leb, equal_texts, equal_options, Json, string, dict, Fields,
  is_finite, same_dumps, height,
}
use cloudcoil.Base.Json.Objects.{lookup, keys}
use cloudcoil.Base.Results.{value_error, Result, ok, raise_if, ◌>>=◌, ◌>>◌}
use cloudcoil.Base.Sets.{insert}

pub data Operation : Type 0 where
  remove : Text → Operation
  add replace test : Text → Json → Operation

-- `text.replace(c, by)` for one character
unfoldable pub replace_all : ℕ → Text → Text → Text
replace_all c by [] = []
replace_all c by (d ∷ s) = let rest = replace_all c by s in if d == c then by ++ rest else d ∷ rest

-- `key.replace('~', '~0').replace('/', '~1')`
unfoldable pub escape : Text → Text
unfolding replace_all
escape key = replace_all b'/' (b'~' ∷ b'1' ∷ []) (replace_all b'~' (b'~' ∷ b'0' ∷ []) key)

-- `f"{path}/{escaped key}"`
unfoldable pub pointer : Text → Text → Text
pointer path key = path ++ b'/' ∷ escape key

unfoldable pub place : Text → List Text → List Text
place k [] = k ∷ []
place k (j ∷ ks) = if text_leb k j then k ∷ j ∷ ks else j ∷ place k ks

unfoldable pub sorted : List Text → List Text
unfolding place
sorted [] = []
sorted (k ∷ ks) = place k (sorted ks)

unfoldable pub as_set : List Text → List Text
as_set [] = []
as_set (k ∷ ks) = insert text_discrete k (as_set ks)

-- `old.keys() | new.keys()`
unfoldable pub union : List Text → List Text → List Text
unfolding as_set
union ks js = as_set (ks ++ js)

-- One round of the loop of `visit`, with the recursive call as an argument
unfoldable pub visit_key :
    (Json → Json → Text → List Operation) → Fields → Fields → Text → Text → List Operation
visit_key visit old new path key = elim (lookup key new) [
  | none ↦ remove (pointer path key) ∷ []
  | some v ↦ elim (lookup key old) [
    | none ↦ add (pointer path key) v ∷ []
    | some u ↦ visit u v (pointer path key)
  ]
]

unfoldable pub visit_keys :
    (Json → Json → Text → List Operation) → Fields → Fields → Text → List Text → List Operation
visit_keys visit old new path [] = []
visit_keys visit old new path (key ∷ rest) =
    visit_key visit old new path key ++ visit_keys visit old new path rest

unfoldable pub replaced : Json → Json → Text → List Operation
replaced old new path = if same_dumps old new then [] else replace path new ∷ []

unfoldable pub visit : ℕ → Json → Json → Text → List Operation
visit zero old new path = []
visit (suc fuel) (dict old) (dict new) path =
    visit_keys (visit fuel) old new path (sorted (union (keys old) (keys new)))
visit (suc fuel) old new path = replaced old new path

unfoldable pub json_patch : Json → Json → Result (List Operation)
json_patch before after =
    raise_if (not (is_finite before)) value_error
    >> raise_if (not (is_finite after)) value_error
    >> ok (visit (suc (height before)) before after [])

-- What `diff` reads of a resource; without metadata there is neither UID nor version.
pub record Resource : Type 0 where
  pub gvk : Text
  pub name : Option Text
  pub namespace : Option Text
  pub uid : Option Text
  pub resource_version : Option Text
  -- `model_dump(mode="json", by_alias=True, exclude_none=True)`
  pub dump : Json

abbrev pub is_set : Option Text → Bool
is_set (some (c ∷ s)) = true
is_set other = false

-- "/metadata/uid" and "/metadata/resourceVersion"
abbrev pub uid_path : Text
uid_path = codes "/metadata/uid"

abbrev pub version_path : Text
version_path = codes "/metadata/resourceVersion"

abbrev pub text_of : Option Text → Text
text_of none = []
text_of (some t) = t

unfoldable pub guards : Resource → List Operation
guards r =
    test uid_path (string (text_of r.uid))
    ∷ test version_path (string (text_of r.resource_version))
    ∷ []

abbrev pub guarded : Resource → List Operation → List Operation
guarded r [] = []
guarded r (op ∷ ops) = guards r ++ op ∷ ops

-- The three tests of `diff`, and the patch without its guards
unfoldable pub changes : Resource → Resource → Result (List Operation)
changes before after =
    raise_if
      (not (equal_texts before.gvk after.gvk)
        || not (
            equal_options before.name after.name && equal_options before.namespace after.namespace))
      value_error
    >> raise_if (not (is_set before.uid) || not (is_set before.resource_version)) value_error
    >> raise_if
        (not (equal_options after.uid before.uid)
          || not (equal_options after.resource_version before.resource_version))
        value_error
    >> json_patch before.dump after.dump

unfoldable pub diff : Resource → Resource → Result (List Operation)
diff before after = changes before after >>= λ patch. ok (guarded before patch)
