-- ===== src/Controller/Children.antt =====
-- cloudcoil/controller/_children.py: `_merge` on JSON objects and `ensure`, which ends with what it asks
-- of the API. What pydantic makes of a child and what the API finds are arguments.
pub mod Merge
pub mod Ownership
mod Tests
use cloudcoil.Base.{
  Bool, true, false, not, ◌&&◌, ◌||◌, Option, none, some, List, [], ◌∷◌, is_empty, if◌then◌else◌,
  ◌==◌,
}
use cloudcoil.Base.Json.{
  Text, codes, equal_texts, equal_options, Json, null, dict, Fields, end, field,
}
use cloudcoil.Base.Json.Objects.{lookup, put, pop}
use cloudcoil.Base.Results.{
  value_error, runtime_error, terminal_error, assertion_error, Result, ok, raise, raise_if, ◌>>=◌,
  ◌>>◌,
}
use cloudcoil.Controller.Events.{or_else, is_set}
use cloudcoil.Patches as Patches
use cloudcoil.Patches.{Operation, diff}

-- `current.get(key)` if it is a dict
abbrev pub dict_of : Option Json → Option Fields
dict_of (some (dict d)) = some d
dict_of other = none

unfoldable pub merge : Fields → Fields → Fields
merge current end = current
merge current (field key null desired) = merge (pop key current) desired
merge current (field key (dict d) desired) =
    merge
      (put key (elim (dict_of (lookup key current)) [ none ↦ dict d | some c ↦ dict (merge c d) ])
        current)
      desired
merge current (field key value desired) = merge (put key value current) desired

pub record OwnerReference : Type 0 where
  pub api_version : Text
  pub kind : Text
  pub name : Text
  pub uid : Text
  -- None counts as false
  pub controller : Bool

pub record Parent : Type 0 where
  pub api_version : Text
  pub kind : Text
  pub name : Option Text
  pub namespace : Option Text
  pub uid : Option Text
  pub deleting : Bool

pub record Child : Type 0 where
  pub name : Option Text
  pub namespace : Option Text
  pub uid : Option Text
  pub resource_version : Option Text
  pub owner_references : List OwnerReference
  -- `"status" in child.model_fields_set`
  pub has_status : Bool

-- An object that the API returned
pub record Current : Type 0 where
  pub owner_references : List OwnerReference
  pub deleting : Bool
  pub snapshot : Patches.Resource

-- The client of the child's type, the answer to its `get`, and pydantic: the fields that were set on a
-- child, and the resource that a JSON object is read as.
pub record Api : Type 0 where
  pub namespaced : Bool
  pub default_namespace : Text
  pub get : Text → Option Text → Result (Option Current)
  pub dump : Child → Fields
  pub validate : Fields → Result Patches.Resource

-- What `ensure` ends with: the call that it returns the result of, or the object as it is
pub data Action : Type 0 where
  creates : Child → Action
  patches : Current → List Operation → Action
  keeps : Current → Action

-- `api_version.rpartition("/")[0]`
unfoldable pub before_slash : Text → Option Text
before_slash [] = none
before_slash (c ∷ s) = elim (before_slash s) [
  | some t ↦ some (c ∷ t)
  | none ↦ if c == b'/' then some [] else none
]

abbrev pub group_of : Text → Text
group_of api_version = elim (before_slash api_version) [ none ↦ [] | some group ↦ group ]

unfoldable pub check : Parent → Child → Result (Unit {0})
check parent child =
    raise_if (not (is_set parent.uid) || not (is_set parent.name)) value_error
    >> raise_if parent.deleting terminal_error
    >> raise_if (is_set child.uid || is_set child.resource_version) value_error
    >> raise_if (not (is_empty child.owner_references)) value_error
    >> raise_if child.has_status value_error

abbrev pub given : Option Text → Option Text → Option Text
given none t = t
given (some s) t = some s

unfoldable pub place : Api → Parent → Child → Result (Option Text)
place api parent child =
    if api.namespaced
    then (let namespace =
          or_else child.namespace (or_else parent.namespace api.default_namespace) in
        raise_if (is_set parent.namespace && not (equal_options (some namespace) parent.namespace))
          value_error
        >> ok (some namespace))
    else (raise_if (is_set parent.namespace || is_set child.namespace) value_error
        >> ok child.namespace)

unfoldable pub owner_of : Parent → OwnerReference
owner_of parent = record {
  api_version = parent.api_version;
  kind = parent.kind;
  name = or_else parent.name [];
  uid = or_else parent.uid [];
  controller = true;
}

unfoldable pub is_owner : OwnerReference → OwnerReference → Bool
is_owner owner ref =
    ref.controller
    && equal_texts ref.uid owner.uid
    && equal_texts ref.kind owner.kind
    && equal_texts ref.name owner.name
    && equal_texts (group_of ref.api_version) (group_of owner.api_version)

unfoldable pub owns_any : OwnerReference → List OwnerReference → Bool
owns_any owner [] = false
owns_any owner (ref ∷ refs) = is_owner owner ref || owns_any owner refs

-- `fields.get("metadata", {}).pop("ownerReferences", None)`
unfoldable pub drop_owners : Fields → Fields
drop_owners fields = elim (dict_of (lookup (codes "metadata") fields)) [
  | none ↦ fields
  | some meta ↦ put (codes "metadata") (dict (pop (codes "ownerReferences") meta)) fields
]

abbrev pub fields_of : Json → Fields
fields_of (dict d) = d
fields_of other = end

abbrev pub patch_or_keep : Current → List Operation → Action
patch_or_keep current [] = keeps current
patch_or_keep current (op ∷ ops) = patches current (op ∷ ops)

unfoldable pub update : Api → Parent → Child → Current → Result Action
unfolding merge
update api parent child current =
    raise_if (not (owns_any (owner_of parent) current.owner_references)) terminal_error
    >> raise_if current.deleting runtime_error
    >> api.validate (merge (fields_of current.snapshot.dump) (drop_owners (api.dump child)))
    >>= λ updated.
        diff current.snapshot updated >>= λ operations. ok (patch_or_keep current operations)

-- The child with its name, namespace and owner
abbrev pub completed : Parent → Child → Option Text → Child
completed parent child namespace = record child {
  name = given child.name parent.name;
  namespace = namespace;
  owner_references = owner_of parent ∷ [];
}

unfoldable pub ensure : Api → Parent → Child → Result Action
ensure api parent child = check parent child >> place api parent child >>= λ namespace.
    elim (given child.name parent.name) [
      | none ↦ raise assertion_error
      | some name ↦ api.get name namespace >>= λ found. elim found [
        | none ↦ ok (creates (completed parent child namespace))
        | some current ↦ update api parent (completed parent child namespace) current
      ]
    ]
