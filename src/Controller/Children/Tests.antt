-- ===== src/Controller/Children/Tests.antt =====
-- Children of cloudcoil/controller/_children.py on small inputs, and the theorems at them.
use cloudcoil.Base.{true, false, none, some, [], ◌∷◌, ◌++◌, ◌≡◌, refl}
use cloudcoil.Base.Json.{
  codes, text_discrete, text_leb, equal_texts, equal_options, Json, null, number, dict, Fields,
  field, end, Json-discrete, is_finite, place_field, sort_keys, same_dumps, height,
}
use cloudcoil.Base.Json.Objects.{lookup, put, pop, keys}
use cloudcoil.Base.Results.{terminal_error, value_error, ok, raise}
use cloudcoil.Base.Sets.{contains, insert}
use cloudcoil.Patches as Patches
use cloudcoil.Patches.{
  replace, replace_all, escape, pointer, sorted, as_set, union, visit_key, visit_keys, replaced,
  visit, json_patch, guards, changes, diff,
}
use cloudcoil.Controller.Children.{
  merge, OwnerReference, Parent, Child, Current, Api, Action, patches, before_slash, check, place,
  owner_of, is_owner, owns_any, drop_owners, update, ensure,
}
use cloudcoil.Controller.Children.Merge.{UniqueKeys, merged_value, lookup-merge}
use cloudcoil.Controller.Children.Ownership.{IsJustified, ensure-IsJustified}

program : Unit {0}
unfolding text_discrete text_leb equal_texts equal_options Json-discrete is_finite place_field
    sort_keys same_dumps height lookup put pop keys contains insert replace_all escape pointer
    Patches.place sorted as_set union visit_key visit_keys replaced visit json_patch guards changes
    diff merge before_slash check place owner_of is_owner owns_any drop_owners update ensure
    merged_value
program = tt

abbrev one : Json
one = number (codes "1")

-- {"replicas": 1, "paused": 1, "template": {"a": 1}}
abbrev current_fields : Fields
current_fields =
    field (codes "replicas") one
      (field (codes "paused") one (field (codes "template") (dict (field (codes "a") one end)) end))

-- {"paused": null, "template": {"b": 1}, "extra": {}}
abbrev wanted : Fields
wanted = field (codes "paused") null (
    field (codes "template") (dict (field (codes "b") one end))
      (field (codes "extra") (dict end) end))

merged_fields :
    merge current_fields wanted
    ≡ field (codes "replicas") one (
        field
          (codes "template")
          (dict (field (codes "a") one (field (codes "b") one end)))
          (field (codes "extra") (dict end) end))
unfolding program
merged_fields = refl

wanted-UniqueKeys : UniqueKeys wanted
unfolding program
wanted-UniqueKeys = (refl, (refl, (refl, tt)))

lookup-merge_example :
    lookup (codes "template") (merge current_fields wanted)
    ≡ merged_value (lookup (codes "template") current_fields) (lookup (codes "template") wanted)
lookup-merge_example = lookup-merge (codes "template") current_fields wanted wanted-UniqueKeys

abbrev parent : Parent
parent = record {
  api_version = codes "example.com/v1";
  kind = codes "Shop";
  name = some (codes "s");
  namespace = some (codes "n");
  uid = some (codes "u1");
  deleting = false;
}

abbrev child : Child
child = record {
  name = none;
  namespace = none;
  uid = none;
  resource_version = none;
  owner_references = [];
  has_status = false;
}

abbrev snapshot : Json → Patches.Resource
snapshot spec = record {
  gvk = codes "v1/ConfigMap";
  name = some (codes "s");
  namespace = some (codes "n");
  uid = some (codes "u2");
  resource_version = some (codes "7");
  dump = dict (field (codes "spec") spec end);
}

-- An older version of the same group
abbrev reference : OwnerReference
reference = record {
  api_version = codes "example.com/v1beta1";
  kind = codes "Shop";
  name = codes "s";
  uid = codes "u1";
  controller = true;
}

abbrev current : OwnerReference → Current
current owner = record { owner_references = owner ∷ []; deleting = false; snapshot = snapshot one }

abbrev api : OwnerReference → Api
api owner = record {
  namespaced = true;
  default_namespace = codes "default";
  get = λ name namespace. ok (some (current owner));
  dump = λ c. field (codes "spec") (number (codes "2")) end;
  validate = λ fields. ok (record (snapshot one) { dump = dict fields });
}

abbrev action : Action
unfolding guards
action =
    patches (current reference)
      (guards (snapshot one) ++ replace (codes "/spec") (number (codes "2")) ∷ [])

patched : ensure (api reference) parent child ≡ ok action
unfolding program
patched = refl

abbrev stranger : OwnerReference
stranger = record reference { uid = codes "u9" }

never_adopted : ensure (api stranger) parent child ≡ raise terminal_error
unfolding program
never_adopted = refl

other_namespace :
    ensure (api reference) parent (record child { namespace = some (codes "m") })
    ≡ raise value_error
unfolding program
other_namespace = refl

ensure-IsJustified_example : IsJustified (api reference) parent action
ensure-IsJustified_example = ensure-IsJustified (api reference) parent child action patched
