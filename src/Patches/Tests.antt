-- ===== src/Patches/Tests.antt =====
-- Patches of cloudcoil/patches.py between small values, and the theorems at them.
use cloudcoil.Base.{true, none, some, List, [], ◌∷◌, ◌++◌, ◌≡◌, ◌⊎◌, refl}
use cloudcoil.Base.Json.{
  codes, text_discrete, text_leb, equal_texts, equal_options, Json, null, number, not_finite,
  string, array, dict, cons, nil, field, end, Json-discrete, is_finite, place_field, sort_keys,
  same_dumps, height,
}
use cloudcoil.Base.Json.Objects.{lookup, put, pop, keys}
use cloudcoil.Base.Results.{value_error, ok, raise}
use cloudcoil.Base.Sets.{contains, insert}
use cloudcoil.Patches.{
  Operation, remove, add, replace, replace_all, escape, pointer, place, sorted, as_set, union,
  visit_key, visit_keys, replaced, visit, json_patch, Resource, text_of, guards, changes, diff,
}
use cloudcoil.Patches.Pointers.{unescape, segments, unescape_all, tokens}
use cloudcoil.Patches.Application.{edit_at, apply, apply_all}
use cloudcoil.Patches.Agreement.{Agrees}
use cloudcoil.Patches.RoundTrip.{apply_all-json_patch}
use cloudcoil.Patches.Guards.{value_at, uid_keys, version_keys, apply_all-diff}

program : Unit {0}
unfolding text_discrete text_leb equal_texts equal_options Json-discrete is_finite place_field
    sort_keys same_dumps height lookup put pop keys contains insert replace_all escape pointer place
    sorted as_set union visit_key visit_keys replaced visit json_patch guards changes diff unescape
    segments unescape_all tokens edit_at apply apply_all value_at
program = tt

abbrev one : Json
one = number (codes "1")

abbrev two : Json
two = number (codes "2")

-- {"a/b": 1, "keep": {"x": 1, "y": [null]}}
abbrev old_value : Json
old_value = dict (
    field (codes "a/b") one (
      field (codes "keep")
        (dict (field (codes "x") one (field (codes "y") (array (cons null nil)) end))) end))

-- {"keep": {"y": [null], "x": 2}, "b": null}
abbrev new_value : Json
new_value = dict (
    field (codes "keep")
      (dict (field (codes "y") (array (cons null nil)) (field (codes "x") two end)))
      (field (codes "b") null end))

-- The keys in order, with "/" escaped; the member that is the same is left out.
patch_small :
    json_patch old_value new_value
    ≡ ok (remove (codes "/a~1b") ∷ add (codes "/b") null ∷ replace (codes "/keep/x") two ∷ [])
unfolding program
patch_small = refl

not_finite_refused : json_patch (array (cons not_finite nil)) null ≡ raise value_error
unfolding program
not_finite_refused = refl

both_finite : (is_finite old_value ≡ true) × (is_finite new_value ≡ true)
unfolding program
both_finite = (refl, refl)

apply_all-json_patch_example :
    (patch : List Operation) × (json_patch old_value new_value ≡ ok patch)
    × ((result : Json) × (apply_all patch old_value ≡ some result) × Agrees result new_value)
apply_all-json_patch_example = apply_all-json_patch old_value new_value both_finite.0 both_finite.1

abbrev fetched : Json → Resource
fetched spec = record {
  gvk = codes "v1/ConfigMap";
  name = some (codes "c");
  namespace = none;
  uid = some (codes "u1");
  resource_version = some (codes "7");
  dump = dict (
      field (codes "metadata")
        (dict (
          field (codes "uid") (string (codes "u1"))
            (field (codes "resourceVersion") (string (codes "7")) end)))
        (field (codes "spec") spec end));
}

abbrev other_kind : Resource
other_kind = record (fetched one) { gvk = codes "v1/Secret" }

kind_kept : diff (fetched one) other_kind ≡ raise value_error
unfolding program
kind_kept = refl

unchanged_empty : diff (fetched one) (fetched one) ≡ ok []
unfolding program
unchanged_empty = refl

abbrev small_diff : List Operation
unfolding guards
small_diff = guards (fetched one) ++ replace (codes "/spec") two ∷ []

diff_small : diff (fetched one) (fetched two) ≡ ok small_diff
unfolding program
diff_small = refl

diff_applies : apply_all small_diff (fetched one).dump ≡ some (fetched two).dump
unfolding program
diff_applies = refl

apply_all-diff_example :
    (small_diff ≡ [])
    ⊎ ((value_at uid_keys (fetched one).dump ≡ some (string (text_of (fetched one).uid)))
        × (value_at version_keys (fetched one).dump
            ≡ some (string (text_of (fetched one).resource_version))))
apply_all-diff_example =
    apply_all-diff (fetched one) (fetched two) small_diff (fetched one).dump (fetched two).dump
      diff_small diff_applies
