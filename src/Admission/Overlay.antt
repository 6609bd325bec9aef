-- ===== src/Admission/Overlay.antt =====
-- `_overlay` and `mutation_patch` of cloudcoil/admission/_mutation.py.
use cloudcoil.Base.{Bool, true, false, not, ◌&&◌, Option, none, some, List, [], ◌∷◌, if◌then◌else◌}
use cloudcoil.Base.Json.{
  Text, codes, equal_options, Json, Json-discrete, null, array, dict, Items, nil, cons, Fields, end,
  field,
}
use cloudcoil.Base.Json.Objects.{lookup, put, pop}
use cloudcoil.Base.Results.{value_error, Result, ok, raise_if, ◌>>=◌, ◌>>◌}
use cloudcoil.Patches.{Operation, json_patch}
use cloudcoil.Admission.{equal_or_missing}
use cloudcoil.Admission.Arrays.{Job, plan}

abbrev pub is_container : Option Json → Bool
is_container (some (dict d)) = true
is_container (some (array xs)) = true
is_container other = false

abbrev pub is_some : Option Json → Bool
is_some none = false
is_some (some v) = true

-- The test of the first branch: nothing was changed, so the raw value is kept
unfoldable pub is_kept :
    (raw before : Option Json) → Json → (explicit_before explicit_after : Option Json) → Result Bool
unfolding equal_or_missing
is_kept raw before after explicit_before explicit_after =
    let same_explicit = equal_or_missing explicit_before explicit_after in
    equal_or_missing before (some after) >>= λ same.
    (if same then (if is_some raw then ok true else same_explicit) else ok false) >>= λ passed.
    if passed then (if is_container before then same_explicit else ok true) else ok false

-- `explicit.get(key, _MISSING) if isinstance(explicit, dict) else _MISSING`
abbrev pub explicit_get : Text → Option Json → Option Json
explicit_get k (some (dict d)) = lookup k d
explicit_get k other = none

-- `output.pop(key, None)` for the keys of the first that the second does not have
unfoldable pub pop_gone : Fields → Fields → Fields → Fields
pop_gone end after output = output
pop_gone (field k v before) after output =
    pop_gone before after (elim (lookup k after) [ none ↦ pop k output | some _ ↦ output ])

abbrev pub put_value : Text → Option Json → Fields → Fields
put_value k none output = output
put_value k (some v) output = put k v output

-- `deepcopy(raw) if isinstance(raw, dict) else {}`
abbrev pub output_of : Option Json → Fields
output_of (some (dict d)) = d
output_of other = end

-- `output if output or raw is not _MISSING else _MISSING`
abbrev pub finish : Option Json → Fields → Option Json
finish none end = none
finish raw output = some (dict output)

-- `_overlay`
unfoldable mutual
  pub overlay :
      (raw before : Option Json)
      → Json
      → (explicit_before explicit_after : Option Json) → Result (Option Json)
  overlay raw before (dict d) explicit_before explicit_after =
      let merge : Fields → Fields → Result Fields =
        overlay_fields d explicit_before explicit_after in
      is_kept raw before (dict d) explicit_before explicit_after >>= λ kept.
      if kept then ok raw else elim before [
        | some (dict b) ↦
            merge b (pop_gone b d (output_of raw)) >>= λ output. ok (finish raw output)
        | _ ↦ ok (some (dict d))
      ]
  overlay raw before (array xs) explicit_before explicit_after =
      let run : List (Option Job) → Result Items = overlay_items xs in
      is_kept raw before (array xs) explicit_before explicit_after >>= λ kept.
      if kept then ok raw else elim before [
        | some (array b) ↦ elim raw [
          | some (array r) ↦ plan r b xs explicit_before explicit_after >>= λ jobs.
              run jobs >>= λ result. ok (some (array result))
          | _ ↦ ok (some (array xs))
        ]
        | _ ↦ ok (some (array xs))
      ]
  overlay raw before after explicit_before explicit_after =
      is_kept raw before after explicit_before explicit_after >>= λ kept.
      ok (if kept then raw else some after)

  -- The keys of the new object
  pub overlay_fields :
      Fields
      → (explicit_before explicit_after : Option Json) → (before output : Fields) → Result Fields
  overlay_fields end explicit_before explicit_after before output = ok output
  overlay_fields (field k v d) explicit_before explicit_after before output =
      overlay (lookup k output) (lookup k before) v (explicit_get k explicit_before)
        (explicit_get k explicit_after)
      >>= λ value. overlay_fields d explicit_before explicit_after before (put_value k value output)

  -- The elements of the new array
  pub overlay_items : Items → List (Option Job) → Result Items
  overlay_items (cons v xs) (none ∷ jobs) = overlay_items xs jobs >>= λ rest. ok (cons v rest)
  overlay_items (cons v xs) (some j ∷ jobs) =
      overlay j.raw j.before v j.explicit_before j.explicit_after >>= λ value.
      overlay_items xs jobs >>= λ rest. ok (elim value [ none ↦ rest | some w ↦ cons w rest ])
  overlay_items xs jobs = ok nil

-- What `mutation_patch` reads of a resource: its class, and `model_dump` with and without unset fields
pub record Typed : Type 0 where
  pub api_version : Option Text
  pub kind : Option Text
  pub dump : Fields
  pub explicit : Fields

-- `dump.get("metadata") or {}`, and `meta.get(key)`
abbrev pub meta_of : Typed → Fields
meta_of t = elim (lookup (codes "metadata") t.dump) [ some (dict d) ↦ d | _ ↦ end ]

abbrev pub get_or_null : Text → Fields → Json
get_or_null key d = elim (lookup key d) [ none ↦ null | some v ↦ v ]

unfoldable pub same_meta : List Text → Typed → Typed → Bool
same_meta [] before after = true
same_meta (key ∷ keys) before after =
    elim (Json-discrete (get_or_null key (meta_of before)) (get_or_null key (meta_of after))) [
      | yes _ ↦ same_meta keys before after
      | no _ ↦ false
    ]

abbrev pub identity_keys : List Text
identity_keys = codes "name" ∷ codes "namespace" ∷ codes "uid" ∷ codes "resourceVersion" ∷ []

abbrev pub or_end : Option Json → Json
or_end none = dict end
or_end (some v) = v

-- The object that a mutation makes of the raw one
unfoldable pub desired : Fields → Typed → Typed → Result Json
unfolding overlay same_meta
desired raw before after =
    raise_if
      (not (
        equal_options before.api_version after.api_version && equal_options before.kind after.kind))
      value_error
    >> raise_if (not (same_meta identity_keys before after)) value_error
    >> overlay (some (dict raw)) (some (dict before.dump)) (dict after.dump)
        (some (dict before.explicit)) (some (dict after.explicit))
    >>= λ value. ok (or_end value)

unfoldable pub mutation_patch : Fields → Typed → Typed → Result (List Operation)
unfolding desired
mutation_patch raw before after = desired raw before after >>= λ value. json_patch (dict raw) value
