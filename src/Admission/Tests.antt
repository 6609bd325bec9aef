-- ===== src/Admission/Tests.antt =====
-- The overlay of cloudcoil/admission/_mutation.py on small inputs, and the theorem at them.
use cloudcoil.Base.{ℕ_discrete, true, none, some, List, [], ◌∷◌, ◌≡◌, refl}
use cloudcoil.Base.Json.{
  Text, codes, text_discrete, text_leb, equal_texts, equal_options, Json, null, number, string,
  array, dict, nil, cons, Fields, field, end, Json-discrete, is_finite, place_field, sort_keys,
  same_dumps, height,
}
use cloudcoil.Base.Json.Objects.{lookup, put, pop, keys}
use cloudcoil.Base.Results.{value_error, ok, raise}
use cloudcoil.Base.Sets.{contains, insert}
use cloudcoil.Patches as Patches
use cloudcoil.Patches.{
  Operation, replace_all, escape, pointer, sorted, as_set, union, visit_key, visit_keys, replaced,
  visit, json_patch,
}
use cloudcoil.Patches.Application.{apply_all}
use cloudcoil.Patches.Agreement.{Agrees}
use cloudcoil.Patches.Guards.{value_at}
use cloudcoil.Admission.{equal, equal_or_missing, unknown, projection_matches}
use cloudcoil.Admission.Arrays.{
  explicit_at, job, names_of, index_of, all_in, loses_unknown, named_jobs, by_name, candidates,
  any_differs, match_one, match_all, in_place_jobs, matched_jobs, in_place, unmatched, unused,
  marked_unknown, by_value, plan,
}
use cloudcoil.Admission.Overlay.{
  is_kept, pop_gone, overlay, Typed, same_meta, desired, mutation_patch,
}
use cloudcoil.Admission.Keys.{HasUniqueKeys}
use cloudcoil.Admission.Preserved.{Outside, Kept}
use cloudcoil.Admission.Patch.{mutation_patch-Kept}

program : Unit {0}
unfolding text_discrete text_leb equal_texts equal_options Json-discrete is_finite place_field
    sort_keys same_dumps height lookup put pop keys contains insert replace_all escape pointer
    Patches.place sorted as_set union visit_key visit_keys replaced visit json_patch ℕ_discrete
    equal equal_or_missing unknown projection_matches explicit_at job names_of index_of all_in
    loses_unknown named_jobs by_name candidates any_differs match_one match_all in_place_jobs
    matched_jobs in_place unmatched unused marked_unknown by_value plan is_kept pop_gone overlay
    same_meta desired mutation_patch HasUniqueKeys Outside value_at
program = tt

-- {"name": name, "port": port}, and with a field that the type does not have
abbrev port : Text → Text → Json
port name n = dict (field (codes "name") (string name) (field (codes "port") (number n) end))

abbrev raw_port : Text → Text → Json
raw_port name n = dict (
    field (codes "name") (string name)
      (field (codes "port") (number n) (field (codes "x") null end)))

-- {"spec": {"replicas": n, "ports": ports, ...}}
abbrev object : Text → Json → Fields → Fields
object n ports more =
    field (codes "spec")
      (dict (field (codes "replicas") (number n) (field (codes "ports") ports more))) end

abbrev extra : Fields
extra = field (codes "extra") (number (codes "5")) end

abbrev raw : Fields
raw =
    object (codes "1")
      (array
        (cons (raw_port (codes "a") (codes "1")) (cons (raw_port (codes "b") (codes "2")) nil)))
      extra

abbrev typed : Text → Json → Typed
typed n ports = record {
  api_version = some (codes "v1");
  kind = some (codes "Shop");
  dump = object n ports end;
  explicit = object n ports end;
}

abbrev before : Typed
before =
    typed (codes "1")
      (array (cons (port (codes "a") (codes "1")) (cons (port (codes "b") (codes "2")) nil)))

-- The ports in another order, one changed
abbrev after : Typed
after =
    typed (codes "3")
      (array (cons (port (codes "b") (codes "7")) (cons (port (codes "a") (codes "1")) nil)))

abbrev wanted : Json
wanted = dict (
    object (codes "3")
      (array
        (cons (raw_port (codes "b") (codes "7")) (cons (raw_port (codes "a") (codes "1")) nil)))
      extra)

was_desired : desired raw before after ≡ ok wanted
unfolding program
was_desired = refl

-- A replacement would lose what the port has beside its typed fields.
unknown_kept :
    desired raw before (
      typed
        (codes "1")
        (array (cons (port (codes "c") (codes "1")) (cons (port (codes "a") (codes "1")) nil))))
    ≡ raise value_error
unfolding program
unknown_kept = refl

class_kept :
    mutation_patch raw before (record after { kind = some (codes "Mart") }) ≡ raise value_error
unfolding program
class_kept = refl

-- Elements without names, one of which is gone
unnamed :
    overlay
      (some (array (cons (number (codes "1")) (cons (number (codes "2")) nil))))
      (some (array (cons (number (codes "1")) (cons (number (codes "2")) nil))))
      (array (cons (number (codes "2")) nil))
      none
      none
    ≡ ok (some (array (cons (number (codes "2")) nil)))
unfolding program
unnamed = refl

both_finite : (is_finite (dict raw) ≡ true) × (is_finite wanted ≡ true)
unfolding program
both_finite = (refl, refl)

after-HasUniqueKeys : HasUniqueKeys (dict after.dump)
unfolding program
after-HasUniqueKeys = ((refl, tt), (((refl, (refl, tt)), (tt, (tt, tt))), tt))

extra-Outside : Outside (codes "spec" ∷ codes "extra" ∷ []) (dict before.dump) (dict after.dump)
unfolding program
extra-Outside = tt

mutation_patch-Kept_example :
    (patch : List Operation) × (mutation_patch raw before after ≡ ok patch)
    × ((result : Json) × (apply_all patch (dict raw) ≡ some result) × Agrees result wanted)
    × Kept (codes "spec" ∷ codes "extra" ∷ []) (dict raw) wanted
mutation_patch-Kept_example =
    mutation_patch-Kept (codes "spec" ∷ codes "extra" ∷ []) raw before after wanted both_finite.0
      both_finite.1 after-HasUniqueKeys extra-Outside was_desired
