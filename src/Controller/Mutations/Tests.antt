-- ===== src/Controller/Mutations/Tests.antt =====
-- Mutations of cloudcoil/controller/_mutations.py on small inputs, and the theorems at them.
use cloudcoil.Base.{ℕ_discrete, true, false, none, some, List, [], ◌∷◌, ◌≡◌, refl, ap, All, filter}
use cloudcoil.Base.Json.{
  Text, codes, text_discrete, text_leb, equal_texts, equal_options, Items, nil, cons, array, number,
  string, dict, field, end, Json-discrete, is_finite, place_field, sort_keys, same_dumps, height,
}
use cloudcoil.Base.Json.Objects.{lookup, put, pop, keys}
use cloudcoil.Base.Results.{value_error, terminal_error, Result, ok, raise}
use cloudcoil.Base.Sets.{contains, insert}
use cloudcoil.Patches as Patches
use cloudcoil.Patches.{
  Operation, replace, replace_all, escape, pointer, sorted, as_set, union, visit_key, visit_keys,
  replaced, visit, json_patch, Resource, guards, changes, diff,
}
use cloudcoil.Controller.Mutations.{
  Sent, Api, starts_with, is_status, any_other, conflict, send, patch_changes, mutation, mutate,
  add_finalizer, drop_finalizer, ensure_finalizer, remove_finalizer, status_of, check_current,
  write_status, write_split, write, persist, status_patch, main_patch,
}
use cloudcoil.Controller.Mutations.Requests.{IsPart, persist-IsPart, IsMutation, mutate-IsMutation}
use cloudcoil.Controller.Mutations.Complete.{IsComplete, in_order, persist-IsComplete}
use cloudcoil.Controller.Mutations.Finalizers.{drop_finalizer-add_finalizer}

program : Unit {0}
unfolding text_discrete text_leb equal_texts equal_options Json-discrete is_finite place_field
    sort_keys same_dumps height lookup put pop keys contains insert replace_all escape pointer
    Patches.place sorted as_set union visit_key visit_keys replaced visit json_patch guards changes
    diff filter starts_with is_status any_other send patch_changes mutation mutate add_finalizer
    drop_finalizer ensure_finalizer remove_finalizer status_of check_current write_status
    write_split write persist ℕ_discrete
program = tt

-- A list of texts in JSON, and back
abbrev items : List Text → Items
items [] = nil
items (t ∷ l) = cons (string t) (items l)

abbrev texts : Items → List Text
texts nil = []
texts (cons (string t) xs) = t ∷ texts xs
texts (cons v xs) = texts xs

texts-items : (l : List Text) → texts (items l) ≡ l
texts-items [] = refl
texts-items (t ∷ l) = ap (λ u. t ∷ u) (texts-items l)

abbrev object : Text → Text → Text → Resource
object version spec status = record {
  gvk = codes "v1/Shop";
  name = some (codes "s");
  namespace = none;
  uid = some (codes "u1");
  resource_version = some version;
  dump = dict (field (codes "spec") (number spec) (field (codes "status") (number status) end));
}

abbrev original : Resource
original = object (codes "7") (codes "1") (codes "1")

abbrev desired : Resource
desired = object (codes "7") (codes "2") (codes "2")

-- The main patch is answered with the next version and this status.
abbrev api : Text → Api
api status = record {
  patch = λ s. elim s.to_status [
    | true ↦ ok (object (codes "9") (codes "2") (codes "2"))
    | false ↦ ok (object (codes "8") (codes "2") status)
  ];
  equal = same_dumps;
  finalizers = λ r. elim r.dump [ array xs ↦ texts xs | _ ↦ [] ];
  with_finalizers = λ l r. record r { dump = array (items l) };
  is_deleting = λ r. false;
}

abbrev main_sent : Sent
main_sent = main_patch original (replace (codes "/spec") (number (codes "2")) ∷ [])

abbrev status_sent : Sent
status_sent =
    status_patch original (object (codes "8") (codes "2") (codes "1"))
      (replace (codes "/status") (number (codes "2")) ∷ [])

both_sent :
    persist (api (codes "1")) true original desired
    ≡ (main_sent ∷ status_sent ∷ [], ok (object (codes "9") (codes "2") (codes "2")))
unfolding program
both_sent = refl

-- Another writer's status in the answer to the main patch stops the status patch.
status_changed : persist (api (codes "3")) true original desired ≡ (main_sent ∷ [], raise conflict)
unfolding program
status_changed = refl

unchanged : persist (api (codes "1")) true original original ≡ ([], ok original)
unfolding program
unchanged = refl

persist-IsPart_example : All (IsPart original) (persist (api (codes "1")) true original desired).0
persist-IsPart_example = persist-IsPart (api (codes "1")) original desired

returned :
    (persist (api (codes "1")) true original desired).1
    ≡ ok (object (codes "9") (codes "2") (codes "2"))
unfolding program
returned = refl

persist-IsComplete_example :
    (ops : List Operation) × (diff original desired ≡ ok ops)
    × IsComplete
        (api (codes "1"))
        (ok original)
        (in_order ops)
        (persist (api (codes "1")) true original desired)
        (object (codes "9") (codes "2") (codes "2"))
persist-IsComplete_example =
    persist-IsComplete (api (codes "1")) original desired
      (object (codes "9") (codes "2") (codes "2")) returned

abbrev change : Resource → Result Resource
change r = ok (object (codes "7") (codes "1") (codes "2"))

status_mutated :
    (mutate (api (codes "1")) (ok original) change true original).1
    ≡ ok (object (codes "9") (codes "2") (codes "2"))
unfolding program
status_mutated = refl

only_status :
    mutate (api (codes "1")) (ok original) (λ r. ok desired) true original ≡ ([], raise value_error)
unfolding program
only_status = refl

replaced_object :
    mutate (api (codes "1")) (ok (record original { uid = some (codes "u2") })) change true original
    ≡ ([], raise conflict)
unfolding program
replaced_object = refl

mutate-IsMutation_example :
    All (IsMutation original true) (mutate (api (codes "1")) (ok original) change true original).0
mutate-IsMutation_example = mutate-IsMutation (api (codes "1")) (ok original) change true original

-- An object with one finalizer
abbrev finalized : Resource
finalized = record original { dump = array (items (codes "a/b" ∷ [])) }

abbrev held : Resource
held = record original { dump = array (items (codes "a/b" ∷ codes "c/d" ∷ [])) }

absent : contains text_discrete (codes "c/d") ((api (codes "1")).finalizers finalized) ≡ false
unfolding program
absent = refl

added : add_finalizer (api (codes "1")) (codes "c/d") finalized ≡ ok held
unfolding program
added = refl

unqualified :
    ensure_finalizer (api (codes "1")) (ok finalized) (codes "c") finalized
    ≡ ([], raise value_error)
unfolding program
unqualified = refl

too_late :
    ensure_finalizer
      (record (api (codes "1")) { is_deleting = λ r. true })
      (ok finalized)
      (codes "c/d")
      finalized
    ≡ ([], raise terminal_error)
unfolding program
too_late = refl

nothing_to_remove :
    remove_finalizer (api (codes "1")) (ok finalized) (codes "c/d") finalized ≡ ([], ok finalized)
unfolding program
nothing_to_remove = refl

drop_finalizer-add_finalizer_example :
    ((api (codes "1")).is_deleting finalized ≡ false)
    × (contains text_discrete (codes "c/d") ((api (codes "1")).finalizers held) ≡ true)
    × ((api (codes "1")).finalizers (drop_finalizer (api (codes "1")) (codes "c/d") held)
        ≡ (api (codes "1")).finalizers finalized)
drop_finalizer-add_finalizer_example =
    drop_finalizer-add_finalizer (api (codes "1")) (codes "c/d") finalized held
      (λ l r. texts-items l) absent added
