-- ===== src/Caching/Store/Tests.antt =====
-- Runs of the store of cloudcoil/caching/_store.py on small inputs, and the theorems at them.
use cloudcoil.Base.{
  true, some, String, String-discrete, List, [], ◌∷◌, ◌≡◌, refl, arith, subst, Member,
}
use cloudcoil.Base.Sets.{contains, insert, discard}
use cloudcoil.Base.Dicts.{lookup, put, pop}
use cloudcoil.Base.Results.{ok, ◌>>=◌}
use cloudcoil.Caching.Store.{
  Store, init, is_truthy, get, get_by_index, list_index_keys, list, list_keys, size, add, delete,
  replace, clear, add_index, load, store_item, evict, delete_internal, present, update_indices,
  remove_old, add_new, with_index, note_key, drop_key, build_index,
}
use cloudcoil.Caching.Store.Invariant.{IsValid}
use cloudcoil.Caching.Store.Methods.{roomy}
use cloudcoil.Caching.Store.Capacity.{
  Change, adds, indexes, step, run, run-init-IsBounded, Succeeds, size-replace,
}
use cloudcoil.Caching.Store.Reads.{get_by_index-Member, get-add}

program : Unit {0}
unfolding init get get_by_index list_index_keys list list_keys size add delete replace clear
    add_index load store_item evict delete_internal present update_indices remove_old add_new
    with_index note_key drop_key build_index step run contains insert discard lookup put pop
    String-discrete
program = tt

-- An object is its key and its label.
abbrev Pod : Type 0
Pod = String × String

abbrev pod_key : Pod → String
pod_key p = p.0

abbrev label : Pod → String
label p = p.1

abbrev changes : List (Change Pod)
changes = indexes "by_app" label ∷ adds ("a", "web") ∷ adds ("b", "web") ∷ adds ("c", "db") ∷ []

-- The third pod costs the first.
abbrev stored : Store Pod
stored = record {
  items = ("b", ("b", "web")) ∷ ("c", ("c", "db")) ∷ [];
  indices = ("by_app", ("web", "b" ∷ []) ∷ ("db", "c" ∷ []) ∷ []) ∷ [];
  index_funcs = ("by_app", label) ∷ [];
  max_items = 2;
}

oldest_gone : run pod_key changes (init 2) ≡ ok stored
unfolding program
oldest_gone = refl

found_by_index : get_by_index "by_app" "web" stored ≡ ok (("b", "web") ∷ [])
unfolding program
found_by_index = refl

index_keys_left :
    (delete pod_key ("c", "other") stored >>= λ s. list_index_keys "by_app" s) ≡ ok ("web" ∷ [])
unfolding program
index_keys_left = refl

-- Two objects with one key: the index still files it as the first one asked.
stale_after_replace :
    (replace pod_key (("d", "web") ∷ ("d", "db") ∷ []) stored >>= λ s.
    get_by_index "by_app" "web" s)
    ≡ ok (("d", "db") ∷ [])
unfolding program
stale_after_replace = refl

run-init-IsBounded_example : Succeeds pod_key 2 (run pod_key changes (init 2))
run-init-IsBounded_example = run-init-IsBounded pod_key 2 changes

stored-IsValid : IsValid pod_key stored
stored-IsValid =
    let (next, e, h) = run-init-IsBounded pod_key 2 changes in
    subst (IsValid pod_key) (next_stored next e) h.valid
  where
    next_stored : (next : Store Pod) → run pod_key changes (init 2) ≡ ok next → next ≡ stored
    next_stored next e = ground (arith, e, oldest_gone)

abbrev three : List Pod
three = ("d", "web") ∷ ("e", "web") ∷ ("f", "db") ∷ []

-- The limit of the store is two.
size-replace_example :
    (next : Store Pod) × (replace pod_key three stored ≡ ok next) × (size next ≡ 3)
unfolding program
size-replace_example =
    size-replace pod_key three stored (refl, (refl, (refl, tt))) (refl, (refl, (refl, tt)))
      stored-IsValid

get_by_index-Member_example :
    (objs : List Pod) × (get_by_index "by_app" "web" stored ≡ ok objs)
    × ((obj : Pod)
        → Member obj objs
        → (key : String) × (get key stored ≡ some obj)
          × (label obj ≡ "web")
          × (is_truthy "web" ≡ true))
    × ((key : String) (obj : Pod)
        → get key stored ≡ some obj
        → label obj ≡ "web"
        → is_truthy "web" ≡ true
        → Member obj objs)
unfolding program
get_by_index-Member_example =
    get_by_index-Member pod_key label "by_app" "web" stored stored-IsValid refl

get-add_example :
    (next : Store Pod) × (add pod_key ("g", "db") stored ≡ ok next)
    × ((key : String)
        → get key next ≡ elim (String-discrete "g" key) [
          | yes _ ↦ some ("g", "db")
          | no _ ↦ lookup String-discrete key (roomy 2 "g" stored.items)
        ])
unfolding program
get-add_example = get-add pod_key ("g", "db") stored stored-IsValid refl
