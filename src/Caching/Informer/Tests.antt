-- ===== src/Caching/Informer/Tests.antt =====
-- A run of the informer of cloudcoil/caching/_informer.py on small inputs, and the theorems at it.
use cloudcoil.Base.{some, String, String-discrete, List, [], ◌∷◌, ◌≡◌, refl, All, filter}
use cloudcoil.Base.Sets.{contains, insert, discard}
use cloudcoil.Base.Dicts.{lookup, put, pop}
use cloudcoil.Base.Results.{ok, ◌>>=◌}
use cloudcoil.Caching.Store.{
  init, get, get_by_name, list, add, delete, replace, clear, load, store_item, evict,
  delete_internal, update_indices,
}
use cloudcoil.Caching.Informer.{
  Resource, Informer, Notice, added, updated, deleted, Key-discrete, default_key_func, get_key,
  uid_of, same_uid, index_by_key, departures, arrivals, make, start, stop, has_synced,
  handle_initial_items, handle_add, handle_update, handle_delete, handle_watch_event, modified,
  deleted_event, find, in_namespace, has_label, list_items,
}
use cloudcoil.Caching.Informer.Replay.{see, replay}
use cloudcoil.Caching.Informer.Runs.{Signal, lists, hears, handle, run, IsProper, run-make-Mirrors}

program : Unit {0}
unfolding init get get_by_name list add delete replace clear load store_item evict delete_internal
    update_indices default_key_func get_key uid_of same_uid index_by_key departures arrivals make
    start stop has_synced handle_initial_items handle_add handle_update handle_delete
    handle_watch_event find in_namespace has_label list_items see replay handle run contains insert
    discard lookup put pop filter String-discrete
program = tt

-- An object of the namespace "ns" by its name, its UID and its contents.
abbrev pod : String → String → String → Resource String
pod name uid body = record {
  metadata = some (record { namespace = some "ns"; name = some name; uid = some uid; labels = [] });
  body = body;
}

-- "a" changes and is then replaced by another object of its name while nobody watches; "b" goes.
abbrev signals : List (Signal String)
signals =
    lists (pod "a" "1" "x" ∷ pod "b" "2" "x" ∷ [])
    ∷ hears modified (pod "a" "1" "y")
    ∷ hears deleted_event (pod "b" "2" "x")
    ∷ lists (pod "a" "3" "z" ∷ [])
    ∷ []

noticed :
    (run signals (make 0) >>= λ r. ok r.1)
    ≡ ok (
        added (pod "a" "1" "x")
        ∷ added (pod "b" "2" "x")
        ∷ updated (some (pod "a" "1" "x")) (pod "a" "1" "y")
        ∷ deleted (pod "b" "2" "x")
        ∷ deleted (pod "a" "1" "y")
        ∷ added (pod "a" "3" "z")
        ∷ [])
unfolding program
noticed = refl

signals-IsProper : All IsProper signals
unfolding program
signals-IsProper = (
  (((refl, refl), ((refl, refl), tt)), (refl, (refl, tt))),
  ((refl, refl), ((refl, refl), ((((refl, refl), tt), (refl, tt)), tt))),
)

run-make-Mirrors_example :
    (last : Informer String) × (notices : List (Notice (Resource String))) × (run signals (make 0)
      ≡ ok (last, notices))
    × ((key : String) → lookup Key-discrete (some key) (replay notices []) ≡ get key last.store)
run-make-Mirrors_example = run-make-Mirrors signals signals-IsProper
