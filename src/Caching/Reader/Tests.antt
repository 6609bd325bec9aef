-- ===== src/Caching/Reader/Tests.antt =====
-- A cache reader of cloudcoil/caching/_reader.py on small inputs, and the theorem at them.
use cloudcoil.Base.{
  true, false, some, none, String, String-discrete, [], ◌∷◌, All, Member, filter, ◌≡◌, refl,
}
use cloudcoil.Base.Dicts.{lookup}
use cloudcoil.Base.Results.{ok, raise, runtime_error}
use cloudcoil.Caching.Store.{list as stored, get as take, get_by_name}
use cloudcoil.Caching.Informer.{Resource, has_synced, has_label, in_namespace, find, list_items}
use cloudcoil.Caching.Reader.{CachedResources, check, get, has_labels, scope, list}
use cloudcoil.Caching.Reader.Answers.{IsCovered, HasLabel, list-Member}

program : Unit {0}
unfolding stored take get_by_name has_synced has_label in_namespace find list_items check get
    has_labels scope list lookup filter String-discrete
program = tt

abbrev pod : String → String → String → Resource String
pod namespace name app = record {
  metadata = some (record {
    namespace = some namespace;
    name = some name;
    uid = some "1";
    labels = ("app", app) ∷ [];
  });
  body = "";
}

abbrev reader : CachedResources String
reader = record {
  informer = record {
    store = record {
      items =
          ("x/a", pod "x" "a" "web") ∷ ("x/b", pod "x" "b" "db") ∷ ("y/a", pod "y" "a" "web") ∷ [];
      indices = [];
      index_funcs = [];
      max_items = 0;
    };
    sync_event = true;
    started = true;
  };
  error = none;
  namespaced = true;
  namespace = some "x";
}

found : get "b" none reader ≡ ok (some (pod "x" "b" "db"))
unfolding program
found = refl

listed : list none false (("app", "web") ∷ []) reader ≡ ok (pod "x" "a" "web" ∷ [])
unfolding program
listed = refl

-- The namespace of the call goes first, and an empty one is none.
of_the_call : list (some "y") false [] reader ≡ ok (pod "y" "a" "web" ∷ [])
unfolding program
of_the_call = refl

of_the_reader : list (some "") false [] reader ≡ ok (pod "x" "a" "web" ∷ pod "x" "b" "db" ∷ [])
unfolding program
of_the_reader = refl

unsynced :
    list none true [] (record reader { informer = record reader.informer { started = false } })
    ≡ raise runtime_error
unfolding program
unsynced = refl

list-Member_example :
    (reader.informer.started ≡ true)
    × (reader.informer.sync_event ≡ true)
    × (reader.error ≡ none)
    × ((obj : Resource String)
        → (Member obj (pod "x" "a" "web" ∷ [])
            → Member obj (stored reader.informer.store)
              × IsCovered none false reader obj
              × All (HasLabel obj) (("app", "web") ∷ []))
          × (Member obj (stored reader.informer.store)
                × IsCovered none false reader obj
                × All (HasLabel obj) (("app", "web") ∷ [])
              → Member obj (pod "x" "a" "web" ∷ [])))
list-Member_example =
    list-Member none false (("app", "web") ∷ []) reader (pod "x" "a" "web" ∷ []) listed
