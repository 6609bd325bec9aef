-- ===== src/Caching/Store.antt =====
-- cloudcoil/caching/_store.py: `ConcurrentStore`, over any type of objects. Every public method
-- holds the lock throughout, so a method is one step; log lines are left out.
pub mod Indices
pub mod Updates
pub mod Exact
pub mod Invariant
pub mod Methods
pub mod Replace
pub mod Capacity
pub mod Reads
mod Tests
use cloudcoil.Base.{
  ℕ, Bool, true, false, ◌&&◌, Option, none, some, String, String-discrete, List, [], ◌∷◌, map, ltb,
  leb, if◌then◌else◌, length, is_empty,
}
use Prim.Native.String.{◌++◌ as join}
use cloudcoil.Base.Sets.{insert, discard}
use cloudcoil.Base.Dicts.{lookup, put, pop}
use cloudcoil.Base.Results.{Result, ok, raise, key_error, stop_iteration, ◌>>=◌}

-- `if text:`
abbrev pub is_truthy : String → Bool
is_truthy s = elim (String-discrete s "") [ yes _ ↦ false | no _ ↦ true ]

-- One custom index: the keys of the objects under each index key.
abbrev pub Index : Type 0
Index = List (String × List String)

abbrev pub Indices : Type 0
Indices = List (String × Index)

pub record Store (Obj : Type 0) : Type 0 where
  pub items : List (String × Obj)
  pub indices : Indices
  pub index_funcs : List (String × (Obj → String))
  pub max_items : ℕ

unfoldable pub init : {Obj : Type 0} → ℕ → Store Obj
init max_items = record { items = []; indices = []; index_funcs = []; max_items = max_items }

abbrev pub get_index : String → Indices → Option Index
get_index = lookup String-discrete

-- `self._indices[index_name]` is changed in place; `KeyError` if there is no such index.
unfoldable pub with_index : String → (Index → Index) → Indices → Result Indices
with_index name change indices = elim (get_index name indices) [
  | some index ↦ ok (put String-discrete name (change index) indices)
  | none ↦ raise key_error
]

-- Lines "Add to new index": the key joins the set of its index key.
unfoldable pub note_key : String → String → Index → Index
note_key index_key key index = elim (lookup String-discrete index_key index) [
  | some keys ↦ put String-discrete index_key (insert String-discrete key keys) index
  | none ↦ put String-discrete index_key (insert String-discrete key []) index
]

-- Lines "Remove from old index": an index key whose set becomes empty is deleted.
unfoldable pub drop_key : String → String → Index → Index
drop_key index_key key index = elim (lookup String-discrete index_key index) [
  | some keys ↦
      let rest = discard String-discrete key keys in
      if is_empty rest
      then pop String-discrete index_key index
      else put String-discrete index_key rest index
  | none ↦ index
]

module _ {Obj : Type 0} where
  unfoldable pub remove_old :
      String → (Obj → String) → String → Option Obj → Indices → Result Indices
  remove_old name func key (some old) indices =
      if is_truthy (func old) then with_index name (drop_key (func old) key) indices else ok indices
  remove_old name func key none indices = ok indices

  unfoldable pub add_new : String → (Obj → String) → String → Option Obj → Indices → Result Indices
  add_new name func key (some new) indices =
      if is_truthy (func new) then with_index name (note_key (func new) key) indices else ok indices
  add_new name func key none indices = ok indices

  -- `_update_indices`
  unfoldable pub update_indices :
      List (String × (Obj → String)) → String → Option Obj → Option Obj → Indices → Result Indices
  update_indices [] key old new indices = ok indices
  update_indices ((name, func) ∷ funcs) key old new indices =
      (remove_old name func key old indices >>= λ removed. add_new name func key new removed)
      >>= λ next. update_indices funcs key old new next

  -- The rebuild of `add_index`
  unfoldable pub build_index : (Obj → String) → List (String × Obj) → Index → Index
  build_index func [] index = index
  build_index func ((key, obj) ∷ items) index =
      build_index func items (if is_truthy (func obj) then note_key (func obj) key index else index)

  unfoldable pub add_index : String → (Obj → String) → Store Obj → Store Obj
  add_index name func s = record s {
    index_funcs = put String-discrete name func s.index_funcs;
    indices = put String-discrete name (build_index func s.items []) s.indices;
  }

  unfoldable pub get : String → Store Obj → Option Obj
  get key s = lookup String-discrete key s.items

  -- `get_by_name`, with the namespace or the empty text for `None`
  unfoldable pub get_by_name : String → String → Store Obj → Option Obj
  get_by_name name namespace s =
      if is_truthy namespace then get (join namespace (join "/" name)) s else get name s

  -- `[self._items[key] for key in keys if key in self._items]`
  unfoldable pub present : List String → Store Obj → List Obj
  present [] s = []
  present (key ∷ keys) s = elim (get key s) [
    | some obj ↦ obj ∷ present keys s
    | none ↦ present keys s
  ]

  unfoldable pub get_by_index : String → String → Store Obj → Result (List Obj)
  get_by_index name index_key s = elim (get_index name s.indices) [
    | some index ↦ elim (lookup String-discrete index_key index) [
      | some keys ↦ ok (present keys s)
      | none ↦ ok []
    ]
    | none ↦ raise key_error
  ]

  unfoldable pub list_index_keys : String → Store Obj → Result (List String)
  list_index_keys name s = elim (get_index name s.indices) [
    | some index ↦ ok (map (λ e. e.0) index)
    | none ↦ raise key_error
  ]

  unfoldable pub list : Store Obj → List Obj
  list s = map (λ e. e.1) s.items

  unfoldable pub list_keys : Store Obj → List String
  list_keys s = map (λ e. e.0) s.items

  unfoldable pub size : Store Obj → ℕ
  size s = length s.items

  unfoldable pub clear : Store Obj → Store Obj
  clear s = record s { items = []; indices = map (λ e. (e.0, [])) s.indices }

  -- `_delete_internal`
  unfoldable pub delete_internal : String → Store Obj → Result (Store Obj)
  delete_internal key s = elim (get key s) [
    | some obj ↦ update_indices s.index_funcs key (some obj) none s.indices >>= λ indices.
        ok (record s { items = pop String-discrete key s.items; indices = indices })
    | none ↦ ok s
  ]

  -- The limit of `_add_internal`: the oldest item makes room for a new key.
  unfoldable pub evict : String → Store Obj → Result (Store Obj)
  evict key s = elim (get key s) [
    | some _ ↦ ok s
    | none ↦
        if ltb 0 s.max_items && leb s.max_items (length s.items)
        then elim s.items [ [] ↦ raise stop_iteration | oldest ∷ _ ↦ delete_internal oldest.0 s ]
        else ok s
  ]

  -- The rest of `_add_internal`, and the body of the loop of `_replace_internal`
  unfoldable pub store_item : String → Obj → Option Obj → Store Obj → Result (Store Obj)
  store_item key obj old s =
      update_indices s.index_funcs key old (some obj) s.indices >>= λ indices.
      ok (record s { items = put String-discrete key obj s.items; indices = indices })

  module _ (key_func : Obj → String) where
    -- `add` and `async_add`
    unfoldable pub add : Obj → Store Obj → Result (Store Obj)
    add obj s =
        let key = key_func obj in
        if is_truthy key
        then (evict key s >>= λ roomy. store_item key obj (get key roomy) roomy)
        else ok s

    -- `delete` and `async_delete`
    unfoldable pub delete : Obj → Store Obj → Result (Store Obj)
    delete obj s = if is_truthy (key_func obj) then delete_internal (key_func obj) s else ok s

    -- The loop of `_replace_internal`, which takes no old object out of an index
    unfoldable pub load : List Obj → Store Obj → Result (Store Obj)
    load [] s = ok s
    load (obj ∷ objs) s =
        (if is_truthy (key_func obj) then store_item (key_func obj) obj none s else ok s)
        >>= λ next. load objs next

    -- `replace` and `async_replace`
    unfoldable pub replace : List Obj → Store Obj → Result (Store Obj)
    replace objs s = load objs (clear s)
