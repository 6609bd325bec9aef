-- ===== src/Caching/Informer.antt =====
-- cloudcoil/caching/_informer.py: the handlers of `AsyncInformer`, which `SyncInformer` repeats. What
-- is dispatched to the registered handlers is a list of notices; log lines are left out.
pub mod Replay
pub mod Relist
pub mod Follow
pub mod Runs
mod Tests
use Prim.Native.String.{◌++◌ as join}
use cloudcoil.Base.{
  ℕ, Bool, true, false, ◌&&◌, Option, none, some, String, String-discrete, List, [], ◌∷◌, ◌++◌,
  if◌then◌else◌, filter,
}
use cloudcoil.Base.Dicts.{lookup, put}
use cloudcoil.Base.Results.{Result, ok, ◌>>=◌}
use cloudcoil.Caching.Store.{Store, init, is_truthy, get, get_by_name, list, add, delete, replace}

-- `ObjectMeta`, as far as the cache reads it
pub record Meta : Type 0 where
  pub namespace : Option String
  pub name : Option String
  pub uid : Option String
  pub labels : List (String × String)

pub record Resource (Body : Type 0) : Type 0 where
  pub metadata : Option Meta
  pub body : Body

-- A call of `dispatch_add`, `dispatch_update` or `dispatch_delete`
pub data Notice (Obj : Type 0) : Type 0 where
  added : Obj → Notice Obj
  updated : Option Obj → Obj → Notice Obj
  deleted : Obj → Notice Obj

pub record Informer (Body : Type 0) : Type 0 where
  pub store : Store (Resource Body)
  pub sync_event : Bool
  pub started : Bool

abbrev pub Key : Type 0
Key = Option String

abbrev pub Key-discrete : Discrete Key
Key-discrete = hlevel String-discrete

-- `x or ""`
abbrev pub text : Option String → String
text (some t) = t
text none = ""

-- `f"{x}"`
abbrev pub formatted : Option String → String
formatted (some t) = t
formatted none = "None"

module _ {Body : Type 0} where
  -- `_default_key_func` of cloudcoil/caching/_store.py
  unfoldable pub default_key_func : Resource Body → String
  default_key_func obj = elim obj.metadata [
    | some meta ↦
        if is_truthy (text meta.namespace)
        then join (text meta.namespace) (join "/" (formatted meta.name))
        else text meta.name
    | none ↦ ""
  ]

  -- `_get_key`
  unfoldable pub get_key : Resource Body → Key
  get_key obj = elim obj.metadata [
    | some meta ↦
        if is_truthy (text meta.namespace) && is_truthy (text meta.name)
        then some (join (text meta.namespace) (join "/" (text meta.name)))
        else meta.name
    | none ↦ none
  ]

  -- `_uid`
  unfoldable pub uid_of : Resource Body → Option String
  uid_of obj = elim obj.metadata [ some meta ↦ meta.uid | none ↦ none ]

  unfoldable pub same_uid : Resource Body → Resource Body → Bool
  same_uid old new = elim (Key-discrete (uid_of old) (uid_of new)) [ yes _ ↦ true | no _ ↦ false ]

  -- `{self._get_key(obj): obj for obj in objs}`
  unfoldable pub index_by_key :
      List (Resource Body) → List (Key × Resource Body) → List (Key × Resource Body)
  index_by_key [] found = found
  index_by_key (obj ∷ objs) found = index_by_key objs (put Key-discrete (get_key obj) obj found)

  -- The first loop of `_handle_initial_items`
  unfoldable pub departures :
      List (Key × Resource Body) → List (Key × Resource Body) → List (Notice (Resource Body))
  departures [] current = []
  departures ((key, old) ∷ previous) current =
      let rest = departures previous current in
      let gone = deleted old ∷ rest in
      elim (lookup Key-discrete key current) [
        | some new ↦ if same_uid old new then rest else gone
        | none ↦ gone
      ]

  -- The second loop of `_handle_initial_items`
  unfoldable pub arrivals :
      List (Key × Resource Body) → List (Key × Resource Body) → List (Notice (Resource Body))
  arrivals previous [] = []
  arrivals previous ((key, new) ∷ current) =
      let rest = arrivals previous current in
      elim (lookup Key-discrete key previous) [
        | some prior ↦
            if same_uid prior new then updated (some prior) new ∷ rest else added new ∷ rest
        | none ↦ added new ∷ rest
      ]

  -- `__init__`
  unfoldable pub make : ℕ → Informer Body
  make max_items = record { store = init max_items; sync_event = false; started = false }

  -- `_start`, which also starts the watch
  unfoldable pub start : Informer Body → Informer Body
  start inf = if inf.started then inf else record inf { started = true; sync_event = false }

  -- `_stop`, which also stops the watch
  unfoldable pub stop : Informer Body → Informer Body
  stop inf = if inf.started then record inf { started = false } else inf

  unfoldable pub has_synced : Informer Body → Bool
  has_synced inf = inf.sync_event && inf.started

  -- `_handle_initial_items`
  unfoldable pub handle_initial_items :
      List (Resource Body) → Informer Body → Result (Informer Body × List (Notice (Resource Body)))
  handle_initial_items items inf =
      let previous = index_by_key (list inf.store) [] in
      let current = index_by_key items [] in
      replace default_key_func items inf.store >>= λ store. ok (
        record inf { store = store; sync_event = true },
        departures previous current ++ arrivals previous current,
      )

  -- `_handle_add`
  unfoldable pub handle_add :
      Resource Body → Informer Body → Result (Informer Body × List (Notice (Resource Body)))
  handle_add obj inf = add default_key_func obj inf.store >>= λ store.
      ok (record inf { store = store }, added obj ∷ [])

  -- `_handle_update`
  unfoldable pub handle_update :
      Resource Body → Informer Body → Result (Informer Body × List (Notice (Resource Body)))
  handle_update obj inf =
      let old =
        if is_truthy (text (get_key obj)) then get (text (get_key obj)) inf.store else none in
      add default_key_func obj inf.store >>= λ store.
      ok (record inf { store = store }, updated old obj ∷ [])

  -- `_handle_delete`
  unfoldable pub handle_delete :
      Resource Body → Informer Body → Result (Informer Body × List (Notice (Resource Body)))
  handle_delete obj inf = delete default_key_func obj inf.store >>= λ store.
      ok (record inf { store = store }, deleted obj ∷ [])

  -- `get`
  unfoldable pub find : String → Option String → Informer Body → Option (Resource Body)
  find name namespace inf = get_by_name name (text namespace) inf.store

  unfoldable pub in_namespace : String → Resource Body → Bool
  in_namespace namespace obj = elim obj.metadata [
    | some meta ↦ elim (Key-discrete meta.namespace (some namespace)) [
      | yes _ ↦ true
      | no _ ↦ false
    ]
    | none ↦ false
  ]

  unfoldable pub has_label : String × String → Resource Body → Bool
  has_label (key, value) obj = elim obj.metadata [
    | some meta ↦ elim (Key-discrete (lookup String-discrete key meta.labels) (some value)) [
      | yes _ ↦ true
      | no _ ↦ false
    ]
    | none ↦ false
  ]

  -- `list`, with the label selector as the two texts beside its `=`
  unfoldable pub list_items :
      Option String → Option (String × String) → Informer Body → List (Resource Body)
  list_items namespace label inf =
      let within : List (Resource Body) = elim namespace [
        | some ns ↦ filter (in_namespace ns) (list inf.store)
        | none ↦ list inf.store
      ] in
      elim label [ some pair ↦ filter (has_label pair) within | none ↦ within ]

-- The types of watch events
pub data EventType : Type 0 where
  bookmark added_event modified deleted_event error_event other_event : EventType

-- `_handle_watch_event`
unfoldable pub handle_watch_event :
    {Body : Type 0}
    → EventType
    → Resource Body
    → Informer Body
    → Result (Informer Body × List (Notice (Resource Body)))
handle_watch_event added_event obj inf = handle_add obj inf
handle_watch_event modified obj inf = handle_update obj inf
handle_watch_event deleted_event obj inf = handle_delete obj inf
handle_watch_event bookmark obj inf = ok (inf, [])
handle_watch_event error_event obj inf = ok (inf, [])
handle_watch_event other_event obj inf = ok (inf, [])
