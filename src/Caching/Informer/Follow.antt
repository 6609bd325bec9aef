-- ===== src/Caching/Informer/Follow.antt =====
-- Each handler of cloudcoil/caching/_informer.py: the cache and a client that replays the notices stay
-- the same.
use cloudcoil.Base.{
  Bool, true, none, some, String, String-discrete, List, [], ◌∷◌, ◌++◌, map, if_ind, ◌≡◌, refl, sym,
  ap, ◌∙◌, subst, arith, All,
}
use cloudcoil.Base.Sets.{Unique}
use cloudcoil.Base.Dicts.{lookup, put, pop, lookup-put, lookup-nil, lookup-cons, UniqueKeys}
use cloudcoil.Base.Results.{Result, ok, ◌>>=◌}
use cloudcoil.Caching.Store.{Store, is_truthy, add, list}
use cloudcoil.Caching.Store.Invariant.{IsValid, Became}
use cloudcoil.Caching.Store.Methods.{after_add, add-Became, delete-Became}
use cloudcoil.Caching.Store.Replace.{loaded, keys, replace-Became}
use cloudcoil.Caching.Informer.{
  Resource, Informer, Notice, added, updated, deleted, Key, Key-discrete, default_key_func, get_key,
  index_by_key, departures, arrivals, handle_initial_items, handle_add, handle_update,
  handle_delete, handle_watch_event, EventType, bookmark, added_event, modified, deleted_event,
  error_event, other_event,
}
use cloudcoil.Caching.Informer.Replay.{View, see, replay}
use cloudcoil.Caching.Informer.Relist.{
  replay-relist, IsNamed, Mirrors, put-Mirrors, pop-Mirrors, load-Mirrors,
}

abbrev dec : Discrete Key
dec = Key-discrete

abbrev Items : Type 0 → Type 0
Items Body = List (String × Resource Body)

module _ {Body : Type 0} where
  -- Every item is filed as the handlers would file it.
  abbrev pub KeyedItems : Items Body → Type 0
  KeyedItems = All (λ e. get_key e.1 ≡ some e.0)

  put-KeyedItems :
      (key : String) (obj : Resource Body) (items : Items Body)
      → get_key obj ≡ some key
      → KeyedItems items
      → KeyedItems (put String-discrete key obj items)
  unfolding put
  put-KeyedItems key obj [] n h = (n, tt)
  put-KeyedItems key obj ((k, old) ∷ items) n h = ground (arith, put-KeyedItems key obj items n h.1)

  pop-KeyedItems :
      (key : String) (items : Items Body)
      → KeyedItems items
      → KeyedItems (pop String-discrete key items)
  unfolding pop
  pop-KeyedItems key [] h = tt
  pop-KeyedItems key ((k, old) ∷ items) h = ground (arith, pop-KeyedItems key items h.1)

  loaded-KeyedItems :
      (objs : List (Resource Body)) (items : Items Body)
      → All IsNamed objs
      → KeyedItems items
      → KeyedItems (loaded default_key_func objs items)
  unfolding loaded
  loaded-KeyedItems [] items n h = h
  loaded-KeyedItems (obj ∷ objs) items n h = loaded-KeyedItems objs _ n.1 (
      if_ind KeyedItems (is_truthy (default_key_func obj))
        (λ _. put-KeyedItems (default_key_func obj) obj items n.0.0 h) (λ _. h))

  -- The dictionary of the stored objects is the store's.
  lookup-index_by_key :
      (j : Key) (items : Items Body) (found : View Body)
      → UniqueKeys String-discrete items
      → KeyedItems items
      → lookup dec j (index_by_key (map (λ e. e.1) items) found) ≡ elim j [
        | none ↦ lookup dec none found
        | some k ↦ elim (lookup String-discrete k items) [
          | some obj ↦ some obj
          | none ↦ lookup dec (some k) found
        ]
      ]
  unfolding index_by_key
  lookup-index_by_key none [] found u h = refl
  lookup-index_by_key (some k) [] found u h =
      ground (arith, lookup-nil {V = Resource Body} String-discrete k)
  lookup-index_by_key none ((key, obj) ∷ items) found u h =
      lookup-index_by_key none items (put dec (get_key obj) obj found) u.1 h.1
      ∙ ground (arith, h.0, lookup-put dec (get_key obj) none obj found)
  lookup-index_by_key (some k) ((key, obj) ∷ items) found u h =
      lookup-index_by_key (some k) items (put dec (get_key obj) obj found) u.1 h.1
      ∙ ground (
        arith,
        h.0,
        u.0,
        lookup-put dec (get_key obj) (some k) obj found,
        lookup-cons String-discrete k key obj items,
        λ (p : key ≡ k). ap (λ t. lookup String-discrete t items) p,
        λ (p : key ≡ k). ap (λ t. some t) p,
      )

  after_unlimited :
      (obj : Resource Body) (s : Store (Resource Body))
      → IsNamed obj
      → s.max_items ≡ 0
      → after_add default_key_func obj s ≡ put String-discrete (default_key_func obj) obj s.items
  after_unlimited obj s n z = ground (arith, n.1, z)

  -- The cache is sound, unlimited, and the same as the view.
  pub record Follows (inf : Informer Body) (view : View Body) : Type 0 where
    pub valid : IsValid default_key_func inf.store
    pub unlimited : inf.store.max_items ≡ 0
    pub keyed : KeyedItems inf.store.items
    pub mirrors : Mirrors view inf.store.items

  -- A handler returns, and its notices take the view along.
  abbrev pub Keeps : View Body → Result (Informer Body × List (Notice (Resource Body))) → Type 0
  Keeps view r =
      (next : Informer Body) × (notices : List (Notice (Resource Body))) × (r ≡ ok (next, notices))
      × Follows next (replay notices view)

  -- The end of a handler, after what it does to the store.
  stored_Keeps :
      (inf : Informer Body) (view : View Body) (items : Items Body)
      (notices : List (Notice (Resource Body))) {r : Result (Store (Resource Body))} (synced : Bool)
      → inf.store.max_items ≡ 0
      → Became default_key_func inf.store items r
      → KeyedItems items
      → Mirrors (replay notices view) items
      → Keeps view (r >>= λ store. ok (record inf { store = store; sync_event = synced }, notices))
  stored_Keeps inf view items notices synced z b k m = (
    record inf { store = b.store; sync_event = synced },
    notices,
    rw b.returned refl,
    record {
      valid = b.valid;
      unlimited = b.keeps_limit ∙ z;
      keyed = subst KeyedItems (sym b.holds_items) k;
      mirrors = subst (Mirrors (replay notices view)) (sym b.holds_items) m;
    },
  )

  put_Keeps :
      (obj : Resource Body) (inf : Informer Body) (view : View Body)
      (notice : Notice (Resource Body))
      → IsNamed obj
      → see notice view ≡ put dec (get_key obj) obj view
      → Follows inf view
      → Keeps view (
          add default_key_func obj inf.store >>= λ store.
          ok (record inf { store = store }, notice ∷ []))
  unfolding replay
  put_Keeps obj inf view notice n e h =
      let b = add-Became default_key_func obj inf.store h.valid in
      let same = after_unlimited obj inf.store n h.unlimited in
      stored_Keeps inf view (after_add default_key_func obj inf.store) (notice ∷ []) inf.sync_event
        h.unlimited b
        (subst KeyedItems (sym same)
          (put-KeyedItems (default_key_func obj) obj inf.store.items n.0 h.keyed))
        (subst (λ v. Mirrors v (after_add default_key_func obj inf.store)) (sym e)
          (subst (Mirrors (put dec (get_key obj) obj view)) (sym same)
            (put-Mirrors obj view inf.store.items n h.mirrors)))

  delete_Keeps :
      (obj : Resource Body) (inf : Informer Body) (view : View Body)
      → IsNamed obj
      → Follows inf view
      → Keeps view (handle_delete obj inf)
  unfolding replay see handle_delete
  delete_Keeps obj inf view n h =
      stored_Keeps inf view _ (deleted obj ∷ []) inf.sync_event h.unlimited
        (delete-Became default_key_func obj inf.store h.valid)
        (pop-KeyedItems (default_key_func obj) inf.store.items h.keyed)
        (pop-Mirrors obj view inf.store.items n h.mirrors)

  pub handle_watch_event-Keeps :
      (type : EventType) (obj : Resource Body) (inf : Informer Body) (view : View Body)
      → IsNamed obj
      → Follows inf view
      → Keeps view (handle_watch_event type obj inf)
  unfolding handle_watch_event handle_add handle_update see replay
  handle_watch_event-Keeps added_event obj inf view n h =
      put_Keeps obj inf view (added obj) n refl h
  handle_watch_event-Keeps modified obj inf view n h =
      put_Keeps obj inf view (updated _ obj) n refl h
  handle_watch_event-Keeps deleted_event obj inf view n h = delete_Keeps obj inf view n h
  handle_watch_event-Keeps bookmark obj inf view n h = (inf, [], refl, h)
  handle_watch_event-Keeps error_event obj inf view n h = (inf, [], refl, h)
  handle_watch_event-Keeps other_event obj inf view n h = (inf, [], refl, h)

  pub nil-Mirrors : Mirrors {Body = Body} [] []
  nil-Mirrors = record {
    named = λ k.
        lookup-nil {V = Resource Body} dec (some k)
        ∙ sym (lookup-nil {V = Resource Body} String-discrete k);
    unnamed = lookup-nil {V = Resource Body} dec none;
  }

  -- The view is the dictionary of the stored objects.
  view_previous :
      (j : Key) (inf : Informer Body) (view : View Body)
      → Follows inf view
      → lookup dec j view ≡ lookup dec j (index_by_key (list inf.store) [])
  unfolding list
  view_previous none inf view h =
      h.mirrors.unnamed
      ∙ sym (
          lookup-index_by_key none inf.store.items [] h.valid.once h.keyed
          ∙ lookup-nil {V = Resource Body} dec none)
  view_previous (some k) inf view h =
      h.mirrors.named k
      ∙ sym (
          lookup-index_by_key (some k) inf.store.items [] h.valid.once h.keyed
          ∙ ground (arith, lookup-nil {V = Resource Body} dec (some k)))

  pub handle_initial_items-Keeps :
      (objs : List (Resource Body)) (inf : Informer Body) (view : View Body)
      → All IsNamed objs
      → Unique String-discrete (keys default_key_func objs)
      → Follows inf view
      → Keeps view (handle_initial_items objs inf)
  unfolding handle_initial_items
  handle_initial_items-Keeps objs inf view n u h =
      let previous = index_by_key (list inf.store) [] in
      let current = index_by_key objs [] in
      let loads = load-Mirrors objs [] [] n nil-Mirrors in
      let relisted =
        λ (j : Key). replay-relist j (list inf.store) objs view (λ i. view_previous i inf view h) in
      stored_Keeps inf view (loaded default_key_func objs [])
        (departures previous current ++ arrivals previous current) true h.unlimited
        (replace-Became default_key_func objs inf.store u h.valid) (loaded-KeyedItems objs [] n tt)
        (record {
          named = λ k. relisted (some k) ∙ loads.named k;
          unnamed = relisted none ∙ loads.unnamed;
        })
