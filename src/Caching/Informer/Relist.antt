-- ===== src/Caching/Informer/Relist.antt =====
-- The store and the notices of cloudcoil/caching/_informer.py side by side: a client that replays the
-- notices knows what an unlimited cache holds.
use cloudcoil.Base.{
  true, none, some, String, String-discrete, List, [], ◌∷◌, ◌++◌, if◌then◌else◌, ◌≡◌, sym, ap, ◌∙◌,
  subst, arith, All,
}
use cloudcoil.Base.Dicts.{lookup, put, pop, lookup-put, lookup-pop}
use cloudcoil.Caching.Store.{is_truthy}
use cloudcoil.Caching.Store.Replace.{loaded}
use cloudcoil.Caching.Informer.{
  Resource, Key, Key-discrete, default_key_func, get_key, index_by_key, departures, arrivals,
}
use cloudcoil.Caching.Informer.Replay.{
  View, replay, replay-append, index_by_key-Keyed, index_by_key-UniqueKeys, lookup-departures,
  lookup-arrivals,
}

abbrev dec : Discrete Key
dec = Key-discrete

module _ {Body : Type 0} where
  -- The notices of a relist lead from the previous dictionary to the current one.
  pub replay-relist :
      (k : Key) (before after : List (Resource Body)) (view : View Body)
      → ((j : Key) → lookup dec j view ≡ lookup dec j (index_by_key before []))
      → let previous = index_by_key before [] in
        let current = index_by_key after [] in
        lookup dec k (replay (departures previous current ++ arrivals previous current) view)
        ≡ lookup dec k current
  replay-relist k before after view h =
      let previous = index_by_key before [] in
      let current = index_by_key after [] in
      let gone =
        lookup-departures k previous current view (index_by_key-Keyed before [] tt)
          (index_by_key-UniqueKeys before [] tt) in
      let come =
        lookup-arrivals k previous current (replay (departures previous current) view)
          (index_by_key-Keyed after [] tt) (index_by_key-UniqueKeys after [] tt) in
      ap (lookup dec k)
        (replay-append (departures previous current) (arrivals previous current) view)
      ∙ ground (arith, gone, come, h k)

  -- The cache files the object under its key, which is not empty.
  abbrev pub IsNamed : Resource Body → Type 0
  IsNamed obj =
      (get_key obj ≡ some (default_key_func obj)) × (is_truthy (default_key_func obj) ≡ true)

  -- The view holds exactly the items.
  pub record Mirrors (view : View Body) (items : List (String × Resource Body)) : Type 0 where
    pub named : (k : String) → lookup dec (some k) view ≡ lookup String-discrete k items
    pub unnamed : lookup dec none view ≡ none

  pub put-Mirrors :
      (obj : Resource Body) (view : View Body) (items : List (String × Resource Body))
      → IsNamed obj
      → Mirrors view items
      → Mirrors
          (put dec (get_key obj) obj view)
          (put String-discrete (default_key_func obj) obj items)
  put-Mirrors obj view items n h = record {
    named = λ k. ground (
      arith,
      h.named k,
      n.0,
      lookup-put dec (get_key obj) (some k) obj view,
      lookup-put String-discrete (default_key_func obj) k obj items,
      λ (p : default_key_func obj ≡ k). ap (λ t. some t) p,
    );
    unnamed = ground (arith, h.unnamed, n.0, lookup-put dec (get_key obj) none obj view);
  }

  pub pop-Mirrors :
      (obj : Resource Body) (view : View Body) (items : List (String × Resource Body))
      → IsNamed obj
      → Mirrors view items
      → Mirrors (pop dec (get_key obj) view) (pop String-discrete (default_key_func obj) items)
  pop-Mirrors obj view items n h = record {
    named = λ k. ground (
      arith,
      h.named k,
      n.0,
      lookup-pop dec (get_key obj) (some k) view,
      lookup-pop String-discrete (default_key_func obj) k items,
      λ (p : default_key_func obj ≡ k). ap (λ t. some t) p,
    );
    unnamed = ground (arith, h.unnamed, n.0, lookup-pop dec (get_key obj) none view);
  }

  -- What the dictionary of a list of objects holds is what the loop of `replace` stores.
  pub load-Mirrors :
      (objs : List (Resource Body)) (view : View Body) (items : List (String × Resource Body))
      → All IsNamed objs
      → Mirrors view items
      → Mirrors (index_by_key objs view) (loaded default_key_func objs items)
  unfolding index_by_key loaded
  load-Mirrors [] view items n h = h
  load-Mirrors (obj ∷ objs) view items n h =
      subst
        (λ b. Mirrors (index_by_key objs (put dec (get_key obj) obj view)) (
          loaded default_key_func objs
            (if b then put String-discrete (default_key_func obj) obj items else items)))
        (sym n.0.1) (load-Mirrors objs _ _ n.1 (put-Mirrors obj view items n.0 h))
