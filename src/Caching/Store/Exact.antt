-- ===== src/Caching/Store/Exact.antt =====
-- An index of cloudcoil/caching/_store.py that agrees with the items, and that one change of an
-- item keeps it so.
use cloudcoil.Base.{
  Bool, false, ◌||◌, Option, none, some, String, String-discrete, List, [], ◌∷◌, ◌≡◌, refl, arith,
  ◌∙◌, ap, if_ind,
}
use cloudcoil.Base.Dicts.{lookup, lookup-nil, lookup-cons, UniqueKeys}
use cloudcoil.Caching.Store.{Index, is_truthy, build_index}
use cloudcoil.Caching.Store.Indices.{
  in_index, IsTidy, in_index-note_key, in_index-drop_key, note_key-IsTidy, drop_key-IsTidy,
  members-nil,
}
use cloudcoil.Caching.Store.Updates.{removed, added, reindex}
use cloudcoil.Base.Sets.{contains-nil}

abbrev dec : Discrete String
dec = String-discrete

module _ {Obj : Type 0} (func : Obj → String) where
  -- Whether the index should file the object under the index key `i`.
  abbrev pub filed : String → Option Obj → Bool
  filed i none = false
  filed i (some obj) = elim (dec (func obj) i) [ yes _ ↦ is_truthy i | no _ ↦ false ]

  -- The index files each key exactly as the object that is stored under it says.
  pub record Exact (items : List (String × Obj)) (index : Index) : Type 0 where
    pub tidy : IsTidy index
    pub holds : (i k : String) → in_index i k index ≡ filed i (lookup dec k items)

  module _ (key i k : String) (index : Index) where
    in_index-removed :
        (old : Option Obj)
        → in_index i key index ≡ filed i old
        → in_index i k (removed key func old index)
          ≡ elim (dec key k) [ yes _ ↦ false | no _ ↦ in_index i k index ]
    unfolding removed
    in_index-removed none h = ground (arith, h, λ (p : key ≡ k). ap (λ t. in_index i t index) p)
    in_index-removed (some o) h = ground (
      arith,
      h,
      in_index-drop_key (func o) key i k index,
      λ (p : key ≡ k). ap (λ t. in_index i t index) p,
      λ (p : func o ≡ i). ap is_truthy p,
    )

    in_index-added :
        (new : Option Obj)
        → in_index i k (added key func new index) ≡ elim (dec key k) [
          | yes _ ↦ filed i new || in_index i k index
          | no _ ↦ in_index i k index
        ]
    unfolding added
    in_index-added none = ground arith
    in_index-added (some o) =
        ground (arith, in_index-note_key (func o) key i k index, λ (p : func o ≡ i). ap is_truthy p)

  removed-IsTidy :
      (key : String) (old : Option Obj) (index : Index)
      → IsTidy index
      → IsTidy (removed key func old index)
  unfolding removed
  removed-IsTidy key none index h = h
  removed-IsTidy key (some o) index h =
      if_ind IsTidy (is_truthy (func o)) (λ _. drop_key-IsTidy (func o) key index h) (λ _. h)

  added-IsTidy :
      (key : String) (new : Option Obj) (index : Index)
      → IsTidy index
      → IsTidy (added key func new index)
  unfolding added
  added-IsTidy key none index h = h
  added-IsTidy key (some o) index h =
      if_ind IsTidy (is_truthy (func o)) (λ _. note_key-IsTidy (func o) key index h) (λ _. h)

  -- Where the item `key` changes from `old` to `new` and no other does.
  pub reindex-Exact :
      (key : String) (old new : Option Obj) (items items' : List (String × Obj)) (index : Index)
      → lookup dec key items ≡ old
      → ((k : String)
          → lookup dec k items' ≡ elim (dec key k) [ yes _ ↦ new | no _ ↦ lookup dec k items ])
      → Exact items index
      → Exact items' (reindex key old new func index)
  reindex-Exact key old new items items' index e w h = record {
    tidy = added-IsTidy key new _ (removed-IsTidy key old index h.tidy);
    holds = λ i k.
        let was : in_index i key index ≡ filed i old = h.holds i key ∙ ap (filed i) e in
        let without = in_index-removed key i k index old was in
        let within = in_index-added key i k (removed key func old index) new in
        ground (arith, w k, h.holds i k, without, within);
  }

  build_index-cons :
      (key : String) (obj : Obj) (items : List (String × Obj)) (index : Index)
      → build_index func ((key, obj) ∷ items) index
        ≡ build_index func items (added key func (some obj) index)
  unfolding build_index added
  build_index-cons key obj items index = refl

  build-Exact :
      (items : List (String × Obj)) (index : Index)
      → UniqueKeys dec items
      → IsTidy index
      → (i k : String)
      → in_index i k (build_index func items index)
        ≡ (filed i (lookup dec k items) || in_index i k index)
  unfolding build_index
  build-Exact [] index u t i k = ground (arith, lookup-nil {V = Obj} dec k)
  build-Exact ((key, obj) ∷ items) index u t i k =
      let next =
        build-Exact items (added key func (some obj) index) u.1
          (added-IsTidy key (some obj) index t) i k in
      ap (λ t. in_index i k t) (build_index-cons key obj items index)
      ∙ next
      ∙ ground (
        arith,
        in_index-added key i k index (some obj),
        lookup-cons dec k key obj items,
        u.0,
        λ (p : key ≡ k). ap (λ j. lookup dec j items) p,
      )

  build-IsTidy :
      (items : List (String × Obj)) (index : Index)
      → IsTidy index
      → IsTidy (build_index func items index)
  unfolding build_index added
  build-IsTidy [] index t = t
  build-IsTidy ((key, obj) ∷ items) index t =
      build-IsTidy items _ (added-IsTidy key (some obj) index t)

  nil-IsTidy : IsTidy []
  nil-IsTidy i = λ e. ground (arith, lookup-nil {V = List String} dec i)

  -- The index that `add_index` builds from the items that are there.
  pub build_index-Exact :
      (items : List (String × Obj)) → UniqueKeys dec items → Exact items (build_index func items [])
  build_index-Exact items u = record {
    tidy = build-IsTidy items [] nil-IsTidy;
    holds = λ i k.
        ground (arith, build-Exact items [] u nil-IsTidy i k, members-nil i, contains-nil dec k);
  }

  pub nil-Exact : Exact [] []
  nil-Exact = record {
    tidy = nil-IsTidy;
    holds = λ i k. ground (arith, members-nil i, contains-nil dec k, lookup-nil {V = Obj} dec k);
  }
