-- ===== src/Caching/Store/Invariant.antt =====
-- A valid store of cloudcoil/caching/_store.py, and that the changes of one item keep it valid and
-- raise nothing.
use cloudcoil.Base.{
  ℕ, true, Option, none, some, String, String-discrete, List, ◌≡◌, refl, arith, Option-cases, inl,
  inr, subst, sym, ◌∙◌, ap,
}
use cloudcoil.Base.Dicts.{
  lookup, put, pop, lookup-put, lookup-pop, lookup-nil, UniqueKeys, put-UniqueKeys, pop-UniqueKeys,
  pop_absent,
}
use cloudcoil.Base.Results.{Result, ok}
use cloudcoil.Caching.Store.{
  Store, Index, Indices, init, is_truthy, update_indices, delete_internal, store_item, get,
}
use cloudcoil.Caching.Store.Updates.{update_indices-updated, reindex, HasIndices}
use cloudcoil.Caching.Store.Exact.{Exact, reindex-Exact}

abbrev dec : Discrete String
dec = String-discrete

module _ {Obj : Type 0} (key_func : Obj → String) where
  -- Each object lies under its own nonempty key, once, and there is one index for each index
  -- function, which agrees with the items.
  pub record IsValid (s : Store Obj) : Type 0 where
    pub once : UniqueKeys dec s.items
    pub own :
        (k : String) (obj : Obj)
        → lookup dec k s.items ≡ some obj
        → (key_func obj ≡ k) × (is_truthy k ≡ true)
    pub funcs_once : UniqueKeys dec s.index_funcs
    pub has_indices : HasIndices s.index_funcs s.indices
    pub no_others : (j : String) → lookup dec j s.index_funcs ≡ none → lookup dec j s.indices ≡ none
    pub exact :
        (j : String) (func : Obj → String) (index : Index)
        → lookup dec j s.index_funcs ≡ some func
        → lookup dec j s.indices ≡ some index
        → Exact func s.items index

  pub init-IsValid : (max_items : ℕ) → IsValid (init max_items)
  unfolding init
  init-IsValid max_items = record {
    once = tt;
    own = λ k obj e. absurd (ground (arith, e, lookup-nil {V = Obj} dec k));
    funcs_once = tt;
    has_indices = λ j func e. absurd (ground (arith, e, lookup-nil {V = Obj → String} dec j));
    no_others = λ j e. lookup-nil {V = Index} dec j;
    exact = λ j func index e. absurd (ground (arith, e, lookup-nil {V = Obj → String} dec j));
  }

  -- The item `key` changes to `new`, and with it the indices.
  pub update-IsValid :
      (key : String) (new : Option Obj) (items : List (String × Obj)) (s : Store Obj)
      → UniqueKeys dec items
      → ((k : String)
          → lookup dec k items ≡ elim (dec key k) [ yes _ ↦ new | no _ ↦ lookup dec k s.items ])
      → ((obj : Obj) → new ≡ some obj → (key_func obj ≡ key) × (is_truthy key ≡ true))
      → IsValid s
      → (next : Indices) × (update_indices s.index_funcs key (lookup dec key s.items) new s.indices
          ≡ ok next)
        × IsValid (record s { items = items; indices = next })
  update-IsValid key new items s u w o h =
      let old = lookup dec key s.items in
      let (next, done, at) =
        update_indices-updated key old new s.index_funcs s.indices h.funcs_once h.has_indices in
      (
        next,
        done,
        record {
          once = u;
          own = λ k obj e. elim (dec key k) [
            | yes p ↦
                subst (λ t. (key_func obj ≡ t) × (is_truthy t ≡ true)) p
                  (o obj (ground (arith, w k, e)))
            | no n ↦ h.own k obj (ground (arith, w k, e))
          ];
          funcs_once = h.funcs_once;
          has_indices = λ j func e.
              let (index, e') = h.has_indices j func e in
              (reindex key old new func index, ground (arith, at j, e'));
          no_others = λ j e. ground (arith, at j, h.no_others j);
          exact = λ j func index e f.
              let (index', e') = h.has_indices j func e in
              subst (Exact func items) {x = reindex key old new func index'}
                (ground (arith, at j, e, e', f))
                (reindex-Exact func key old new s.items items index' refl w
                  (h.exact j func index' e e'));
        },
      )

  -- `s'` holds `items` and is as valid as `s`; what is configured stays.
  pub record Became (s : Store Obj) (items : List (String × Obj)) (r : Result (Store Obj))
      : Type 0 where
    pub store : Store Obj
    pub returned : r ≡ ok store
    pub holds_items : store.items ≡ items
    pub keeps_funcs : store.index_funcs ≡ s.index_funcs
    pub keeps_limit : store.max_items ≡ s.max_items
    pub valid : IsValid store

  pub store_item-Became :
      (key : String) (obj : Obj) (s : Store Obj)
      → key_func obj ≡ key
      → is_truthy key ≡ true
      → IsValid s
      → Became s (put dec key obj s.items) (store_item key obj (lookup dec key s.items) s)
  unfolding store_item
  store_item-Became key obj s f t h =
      let (next, done, valid) =
        update-IsValid key (some obj) (put dec key obj s.items) s
          (put-UniqueKeys dec key obj s.items h.once) (λ k. lookup-put dec key k obj s.items)
          (λ o e. ground (arith, f, t, e)) h in
      record {
        store = record s { items = put dec key obj s.items; indices = next };
        returned = rw done;
        holds_items = refl;
        keeps_funcs = refl;
        keeps_limit = refl;
        valid = valid;
      }

  pub delete_internal-Became :
      (key : String) (s : Store Obj)
      → IsValid s
      → Became s (pop dec key s.items) (delete_internal key s)
  unfolding delete_internal get
  delete_internal-Became key s h = elim (Option-cases (lookup dec key s.items)) [
    | inl e ↦ record {
      store = s;
      returned = rw (e, delete_internal, get);
      holds_items = sym (pop_absent dec key s.items e);
      keeps_funcs = refl;
      keeps_limit = refl;
      valid = h;
    }
    | inr (obj, e) ↦
        let (next, done, valid) =
          update-IsValid key none (pop dec key s.items) s (pop-UniqueKeys dec key s.items h.once)
            (λ k. lookup-pop dec key k s.items) (λ o i. cc) h in
        record {
          store = record s { items = pop dec key s.items; indices = next };
          returned =
              rw (e, delete_internal, get)
                (rw (ap (λ o. update_indices s.index_funcs key o none s.indices) (sym e) ∙ done));
          holds_items = refl;
          keeps_funcs = refl;
          keeps_limit = refl;
          valid = valid;
        }
  ]
