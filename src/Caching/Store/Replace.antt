-- ===== src/Caching/Store/Replace.antt =====
-- `replace`, `clear` and `add_index` of cloudcoil/caching/_store.py.
use mathlib.Core.Option
use cloudcoil.Base.{
  Bool, true, false, none, String, String-discrete, List, [], ◌∷◌, ◌≡◌, refl, arith, if◌then◌else◌,
  subst, sym, map, All,
}
use cloudcoil.Base.Sets.{contains, contains-cons, Unique}
use cloudcoil.Base.Dicts.{lookup, put, lookup-put, lookup-nil, put-UniqueKeys}
use cloudcoil.Base.Results.{Result, ok, ◌>>=◌}
use cloudcoil.Caching.Store.{
  Store, Indices, is_truthy, add_index, build_index, store_item, clear, load, replace,
}
use cloudcoil.Caching.Store.Exact.{Exact, build_index-Exact, nil-Exact}
use cloudcoil.Caching.Store.Invariant.{IsValid, Became, store_item-Became}
use cloudcoil.Caching.Store.Methods.{same-Became, bind-Became}

abbrev dec : Discrete String
dec = String-discrete

abbrev emptied : Indices → Indices
emptied = map (λ e. (e.0, []))

lookup-cleared :
    (j : String) (indices : Indices)
    → lookup dec j (emptied indices) ≡ Option.map (λ _. []) (lookup dec j indices)
unfolding lookup
lookup-cleared j [] = refl
lookup-cleared j ((name, index) ∷ indices) = ground (arith, lookup-cleared j indices)

module _ {Obj : Type 0} (key_func : Obj → String) where
  -- A new index over the items that are there keeps a store valid; so does it in place of an index
  -- of the same name.
  pub add_index-IsValid :
      (name : String) (func : Obj → String) (s : Store Obj)
      → IsValid key_func s
      → IsValid key_func (add_index name func s)
  unfolding add_index
  add_index-IsValid name func s h =
      let built = build_index func s.items [] in
      record {
        once = h.once;
        own = h.own;
        funcs_once = put-UniqueKeys dec name func s.index_funcs h.funcs_once;
        has_indices = λ j f e. elim (dec name j) [
          | yes p ↦ (built, ground (arith, p, lookup-put dec name j built s.indices))
          | no n ↦
              let (index, e') =
                h.has_indices j f (ground (arith, e, lookup-put dec name j func s.index_funcs)) in
              (index, ground (arith, e', lookup-put dec name j built s.indices))
        ];
        no_others = λ j e. ground (
          arith,
          h.no_others j,
          e,
          lookup-put dec name j func s.index_funcs,
          lookup-put dec name j built s.indices,
        );
        exact = λ j f index e i. elim (dec name j) [
          | yes p ↦
              let same_func : func ≡ f =
                ground (arith, p, e, lookup-put dec name j func s.index_funcs) in
              let same_index : built ≡ index =
                ground (arith, p, i, lookup-put dec name j built s.indices) in
              subst (λ g. Exact g s.items index) same_func
                (subst (Exact func s.items) same_index (build_index-Exact func s.items h.once))
          | no n ↦
              h.exact j f index (ground (arith, e, lookup-put dec name j func s.index_funcs))
                (ground (arith, i, lookup-put dec name j built s.indices))
        ];
      }

  pub clear-IsValid : (s : Store Obj) → IsValid key_func s → IsValid key_func (clear s)
  unfolding clear
  clear-IsValid s h = record {
    once = tt;
    own = λ k obj e. absurd (ground (arith, e, lookup-nil {V = Obj} dec k));
    funcs_once = h.funcs_once;
    has_indices = λ j f e.
        let (index, e') = h.has_indices j f e in
        ([], ground (arith, e', lookup-cleared j s.indices));
    no_others = λ j e. ground (arith, e, h.no_others j, lookup-cleared j s.indices);
    exact = λ j f index e i.
        let (index', e') = h.has_indices j f e in
        subst (Exact f []) {x = []} (ground (arith, i, e', lookup-cleared j s.indices))
          (nil-Exact f);
  }

  -- The items after the loop of `replace`.
  unfoldable pub loaded : List Obj → List (String × Obj) → List (String × Obj)
  loaded [] items = items
  loaded (obj ∷ objs) items =
      loaded objs (if is_truthy (key_func obj) then put dec (key_func obj) obj items else items)

  abbrev pub keys : List Obj → List String
  keys = map key_func

  -- No key of the list is stored yet.
  abbrev pub AllNew : List Obj → List (String × Obj) → Type 0
  AllNew objs items = All (λ obj. lookup dec (key_func obj) items ≡ none) objs

  pub put-AllNew :
      (key : String) (obj : Obj) (objs : List Obj) (items : List (String × Obj))
      → contains dec key (keys objs) ≡ false
      → AllNew objs items
      → AllNew objs (put dec key obj items)
  put-AllNew key obj [] items c n = tt
  put-AllNew key obj (other ∷ objs) items c n = (
    ground (
      arith,
      n.0,
      lookup-put dec key (key_func other) obj items,
      contains-cons dec key (key_func other) (keys objs),
    ),
    put-AllNew key obj objs items
        (ground (arith, contains-cons dec key (key_func other) (keys objs))) n.1,
  )

  -- The loop on the rest of the objects does what it should.
  abbrev Loads : List Obj → Type 0
  Loads objs =
      (s : Store Obj)
      → Unique dec (keys objs)
      → AllNew objs s.items
      → IsValid key_func s
      → Became key_func s (loaded objs s.items) (load key_func objs s)

  load_if :
      (obj : Obj) (objs : List Obj) (b : Bool) (s : Store Obj)
      → is_truthy (key_func obj) ≡ b
      → Unique dec (keys (obj ∷ objs))
      → AllNew (obj ∷ objs) s.items
      → IsValid key_func s
      → Loads objs
      → Became key_func s
          (loaded objs (if b then put dec (key_func obj) obj s.items else s.items))
          ((if b then store_item (key_func obj) obj none s else ok s) >>= λ t. load key_func objs t)
  load_if obj objs true s e u n h rest =
      let stored =
        subst
          (λ o.
            Became key_func s (put dec (key_func obj) obj s.items)
              (store_item (key_func obj) obj o s))
          n.0 (store_item-Became key_func (key_func obj) obj s refl e h) in
      bind-Became key_func _ s _ stored λ t same valid.
        subst (λ l. Became key_func t (loaded objs l) (load key_func objs t)) same
          (rest t u.1
            (subst (AllNew objs) (sym same) (put-AllNew (key_func obj) obj objs s.items u.0 n.1))
            valid)
  load_if obj objs false s e u n h rest = rest s u.1 n.1 h

  load-Became : (objs : List Obj) → Loads objs
  unfolding load loaded
  load-Became [] s u n h = same-Became key_func s h
  load-Became (obj ∷ objs) s u n h =
      load_if obj objs (is_truthy (key_func obj)) s refl u n h (load-Became objs)

  pub nil-AllNew : (objs : List Obj) → AllNew objs []
  nil-AllNew [] = tt
  nil-AllNew (obj ∷ objs) = (lookup-nil dec (key_func obj), nil-AllNew objs)

  cleared-AllNew : (objs : List Obj) (s : Store Obj) → AllNew objs (clear s).items
  unfolding clear
  cleared-AllNew objs s = nil-AllNew objs

  -- What comes from the cleared store comes from the store.
  from_cleared :
      (items : List (String × Obj)) (s : Store Obj) {r : Result (Store Obj)}
      → Became key_func (clear s) items r
      → Became key_func s items r
  unfolding clear
  from_cleared items s b = record {
    store = b.store;
    returned = b.returned;
    holds_items = b.holds_items;
    keeps_funcs = b.keeps_funcs;
    keeps_limit = b.keeps_limit;
    valid = b.valid;
  }

  cleared : (s : Store Obj) → (clear s).items ≡ []
  unfolding clear
  cleared s = refl

  -- Replacing the items by objects with different keys raises nothing and leaves a valid store of
  -- just these objects, those without a key left out.
  pub replace-Became :
      (objs : List Obj) (s : Store Obj)
      → Unique dec (keys objs)
      → IsValid key_func s
      → Became key_func s (loaded objs []) (replace key_func objs s)
  unfolding replace
  replace-Became objs s u h = from_cleared (loaded objs []) s (
      subst (λ l. Became key_func (clear s) (loaded objs l) (load key_func objs (clear s)))
        (cleared s) (load-Became objs (clear s) u (cleared-AllNew objs s) (clear-IsValid s h)))
