-- ===== src/Caching/Store/Methods.antt =====
-- The public methods of cloudcoil/caching/_store.py on a valid store: what they hold afterwards.
-- None raises, and each keeps the store valid.
use cloudcoil.Base.{
  ℕ, Bool, true, false, ◌&&◌, Option, none, some, String, String-discrete, List, [], ◌∷◌, ◌≡◌, refl,
  arith, if◌then◌else◌, if_ind, Option-cases, inl, inr, subst, sym, ◌∙◌, ap, ltb, leb, length,
}
use cloudcoil.Base.Dicts.{lookup, put, pop, UniqueKeys, pop_absent}
use cloudcoil.Base.Results.{Result, ok, raise, stop_iteration, ◌>>=◌}
use cloudcoil.Caching.Store.{Store, is_truthy, delete_internal, store_item, get, evict, add, delete}
use cloudcoil.Caching.Store.Invariant.{IsValid, Became, store_item-Became, delete_internal-Became}

abbrev dec : Discrete String
dec = String-discrete

module _ {Obj : Type 0} where
  abbrev pub is_full : ℕ → List (String × Obj) → Bool
  is_full max_items items = ltb 0 max_items && leb max_items (length items)

  abbrev pub without_oldest : List (String × Obj) → List (String × Obj)
  without_oldest [] = []
  without_oldest (oldest ∷ rest) = rest

  -- What `add` leaves of the items before it stores a key: a new key in a full store costs the
  -- oldest item.
  abbrev pub roomy : ℕ → String → List (String × Obj) → List (String × Obj)
  roomy max_items key items = elim (lookup dec key items) [
    | some _ ↦ items
    | none ↦ if is_full max_items items then without_oldest items else items
  ]

module _ {Obj : Type 0} (key_func : Obj → String) where
  -- Nothing to do.
  pub same-Became : (s : Store Obj) → IsValid key_func s → Became key_func s s.items (ok s)
  same-Became s h = record {
    store = s;
    returned = refl;
    holds_items = refl;
    keeps_funcs = refl;
    keeps_limit = refl;
    valid = h;
  }

  -- The first item is the one that is popped, and its key stands nowhere else.
  pop_oldest :
      (items : List (String × Obj)) (oldest : String × Obj) (rest : List (String × Obj))
      → items ≡ oldest ∷ rest
      → UniqueKeys dec items
      → pop dec oldest.0 items ≡ rest
  unfolding pop
  pop_oldest items oldest rest e u =
      subst (λ l. UniqueKeys dec l → pop dec oldest.0 l ≡ rest) (sym e)
        (λ v. ground (arith, pop_absent dec oldest.0 rest, v.0)) u

  evict_from :
      (items : List (String × Obj)) (s : Store Obj)
      → s.items ≡ items
      → is_full s.max_items s.items ≡ true
      → IsValid key_func s
      → Became key_func s
          (without_oldest items)
          (elim items [ [] ↦ raise stop_iteration | oldest ∷ _ ↦ delete_internal oldest.0 s ])
  evict_from [] s e f h = absurd (ground (arith, ap length e))
  evict_from (oldest ∷ rest) s e f h =
      subst (λ l. Became key_func s l (delete_internal oldest.0 s))
        (pop_oldest s.items oldest rest e h.once) (delete_internal-Became key_func oldest.0 s h)

  evict_if :
      (full : Bool) (s : Store Obj)
      → is_full s.max_items s.items ≡ full
      → IsValid key_func s
      → Became key_func s (if full then without_oldest s.items else s.items) (
          if full
          then elim s.items [ [] ↦ raise stop_iteration | oldest ∷ _ ↦ delete_internal oldest.0 s ]
          else ok s)
  evict_if true s f h = evict_from s.items s refl f h
  evict_if false s f h = same-Became s h

  evict_at :
      (found : Option Obj) (s : Store Obj)
      → IsValid key_func s
      → Became key_func s
          (elim found [
            | some _ ↦ s.items
            | none ↦ if is_full s.max_items s.items then without_oldest s.items else s.items
          ])
          (elim found [
            | some _ ↦ ok s
            | none ↦
                if is_full s.max_items s.items
                then elim s.items [
                  | [] ↦ raise stop_iteration
                  | oldest ∷ _ ↦ delete_internal oldest.0 s
                ]
                else ok s
          ])
  evict_at (some _) s h = same-Became s h
  evict_at none s h = evict_if (is_full s.max_items s.items) s refl h

  evict-Became :
      (key : String) (s : Store Obj)
      → IsValid key_func s
      → Became key_func s (roomy s.max_items key s.items) (evict key s)
  unfolding evict get
  evict-Became key s h = evict_at (lookup dec key s.items) s h

  -- Two changes in a row.
  pub bind-Became :
      {items : List (String × Obj)} (items' : List (String × Obj)) (s : Store Obj)
      {r : Result (Store Obj)} (f : Store Obj → Result (Store Obj))
      → Became key_func s items r
      → ((t : Store Obj) → t.items ≡ items → IsValid key_func t → Became key_func t items' (f t))
      → Became key_func s items' (r >>= f)
  bind-Became items' s f b next =
      let c = next b.store b.holds_items b.valid in
      record {
        store = c.store;
        returned = rw b.returned c.returned;
        holds_items = c.holds_items;
        keeps_funcs = c.keeps_funcs ∙ b.keeps_funcs;
        keeps_limit = c.keeps_limit ∙ b.keeps_limit;
        valid = c.valid;
      }

  -- The items after `add`.
  abbrev pub after_add : Obj → Store Obj → List (String × Obj)
  after_add obj s =
      let key = key_func obj in
      if is_truthy key then put dec key obj (roomy s.max_items key s.items) else s.items

  -- Adding an object to a valid store raises nothing and leaves a valid store: the object lies under
  -- its key, and only a new key in a full store costs another item, the oldest.
  pub add-Became :
      (obj : Obj) (s : Store Obj)
      → IsValid key_func s
      → Became key_func s (after_add obj s) (add key_func obj s)
  unfolding add get
  add-Became obj s h = add_if (is_truthy (key_func obj)) refl
    where
      add_if :
          (b : Bool)
          → is_truthy (key_func obj) ≡ b
          → Became key_func s
              (if b
                then put dec (key_func obj) obj (roomy s.max_items (key_func obj) s.items)
                else s.items)
              (if b
                then (evict (key_func obj) s >>= λ t.
                    store_item (key_func obj) obj (lookup dec (key_func obj) t.items) t)
                else ok s)
      add_if true e = bind-Became _ s _ (evict-Became (key_func obj) s h) λ t same valid.
          subst
            (λ l.
              Became key_func t (put dec (key_func obj) obj l)
                (store_item (key_func obj) obj (lookup dec (key_func obj) t.items) t))
            same (store_item-Became key_func (key_func obj) obj t refl e valid)
      add_if false e = same-Became s h

  -- Nothing lies under the empty key.
  unnamed_absent :
      (key : String) (s : Store Obj)
      → is_truthy key ≡ false
      → IsValid key_func s
      → lookup dec key s.items ≡ none
  unnamed_absent key s e h = elim (Option-cases (lookup dec key s.items)) [
    | inl absent ↦ absent
    | inr (obj, found) ↦ absurd (ground (arith, e, (h.own key obj found).1))
  ]

  -- Deleting an object removes what lies under its key, raises nothing and leaves a valid store.
  pub delete-Became :
      (obj : Obj) (s : Store Obj)
      → IsValid key_func s
      → Became key_func s (pop dec (key_func obj) s.items) (delete key_func obj s)
  unfolding delete
  delete-Became obj s h =
      if_ind (Became key_func s (pop dec (key_func obj) s.items)) (is_truthy (key_func obj))
        (λ _. delete_internal-Became key_func (key_func obj) s h)
        (λ e.
          subst (λ l. Became key_func s l (ok s))
            (sym (pop_absent dec (key_func obj) s.items (unnamed_absent (key_func obj) s e h)))
            (same-Became s h))
