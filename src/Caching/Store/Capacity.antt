-- ===== src/Caching/Store/Capacity.antt =====
-- How many items a store of cloudcoil/caching/_store.py holds: the limit that `add` keeps, and what
-- `replace` does with it.
use cloudcoil.Base.{
  ℕ, suc, ◌+◌, ◌≤◌, ◌<◌, true, String, String-discrete, List, [], ◌∷◌, ◌≡◌, refl, arith, if_ind,
  Option-cases, inl, inr, subst, sym, ◌∙◌, ap, length, All,
}
use cloudcoil.Base.Sets.{Unique}
use cloudcoil.Base.Dicts.{lookup, put, length-put_new, length-put_old, length-put-le, length-pop-le}
use cloudcoil.Base.Results.{Result, ok, ◌>>=◌}
use cloudcoil.Caching.Store.{Store, init, is_truthy, add, delete, clear, add_index, replace, size}
use cloudcoil.Caching.Store.Invariant.{IsValid, Became, init-IsValid}
use cloudcoil.Caching.Store.Methods.{without_oldest, roomy, after_add, add-Became, delete-Became}
use cloudcoil.Caching.Store.Replace.{
  add_index-IsValid, clear-IsValid, loaded, keys, AllNew, put-AllNew, nil-AllNew, replace-Became,
}

abbrev dec : Discrete String
dec = String-discrete

-- The calls that change a store, without `replace`.
pub data Change (Obj : Type 0) : Type 0 where
  adds deletes : Obj → Change Obj
  clears : Change Obj
  indexes : String → (Obj → String) → Change Obj

module _ {Obj : Type 0} where
  length-without_oldest :
      (items : List (String × Obj))
      → 0 < length items
      → suc (length (without_oldest items)) ≡ length items
  length-without_oldest [] h = omega (arith, h)
  length-without_oldest (oldest ∷ rest) h = refl

  length-roomy :
      (max_items : ℕ) (key : String) (obj : Obj) (items : List (String × Obj))
      → 0 < max_items
      → length items ≤ max_items
      → length (put dec key obj (roomy max_items key items)) ≤ max_items
  length-roomy max_items key obj items p h = elim (Option-cases (lookup dec key items)) [
    | inl e ↦ ground (
      arith,
      e,
      length-put-le dec key obj items,
      length-put-le dec key obj (without_oldest items),
      λ (q : 0 < length items). length-without_oldest items q,
    )
    | inr (old, e) ↦ ground (arith, e, length-put_old dec key obj items {w = old} e)
  ]

module _ {Obj : Type 0} (key_func : Obj → String) where
  unfoldable pub step : Change Obj → Store Obj → Result (Store Obj)
  step (adds obj) s = add key_func obj s
  step (deletes obj) s = delete key_func obj s
  step clears s = ok (clear s)
  step (indexes name func) s = ok (add_index name func s)

  unfoldable pub run : List (Change Obj) → Store Obj → Result (Store Obj)
  run [] s = ok s
  run (change ∷ changes) s = step change s >>= λ next. run changes next

  -- A valid store with at most `limit` items, and `limit` is its own.
  pub record IsBounded (limit : ℕ) (s : Store Obj) : Type 0 where
    pub valid : IsValid key_func s
    pub limited : s.max_items ≡ limit
    pub bounded : 0 < limit → length s.items ≤ limit

  abbrev pub Succeeds : ℕ → Result (Store Obj) → Type 0
  Succeeds limit r = (next : Store Obj) × (r ≡ ok next) × IsBounded limit next

  Became-Succeeds :
      (limit : ℕ) (s : Store Obj) (items : List (String × Obj)) {r : Result (Store Obj)}
      → s.max_items ≡ limit
      → Became key_func s items r
      → (0 < limit → length items ≤ limit)
      → Succeeds limit r
  Became-Succeeds limit s items e b h = (
    b.store,
    b.returned,
    record {
      valid = b.valid;
      limited = b.keeps_limit ∙ e;
      bounded = λ p. omega (arith, ap length b.holds_items, h p);
    },
  )

  after_add-bounded :
      (limit : ℕ) (obj : Obj) (s : Store Obj)
      → IsBounded limit s
      → 0 < limit
      → length (after_add key_func obj s) ≤ limit
  after_add-bounded limit obj s h p =
      if_ind (λ l. length l ≤ limit) (is_truthy (key_func obj))
        (λ _.
          subst (λ n. length (put dec (key_func obj) obj (roomy n (key_func obj) s.items)) ≤ limit)
            (sym h.limited) (length-roomy limit (key_func obj) obj s.items p (h.bounded p)))
        (λ _. h.bounded p)

  clear-IsBounded : (limit : ℕ) (s : Store Obj) → IsBounded limit s → IsBounded limit (clear s)
  unfolding clear
  clear-IsBounded limit s h = record {
    valid = clear-IsValid key_func s h.valid;
    limited = h.limited;
    bounded = λ p. omega (arith, p);
  }

  add_index-IsBounded :
      (limit : ℕ) (name : String) (func : Obj → String) (s : Store Obj)
      → IsBounded limit s
      → IsBounded limit (add_index name func s)
  unfolding add_index
  add_index-IsBounded limit name func s h = record {
    valid = add_index-IsValid key_func name func s h.valid;
    limited = h.limited;
    bounded = h.bounded;
  }

  step-Succeeds :
      (limit : ℕ) (change : Change Obj) (s : Store Obj)
      → IsBounded limit s
      → Succeeds limit (step change s)
  unfolding step
  step-Succeeds limit (adds obj) s h =
      Became-Succeeds limit s _ h.limited (add-Became key_func obj s h.valid)
        (after_add-bounded limit obj s h)
  step-Succeeds limit (deletes obj) s h =
      Became-Succeeds limit s _ h.limited (delete-Became key_func obj s h.valid)
        λ p. omega (arith, h.bounded p, length-pop-le dec (key_func obj) s.items)
  step-Succeeds limit clears s h = (clear s, refl, clear-IsBounded limit s h)
  step-Succeeds limit (indexes name func) s h =
      (add_index name func s, refl, add_index-IsBounded limit name func s h)

  run-Succeeds :
      (limit : ℕ) (changes : List (Change Obj)) (s : Store Obj)
      → IsBounded limit s
      → Succeeds limit (run changes s)
  unfolding run
  run-Succeeds limit [] s h = (s, refl, h)
  run-Succeeds limit (change ∷ changes) s h =
      let (next, e, h') = step-Succeeds limit change s h in
      let (last, e', l) = run-Succeeds limit changes next h' in (last, rw e e', l)

  init-IsBounded : (limit : ℕ) → IsBounded limit (init limit)
  unfolding init
  init-IsBounded limit = record {
    valid = init-IsValid key_func limit;
    limited = refl;
    bounded = λ p. omega (arith, p);
  }

  -- From a new store, any sequence of additions, deletions, clearings and new indices raises nothing
  -- and ends in a valid store, which a positive limit bounds.
  pub run-init-IsBounded :
      (limit : ℕ) (changes : List (Change Obj)) → Succeeds limit (run changes (init limit))
  run-init-IsBounded limit changes = run-Succeeds limit changes (init limit) (init-IsBounded limit)

  length-loaded :
      (objs : List Obj) (items : List (String × Obj))
      → Unique dec (keys key_func objs)
      → All (λ obj. is_truthy (key_func obj) ≡ true) objs
      → AllNew key_func objs items
      → length (loaded key_func objs items) ≡ length objs + length items
  unfolding loaded
  length-loaded [] items u t n = omega arith
  length-loaded (obj ∷ objs) items u t n =
      let rest =
        length-loaded objs (put dec (key_func obj) obj items) u.1 t.1
          (put-AllNew key_func (key_func obj) obj objs items u.0 n.1) in
      ground (arith, t.0, rest, length-put_new dec (key_func obj) obj items n.0)

  -- `replace` stores all of the objects, whatever the limit is.
  pub size-replace :
      (objs : List Obj) (s : Store Obj)
      → Unique dec (keys key_func objs)
      → All (λ obj. is_truthy (key_func obj) ≡ true) objs
      → IsValid key_func s
      → (next : Store Obj) × (replace key_func objs s ≡ ok next) × (size next ≡ length objs)
  unfolding size
  size-replace objs s u t h =
      let b = replace-Became key_func objs s u h in
      (
        b.store,
        b.returned,
        omega
            (arith, ap length b.holds_items, length-loaded objs [] u t (nil-AllNew key_func objs)),
      )
