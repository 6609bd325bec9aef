-- ===== src/Caching/Store/Reads.antt =====
-- What the reads of cloudcoil/caching/_store.py return on a valid store.
use cloudcoil.Base.{
  true, Option, none, some, String, String-discrete, List, [], ◌∷◌, ◌≡◌, ◌⊎◌, ◌↔◌, refl, arith,
  if◌then◌else◌, inl, inr, subst, sym, ◌∙◌, ap, Member,
}
use cloudcoil.Base.Sets.{contains, contains-cons, contains-nil}
use cloudcoil.Base.Dicts.{lookup, put, lookup-put}
use cloudcoil.Base.Results.{Result, ok}
use cloudcoil.Caching.Store.{Store, Index, is_truthy, get, present, get_index, get_by_index, add}
use cloudcoil.Caching.Store.Indices.{members}
use cloudcoil.Caching.Store.Exact.{filed}
use cloudcoil.Caching.Store.Invariant.{IsValid}
use cloudcoil.Caching.Store.Methods.{roomy, add-Became}

abbrev dec : Discrete String
dec = String-discrete

module _ {Obj : Type 0} where
  found_Member :
      (found : Option Obj) (rest : List Obj) (obj : Obj)
      → Member obj (elim found [ some o ↦ o ∷ rest | none ↦ rest ])
      → (found ≡ some obj) ⊎ Member obj rest
  found_Member none rest obj m = inr m
  found_Member (some o) rest obj (inl e) = inl (ap some (sym e))
  found_Member (some o) rest obj (inr m) = inr m

  rest_Member :
      (found : Option Obj) (rest : List Obj) (obj : Obj)
      → Member obj rest
      → Member obj (elim found [ some o ↦ o ∷ rest | none ↦ rest ])
  rest_Member none rest obj m = m
  rest_Member (some o) rest obj m = inr m

  present-Member :
      (keys : List String) (s : Store Obj) (obj : Obj)
      → Member obj (present keys s)
      → (key : String) × (contains dec key keys ≡ true) × (get key s ≡ some obj)
  unfolding present
  present-Member [] s obj m = absurd m
  present-Member (key ∷ keys) s obj m = elim (found_Member (get key s) (present keys s) obj m) [
    | inl e ↦ (key, ground (arith, contains-cons dec key key keys), e)
    | inr n ↦
        let (k, c, e) = present-Member keys s obj n in
        (k, ground (arith, c, contains-cons dec k key keys), e)
  ]

  Member-present :
      (keys : List String) (s : Store Obj) (key : String) (obj : Obj)
      → contains dec key keys ≡ true
      → get key s ≡ some obj
      → Member obj (present keys s)
  unfolding present
  Member-present [] s key obj c g = absurd (ground (arith, c, contains-nil dec key))
  Member-present (k ∷ keys) s key obj c g = elim (dec k key) [
    | yes p ↦
        subst (λ o. Member obj (elim o [ some o ↦ o ∷ present keys s | none ↦ present keys s ]))
          (sym g ∙ ap (λ t. get t s) (sym p)) (inl refl)
    | no n ↦
        rest_Member (get k s) (present keys s) obj
          (Member-present keys s key obj (ground (arith, c, contains-cons dec key k keys)) g)
  ]

  -- The objects under one index key.
  abbrev under : Option (List String) → Store Obj → Result (List Obj)
  under found s = elim found [ some keys ↦ ok (present keys s) | none ↦ ok [] ]

  under-present :
      (found : Option (List String)) (s : Store Obj)
      → under found s ≡ ok (present (elim found [ some keys ↦ keys | none ↦ [] ]) s)
  unfolding present
  under-present (some keys) s = refl
  under-present none s = refl

  get_by_index-members :
      (name i : String) (s : Store Obj) (index : Index)
      → get_index name s.indices ≡ some index
      → get_by_index name i s ≡ ok (present (members i index) s)
  unfolding get_by_index members
  get_by_index-members name i s index e =
      rw (e, get_by_index) (under-present (lookup dec i index) s)

  filed-some :
      (func : Obj → String) (i : String) (obj : Obj)
      → (filed func i (some obj) ≡ true) ↔ ((func obj ≡ i) × (is_truthy i ≡ true))
  filed-some func i obj = ground arith

  -- In a valid store, a registered index returns the stored objects that its function files under the
  -- index key, each of them and no other; an empty index key finds none.
  pub get_by_index-Member :
      (key_func func : Obj → String) (name i : String) (s : Store Obj)
      → IsValid key_func s
      → lookup String-discrete name s.index_funcs ≡ some func
      → (objs : List Obj) × (get_by_index name i s ≡ ok objs)
        × ((obj : Obj)
            → Member obj objs
            → (key : String) × (get key s ≡ some obj) × (func obj ≡ i) × (is_truthy i ≡ true))
        × ((key : String) (obj : Obj)
            → get key s ≡ some obj
            → func obj ≡ i
            → is_truthy i ≡ true
            → Member obj objs)
  unfolding get
  get_by_index-Member key_func func name i s h f =
      let (index, e) = h.has_indices name func f in
      let exact = h.exact name func index f e in
      (
        present (members i index) s,
        get_by_index-members name i s index e,
        λ obj m.
            let (key, c, g) = present-Member (members i index) s obj m in
            let (same, t) =
              (filed-some func i obj).0 (sym (ap (filed func i) g) ∙ sym (exact.holds i key) ∙ c) in
            (key, g, same, t),
        λ key obj g same t.
            Member-present (members i index) s key obj
              (exact.holds i key ∙ ap (filed func i) g ∙ (filed-some func i obj).1 (same, t)) g,
      )

  -- After `add`, the object is what its key finds. Every other key finds what it found, unless it is
  -- the oldest key, which a new key pushes out of a full store.
  pub get-add :
      (key_func : Obj → String) (obj : Obj) (s : Store Obj)
      → IsValid key_func s
      → is_truthy (key_func obj) ≡ true
      → (next : Store Obj) × (add key_func obj s ≡ ok next)
        × ((key : String)
            → get key next ≡ elim (String-discrete (key_func obj) key) [
              | yes _ ↦ some obj
              | no _ ↦ lookup String-discrete key (roomy s.max_items (key_func obj) s.items)
            ])
  unfolding get
  get-add key_func obj s h t =
      let b = add-Became key_func obj s h in
      (
        b.store,
        b.returned,
        λ key.
            ap (lookup dec key) (
              b.holds_items
              ∙ ap
                  (λ x.
                    if x
                    then put dec (key_func obj) obj (roomy s.max_items (key_func obj) s.items)
                    else s.items)
                  t)
            ∙ lookup-put dec (key_func obj) key obj (roomy s.max_items (key_func obj) s.items),
      )
