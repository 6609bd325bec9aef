-- ===== src/Caching/Reader/Answers.antt =====
-- What the reads of cloudcoil/caching/_reader.py answer.
use cloudcoil.Base.{
  Bool, true, false, not, Option, none, some, String, Bool-cases, List, [], ◌∷◌, All, Member,
  Member-filter, ◌≡◌, ◌≢◌, ◌⊎◌, inl, inr, refl, sym, ap, ◌∙◌, subst, arith, String-discrete, ◌&&◌,
}
use cloudcoil.Base.Dicts.{lookup}
use cloudcoil.Base.Results.{Exception, runtime_error, value_error, ok, raise_if, ◌>>◌}
use cloudcoil.Caching.Store.{list as stored}
use cloudcoil.Caching.Informer.{
  Meta, Key-discrete, Resource, Informer, has_synced, has_label, in_namespace, list_items,
}
use cloudcoil.Caching.Reader.{CachedResources, is_none, or_else, check, has_labels, scope, list}

-- The tests before an answer.
passed :
    {A : Type 0} (synced : Bool) (error : Option Exception) (a b : Bool) (answer found : A)
    → (raise_if (not synced) runtime_error
        >> raise_if (not (is_none error)) runtime_error
        >> raise_if a value_error
        >> raise_if b value_error
        >> ok answer)
      ≡ ok found
    → (synced ≡ true) × (error ≡ none) × (b ≡ false) × (answer ≡ found)
passed false error a b answer found h = absurd (ground (arith, h))
passed true (some e) a b answer found h = absurd (ground (arith, h))
passed true none true b answer found h = absurd (ground (arith, h))
passed true none false true answer found h = absurd (ground (arith, h))
passed true none false false answer found h = (refl, refl, refl, ground (arith, h))

-- The namespace that a call looks in: its own, unless that is none or empty, or else the reader's
abbrev pub IsChosen : Option String → Option String → String → Type 0
IsChosen given own namespace =
    ((given ≡ some namespace) × (namespace ≢ ""))
    ⊎ (((given ≡ none) ⊎ (given ≡ some "")) × (own ≡ some namespace))

-- A test of a text that the metadata has
meta_test :
    (f : Meta → Option String) (wanted : Option String) (o : Option Meta)
    → let test : Bool = elim o [
      | some meta ↦ elim (Key-discrete (f meta) wanted) [ yes _ ↦ true | no _ ↦ false ]
      | none ↦ false
    ] in
      (test ≡ true → (meta : Meta) × (o ≡ some meta) × (f meta ≡ wanted))
      × ((meta : Meta) × (o ≡ some meta) × (f meta ≡ wanted) → test ≡ true)
meta_test f wanted none = (λ h. cc, λ (meta, e, q). absurd (ground (arith, e)))
meta_test f wanted (some meta) = (
  λ h. (meta, refl, ground (arith, h)),
  λ (other, e, q).
      let same : f meta ≡ wanted = ap f (ground (arith, e)) ∙ q in ground (arith, same),
)

string_inj : {s t : String} → ◌≡◌ {A = Option String} (some s) (some t) → s ≡ t
string_inj h = cc

or_else-IsChosen :
    (given own : Option String) (namespace : String)
    → (or_else given own ≡ some namespace → IsChosen given own namespace)
      × (IsChosen given own namespace → or_else given own ≡ some namespace)
or_else-IsChosen none own namespace =
    (λ h. inr (inl refl, ground (arith, h)), λ c. ground (arith, c))
or_else-IsChosen (some g) own namespace = elim (String-discrete g "") [
  | yes e ↦ (λ h. inr (inr (ap some e), ground (arith, e, h)), λ c. ground (arith, e, c))
  | no n ↦ (λ h. inl (ground (arith, n, h), ground (arith, n, h)), λ c. ground (arith, n, c))
]

module _ {Body : Type 0} where
  -- The object has metadata with this namespace.
  abbrev pub HasNamespace : String → Resource Body → Type 0
  HasNamespace namespace obj =
      (meta : Meta) × (obj.metadata ≡ some meta) × (meta.namespace ≡ some namespace)

  -- The object has metadata with the value under the key of the label.
  abbrev pub HasLabel : Resource Body → String × String → Type 0
  HasLabel obj pair =
      (meta : Meta) × (obj.metadata ≡ some meta)
      × (lookup String-discrete pair.0 meta.labels ≡ some pair.1)

  -- Where a list looks: everywhere, if all namespaces are asked for or the type has none, and
  -- otherwise in the chosen one
  abbrev pub IsCovered : Option String → Bool → CachedResources Body → Resource Body → Type 0
  IsCovered given all_namespaces r obj =
      ((all_namespaces ≡ true) ⊎ (r.namespaced ≡ false))
      ⊎ ((namespace : String) × IsChosen given r.namespace namespace × HasNamespace namespace obj)

  in_namespace-HasNamespace :
      (namespace : String) (obj : Resource Body)
      → (in_namespace namespace obj ≡ true → HasNamespace namespace obj)
        × (HasNamespace namespace obj → in_namespace namespace obj ≡ true)
  unfolding in_namespace
  in_namespace-HasNamespace namespace obj =
      meta_test (λ meta. meta.namespace) (some namespace) obj.metadata

  has_label-HasLabel :
      (pair : String × String) (obj : Resource Body)
      → (has_label pair obj ≡ true → HasLabel obj pair)
        × (HasLabel obj pair → has_label pair obj ≡ true)
  unfolding has_label
  has_label-HasLabel (key, value) obj =
      meta_test (λ meta. lookup String-discrete key meta.labels) (some value) obj.metadata

  has_labels-All :
      (labels : List (String × String)) (obj : Resource Body)
      → (has_labels labels obj ≡ true → All (HasLabel obj) labels)
        × (All (HasLabel obj) labels → has_labels labels obj ≡ true)
  unfolding has_labels
  has_labels-All [] obj = (λ _. tt, λ _. refl)
  has_labels-All (pair ∷ labels) obj =
      let (there, back) = has_labels-All labels obj in
      let (has, test) = has_label-HasLabel pair obj in
      (
        λ t. (has (ground (arith, t)), there (ground (arith, t))),
        λ (t, ts). ground (arith, test t, back ts),
      )

  -- The namespace that an object must have, if any.
  abbrev InScope : Option String → Resource Body → Type 0
  InScope (some namespace) obj = in_namespace namespace obj ≡ true
  InScope none obj = Unit

  list_items-Member :
      (target : Option String) (inf : Informer Body) (obj : Resource Body)
      → (Member obj (list_items target none inf)
          → Member obj (stored inf.store) × InScope target obj)
        × (Member obj (stored inf.store) × InScope target obj
            → Member obj (list_items target none inf))
  unfolding list_items
  list_items-Member none inf obj = (λ m. (m, tt), λ m. m.0)
  list_items-Member (some namespace) inf obj =
      Member-filter (in_namespace namespace) obj (stored inf.store)

  IsChosen-InScope :
      (given own : Option String) (obj : Resource Body) (o : Option String)
      → or_else given own ≡ o
      → is_none o ≡ false
      → (InScope o obj
          → (namespace : String) × IsChosen given own namespace × HasNamespace namespace obj)
        × ((namespace : String) × IsChosen given own namespace × HasNamespace namespace obj
            → InScope o obj)
  IsChosen-InScope given own obj none e n = absurd (ground (arith, n))
  IsChosen-InScope given own obj (some target) e n =
      let (to, back) = or_else-IsChosen given own target in
      let (has, test) = in_namespace-HasNamespace target obj in
      (
        λ t. (target, to e, has t),
        λ (namespace, c, h).
            let same : namespace ≡ target =
              string_inj (sym ((or_else-IsChosen given own namespace).1 c) ∙ e) in
            test (subst (λ s. HasNamespace s obj) same h),
      )

  scope-IsCovered :
      (given : Option String) (all_namespaces : Bool) (r : CachedResources Body)
      (obj : Resource Body)
      → (r.namespaced && is_none (scope given all_namespaces r) && not all_namespaces) ≡ false
      → (InScope (scope given all_namespaces r) obj → IsCovered given all_namespaces r obj)
        × (IsCovered given all_namespaces r obj → InScope (scope given all_namespaces r) obj)
  unfolding scope
  scope-IsCovered given true r obj h = (λ _. inl (inl refl), λ _. tt)
  scope-IsCovered given false r obj h = elim (Bool-cases r.namespaced) [
    | inr f ↦
        let e : scope given false r ≡ none = ground (arith, f) in
        (λ _. inl (inr f), λ _. subst (λ o. InScope o obj) (sym e) tt)
    | inl t ↦
        let e : scope given false r ≡ or_else given r.namespace = ground (arith, t) in
        let (to, back) =
          IsChosen-InScope given r.namespace obj (or_else given r.namespace) refl
            (ground (arith, t, h)) in
        (
          λ s. inr (to (subst (λ o. InScope o obj) e s)),
          λ c.
              subst (λ o. InScope o obj) (sym e)
                (elim c [
                  | inl (inl q) ↦ absurd (ground (arith, q))
                  | inl (inr q) ↦ absurd (ground (arith, q, t))
                  | inr w ↦ back w
                ]),
        )
  ]

  -- A list that does not raise comes from an informer that is started and synced and whose watch has
  -- not failed. It holds exactly the cached objects that have the namespace of the call, or that of
  -- the reader where the call gives none or an empty one, unless all namespaces are asked for or
  -- the type has none, and that have the value of each label under its key.
  pub list-Member :
      (namespace : Option String) (all_namespaces : Bool) (labels : List (String × String))
      (r : CachedResources Body) (objs : List (Resource Body))
      → list namespace all_namespaces labels r ≡ ok objs
      → (r.informer.started ≡ true)
        × (r.informer.sync_event ≡ true)
        × (r.error ≡ none)
        × ((obj : Resource Body)
            → (Member obj objs
                → Member obj (stored r.informer.store)
                  × IsCovered namespace all_namespaces r obj
                  × All (HasLabel obj) labels)
              × (Member obj (stored r.informer.store)
                    × IsCovered namespace all_namespaces r obj
                    × All (HasLabel obj) labels
                  → Member obj objs))
  unfolding list check
  list-Member namespace all_namespaces labels r objs h =
      let target = scope namespace all_namespaces r in
      let (synced, healthy, looks, same) = passed _ _ _ _ _ objs h in
      (
        unfold has_synced in ground (arith, synced),
        unfold has_synced in ground (arith, synced),
        healthy,
        λ obj.
            let (out, into) =
              Member-filter (has_labels labels) obj (list_items target none r.informer) in
            let (found, listed) = list_items-Member target r.informer obj in
            let (covered, inside) = scope-IsCovered namespace all_namespaces r obj looks in
            let (all_of, test) = has_labels-All labels obj in
            (
              λ m.
                  let (within, t) = out (subst (Member obj) (sym same) m) in
                  let (member, place) = found within in (member, covered place, all_of t),
              λ (member, place, all).
                  subst (Member obj) same (into (listed (member, inside place), test all)),
            ),
      )
