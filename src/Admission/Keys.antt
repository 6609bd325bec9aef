-- ===== src/Admission/Keys.antt =====
-- What the loop of `_overlay`, cloudcoil/admission/_mutation.py, over the keys of a dictionary leaves under each.
use cloudcoil.Base.{Option, none, some, ◌≡◌, ◌≢◌, ◌⊎◌, inl, inr, refl, sym, ap, subst, ◌∙◌, arith}
use cloudcoil.Base.Json.{Text, text_discrete, Json, dict, Fields, end, field}
use cloudcoil.Base.Json.Objects.{lookup, pop, lookup-put, lookup-pop, some_inj}
use cloudcoil.Base.Results.{ok, bind_returned, ok_inj}
use cloudcoil.Controller.Children.Merge.{UniqueKeys}
use cloudcoil.Admission.Overlay.{explicit_get, pop_gone, put_value, overlay, overlay_fields}

-- No dictionary outside of an array has a key twice.
unfoldable mutual
  pub HasUniqueKeys : Json → Type 0
  HasUniqueKeys (dict d) = UniqueKeys d × FieldsUnique d
  HasUniqueKeys v = Unit

  pub FieldsUnique : Fields → Type 0
  FieldsUnique end = Unit
  FieldsUnique (field k v d) = HasUniqueKeys v × FieldsUnique d

pub FieldsUnique-lookup :
    (k : Text) (v : Json) (d : Fields) → FieldsUnique d → lookup k d ≡ some v → HasUniqueKeys v
unfolding lookup FieldsUnique
FieldsUnique-lookup k v end u h = cc
FieldsUnique-lookup k v (field j x d) u h =
    elim (text_discrete k j)
        as (λ t. elim t [ yes _ ↦ some x | no _ ↦ lookup k d ] ≡ some v → HasUniqueKeys v) [
          | yes _ ↦ λ g. subst HasUniqueKeys (cc) u.0
          | no _ ↦ λ g. FieldsUnique-lookup k v d u.1 g
        ]
      h

lookup-field :
    (k j : Text) (x : Json) (d : Fields)
    → lookup k (field j x d) ≡ none
    → (j ≢ k) × (lookup k d ≡ none)
unfolding lookup
lookup-field k j x d h =
    elim (text_discrete k j)
        as (λ t.
          elim t as (λ _. Option Json) [ yes _ ↦ some x | no _ ↦ lookup k d ] ≡ none
          → (j ≢ k) × (lookup k d ≡ none)) [
            | yes _ ↦ λ g. absurd (ground arith)
            | no n ↦ λ g. (λ e. n (sym e), g)
          ]
      h

lookup-popped :
    (k j : Text) (after output : Fields)
    → (j ≢ k) ⊎ ((v : Json) × (lookup k after ≡ some v))
    → lookup k (elim (lookup j after) [ none ↦ pop j output | some _ ↦ output ]) ≡ lookup k output
lookup-popped k j after output o = go (lookup j after) refl
  where
    other : lookup j after ≡ none → (j ≢ k) ⊎ ((v : Json) × (lookup k after ≡ some v)) → j ≢ k
    other e (inl n) = n
    other e (inr (v, f)) = λ same. cc (e, f, ap (λ t. lookup t after) same)

    go :
        (o : Option Json)
        → lookup j after ≡ o
        → lookup k (elim o [ none ↦ pop j output | some _ ↦ output ]) ≡ lookup k output
    go none e = ground (arith, lookup-pop j k output, other e o)
    go (some v) e = refl

pub lookup-pop_gone :
    (k : Text) (before after output : Fields)
    → (lookup k before ≡ none) ⊎ ((v : Json) × (lookup k after ≡ some v))
    → lookup k (pop_gone before after output) ≡ lookup k output
unfolding pop_gone
lookup-pop_gone k end after output o = refl
lookup-pop_gone k (field j x before) after output (inl h) =
    let (n, rest) = lookup-field k j x before h in
    lookup-pop_gone k before after (elim (lookup j after) [ none ↦ pop j output | some _ ↦ output ])
      (inl rest)
    ∙ lookup-popped k j after output (inl n)
lookup-pop_gone k (field j x before) after output (inr p) =
    lookup-pop_gone k before after (elim (lookup j after) [ none ↦ pop j output | some _ ↦ output ])
      (inr p)
    ∙ lookup-popped k j after output (inr p)

lookup-put_value :
    (j k : Text) (value : Option Json) (output : Fields)
    → j ≢ k
    → lookup k (put_value j value output) ≡ lookup k output
lookup-put_value j k none output n = refl
lookup-put_value j k (some v) output n = ground (arith, lookup-put j k v output)

module _ (eb ea : Option Json) (before : Fields) where
  pub overlay_fields-absent :
      (k : Text) (after output result : Fields)
      → lookup k after ≡ none
      → overlay_fields after eb ea before output ≡ ok result
      → lookup k result ≡ lookup k output
  unfolding overlay
  overlay_fields-absent k end output result h g = ap (lookup k) (sym (ok_inj g))
  overlay_fields-absent k (field j v after) output result h g =
      let (value, _, rest) =
        bind_returned
          (overlay (lookup j output) (lookup j before) v (explicit_get j eb) (explicit_get j ea)) _
          g in
      let (n, absent) = lookup-field k j v after h in
      overlay_fields-absent k after (put_value j value output) result absent rest
      ∙ lookup-put_value j k value output n

  -- What the loop did at a key of the new object
  pub record AtKey (k : Text) (v : Json) (output result : Fields) : Type 0 where
    pub value : Option Json
    pub made :
        overlay (lookup k output) (lookup k before) v (explicit_get k eb) (explicit_get k ea)
        ≡ ok value
    pub found : lookup k result ≡ elim value [ none ↦ lookup k output | some w ↦ some w ]

  lookup-put_self :
      (k : Text) (value : Option Json) (output : Fields)
      → lookup k (put_value k value output)
        ≡ elim value [ none ↦ lookup k output | some w ↦ some w ]
  lookup-put_self k none output = refl
  lookup-put_self k (some w) output = ground (arith, lookup-put k k w output)

  pub overlay_fields-AtKey :
      (k : Text) (v : Json) (after output result : Fields)
      → UniqueKeys after
      → lookup k after ≡ some v
      → overlay_fields after eb ea before output ≡ ok result
      → AtKey k v output result
  unfolding overlay lookup
  overlay_fields-AtKey k v end output result u h g = cc
  overlay_fields-AtKey k v (field j x after) output result u h g =
      let (value, made, rest) =
        bind_returned
          (overlay (lookup j output) (lookup j before) x (explicit_get j eb) (explicit_get j ea)) _
          g in
      elim (text_discrete k j)
          as (λ t.
            elim t as (λ _. Option Json) [ yes _ ↦ some x | no _ ↦ lookup k after ] ≡ some v
            → AtKey k v output result) [
              | yes e ↦ λ here.
                  subst (λ y. AtKey k y output result) (some_inj here)
                    (subst (λ i. AtKey i x output result) (sym e)
                      (record {
                        value = value;
                        made = made;
                        found =
                            overlay_fields-absent j after (put_value j value output) result u.0 rest
                            ∙ lookup-put_self j value output;
                      }))
              | no n ↦ λ later.
                  let a =
                    overlay_fields-AtKey k v after (put_value j value output) result u.1 later
                      rest in
                  let same = lookup-put_value j k value output (λ e. n (sym e)) in
                  record {
                    value = a.value;
                    made =
                        subst
                          (λ o.
                            overlay o (lookup k before) v (explicit_get k eb) (explicit_get k ea)
                            ≡ ok a.value)
                          same a.made;
                    found = a.found ∙ ap (λ o. elim a.value [ none ↦ o | some w ↦ some w ]) same;
                  }
            ]
        h
