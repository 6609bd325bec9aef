-- ===== src/Admission/Preserved.antt =====
-- Fields that the types do not have go through `_overlay` of cloudcoil/admission/_mutation.py as they are.
use cloudcoil.Base.{
  Bool, true, false, Option, none, some, List, ◌∷◌, ◌≡◌, inl, inr, refl, ap, subst, ◌∙◌, arith,
  if◌then◌else◌,
}
use cloudcoil.Base.Json.{Text, Json, dict, Fields}
use cloudcoil.Base.Json.Objects.{lookup, some_inj}
use cloudcoil.Base.Results.{ok, ◌>>=◌, bind_returned, ok_inj}
use cloudcoil.Patches.Guards.{value_at}
use cloudcoil.Admission.Overlay.{
  is_kept, explicit_get, pop_gone, output_of, finish, overlay, overlay_fields,
}
use cloudcoil.Admission.Keys.{
  HasUniqueKeys, FieldsUnique-lookup, lookup-pop_gone, overlay_fields-absent, overlay_fields-AtKey,
}

abbrev pub Both : (Json → Json → Type 0) → Option Json → Option Json → Type 0
Both P none none = Unit
Both P (some v) (some w) = P v w
Both P v w = ⊥

-- The path of keys goes through dictionaries of both typed values to a key that neither has.
unfoldable pub Outside : List Text → Json → Json → Type 0
Outside (k ∷ ks) (dict b) (dict a) = Both (Outside ks) (lookup k b) (lookup k a)
Outside ks b a = ⊥

-- What is under a path is the same in the result.
abbrev pub Kept : List Text → Json → Json → Type 0
Kept ks raw result = (w : Json) → value_at ks raw ≡ some w → value_at ks result ≡ some w

value_at-cons :
    (k : Text) (ks : List Text) (raw w : Json)
    → value_at (k ∷ ks) raw ≡ some w
    → (d : Fields) × (v : Json) × (raw ≡ dict d) × (lookup k d ≡ some v) × (value_at ks v ≡ some w)
unfolding value_at
value_at-cons k ks (dict d) w h = go (lookup k d) refl h
  where
    go :
        (o : Option Json)
        → lookup k d ≡ o
        → elim o [ none ↦ none | some v ↦ value_at ks v ] ≡ some w
        → (e : Fields) × (v : Json) × (dict d ≡ dict e)
          × (lookup k e ≡ some v)
          × (value_at ks v ≡ some w)
    go none e g = absurd (ground arith)
    go (some v) e g = (d, v, refl, e, g)
value_at-cons k ks raw w h = absurd (ground arith)

value_at-found :
    (k : Text) (ks : List Text) (d : Fields) (v w : Json)
    → lookup k d ≡ some v
    → value_at ks v ≡ some w
    → value_at (k ∷ ks) (dict d) ≡ some w
unfolding value_at
value_at-found k ks d v w e h =
    ap (λ (o : Option Json). elim o [ none ↦ none | some x ↦ value_at ks x ]) e ∙ h

abbrev KeptUnder : List Text → Type 0
KeptUnder ks =
    (raw before after result : Json) (eb ea : Option Json)
    → HasUniqueKeys after
    → Outside ks before after
    → overlay (some raw) (some before) after eb ea ≡ ok (some result)
    → Kept ks raw result

module _ (k : Text) (ks : List Text) (eb ea : Option Json) (b a d output : Fields) (r w : Json)
    (rec : KeptUnder ks) (unique : HasUniqueKeys (dict a))
    (merged : overlay_fields a eb ea b (pop_gone b a d) ≡ ok output) (here : lookup k d ≡ some r)
    (under : value_at ks r ≡ some w) where
  Kept_fields :
      (was is : Option Json)
      → lookup k b ≡ was
      → lookup k a ≡ is
      → Both (Outside ks) was is
      → (x : Json) × (lookup k output ≡ some x) × (value_at ks x ≡ some w)
  unfolding HasUniqueKeys
  Kept_fields none none p q o = (
    r,
    overlay_fields-absent eb ea b k a (pop_gone b a d) output q merged
        ∙ lookup-pop_gone k b a d (inl p)
        ∙ here,
    under,
  )
  Kept_fields none (some v) p q o = absurd o
  Kept_fields (some v) none p q o = absurd o
  Kept_fields (some was) (some is) p q o =
      let at = overlay_fields-AtKey eb ea b k is a (pop_gone b a d) output unique.0 q merged in
      let kept = lookup-pop_gone k b a d (inr (is, q)) ∙ here in
      go at.value
        (subst (λ o. overlay o (some was) is (explicit_get k eb) (explicit_get k ea) ≡ ok at.value)
          kept
          (subst
            (λ o.
              overlay (lookup k (pop_gone b a d)) o is (explicit_get k eb) (explicit_get k ea)
              ≡ ok at.value)
            p at.made))
        (at.found ∙ ap (λ o. elim at.value [ none ↦ o | some x ↦ some x ]) kept)
    where
      go :
          (value : Option Json)
          → overlay (some r) (some was) is (explicit_get k eb) (explicit_get k ea) ≡ ok value
          → lookup k output ≡ elim value [ none ↦ some r | some x ↦ some x ]
          → (x : Json) × (lookup k output ≡ some x) × (value_at ks x ≡ some w)
      go none made found = (r, found, under)
      go (some x) made found = (
        x,
        found,
        rec r was is x (explicit_get k eb) (explicit_get k ea)
            (FieldsUnique-lookup k is a unique.1 q) o made w under,
      )

-- If the overlay of a raw object by two typed dumps returns, then what the raw object has under a path that
-- goes through dictionaries of both dumps to a key that neither has is in the result, as it was; the
-- new dump has no key twice.
pub overlay-Kept :
    (ks : List Text) (raw before after result : Json) (eb ea : Option Json)
    → HasUniqueKeys after
    → Outside ks before after
    → overlay (some raw) (some before) after eb ea ≡ ok (some result)
    → Kept ks raw result
unfolding overlay Outside
overlay-Kept (k ∷ ks) raw (dict b) (dict a) result eb ea u o h w at =
    let (kept, _, rest) = bind_returned (is_kept (some raw) (some (dict b)) (dict a) eb ea) _ h in
    branch (overlay-Kept ks) kept rest
  where
    branch :
        KeptUnder ks
        → (kept : Bool)
        → (if kept
            then ok (some raw)
            else (overlay_fields a eb ea b (pop_gone b a (output_of (some raw))) >>= λ output.
                ok (finish (some raw) output)))
          ≡ ok (some result)
        → value_at (k ∷ ks) result ≡ some w
    branch rec true g = subst (λ v. value_at (k ∷ ks) v ≡ some w) (some_inj (ok_inj g)) at
    branch rec false g =
        let (output, merged, final) =
          bind_returned (overlay_fields a eb ea b (pop_gone b a (output_of (some raw)))) _ g in
        let (d, r, is_dict, here, under) = value_at-cons k ks raw w at in
        let (x, found, deep) =
          Kept_fields k ks eb ea b a d output r w rec u
            (subst (λ v. overlay_fields a eb ea b (pop_gone b a (output_of (some v))) ≡ ok output)
              is_dict merged)
            here under (lookup k b) (lookup k a) refl refl o in
        subst (λ v. value_at (k ∷ ks) v ≡ some w) (some_inj (ok_inj final))
          (value_at-found k ks output x w found deep)
overlay-Kept ks raw before after result eb ea u o h w at = absurd (ground arith)
