-- ===== src/Controller/Children/Merge.antt =====
-- What `_merge` of cloudcoil/controller/_children.py leaves under each key.
use cloudcoil.Base.{Option, none, some, ◌≡◌, ◌≢◌, refl, sym, ap, ◌∙◌, subst, arith}
use cloudcoil.Base.Json.{Text, text_discrete, Json, null, dict, Fields, end, field}
use cloudcoil.Base.Json.Objects.{lookup, put, pop, lookup-put, lookup-pop}
use cloudcoil.Controller.Children.{dict_of, merge}

-- A key stands in an object once.
abbrev pub UniqueKeys : Fields → Type 0
UniqueKeys end = Unit
UniqueKeys (field k v d) = (lookup k d ≡ none) × UniqueKeys d

-- What comes of a current value, if any, and of a desired one, if any
unfoldable pub merged_value : Option Json → Option Json → Option Json
merged_value current none = current
merged_value current (some null) = none
merged_value current (some (dict d)) =
    some (elim (dict_of current) [ none ↦ dict d | some c ↦ dict (merge c d) ])
merged_value current (some v) = some v

lookup-field_self : (k : Text) (v : Json) (d : Fields) → lookup k (field k v d) ≡ some v
unfolding lookup
lookup-field_self k v d = ground arith

lookup-field_other :
    (k j : Text) (v : Json) (d : Fields) → j ≢ k → lookup k (field j v d) ≡ lookup k d
unfolding lookup
lookup-field_other k j v d n = ground arith

abbrev Step : Text → Text → Json → Fields → Fields → Type 0
Step k key v current next = lookup k next ≡ elim (text_discrete key k) [
  | yes _ ↦ merged_value (lookup key current) (some v)
  | no _ ↦ lookup k current
]

decide_self : (k : Text) (x y : Option Json) → elim (text_discrete k k) [ yes _ ↦ x | no _ ↦ y ] ≡ x
decide_self k x y = ground arith

decide_other :
    (j k : Text) (x y : Option Json) → j ≢ k → elim (text_discrete j k) [ yes _ ↦ x | no _ ↦ y ] ≡ y
decide_other j k x y n = ground arith

module _ (key : Text) (v : Json) (rest current next : Fields) (fresh : lookup key rest ≡ none) where
  -- One item of the desired object, whose key is `key`, has made `next` of `current`.
  merge-Step_self :
      Step key key v current next
      → merged_value (lookup key next) (lookup key rest)
        ≡ merged_value (lookup key current) (lookup key (field key v rest))
  unfolding merged_value
  merge-Step_self h =
      ap (merged_value (lookup key next)) fresh
      ∙ h
      ∙ decide_self key (merged_value (lookup key current) (some v)) (lookup key current)
      ∙ ap (merged_value (lookup key current)) (sym (lookup-field_self key v rest))

  merge-Step :
      (k : Text)
      → Step k key v current next
      → merged_value (lookup k next) (lookup k rest)
        ≡ merged_value (lookup k current) (lookup k (field key v rest))
  merge-Step k h = elim (text_discrete key k) [
    | yes e ↦
        subst
          (λ j.
            Step j key v current next
            → merged_value (lookup j next) (lookup j rest)
              ≡ merged_value (lookup j current) (lookup j (field key v rest)))
          e merge-Step_self h
    | no n ↦
        ap (λ x. merged_value x (lookup k rest))
          (h ∙ decide_other key k (merged_value (lookup key current) (some v)) (lookup k current) n)
        ∙ ap (merged_value (lookup k current)) (sym (lookup-field_other k key v rest n))
  ]

-- After a merge with an object whose keys are different, each key has what becomes of its current value
-- and of its desired one: it keeps the current one if none is desired, is gone if None is, and is
-- merged if both are dictionaries; any other desired value replaces the current one.
pub lookup-merge :
    (k : Text) (current desired : Fields)
    → UniqueKeys desired
    → lookup k (merge current desired) ≡ merged_value (lookup k current) (lookup k desired)
unfolding merge merged_value
lookup-merge k current end u = unfold lookup in refl
lookup-merge k current (field key null rest) u =
    lookup-merge k (pop key current) rest u.1
    ∙ merge-Step key null rest current (pop key current) u.0 k (lookup-pop key k current)
lookup-merge k current (field key (dict d) rest) u =
    let v : Json = elim (dict_of (lookup key current)) [
      | none ↦ dict d
      | some c ↦ dict (merge c d)
    ] in
    lookup-merge k (put key v current) rest u.1
    ∙ merge-Step key (dict d) rest current (put key v current) u.0 k (lookup-put key k v current)
lookup-merge k current (field key v rest) u =
    lookup-merge k (put key v current) rest u.1
    ∙ merge-Step key v rest current (put key v current) u.0 k (lookup-put key k v current)
