-- ===== src/Caching/Store/Indices.antt =====
-- One custom index of cloudcoil/caching/_store.py: what `note_key` and `drop_key` do to its sets.
use cloudcoil.Base.{
  Bool, true, false, none, some, String, String-discrete, List, [], ◌≡◌, ◌≢◌, arith, Option-cases,
  inl, inr,
}
use cloudcoil.Base.Sets.{
  contains, insert, discard, contains-insert, contains-discard, contains-nil, insert-nonempty,
}
use cloudcoil.Base.Dicts.{lookup, lookup-put, lookup-pop, lookup-nil}
use cloudcoil.Caching.Store.{Index, note_key, drop_key}

abbrev dec : Discrete String
dec = String-discrete

-- The set under an index key, empty where there is none.
unfoldable pub members : String → Index → List String
members index_key index = elim (lookup dec index_key index) [ some keys ↦ keys | none ↦ [] ]

pub members-nil : (index_key : String) → members index_key [] ≡ []
unfolding members
members-nil index_key = ground (arith, lookup-nil {V = List String} dec index_key)

-- Whether the key `k` is in the set under `index_key`.
abbrev pub in_index : String → String → Index → Bool
in_index index_key k index = contains dec k (members index_key index)

-- No index key with an empty set.
abbrev pub IsTidy : Index → Type 0
IsTidy index = (index_key : String) → lookup dec index_key index ≢ some []

-- `x` at the one pair, `y` elsewhere.
abbrev pub at_pair {ℓ} : {A : Type ℓ} → String → String → String → String → A → A → A
at_pair i j k l x y = elim (dec i j) [ yes _ ↦ elim (dec k l) [ yes _ ↦ x | no _ ↦ y ] | no _ ↦ y ]

module _ (i k j l : String) (index : Index) where
  pub in_index-note_key :
      in_index j l (note_key i k index) ≡ at_pair i j k l true (in_index j l index)
  unfolding members note_key
  in_index-note_key = elim (Option-cases (lookup dec i index)) [
    | inl e ↦ ground (
      arith,
      e,
      lookup-put dec i j (insert dec k []) index,
      contains-insert dec l k [],
      contains-nil dec l,
    )
    | inr (keys, e) ↦
        ground
          (arith, e, lookup-put dec i j (insert dec k keys) index, contains-insert dec l k keys)
  ]

  pub in_index-drop_key :
      in_index j l (drop_key i k index) ≡ at_pair i j k l false (in_index j l index)
  unfolding members drop_key
  in_index-drop_key = elim (Option-cases (lookup dec i index)) [
    | inl e ↦ ground (arith, e, contains-nil dec l)
    | inr (keys, e) ↦ ground (
      arith,
      e,
      lookup-put dec i j (discard dec k keys) index,
      lookup-pop dec i j index,
      contains-discard dec l k keys,
      contains-nil dec l,
    )
  ]

pub note_key-IsTidy : (i k : String) (index : Index) → IsTidy index → IsTidy (note_key i k index)
unfolding note_key
note_key-IsTidy i k index h = λ j e. elim (Option-cases (lookup dec i index)) [
  | inl o ↦
      ground (arith, h j, o, lookup-put dec i j (insert dec k []) index, insert-nonempty dec k [])
  | inr (keys, o) ↦
      ground
        (arith, h j, o, lookup-put dec i j (insert dec k keys) index, insert-nonempty dec k keys)
]

pub drop_key-IsTidy : (i k : String) (index : Index) → IsTidy index → IsTidy (drop_key i k index)
unfolding drop_key
drop_key-IsTidy i k index h = λ j e. elim (Option-cases (lookup dec i index)) [
  | inl o ↦ ground (arith, h j, o)
  | inr (keys, o) ↦
      ground
        (arith, h j, o, lookup-put dec i j (discard dec k keys) index, lookup-pop dec i j index)
]
