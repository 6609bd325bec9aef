-- ===== src/Patches/Located.antt =====
-- `visit` of cloudcoil/patches.py with the keys of each path instead of its text.
use mathlib.Core.List.{append-nil, append_assoc, map-append}
use cloudcoil.Base.{
  ℕ, zero, suc, Option, none, some, List, [], ◌∷◌, ◌++◌, map, ◌≡◌, refl, sym, ap, ◌∙◌,
  if◌then◌else◌, if_ind, Bool-cases, inl, inr, All,
}
use cloudcoil.Base.Json.{Text, Json, dict, Fields, same_dumps}
use cloudcoil.Base.Json.Objects.{lookup, keys}
use cloudcoil.Patches.{
  Operation, remove, add, replace, pointer, sorted, union, visit_key, visit_keys, replaced, visit,
}
use cloudcoil.Patches.Pointers.{path_of, path_of-snoc}
use cloudcoil.Patches.Application.{
  removes, adds, replaces, Located, operation, op_of, IsInner, within,
}

unfoldable pub edits_key : (Json → Json → List Located) → Fields → Fields → Text → List Located
edits_key edits old new key = elim (lookup key new) [
  | none ↦ (key ∷ [], removes) ∷ []
  | some v ↦ elim (lookup key old) [
    | none ↦ (key ∷ [], adds v) ∷ []
    | some u ↦ map (within key) (edits u v)
  ]
]

unfoldable pub edits_keys :
    (Json → Json → List Located) → Fields → Fields → List Text → List Located
edits_keys edits old new [] = []
edits_keys edits old new (key ∷ rest) = edits_key edits old new key ++ edits_keys edits old new rest

unfoldable pub edits_replaced : Json → Json → List Located
edits_replaced old new = if same_dumps old new then [] else ([], replaces new) ∷ []

unfoldable pub edits : ℕ → Json → Json → List Located
edits zero old new = []
edits (suc fuel) (dict old) (dict new) =
    edits_keys (edits fuel) old new (sorted (union (keys old) (keys new)))
edits (suc fuel) old new = edits_replaced old new

op_of-within :
    (ks : List Text) (k : Text) (es : List Located)
    → map (op_of (ks ++ k ∷ [])) es ≡ map (op_of ks) (map (within k) es)
unfolding op_of
op_of-within ks k [] = refl
op_of-within ks k ((ts, e) ∷ es) =
    ap (λ path. operation (path_of path) e ∷ map (op_of (ks ++ k ∷ [])) es)
      (append_assoc ks (k ∷ []) ts)
    ∙ ap (λ l. operation (path_of (ks ++ k ∷ ts)) e ∷ l) (op_of-within ks k es)

-- `visit` and `edits` agree, for functions that visit the members.
module _ (visit' : Json → Json → Text → List Operation) (edits' : Json → Json → List Located)
    (ks : List Text) (old new : Fields)
    (agree : (k : Text) (u v : Json)
      → visit' u v (path_of (ks ++ k ∷ [])) ≡ map (op_of (ks ++ k ∷ [])) (edits' u v)) where
  visit_key-edits_key :
      (key : Text)
      → visit_key visit' old new (path_of ks) key ≡ map (op_of ks) (edits_key edits' old new key)
  unfolding visit_key edits_key
  visit_key-edits_key key = go (lookup key new) (lookup key old)
    where
      go :
          (v u : Option Json)
          → elim v [
            | none ↦ remove (pointer (path_of ks) key) ∷ []
            | some v ↦ elim u [
              | none ↦ add (pointer (path_of ks) key) v ∷ []
              | some u ↦ visit' u v (pointer (path_of ks) key)
            ]
          ]
            ≡ map (op_of ks) (elim v [
              | none ↦ (key ∷ [], removes) ∷ []
              | some v ↦ elim u [
                | none ↦ (key ∷ [], adds v) ∷ []
                | some u ↦ map (within key) (edits' u v)
              ]
            ])
      go none u = ap (λ path. remove path ∷ []) (sym (path_of-snoc ks key)) ∙ unfold op_of in refl
      go (some v) none =
          ap (λ path. add path v ∷ []) (sym (path_of-snoc ks key)) ∙ unfold op_of in refl
      go (some v) (some u) =
          ap (visit' u v) (sym (path_of-snoc ks key))
          ∙ agree key u v
          ∙ op_of-within ks key (edits' u v)

  visit_keys-edits_keys :
      (l : List Text)
      → visit_keys visit' old new (path_of ks) l ≡ map (op_of ks) (edits_keys edits' old new l)
  unfolding visit_keys edits_keys
  visit_keys-edits_keys [] = refl
  visit_keys-edits_keys (k ∷ l) =
      ap (λ ops. ops ++ visit_keys visit' old new (path_of ks) l) (visit_key-edits_key k)
      ∙ ap (λ ops. map (op_of ks) (edits_key edits' old new k) ++ ops) (visit_keys-edits_keys l)
      ∙ sym (map-append (op_of ks) (edits_key edits' old new k) (edits_keys edits' old new l))

replaced-edits :
    (old new : Json) (ks : List Text)
    → replaced old new (path_of ks) ≡ map (op_of ks) (edits_replaced old new)
unfolding replaced edits_replaced op_of
replaced-edits old new ks = elim (Bool-cases (same_dumps old new)) [
  | inl e ↦ rw e
  | inr e ↦ rw e (ap (λ l. replace (path_of l) new ∷ []) (sym (append-nil ks)))
]

pub visit-edits :
    (fuel : ℕ) (old new : Json) (ks : List Text)
    → visit fuel old new (path_of ks) ≡ map (op_of ks) (edits fuel old new)
unfolding visit edits
visit-edits zero old new ks = refl
visit-edits (suc fuel) (dict old) (dict new) ks =
    visit_keys-edits_keys (visit fuel) (edits fuel) ks old new
      (λ k u v. visit-edits fuel u v (ks ++ k ∷ [])) (sorted (union (keys old) (keys new)))
visit-edits (suc fuel) old new ks = replaced-edits old new ks

pub All-append {ℓ κ} :
    {A : Type ℓ} (P : A → Type κ) (xs ys : List A) → All P xs → All P ys → All P (xs ++ ys)
All-append P [] ys h g = g
All-append P (x ∷ xs) ys h g = (h.0, All-append P xs ys h.1 g)

within-IsInner : (k : Text) (es : List Located) → All IsInner (map (within k) es)
within-IsInner k [] = tt
within-IsInner k ((ts, removes) ∷ es) = (tt, within-IsInner k es)
within-IsInner k ((ts, e) ∷ es) = (tt, within-IsInner k es)

edits_key-IsInner :
    (f : Json → Json → List Located) (old new : Fields) (k : Text)
    → All IsInner (edits_key f old new k)
unfolding edits_key
edits_key-IsInner f old new k = go (lookup k new) (lookup k old)
  where
    go :
        (v u : Option Json)
        → All IsInner (elim v [
          | none ↦ (k ∷ [], removes) ∷ []
          | some v ↦ elim u [ none ↦ (k ∷ [], adds v) ∷ [] | some u ↦ map (within k) (f u v) ]
        ])
    go none u = (tt, tt)
    go (some v) none = (tt, tt)
    go (some v) (some u) = within-IsInner k (f u v)

edits_keys-IsInner :
    (f : Json → Json → List Located) (old new : Fields) (l : List Text)
    → All IsInner (edits_keys f old new l)
unfolding edits_keys
edits_keys-IsInner f old new [] = tt
edits_keys-IsInner f old new (k ∷ l) =
    All-append IsInner (edits_key f old new k) (edits_keys f old new l)
      (edits_key-IsInner f old new k) (edits_keys-IsInner f old new l)

edits_replaced-IsInner : (old new : Json) → All IsInner (edits_replaced old new)
unfolding edits_replaced
edits_replaced-IsInner old new =
    if_ind (λ es. All IsInner es) (same_dumps old new) (λ _. tt) (λ _. (tt, tt))

-- No edit adds or removes the whole value.
pub edits-IsInner : (fuel : ℕ) (old new : Json) → All IsInner (edits fuel old new)
unfolding edits
edits-IsInner zero old new = tt
edits-IsInner (suc fuel) (dict old) (dict new) =
    edits_keys-IsInner (edits fuel) old new (sorted (union (keys old) (keys new)))
edits-IsInner (suc fuel) old new = edits_replaced-IsInner old new
