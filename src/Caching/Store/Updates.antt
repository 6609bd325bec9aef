-- ===== src/Caching/Store/Updates.antt =====
-- `_update_indices` of cloudcoil/caching/_store.py: it raises nothing where every index function
-- has its index, and changes each index for itself.
use mathlib.Core.Option
use cloudcoil.Base.{
  Bool, true, false, Option, none, some, String, String-discrete, List, [], ◌∷◌, ◌≡◌, refl, arith,
  if◌then◌else◌, ◌∙◌, ap,
}
use cloudcoil.Base.Dicts.{lookup, put, lookup-put, lookup-nil, lookup-cons, lookup-head, UniqueKeys}
use cloudcoil.Base.Results.{Result, ok, ◌>>=◌}
use cloudcoil.Caching.Store.{
  Index, Indices, is_truthy, with_index, note_key, drop_key, remove_old, add_new, update_indices,
}

abbrev dec : Discrete String
dec = String-discrete

-- The result is `indices` with the index `name` set to `index`.
abbrev Writes : String → Index → Indices → Result Indices → Type 0
Writes name index indices r =
    (next : Indices) × (r ≡ ok next)
    × ((j : String)
        → lookup dec j next
          ≡ elim (dec name j) [ yes _ ↦ some index | no _ ↦ lookup dec j indices ])

with_index-Writes :
    (name : String) (change : Index → Index) (indices : Indices) {index : Index}
    → lookup dec name indices ≡ some index
    → Writes name (change index) indices (with_index name change indices)
unfolding with_index
with_index-Writes name change indices {index} e = (
  put dec name (change index) indices,
  rw (e, with_index),
  λ j. lookup-put dec name j (change index) indices,
)

same-Writes :
    (name : String) (indices : Indices) {index : Index}
    → lookup dec name indices ≡ some index
    → Writes name index indices (ok indices)
same-Writes name indices e = (indices, refl, λ j. ground (arith, e))

-- An access only under a test.
if_Writes :
    (b : Bool) (name : String) (change : Index → Index) (indices : Indices) {index : Index}
    → lookup dec name indices ≡ some index
    → Writes name
        (if b then change index else index)
        indices
        (if b then with_index name change indices else ok indices)
if_Writes true name change indices e = with_index-Writes name change indices e
if_Writes false name change indices e = same-Writes name indices e

-- Every index function has its index.
abbrev pub HasIndices : {Obj : Type 0} → List (String × (Obj → String)) → Indices → Type 0
HasIndices {Obj} funcs indices =
    (j : String) (func : Obj → String)
    → lookup dec j funcs ≡ some func
    → (index : Index) × (lookup dec j indices ≡ some index)

module _ {Obj : Type 0} (key : String) where
  unfoldable pub removed : (Obj → String) → Option Obj → Index → Index
  removed func (some old) index =
      if is_truthy (func old) then drop_key (func old) key index else index
  removed func none index = index

  unfoldable pub added : (Obj → String) → Option Obj → Index → Index
  added func (some new) index =
      if is_truthy (func new) then note_key (func new) key index else index
  added func none index = index

  abbrev pub reindex : Option Obj → Option Obj → (Obj → String) → Index → Index
  reindex old new func index = added func new (removed func old index)

  module _ (name : String) (func : Obj → String) where
    remove_old-Writes :
        (old : Option Obj) (indices : Indices) {index : Index}
        → lookup dec name indices ≡ some index
        → Writes name (removed func old index) indices (remove_old name func key old indices)
    unfolding remove_old removed
    remove_old-Writes none indices e = same-Writes name indices e
    remove_old-Writes (some o) indices e =
        if_Writes (is_truthy (func o)) name (drop_key (func o) key) indices e

    add_new-Writes :
        (new : Option Obj) (indices : Indices) {index : Index}
        → lookup dec name indices ≡ some index
        → Writes name (added func new index) indices (add_new name func key new indices)
    unfolding add_new added
    add_new-Writes none indices e = same-Writes name indices e
    add_new-Writes (some o) indices e =
        if_Writes (is_truthy (func o)) name (note_key (func o) key) indices e

    reindex-Writes :
        (old new : Option Obj) (indices : Indices) {index : Index}
        → lookup dec name indices ≡ some index
        → Writes name
            (reindex old new func index)
            indices
            (remove_old name func key old indices >>= λ next. add_new name func key new next)
    reindex-Writes old new indices {index} e =
        let (between, done, at) = remove_old-Writes old indices e in
        let (next, wrote, there) =
          add_new-Writes new between {index = removed func old index} (at name ∙ ground arith) in
        (next, rw done wrote, λ j. ground (arith, at j, there j))

  -- The index `j` after an update of all indices.
  abbrev pub updated :
      Option Obj → Option Obj → List (String × (Obj → String)) → Indices → String → Option Index
  updated old new funcs indices j = elim (lookup dec j funcs) [
    | some func ↦ Option.map (reindex old new func) (lookup dec j indices)
    | none ↦ lookup dec j indices
  ]

  -- The names of the other functions are other names.
  tail-HasIndices :
      (name : String) (func : Obj → String) (funcs : List (String × (Obj → String)))
      (indices between : Indices) (index : Index)
      → lookup dec name funcs ≡ none
      → HasIndices ((name, func) ∷ funcs) indices
      → ((j : String)
          → lookup dec j between
            ≡ elim (dec name j) [ yes _ ↦ some index | no _ ↦ lookup dec j indices ])
      → HasIndices funcs between
  tail-HasIndices name func funcs indices between index u h w j f e = elim (dec j name) [
    | yes p ↦ absurd (ground (arith, p, e, u, ap (λ i. lookup dec i funcs) p))
    | no n ↦
        let (found, e') = h j f (ground (arith, lookup-cons dec j name func funcs)) in
        (found, ground (arith, w j))
  ]

  pub update_indices-updated :
      (old new : Option Obj) (funcs : List (String × (Obj → String))) (indices : Indices)
      → UniqueKeys dec funcs
      → HasIndices funcs indices
      → (next : Indices) × (update_indices funcs key old new indices ≡ ok next)
        × ((j : String) → lookup dec j next ≡ updated old new funcs indices j)
  unfolding update_indices
  update_indices-updated old new [] indices u h =
      (indices, refl, λ j. ground (arith, lookup-nil {V = Obj → String} dec j))
  update_indices-updated old new ((name, func) ∷ funcs) indices u h =
      let (index, e) = h name func (lookup-head dec name func funcs) in
      let (between, wrote, at) = reindex-Writes name func old new indices e in
      let (next, done, there) =
        update_indices-updated old new funcs between u.1
          (tail-HasIndices name func funcs indices between _ u.0 h at) in
      (
        next,
        rw wrote done,
        λ j. ground (
          arith,
          there j,
          at j,
          e,
          u.0,
          lookup-cons dec j name func funcs,
          λ (p : name ≡ j). ap (λ i. lookup dec i funcs) p,
          λ (p : name ≡ j). ap (λ i. lookup dec i indices) p,
        ),
      )
