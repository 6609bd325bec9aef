-- ===== src/Base/Dicts.antt =====
-- A Python `dict` in insertion order, as an association list.
use Prim.Native.Nat.{◌+◌, ◌≤◌}
use mathlib.Core.Path.{◌≡◌, refl}
use mathlib.Core.Bool.{false}
use mathlib.Core.List.{List, [], ◌∷◌}
use mathlib.Core.Option.{Option, none, some}
use native.Mathlib.Omega.{arith}
use cloudcoil.Base.Lists.{length, is_empty}

module _ {ℓ κ} {K : Type ℓ} {V : Type κ} (dec : Discrete K) where
  -- `d[k] = v`: a key that is there keeps its place, a new key comes last
  unfoldable pub put : K → V → List (K × V) → List (K × V)
  put k v [] = (k, v) ∷ []
  put k v ((j, w) ∷ d) = elim (dec k j) [ yes _ ↦ (k, v) ∷ d | no _ ↦ (j, w) ∷ put k v d ]

  -- `d.pop(k, None)`, the dictionary that is left
  unfoldable pub pop : K → List (K × V) → List (K × V)
  pop k [] = []
  pop k ((j, w) ∷ d) = elim (dec k j) [ yes _ ↦ pop k d | no _ ↦ (j, w) ∷ pop k d ]

  unfoldable pub lookup : K → List (K × V) → Option V
  lookup k [] = none
  lookup k ((j, w) ∷ d) = elim (dec k j) [ yes _ ↦ some w | no _ ↦ lookup k d ]

  pub lookup-put :
      (k j : K) (v : V) (d : List (K × V))
      → lookup j (put k v d) ≡ elim (dec k j) [ yes _ ↦ some v | no _ ↦ lookup j d ]
  unfolding lookup put
  lookup-put k j v [] = ground arith
  lookup-put k j v ((i, w) ∷ d) = ground (arith, lookup-put k j v d)

  pub lookup-pop :
      (k j : K) (d : List (K × V))
      → lookup j (pop k d) ≡ elim (dec k j) [ yes _ ↦ none | no _ ↦ lookup j d ]
  unfolding lookup pop
  lookup-pop k j [] = ground arith
  lookup-pop k j ((i, w) ∷ d) = ground (arith, lookup-pop k j d)

  pub lookup-head : (k : K) (v : V) (d : List (K × V)) → lookup k ((k, v) ∷ d) ≡ some v
  unfolding lookup
  lookup-head k v d = ground arith

  pub lookup-nil : (k : K) → lookup k [] ≡ none
  unfolding lookup
  lookup-nil k = refl

  pub lookup-cons :
      (k j : K) (w : V) (d : List (K × V))
      → lookup k ((j, w) ∷ d) ≡ elim (dec k j) [ yes _ ↦ some w | no _ ↦ lookup k d ]
  unfolding lookup
  lookup-cons k j w d = refl

  pub put-nonempty : (k : K) (v : V) (d : List (K × V)) → is_empty (put k v d) ≡ false
  unfolding put
  put-nonempty k v [] = refl
  put-nonempty k v (e ∷ d) = ground arith

  pub lookup-nonempty :
      (k : K) (d : List (K × V)) {v : V} → lookup k d ≡ some v → is_empty d ≡ false
  unfolding lookup
  lookup-nonempty k [] h = cc
  lookup-nonempty k (e ∷ d) h = refl

  -- A key stands in a dictionary once.
  abbrev pub UniqueKeys : List (K × V) → Type κ
  UniqueKeys [] = Unit
  UniqueKeys ((k, _) ∷ d) = (lookup k d ≡ none) × UniqueKeys d

  pub put-UniqueKeys : (k : K) (v : V) (d : List (K × V)) → UniqueKeys d → UniqueKeys (put k v d)
  unfolding put
  put-UniqueKeys k v [] u = (lookup-nil k, tt)
  put-UniqueKeys k v ((j, w) ∷ d) u = ground (arith, lookup-put k j v d, put-UniqueKeys k v d u.1)

  pub pop-UniqueKeys : (k : K) (d : List (K × V)) → UniqueKeys d → UniqueKeys (pop k d)
  unfolding pop
  pop-UniqueKeys k [] u = tt
  pop-UniqueKeys k ((j, w) ∷ d) u = ground (arith, lookup-pop k j d, pop-UniqueKeys k d u.1)

  pub pop_absent : (k : K) (d : List (K × V)) → lookup k d ≡ none → pop k d ≡ d
  unfolding pop lookup
  pop_absent k [] h = refl
  pop_absent k ((j, w) ∷ d) h = ground (arith, pop_absent k d)

  pub length-put_new :
      (k : K) (v : V) (d : List (K × V)) → lookup k d ≡ none → length (put k v d) ≡ length d + 1
  unfolding put lookup
  length-put_new k v [] h = omega arith
  length-put_new k v ((j, w) ∷ d) h = ground (arith, length-put_new k v d)

  pub length-put_old :
      (k : K) (v : V) (d : List (K × V)) {w : V}
      → lookup k d ≡ some w
      → length (put k v d) ≡ length d
  unfolding put lookup
  length-put_old k v [] h = cc
  length-put_old k v ((j, u) ∷ d) {w} h = ground (arith, length-put_old k v d {w = w})

  pub length-put-le : (k : K) (v : V) (d : List (K × V)) → length (put k v d) ≤ length d + 1
  unfolding put
  length-put-le k v [] = omega arith
  length-put-le k v ((j, w) ∷ d) = ground (arith, length-put-le k v d)

  pub length-pop :
      (k : K) (d : List (K × V)) {v : V}
      → UniqueKeys d
      → lookup k d ≡ some v
      → length (pop k d) + 1 ≡ length d
  unfolding pop lookup
  length-pop k [] u h = cc
  length-pop k ((j, w) ∷ d) {v} u h =
      let rest = length-pop k d {v = v} u.1 in ground (arith, rest, pop_absent k d)

  pub length-pop-le : (k : K) (d : List (K × V)) → length (pop k d) ≤ length d
  unfolding pop
  length-pop-le k [] = omega arith
  length-pop-le k ((j, w) ∷ d) = ground (arith, length-pop-le k d)
