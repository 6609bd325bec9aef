-- ===== src/Base/Json/Objects.antt =====
-- The items of a JSON object as a Python dict: reads, writes and what they leave under each key.
use Prim.Native.Nat.{◌≤◌, ◌<◌}
use mathlib.Core.Path.{◌≡◌, refl, subst}
use mathlib.Core.Bool.{true, false}
use mathlib.Core.Option.{Option, none, some}
use mathlib.Core.List.{List, [], ◌∷◌}
use native.Mathlib.Omega.{arith}
use cloudcoil.Base.Sets.{contains}
use cloudcoil.Base.Json.{Text, text_discrete, Json, dict, Fields, end, field, height, height_fields}

-- `d.get(k)`
unfoldable pub lookup : Text → Fields → Option Json
lookup k end = none
lookup k (field j w d) = elim (text_discrete k j) [ yes _ ↦ some w | no _ ↦ lookup k d ]

-- `d[k] = v`: a key that is there keeps its place
unfoldable pub put : Text → Json → Fields → Fields
put k v end = field k v end
put k v (field j w d) = elim (text_discrete k j) [
  | yes _ ↦ field k v d
  | no _ ↦ field j w (put k v d)
]

-- `d.pop(k, None)`
unfoldable pub pop : Text → Fields → Fields
pop k end = end
pop k (field j w d) = elim (text_discrete k j) [ yes _ ↦ pop k d | no _ ↦ field j w (pop k d) ]

-- `list(d)`
unfoldable pub keys : Fields → List Text
keys end = []
keys (field k v d) = k ∷ keys d

pub lookup-put :
    (k j : Text) (v : Json) (d : Fields)
    → lookup j (put k v d) ≡ elim (text_discrete k j) [ yes _ ↦ some v | no _ ↦ lookup j d ]
unfolding lookup put
lookup-put k j v end = ground arith
lookup-put k j v (field i w d) = ground (arith, lookup-put k j v d)

pub lookup-pop :
    (k j : Text) (d : Fields)
    → lookup j (pop k d) ≡ elim (text_discrete k j) [ yes _ ↦ none | no _ ↦ lookup j d ]
unfolding lookup pop
lookup-pop k j end = ground arith
lookup-pop k j (field i w d) = ground (arith, lookup-pop k j d)

pub put-put : (k : Text) (v w : Json) (d : Fields) → put k w (put k v d) ≡ put k w d
unfolding put
put-put k v w end = ground arith
put-put k v w (field i u d) = ground (arith, put-put k v w d)

pub put-lookup : (k : Text) (v : Json) (d : Fields) → lookup k d ≡ some v → put k v d ≡ d
unfolding lookup put
put-lookup k v end h = cc
put-lookup k v (field i u d) h = ground (arith, put-lookup k v d)

-- A key is one of `keys` exactly when it is found.
pub contains-keys :
    (k : Text) (d : Fields)
    → contains text_discrete k (keys d) ≡ elim (lookup k d) [ none ↦ false | some _ ↦ true ]
unfolding lookup keys contains
contains-keys k end = refl
contains-keys k (field i u d) = ground (arith, contains-keys k d)

pub some_inj : {v w : Json} → some v ≡ some w → v ≡ w
some_inj h = cc

height_fields-cons :
    (k : Text) (v : Json) (d : Fields)
    → (height v ≤ height_fields (field k v d)) × (height_fields d ≤ height_fields (field k v d))
unfolding height
height_fields-cons k v d = omega arith

height_fields-lookup :
    (k : Text) (v : Json) (d : Fields) → lookup k d ≡ some v → height v ≤ height_fields d
unfolding lookup
height_fields-lookup k v end h = cc
height_fields-lookup k v (field i u d) h =
    let ih = height_fields-lookup k v d in
    let (here, there) = height_fields-cons i u d in
    elim (text_discrete k i)
        as (λ x.
          elim x [ yes _ ↦ some u | no _ ↦ lookup k d ] ≡ some v
          → height v ≤ height_fields (field i u d)) [
            | yes _ ↦ λ e. subst (λ w. height w ≤ height_fields (field i u d)) (some_inj e) here
            | no _ ↦ λ e. omega (arith, ih e, there)
          ]
      h

pub height-lookup :
    (k : Text) (v : Json) (d : Fields) → lookup k d ≡ some v → height v < height (dict d)
unfolding height
height-lookup k v d h = omega (arith, height_fields-lookup k v d h)
