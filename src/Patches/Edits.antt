-- ===== src/Patches/Edits.antt =====
-- One edit of a dictionary by `visit`, cloudcoil/patches.py.
use cloudcoil.Base.{Option, none, some, List, [], ◌∷◌, ◌≡◌, ◌≢◌, refl, sym, subst, arith}
use cloudcoil.Base.Json.{Text, Json, dict, Fields}
use cloudcoil.Base.Json.Objects.{lookup, put, pop, lookup-put, lookup-pop}
use cloudcoil.Patches.Application.{Edit, removes, adds, edit_at, Located, run, ◌>>=◌}
use cloudcoil.Patches.Agreement.{Agrees, AgreesAt, absent, present}

pub absent_at : {a b : Option Json} → a ≡ none → b ≡ none → AgreesAt a b
absent_at {a} {b} p q =
    subst (λ x. AgreesAt x b) (sym p) (subst (λ y. AgreesAt none y) (sym q) absent)

pub present_at :
    {a b : Option Json} (w v : Json) → a ≡ some w → b ≡ some v → Agrees w v → AgreesAt a b
present_at {a} {b} w v p q h =
    subst (λ x. AgreesAt x b) (sym p) (subst (λ y. AgreesAt (some w) y) (sym q) (present h))

-- What `d'` is after the edits of the key `k` on `d`
pub record Changed (es : List Located) (new d d' : Fields) (k : Text) : Type 0 where
  pub ran : run es (dict d) ≡ some (dict d')
  pub agrees : AgreesAt (lookup k d') (lookup k new)
  pub kept : (j : Text) → k ≢ j → lookup j d' ≡ lookup j d

pub put-kept : (k j : Text) (v : Json) (d : Fields) → k ≢ j → lookup j (put k v d) ≡ lookup j d
put-kept k j v d n = ground (arith, lookup-put k j v d)

pub pop-kept : (k j : Text) (d : Fields) → k ≢ j → lookup j (pop k d) ≡ lookup j d
pop-kept k j d n = ground (arith, lookup-pop k j d)

pub put-found : (k : Text) (v : Json) (d : Fields) → lookup k (put k v d) ≡ some v
put-found k v d = ground (arith, lookup-put k k v d)

pub pop-missing : (k : Text) (d : Fields) → lookup k (pop k d) ≡ none
pop-missing k d = ground (arith, lookup-pop k k d)

pub run_one : (ks : List Text) (e : Edit) (v : Json) → run ((ks, e) ∷ []) v ≡ edit_at e ks v
unfolding run
run_one ks e v = go (edit_at e ks v)
  where
    go : (o : Option Json) → (o >>= run []) ≡ o
    go none = refl
    go (some w) = refl

pub edit_at-remove :
    (k : Text) (d : Fields) {u : Json}
    → lookup k d ≡ some u
    → edit_at removes (k ∷ []) (dict d) ≡ some (dict (pop k d))
unfolding edit_at
edit_at-remove k d h = rw h refl

pub edit_at-add :
    (k : Text) (v : Json) (d : Fields)
    → edit_at (adds v) (k ∷ []) (dict d) ≡ some (dict (put k v d))
unfolding edit_at
edit_at-add k v d = refl
