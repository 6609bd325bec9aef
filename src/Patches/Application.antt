-- ===== src/Patches/Application.antt =====
-- How RFC 6902 applies a JSON Patch to a value: what a server does with the patches of
-- cloudcoil/patches.py. Those name members of objects only, so a path into an array is refused here.
use cloudcoil.Base.{
  Option, none, some, List, [], ◌∷◌, ◌++◌, map, ◌≡◌, refl, sym, ap, ◌∙◌, arith, if◌then◌else◌, All,
}
use cloudcoil.Base.Json.{Text, Json, dict, Fields, same_dumps}
use cloudcoil.Base.Json.Objects.{lookup, put, pop, put-put, put-lookup, lookup-put}
use cloudcoil.Patches.{Operation, remove, add, replace, test}
use cloudcoil.Patches.Pointers.{tokens, path_of, tokens-path_of}

pub data Edit : Type 0 where
  removes : Edit
  adds replaces tests : Json → Edit

infixl 5 ◌>>=◌
abbrev pub ◌>>=◌ {ℓ} : {A : Type ℓ} → Option A → (A → Option Json) → Option Json
none >>= f = none
some a >>= f = f a

-- At the whole value
abbrev pub whole : Edit → Json → Option Json
whole removes v = none
whole (adds w) v = some w
whole (replaces w) v = some w
whole (tests w) v = if same_dumps w v then some v else none

-- At the member `k`, which must be there
abbrev pub into : (Json → Option Json) → Text → Fields → Option Json
into f k d = lookup k d >>= λ v. f v >>= λ w. some (dict (put k w d))

unfoldable pub edit_at : Edit → List Text → Json → Option Json
edit_at e [] v = whole e v
edit_at removes (k ∷ []) (dict d) = lookup k d >>= λ _. some (dict (pop k d))
edit_at (adds w) (k ∷ []) (dict d) = some (dict (put k w d))
edit_at e (k ∷ ks) (dict d) = into (edit_at e ks) k d
edit_at e (k ∷ ks) v = none

abbrev pub at_path : Text → Edit → Json → Option Json
at_path path e v = tokens path >>= λ ks. edit_at e ks v

unfoldable pub apply : Operation → Json → Option Json
apply (remove path) v = at_path path removes v
apply (add path w) v = at_path path (adds w) v
apply (replace path w) v = at_path path (replaces w) v
apply (test path w) v = at_path path (tests w) v

-- The operations in turn; the first that fails fails the patch.
unfoldable pub apply_all : List Operation → Json → Option Json
apply_all [] v = some v
apply_all (op ∷ ops) v = apply op v >>= apply_all ops

-- The same on the keys themselves
abbrev pub Located : Type 0
Located = List Text × Edit

unfoldable pub run : List Located → Json → Option Json
run [] v = some v
run ((ks, e) ∷ es) v = edit_at e ks v >>= run es

abbrev pub operation : Text → Edit → Operation
operation path removes = remove path
operation path (adds w) = add path w
operation path (replaces w) = replace path w
operation path (tests w) = test path w

unfoldable pub op_of : List Text → Located → Operation
op_of ks (ts, e) = operation (path_of (ks ++ ts)) e

apply-operation :
    (path : Text) (e : Edit) (v : Json) → apply (operation path e) v ≡ at_path path e v
unfolding apply
apply-operation path removes v = refl
apply-operation path (adds w) v = refl
apply-operation path (replaces w) v = refl
apply-operation path (tests w) v = refl

apply-op_of : (ts : List Text) (e : Edit) (v : Json) → apply (op_of [] (ts, e)) v ≡ edit_at e ts v
unfolding op_of
apply-op_of ts e v =
    apply-operation (path_of ts) e v
    ∙ ap (λ (o : Option (List Text)). o >>= λ ks. edit_at e ks v) (tokens-path_of ts)

bind_ext :
    (o : Option Json) (f g : Json → Option Json) → ((v : Json) → f v ≡ g v) → (o >>= f) ≡ (o >>= g)
bind_ext none f g h = refl
bind_ext (some v) f g h = h v

pub apply_all-run : (es : List Located) (v : Json) → apply_all (map (op_of []) es) v ≡ run es v
unfolding apply_all run
apply_all-run [] v = refl
apply_all-run ((ts, e) ∷ es) v =
    ap (λ o. o >>= apply_all (map (op_of []) es)) (apply-op_of ts e v)
    ∙ bind_ext (edit_at e ts v) (apply_all (map (op_of []) es)) (run es) (apply_all-run es)

pub run-append : (es fs : List Located) (v : Json) → run (es ++ fs) v ≡ (run es v >>= run fs)
unfolding run
run-append [] fs v = refl
run-append ((ts, e) ∷ es) fs v =
    bind_ext (edit_at e ts v) (run (es ++ fs)) _ (run-append es fs) ∙ assoc (edit_at e ts v)
  where
    assoc : (o : Option Json) → (o >>= λ w. run es w >>= run fs) ≡ ((o >>= run es) >>= run fs)
    assoc none = refl
    assoc (some w) = refl

-- An edit that may stand below a member: it does not add or remove the whole value.
abbrev pub IsInner : Located → Type 0
IsInner ([], removes) = ⊥
IsInner ([], adds w) = ⊥
IsInner other = Unit

abbrev pub within : Text → Located → Located
within k (ts, e) = (k ∷ ts, e)

edit_at-into :
    (k : Text) (ts : List Text) (e : Edit) (d : Fields)
    → IsInner (ts, e)
    → edit_at e (k ∷ ts) (dict d) ≡ into (edit_at e ts) k d
unfolding edit_at
edit_at-into k [] removes d h = absurd h
edit_at-into k [] (adds w) d h = absurd h
edit_at-into k [] (replaces w) d h = refl
edit_at-into k [] (tests w) d h = refl
edit_at-into k (t ∷ ts) removes d h = refl
edit_at-into k (t ∷ ts) (adds w) d h = refl
edit_at-into k (t ∷ ts) (replaces w) d h = refl
edit_at-into k (t ∷ ts) (tests w) d h = refl

lookup-put_self : (k : Text) (v : Json) (d : Fields) → lookup k (put k v d) ≡ some v
lookup-put_self k v d = ground (arith, lookup-put k k v d)

-- Edits below one member change that member and leave the others.
pub run-within :
    (k : Text) (es : List Located) (d : Fields) (v w : Json)
    → All IsInner es
    → lookup k d ≡ some v
    → run es v ≡ some w
    → run (map (within k) es) (dict d) ≡ some (dict (put k w d))
unfolding run
run-within k [] d v w inner found h = ap (λ x. some (dict x)) (sym (put-lookup k w d (found ∙ h)))
run-within k ((ts, e) ∷ es) d v w inner found h =
    ap (λ o. o >>= run (map (within k) es)) (edit_at-into k ts e d inner.0)
    ∙ ap
        (λ (o : Option Json).
          (o >>= λ x. edit_at e ts x >>= λ y. some (dict (put k y d))) >>= run (map (within k) es))
        found
    ∙ first (edit_at e ts v) h
        (λ y. run-within k es (put k y d) y w inner.1 (lookup-put_self k y d))
  where
    first :
        (o : Option Json)
        → (o >>= run es) ≡ some w
        → ((y : Json)
            → run es y ≡ some w
            → run (map (within k) es) (dict (put k y d)) ≡ some (dict (put k w (put k y d))))
        → ((o >>= λ y. some (dict (put k y d))) >>= run (map (within k) es))
          ≡ some (dict (put k w d))
    first none g rest = cc
    first (some y) g rest = rest y g ∙ ap (λ x. some (dict x)) (put-put k y w d)
