-- ===== src/Patches/Guards.antt =====
-- What the two tests at the head of a patch of `diff`, cloudcoil/patches.py, guarantee.
use cloudcoil.Base.{
  Option, none, some, List, [], ◌∷◌, ◌≡◌, refl, sym, ap, ◌∙◌, subst, ◌⊎◌, inl, inr, arith,
  Bool-cases,
}
use cloudcoil.Base.Json.{
  Text, codes, Json, null, boolean, number, not_finite, string, array, dict, Fields, sort_keys,
  same_dumps, same_dumps-eq,
}
use cloudcoil.Base.Json.Objects.{lookup, put, put-lookup, some_inj}
use cloudcoil.Base.Results.{Result, ok, raise, ◌>>=◌}
use cloudcoil.Patches.{
  Operation, test, changes, Resource, uid_path, version_path, text_of, guards, guarded, diff,
}
use cloudcoil.Patches.Pointers.{tokens, segments, unescape, unescape_all}
use cloudcoil.Patches.Application as Application
use cloudcoil.Patches.Application.{tests, edit_at, whole, apply, apply_all}

-- The value at a path of keys
unfoldable pub value_at : List Text → Json → Option Json
value_at [] v = some v
value_at (k ∷ ks) (dict d) = elim (lookup k d) [ none ↦ none | some v ↦ value_at ks v ]
value_at (k ∷ ks) v = none

abbrev pub uid_keys : List Text
uid_keys = codes "metadata" ∷ codes "uid" ∷ []

abbrev pub version_keys : List Text
version_keys = codes "metadata" ∷ codes "resourceVersion" ∷ []

string-eq : (t : Text) (v : Json) → sort_keys (string t) ≡ sort_keys v → v ≡ string t
unfolding sort_keys
string-eq t null h = cc
string-eq t (boolean b) h = cc
string-eq t (number n) h = cc
string-eq t not_finite h = cc
string-eq t (string s) h = sym h
string-eq t (array xs) h = cc
string-eq t (dict d) h = cc

-- A test that succeeds changes nothing and has found its text.
record Passed (t : Text) (ks : List Text) (v u : Json) : Type 0 where
  unchanged : u ≡ v
  found : value_at ks v ≡ some (string t)

tests-whole : (t : Text) (v u : Json) → whole (tests (string t)) v ≡ some u → Passed t [] v u
unfolding value_at
tests-whole t v u h = elim (Bool-cases (same_dumps (string t) v)) [
  | inl e ↦ record {
    unchanged = ground arith;
    found = ap some (string-eq t v (same_dumps-eq (string t) v e));
  }
  | inr e ↦ absurd (ground arith)
]

tests-into :
    (t k : Text) (ks : List Text) (d : Fields) (u : Json)
    → ((v w : Json) → edit_at (tests (string t)) ks v ≡ some w → Passed t ks v w)
    → Application.into (edit_at (tests (string t)) ks) k d ≡ some u
    → Passed t (k ∷ ks) (dict d) u
unfolding value_at
tests-into t k ks d u rec h = go (lookup k d) refl h
  where
    stay :
        (v : Json)
        → lookup k d ≡ some v
        → (o : Option Json) → edit_at (tests (string t)) ks v ≡ o
        → Application.◌>>=◌ o (λ w. some (dict (put k w d))) ≡ some u
        → Passed t (k ∷ ks) (dict d) u
    stay v e none a g = absurd (ground arith)
    stay v e (some w) a g =
        let p = rec v w a in
        record {
          unchanged =
              some_inj (sym g)
              ∙ ap (λ x. dict (put k x d)) p.unchanged
              ∙ ap dict (put-lookup k v d e);
          found =
              ap (λ (o : Option Json). elim o [ none ↦ none | some x ↦ value_at ks x ]) e ∙ p.found;
        }

    go :
        (o : Option Json)
        → lookup k d ≡ o
        → Application.◌>>=◌ o (λ v.
          Application.◌>>=◌ (edit_at (tests (string t)) ks v) (λ w. some (dict (put k w d))))
          ≡ some u
        → Passed t (k ∷ ks) (dict d) u
    go none e g = absurd (ground arith)
    go (some v) e g = stay v e (edit_at (tests (string t)) ks v) refl g

tests-Passed :
    (t : Text) (ks : List Text) (v u : Json)
    → edit_at (tests (string t)) ks v ≡ some u
    → Passed t ks v u
unfolding edit_at
tests-Passed t [] v u h = tests-whole t v u h
tests-Passed t (k ∷ []) (dict d) u h = tests-into t k [] d u (tests-Passed t []) h
tests-Passed t (k ∷ j ∷ ks) (dict d) u h = tests-into t k (j ∷ ks) d u (tests-Passed t (j ∷ ks)) h
tests-Passed t (k ∷ ks) v u h = absurd (ground arith)

pub diff-guarded :
    (before after : Resource) (ops : List Operation)
    → diff before after ≡ ok ops
    → (patch : List Operation) × (ops ≡ guarded before patch)
unfolding diff
diff-guarded before after ops h = last (changes before after) h
  where
    last :
        (r : Result (List Operation))
        → (r >>= λ patch. ok (guarded before patch)) ≡ ok ops
        → (patch : List Operation) × (ops ≡ guarded before patch)
    last (ok patch) g = (patch, cc)
    last (raise e) g = absurd (ground arith)

apply-test :
    (t path : Text) (ks : List Text) (v : Json)
    → tokens path ≡ some ks
    → apply (test path (string t)) v ≡ edit_at (tests (string t)) ks v
unfolding apply
apply-test t path ks v e = ap (λ o. Application.◌>>=◌ o (λ l. edit_at (tests (string t)) l v)) e

uid_tokens : tokens uid_path ≡ some uid_keys
unfolding tokens segments unescape unescape_all
uid_tokens = refl

version_tokens : tokens version_path ≡ some version_keys
unfolding tokens segments unescape unescape_all
version_tokens = refl

-- The first of some operations that succeed
apply_all-cons :
    (op : Operation) (ops : List Operation) (v w : Json)
    → apply_all (op ∷ ops) v ≡ some w
    → (u : Json) × (apply op v ≡ some u) × (apply_all ops u ≡ some w)
unfolding apply_all
apply_all-cons op ops v w h = go (apply op v) refl h
  where
    go :
        (o : Option Json)
        → apply op v ≡ o
        → Application.◌>>=◌ o (apply_all ops) ≡ some w
        → (u : Json) × (apply op v ≡ some u) × (apply_all ops u ≡ some w)
    go none e g = absurd (ground arith)
    go (some u) e g = (u, e, g)

guards-cons :
    (r : Resource) (op : Operation) (ops : List Operation)
    → guarded r (op ∷ ops)
      ≡ test uid_path (string (text_of r.uid))
        ∷ test version_path (string (text_of r.resource_version))
        ∷ op
        ∷ ops
unfolding guards
guards-cons r op ops = refl

-- A patch of diff that is not empty applies only to a value that holds, at metadata.uid and at
-- metadata.resourceVersion, the UID and the version of the snapshot that diff was given first.
pub apply_all-diff :
    (before after : Resource) (ops : List Operation) (current result : Json)
    → diff before after ≡ ok ops
    → apply_all ops current ≡ some result
    → (ops ≡ [])
      ⊎ ((value_at uid_keys current ≡ some (string (text_of before.uid)))
          × (value_at version_keys current ≡ some (string (text_of before.resource_version))))
apply_all-diff before after ops current result h ran =
    let (patch, e) = diff-guarded before after ops h in go patch e
  where
    go :
        (patch : List Operation)
        → ops ≡ guarded before patch
        → (ops ≡ [])
          ⊎ ((value_at uid_keys current ≡ some (string (text_of before.uid)))
              × (value_at version_keys current ≡ some (string (text_of before.resource_version))))
    go [] e = inl e
    go (op ∷ patch) e =
        let uid = text_of before.uid in
        let version = text_of before.resource_version in
        let rest = test version_path (string version) ∷ op ∷ patch in
        let all =
          subst (λ l. apply_all l current ≡ some result) (e ∙ guards-cons before op patch) ran in
        let (u, first, more) =
          apply_all-cons (test uid_path (string uid)) rest current result all in
        let (w, second, _) =
          apply_all-cons (test version_path (string version)) (op ∷ patch) u result more in
        let p =
          tests-Passed uid uid_keys current u
            (sym (apply-test uid uid_path uid_keys current uid_tokens) ∙ first) in
        let q =
          tests-Passed version version_keys u w
            (sym (apply-test version version_path version_keys u version_tokens) ∙ second) in
        inr (
          p.found,
          subst (λ v. value_at version_keys v ≡ some (string version)) p.unchanged q.found,
        )
