-- ===== src/Patches/RoundTrip.antt =====
-- The patch of cloudcoil/patches.py, applied by RFC 6902, turns the old value into the new one.
use cloudcoil.Base.{
  ℕ, zero, suc, ◌<◌, true, false, Option, none, some, Option-cases, List, [], ◌∷◌, map, ◌≡◌, ◌≢◌,
  refl, sym, ap, ◌∙◌, subst, arith, Bool-cases, inl, inr, All,
}
use cloudcoil.Base.Json.{
  Text, text_discrete, Json, dict, Fields, is_finite, same_dumps, same_dumps-eq, height,
}
use cloudcoil.Base.Json.Objects.{lookup, put, pop, keys, contains-keys, height-lookup}
use cloudcoil.Base.Results.{ok}
use cloudcoil.Base.Sets.{contains, contains-cons, contains-nil, contains-head, Unique}
use cloudcoil.Patches.{Operation, sorted, union, visit, json_patch}
use cloudcoil.Patches.Pointers.{path_of}
use cloudcoil.Patches.Keys.{union-Unique, contains-union}
use cloudcoil.Patches.Application.{
  removes, adds, replaces, edit_at, apply_all, apply_all-run, Located, run, run-append, run-within,
  IsInner, within, ◌>>=◌,
}
use cloudcoil.Patches.Located.{
  edits_key, edits_keys, edits_replaced, edits, edits-IsInner, visit-edits,
}
use cloudcoil.Patches.Agreement.{Agrees, same, members, AgreesAt}
use cloudcoil.Patches.Edits.{
  absent_at, present_at, Changed, put-kept, pop-kept, put-found, pop-missing, run_one,
  edit_at-remove, edit_at-add,
}

module _ (f : Json → Json → List Located) (old new : Fields)
    (inner : (u v : Json) → All IsInner (f u v))
    (good : (k : Text) (u v : Json)
      → lookup k old ≡ some u
      → (w : Json) × (run (f u v) u ≡ some w) × Agrees w v) where
  edits_key_gone : (k : Text) → lookup k new ≡ none → edits_key f old new k ≡ (k ∷ [], removes) ∷ []
  unfolding edits_key
  edits_key_gone k h = rw (h, edits_key) refl

  edits_key_fresh :
      (k : Text) (v : Json)
      → lookup k new ≡ some v
      → lookup k old ≡ none
      → edits_key f old new k ≡ (k ∷ [], adds v) ∷ []
  unfolding edits_key
  edits_key_fresh k v h g = rw (h, edits_key) (rw (g, edits_key) refl)

  edits_key_both :
      (k : Text) (u v : Json)
      → lookup k new ≡ some v
      → lookup k old ≡ some u
      → edits_key f old new k ≡ map (within k) (f u v)
  unfolding edits_key
  edits_key_both k u v h g = rw (h, edits_key) (rw (g, edits_key) refl)

  change :
      (k : Text) (d : Fields)
      → lookup k d ≡ lookup k old
      → (lookup k new ≡ none → lookup k old ≢ none)
      → (d' : Fields) × Changed (edits_key f old new k) new d d' k
  change k d same_old known = elim (Option-cases (lookup k new)) [
    | inl gone ↦ elim (Option-cases (lookup k old)) [
      | inl missing ↦ absurd (known gone missing)
      | inr (u, found) ↦ (
        pop k d,
        record {
          ran =
              ap (λ es. run es (dict d)) (edits_key_gone k gone)
              ∙ run_one (k ∷ []) removes (dict d)
              ∙ edit_at-remove k d (same_old ∙ found);
          agrees = absent_at (pop-missing k d) gone;
          kept = λ j n. pop-kept k j d n;
        },
      )
    ]
    | inr (v, wanted) ↦ elim (Option-cases (lookup k old)) [
      | inl missing ↦ (
        put k v d,
        record {
          ran =
              ap (λ es. run es (dict d)) (edits_key_fresh k v wanted missing)
              ∙ run_one (k ∷ []) (adds v) (dict d)
              ∙ edit_at-add k v d;
          agrees = present_at v v (put-found k v d) wanted (same refl);
          kept = λ j n. put-kept k j v d n;
        },
      )
      | inr (u, found) ↦
          let (w, ran, agree) = good k u v found in
          (
            put k w d,
            record {
              ran =
                  ap (λ es. run es (dict d)) (edits_key_both k u v wanted found)
                  ∙ run-within k (f u v) d u w (inner u v) (same_old ∙ found) ran;
              agrees = present_at w v (put-found k w d) wanted agree;
              kept = λ j n. put-kept k j w d n;
            },
          )
    ]
  ]

  -- The keys of `l` are still as in the old object; the others agree with the new one.
  record Halfway (d : Fields) (l : List Text) : Type 0 where
    todo : (j : Text) → contains text_discrete j l ≡ true → lookup j d ≡ lookup j old
    done : (j : Text) → contains text_discrete j l ≡ false → AgreesAt (lookup j d) (lookup j new)

  AgreesAt-same : {a b c : Option Json} → a ≡ b → AgreesAt b c → AgreesAt a c
  AgreesAt-same {c} e h = subst (λ x. AgreesAt x c) (sym e) h

  Changed-Halfway :
      (k : Text) (l : List Text) (d d' : Fields)
      → Unique text_discrete (k ∷ l)
      → Halfway d (k ∷ l)
      → Changed (edits_key f old new k) new d d' k
      → Halfway d' l
  Changed-Halfway k l d d' u h c = record {
    todo = λ j m.
        c.kept j (λ e. ground (arith, m, u.0, ap (λ i. contains text_discrete i l) e))
        ∙ h.todo j (contains-cons text_discrete j k l ∙ ground arith);
    done = λ j m. elim (text_discrete k j) [
      | yes e ↦ subst (λ i. AgreesAt (lookup i d') (lookup i new)) e c.agrees
      | no n ↦
          AgreesAt-same (c.kept j n) (h.done j (contains-cons text_discrete j k l ∙ ground arith))
    ];
  }

  loop :
      (l : List Text) (d : Fields)
      → Unique text_discrete l
      → ((j : Text) → contains text_discrete j l ≡ true → lookup j new ≡ none → lookup j old ≢ none)
      → Halfway d l
      → (d' : Fields) × (run (edits_keys f old new l) (dict d) ≡ some (dict d'))
        × ((j : Text) → AgreesAt (lookup j d') (lookup j new))
  unfolding edits_keys
  loop [] d u known h = (d, unfold run in refl, λ j. h.done j (contains-nil text_discrete j))
  loop (k ∷ l) d u known h =
      let (d1, c) =
        change k d (h.todo k (contains-head text_discrete k l))
          (known k (contains-head text_discrete k l)) in
      let (d', ran, agree) =
        loop l d1 u.1 (λ j m. known j (contains-cons text_discrete j k l ∙ ground arith))
          (Changed-Halfway k l d d1 u h c) in
      (
        d',
        run-append (edits_key f old new k) (edits_keys f old new l) (dict d)
            ∙ ap (λ o. o >>= run (edits_keys f old new l)) c.ran
            ∙ ran,
        agree,
      )

replaced-Agrees :
    (old new : Json) → (w : Json) × (run (edits_replaced old new) old ≡ some w) × Agrees w new
unfolding edits_replaced
replaced-Agrees old new = elim (Bool-cases (same_dumps old new)) [
  | inl e ↦ (old, rw e (unfold run in refl), same (same_dumps-eq old new e))
  | inr e ↦ (new, rw e (run_one [] (replaces new) old ∙ (unfold edit_at in refl)), same refl)
]

union-known :
    (old new : Fields) (j : Text)
    → contains text_discrete j (sorted (union (keys old) (keys new))) ≡ true
    → lookup j new ≡ none
    → lookup j old ≢ none
union-known old new j m gone missing =
    ground (arith, contains-union j (keys old) (keys new), contains-keys j old, contains-keys j new)

union-rest :
    (old new : Fields) (j : Text)
    → contains text_discrete j (sorted (union (keys old) (keys new))) ≡ false
    → (lookup j old ≡ none) × (lookup j new ≡ none)
union-rest old new j m =
    ground (arith, contains-union j (keys old) (keys new), contains-keys j old, contains-keys j new)

edits-Agrees :
    (fuel : ℕ) (old new : Json)
    → height old < fuel
    → (w : Json) × (run (edits fuel old new) old ≡ some w) × Agrees w new
unfolding edits
edits-Agrees zero old new h = elim h [ ]
edits-Agrees (suc fuel) (dict old) (dict new) h =
    let l = sorted (union (keys old) (keys new)) in
    let (d, ran, agree) =
      loop (edits fuel) old new (edits-IsInner fuel)
        (λ k u v found. edits-Agrees fuel u v (omega (arith, height-lookup k u old found))) l old
        (union-Unique (keys old) (keys new)) (union-known old new)
        (record {
          todo = λ j m. refl;
          done = λ j m. let (p, q) = union-rest old new j m in absent_at p q;
        }) in
    (dict d, ran, members agree)
edits-Agrees (suc fuel) old new h = replaced-Agrees old new

-- For values without a number that is not finite, json_patch raises nothing, and RFC 6902 applies
-- its patch to the old value without an error; the result agrees with the new value: objects have
-- the same keys with values that agree, and other values are written alike by json.dumps.
pub apply_all-json_patch :
    (before after : Json)
    → is_finite before ≡ true
    → is_finite after ≡ true
    → (patch : List Operation) × (json_patch before after ≡ ok patch)
      × ((result : Json) × (apply_all patch before ≡ some result) × Agrees result after)
unfolding json_patch path_of
apply_all-json_patch before after p q =
    let fuel = suc (height before) in
    let (w, ran, agree) = edits-Agrees fuel before after (omega arith) in
    (
      visit fuel before after [],
      rw p (rw q refl),
      (
        w,
        ap (λ ops. apply_all ops before) (visit-edits fuel before after [])
            ∙ apply_all-run (edits fuel before after) before
            ∙ ran,
        agree,
      ),
    )
