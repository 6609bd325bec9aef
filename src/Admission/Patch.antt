-- ===== src/Admission/Patch.antt =====
-- What the patch of `mutation_patch`, cloudcoil/admission/_mutation.py, does to the raw object.
use cloudcoil.Base.{
  Bool, true, false, not, ◌&&◌, Option, some, List, ◌≡◌, sym, ap, subst, ◌∙◌, if◌then◌else◌,
}
use cloudcoil.Base.Json.{Text, equal_options, Json, dict, Fields, is_finite}
use cloudcoil.Base.Results.{
  ok, value_error, raise_if, ◌>>=◌, ◌>>◌, bind_returned, then_returned, ok_inj,
}
use cloudcoil.Patches.{Operation, json_patch}
use cloudcoil.Patches.Application.{apply_all}
use cloudcoil.Patches.Agreement.{Agrees}
use cloudcoil.Patches.RoundTrip.{apply_all-json_patch}
use cloudcoil.Admission.Overlay.{
  is_kept, pop_gone, output_of, finish, overlay, overlay_fields, Typed, same_meta, identity_keys,
  or_end, desired, mutation_patch,
}
use cloudcoil.Admission.Keys.{HasUniqueKeys}
use cloudcoil.Admission.Preserved.{Outside, Kept, overlay-Kept}

-- Where there is a raw object, the overlay by two dictionaries is not missing.
overlay_is_some :
    (raw : Json) (b a : Fields) (eb ea value : Option Json)
    → overlay (some raw) (some (dict b)) (dict a) eb ea ≡ ok value
    → (v : Json) × (value ≡ some v)
unfolding overlay
overlay_is_some raw b a eb ea value h =
    let (kept, _, rest) = bind_returned (is_kept (some raw) (some (dict b)) (dict a) eb ea) _ h in
    branch kept rest
  where
    branch :
        (kept : Bool)
        → (if kept
            then ok (some raw)
            else (overlay_fields a eb ea b (pop_gone b a (output_of (some raw))) >>= λ output.
                ok (finish (some raw) output)))
          ≡ ok value
        → (v : Json) × (value ≡ some v)
    branch true g = (raw, sym (ok_inj g))
    branch false g =
        let (output, _, final) =
          bind_returned (overlay_fields a eb ea b (pop_gone b a (output_of (some raw)))) _ g in
        (dict output, sym (ok_inj final))

module _ (ks : List Text) (raw : Fields) (before after : Typed) (wanted : Json) where
  desired-Kept :
      HasUniqueKeys (dict after.dump)
      → Outside ks (dict before.dump) (dict after.dump)
      → desired raw before after ≡ ok wanted
      → Kept ks (dict raw) wanted
  unfolding desired
  desired-Kept u o h =
      let same_class =
        raise_if
          (not (
            equal_options before.api_version after.api_version
            && equal_options before.kind after.kind))
          value_error in
      let same_object = raise_if (not (same_meta identity_keys before after)) value_error in
      let made =
        overlay (some (dict raw)) (some (dict before.dump)) (dict after.dump)
          (some (dict before.explicit)) (some (dict after.explicit)) in
      let (value, first, final) = bind_returned (same_class >> same_object >> made) _ h in
      let (_, returned) = then_returned (same_class >> same_object) made first in
      let (v, e) =
        overlay_is_some (dict raw) before.dump after.dump (some (dict before.explicit))
          (some (dict after.explicit)) value returned in
      let result = ap or_end (sym e) ∙ ok_inj final in
      subst (Kept ks (dict raw)) result (
        overlay-Kept ks (dict raw) (dict before.dump) (dict after.dump) v
          (some (dict before.explicit)) (some (dict after.explicit)) u o
          (subst (λ x. made ≡ ok x) e returned))

  -- If the overlay of an admission mutation is made, and neither it nor the raw object has a number that is
  -- not finite, then mutation_patch returns a patch that RFC 6902 applies to the raw object without
  -- an error, with a result that agrees with the overlay; and the overlay has what the raw object has
  -- under any path that goes through dictionaries of both typed dumps to a key that neither has,
  -- where the new dump has no key twice.
  pub mutation_patch-Kept :
      is_finite (dict raw) ≡ true
      → is_finite wanted ≡ true
      → HasUniqueKeys (dict after.dump)
      → Outside ks (dict before.dump) (dict after.dump)
      → desired raw before after ≡ ok wanted
      → (patch : List Operation) × (mutation_patch raw before after ≡ ok patch)
        × ((result : Json) × (apply_all patch (dict raw) ≡ some result) × Agrees result wanted)
        × Kept ks (dict raw) wanted
  unfolding mutation_patch
  mutation_patch-Kept finite_raw finite u o h =
      let (patch, made, applied) = apply_all-json_patch (dict raw) wanted finite_raw finite in
      (
        patch,
        ap (λ m. m >>= λ value. json_patch (dict raw) value) h ∙ made,
        applied,
        desired-Kept u o h,
      )
