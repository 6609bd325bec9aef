-- ===== src/Admission.antt =====
-- cloudcoil/admission/_mutation.py: what a mutation of a typed object makes of the raw object of an admission
-- review. `_MISSING` is none. The keys of both dumps, a set in the code, are taken in the order of the
-- old one for those that are gone, and then of the new one.
pub mod Arrays
pub mod Overlay
pub mod Keys
pub mod Preserved
pub mod Patch
mod Tests
use cloudcoil.Base.{
  Bool, true, false, not, ◌||◌, Option, none, some, List, [], ◌∷◌, length, ◌==◌, if◌then◌else◌,
}
use cloudcoil.Base.Json.{
  Json, array, dict, Items, nil, cons, Fields, end, field, is_finite, same_dumps,
}
use cloudcoil.Base.Json.Objects.{lookup}
use cloudcoil.Base.Results.{value_error, Result, ok, raise, raise_if, ◌>>=◌, ◌>>◌}

-- `_equal`, of two values
unfoldable pub equal : Json → Json → Result Bool
equal a b = raise_if (not (is_finite a) || not (is_finite b)) value_error >> ok (same_dumps a b)

-- `_equal`
unfoldable pub equal_or_missing : Option Json → Option Json → Result Bool
unfolding equal
equal_or_missing (some a) (some b) = equal a b
equal_or_missing none none = ok true
equal_or_missing a b = ok false

-- `_unknown`
unfoldable mutual
  pub unknown : Json → Json → Result Bool
  unknown (dict d) (dict t) = unknown_fields d t
  unknown (array xs) (array ys) = unknown_items xs ys
  unknown v w = ok false

  pub unknown_fields : Fields → Fields → Result Bool
  unknown_fields end t = ok false
  unknown_fields (field k v d) t =
      let rest = unknown_fields d t in
      elim (lookup k t) [ none ↦ ok true | some w ↦ unknown v w ] >>= λ found.
      if found then ok true else rest

  -- `any(... for ... in zip(raw, typed, strict=True))`
  pub unknown_items : Items → Items → Result Bool
  unknown_items nil nil = ok false
  unknown_items (cons v xs) (cons w ys) =
      let rest = unknown_items xs ys in unknown v w >>= λ found. if found then ok true else rest
  unknown_items xs ys = raise value_error

abbrev pub list_of : Items → List Json
list_of nil = []
list_of (cons v xs) = v ∷ list_of xs

-- `_projection_matches`
unfoldable mutual
  pub projection_matches : Json → Json → Result Bool
  projection_matches (dict d) (dict t) = fields_match d t
  projection_matches (array xs) (array ys) =
      let all = items_match xs ys in
      if length (list_of xs) == length (list_of ys) then all else ok false
  projection_matches v w = equal v w

  pub fields_match : Fields → Fields → Result Bool
  fields_match end t = ok true
  fields_match (field k v d) t =
      let rest = fields_match d t in
      elim (lookup k t) [ none ↦ ok true | some w ↦ projection_matches v w ] >>= λ found.
      if found then rest else ok false

  pub items_match : Items → Items → Result Bool
  items_match nil nil = ok true
  items_match (cons v xs) (cons w ys) =
      let rest = items_match xs ys in
      projection_matches v w >>= λ found. if found then rest else ok false
  items_match xs ys = raise value_error
