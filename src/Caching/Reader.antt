-- ===== src/Caching/Reader.antt =====
-- cloudcoil/caching/_reader.py: `CachedResources`. Deep copies are values here.
pub mod Answers
mod Tests
use cloudcoil.Base.{
  Bool, true, false, not, ◌&&◌, ◌||◌, Option, none, some, String, List, [], ◌∷◌, if◌then◌else◌,
  filter,
}
use cloudcoil.Base.Results.{Exception, runtime_error, value_error, Result, ok, raise_if, ◌>>◌}
use cloudcoil.Caching.Store.{is_truthy}
use cloudcoil.Caching.Informer.{Resource, Informer, text, has_synced, has_label, find, list_items}

pub record CachedResources (Body : Type 0) : Type 0 where
  pub informer : Informer Body
  -- `_informer._watch._error`
  pub error : Option Exception
  -- `_informer._client.namespaced`
  pub namespaced : Bool
  pub namespace : Option String

abbrev pub is_none {ℓ} : {A : Type ℓ} → Option A → Bool
is_none none = true
is_none (some _) = false

-- `a or b`, of texts that may be `None`
abbrev pub or_else : Option String → Option String → Option String
or_else a b = if is_truthy (text a) then a else b

module _ {Body : Type 0} where
  -- `_check`
  unfoldable pub check : CachedResources Body → Result (Unit {0})
  check r =
      raise_if (not (has_synced r.informer)) runtime_error
      >> raise_if (not (is_none r.error)) runtime_error

  unfoldable pub get :
      String → Option String → CachedResources Body → Result (Option (Resource Body))
  get name namespace r =
      let target = if r.namespaced then or_else namespace r.namespace else none in
      check r
      >> raise_if (r.namespaced && is_none target) value_error
      >> ok (find name target r.informer)

  unfoldable pub has_labels : List (String × String) → Resource Body → Bool
  has_labels [] obj = true
  has_labels (pair ∷ labels) obj = let rest = has_labels labels obj in has_label pair obj && rest

  -- The namespace that `list` looks in, or all of them
  unfoldable pub scope : Option String → Bool → CachedResources Body → Option String
  scope namespace all_namespaces r =
      if all_namespaces || not r.namespaced then none else or_else namespace r.namespace

  unfoldable pub list :
      Option String
      → Bool
      → List (String × String)
      → CachedResources Body
      → Result (List (Resource Body))
  list namespace all_namespaces labels r =
      let target = scope namespace all_namespaces r in
      check r
      >> raise_if (all_namespaces && not (is_none namespace)) value_error
      >> raise_if (r.namespaced && is_none target && not all_namespaces) value_error
      >> ok (filter (has_labels labels) (list_items target none r.informer))
