-- ===== src/Controller/Children/Ownership.antt =====
-- `ensure` of cloudcoil/controller/_children.py touches only children of the parent.
use cloudcoil.Base.{
  true, false, not, Option, none, some, List, [], ◌∷◌, ◌≡◌, inl, inr, refl, subst, arith, Member,
  Bool-cases,
}
use cloudcoil.Base.Json.{Text}
use cloudcoil.Base.Results.{
  bind_returned, then_returned, raise_if_returned, ok_inj, assertion_error, terminal_error,
  runtime_error, ok, raise, raise_if, ◌>>=◌, ◌>>◌,
}
use cloudcoil.Controller.Status.Conditions.{equal_texts_iff}
use cloudcoil.Patches as Patches
use cloudcoil.Patches.{Operation, diff}
use cloudcoil.Controller.Children.{
  OwnerReference, Parent, Child, Current, Api, Action, creates, patches, keeps, group_of, check,
  given, place, owner_of, is_owner, owns_any, drop_owners, fields_of, merge, patch_or_keep, update,
  completed, ensure,
}

-- A reference to the parent as the controller, in any version of its API group
pub record Refers (owner ref : OwnerReference) : Type 0 where
  pub controls : ref.controller ≡ true
  pub same_uid : ref.uid ≡ owner.uid
  pub same_kind : ref.kind ≡ owner.kind
  pub same_name : ref.name ≡ owner.name
  pub same_group : group_of ref.api_version ≡ group_of owner.api_version

is_owner-Refers : (owner ref : OwnerReference) → is_owner owner ref ≡ true → Refers owner ref
unfolding is_owner
is_owner-Refers owner ref h = ground (
  arith,
  equal_texts_iff ref.uid owner.uid,
  equal_texts_iff ref.kind owner.kind,
  equal_texts_iff ref.name owner.name,
  equal_texts_iff (group_of ref.api_version) (group_of owner.api_version),
)

owns_any-Member :
    (owner : OwnerReference) (refs : List OwnerReference)
    → owns_any owner refs ≡ true
    → (ref : OwnerReference) × Member ref refs × Refers owner ref
unfolding owns_any
owns_any-Member owner [] h = cc
owns_any-Member owner (ref ∷ refs) h = elim (Bool-cases (is_owner owner ref)) [
  | inl e ↦ (ref, inl refl, is_owner-Refers owner ref e)
  | inr e ↦ let (found, m, r) = owns_any-Member owner refs (ground (arith, e)) in (found, inr m, r)
]

-- The API returned the object for the parent's child, it is not being deleted, and it refers to the
-- parent as its controller.
pub record IsOwn (api : Api) (parent : Parent) (current : Current) : Type 0 where
  pub name : Text
  pub namespace : Option Text
  pub fetched : api.get name namespace ≡ ok (some current)
  pub alive : current.deleting ≡ false
  pub reference : OwnerReference
  pub held : Member reference current.owner_references
  pub refers : Refers (owner_of parent) reference

-- When the action is right: a child is made only if none is there, with the parent as its one
-- owner; an object is patched, with a patch from its own snapshot, or kept only if it is the
-- parent's own.
abbrev pub IsJustified : Api → Parent → Action → Type 0
IsJustified api parent (creates child) =
    (child.owner_references ≡ owner_of parent ∷ [])
    × ((name : Text) × (child.name ≡ some name) × (api.get name child.namespace ≡ ok none))
IsJustified api parent (patches current ops) =
    IsOwn api parent current
    × ((updated : Patches.Resource) × (diff current.snapshot updated ≡ ok ops))
IsJustified api parent (keeps current) = IsOwn api parent current

update-IsJustified :
    (api : Api) (parent : Parent) (child : Child) (current : Current) (name : Text)
    (namespace : Option Text) (action : Action)
    → api.get name namespace ≡ ok (some current)
    → update api parent child current ≡ ok action
    → IsJustified api parent action
unfolding update
update-IsJustified api parent child current name namespace action fetched h =
    let owned =
      raise_if (not (owns_any (owner_of parent) current.owner_references)) terminal_error in
    let alive = raise_if current.deleting runtime_error in
    let read =
      api.validate (merge (fields_of current.snapshot.dump) (drop_owners (api.dump child))) in
    let (updated, first, rest) = bind_returned (owned >> alive >> read) _ h in
    let (guards, _) = then_returned (owned >> alive) read first in
    let (is_owned, is_alive) = then_returned owned alive guards in
    let (ops, changed, final) = bind_returned (diff current.snapshot updated) _ rest in
    let (ref, m, r) =
      owns_any-Member (owner_of parent) current.owner_references
        (ground (arith, raise_if_returned _ terminal_error is_owned)) in
    subst (IsJustified api parent) (ok_inj final) (
      last ops updated changed (record {
        name = name;
        namespace = namespace;
        fetched = fetched;
        alive = raise_if_returned current.deleting runtime_error is_alive;
        reference = ref;
        held = m;
        refers = r;
      }))
  where
    last :
        (ops : List Operation) (updated : Patches.Resource)
        → diff current.snapshot updated ≡ ok ops
        → IsOwn api parent current
        → IsJustified api parent (patch_or_keep current ops)
    last [] updated e own = own
    last (op ∷ ops) updated e own = (own, (updated, e))

-- What ensure ends with is right: it creates a child, with the parent as its only owner, only where
-- the API has none of this name; it patches or keeps only an object that the API returned, that
-- is not being deleted and that refers to the parent, by UID, kind, name and API group, as its
-- controller; and a patch is the difference from the object that was fetched.
pub ensure-IsJustified :
    (api : Api) (parent : Parent) (child : Child) (action : Action)
    → ensure api parent child ≡ ok action
    → IsJustified api parent action
unfolding ensure
ensure-IsJustified api parent child action h =
    let (namespace, _, rest) = bind_returned (check parent child >> place api parent child) _ h in
    named namespace (given child.name parent.name) refl rest
  where
    answered :
        (namespace : Option Text) (name : Text) (found : Option Current)
        → given child.name parent.name ≡ some name
        → api.get name namespace ≡ ok found
        → elim found [
          | none ↦ ok (creates (completed parent child namespace))
          | some current ↦ update api parent (completed parent child namespace) current
        ]
          ≡ ok action
        → IsJustified api parent action
    answered namespace name none e g k =
        subst (IsJustified api parent) (ok_inj k) (refl, (name, e, g))
    answered namespace name (some current) e g k =
        update-IsJustified api parent (completed parent child namespace) current name namespace
          action g k

    named :
        (namespace : Option Text) (o : Option Text)
        → given child.name parent.name ≡ o
        → elim o [
          | none ↦ raise assertion_error
          | some name ↦ api.get name namespace >>= λ found. elim found [
            | none ↦ ok (creates (completed parent child namespace))
            | some current ↦ update api parent (completed parent child namespace) current
          ]
        ]
          ≡ ok action
        → IsJustified api parent action
    named namespace none e k = absurd (ground arith)
    named namespace (some name) e k =
        let (found, g, k') = bind_returned (api.get name namespace) _ k in
        answered namespace name found e g k'
