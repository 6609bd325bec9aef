-- ===== src/Controller/Mutations.antt =====
-- cloudcoil/controller/_mutations.py: `mutate`, the two finalizer edits, and `_persist`. What the API answers
-- is a function of the request; each function returns the patches that it sent, with its result. A
-- callback is a function on the copy, which returns it edited or raises.
pub mod Requests
pub mod Complete
pub mod Finalizers
mod Tests
use cloudcoil.Base.{
  ℕ_discrete, Bool, true, false, not, ◌&&◌, ◌||◌, Option, none, some, List, [], ◌∷◌, ◌++◌, filter,
  is_empty, if◌then◌else◌, ◌==◌,
}
use cloudcoil.Base.Json.{Text, text_discrete, codes, equal_texts, equal_options, Json, dict}
use cloudcoil.Base.Json.Objects.{lookup}
use cloudcoil.Base.Sets.{contains}
use cloudcoil.Base.Results.{
  Exception, value_error, terminal_error, api_error, Result, ok, raise, raise_if, ◌>>=◌, ◌>>◌,
}
use cloudcoil.Patches.{Operation, remove, add, replace, test, Resource, is_set, guards, diff}

-- A PATCH of the object, with its subresource
pub record Sent : Type 0 where
  pub target : Resource
  pub operations : List Operation
  pub to_status : Bool

abbrev pub Trace : Type 0 → Type 0
Trace A = List Sent × Result A

-- What the API answers, Python's `==` of two JSON values, and `metadata` of the type as pydantic reads and
-- edits it: its finalizers, none if it has no list, and whether it has a deletion timestamp
pub record Api : Type 0 where
  pub patch : Sent → Result Resource
  pub equal : Json → Json → Bool
  pub finalizers : Resource → List Text
  pub with_finalizers : List Text → Resource → Resource
  pub is_deleting : Resource → Bool

abbrev pub path_of : Operation → Text
path_of (remove path) = path
path_of (add path v) = path
path_of (replace path v) = path
path_of (test path v) = path

abbrev pub is_test : Operation → Bool
is_test (test path v) = true
is_test other = false

-- `text.startswith(prefix)`
unfoldable pub starts_with : Text → Text → Bool
starts_with [] t = true
starts_with (c ∷ s) [] = false
starts_with (c ∷ s) (d ∷ t) = c == d && starts_with s t

unfoldable pub is_status : Operation → Bool
unfolding starts_with
is_status op =
    equal_texts (path_of op) (codes "/status") || starts_with (codes "/status/") (path_of op)

unfoldable pub any_other : List Operation → Bool
unfolding is_status
any_other [] = false
any_other (op ∷ ops) = (not (is_test op) && not (is_status op)) || any_other ops

abbrev pub conflict : Exception
conflict = api_error 409

unfoldable pub send : Api → Sent → Trace Resource
send api s = (s ∷ [], api.patch s)

-- `client.patch` of the changes, or the object as it is where there are none
unfoldable pub patch_changes : Api → Bool → Resource → List Operation → Trace Resource
unfolding send
patch_changes api status current [] = ([], ok current)
patch_changes api status current (op ∷ ops) =
    send api (record { target = current; operations = op ∷ ops; to_status = status })

abbrev pub or_raise : {A B : Type 0} → Result A → (A → Trace B) → Trace B
or_raise (raise e) next = ([], raise e)
or_raise (ok a) next = next a

-- The operations of `mutate`, or what it raises before it sends them
unfoldable pub mutation :
    (live : Result Resource) (change : Resource → Result Resource) (status : Bool)
    → Resource
    → Result (Resource × List Operation)
unfolding any_other
mutation live change status resource =
    raise_if (not (is_set resource.name) || not (is_set resource.uid)) value_error
    >> live
    >>= λ current.
        raise_if (not (equal_options current.uid resource.uid)) conflict
        >> change current
        >>= λ desired. diff current desired >>= λ operations.
            raise_if (status && any_other operations) value_error >> ok (current, operations)

unfoldable pub mutate :
    Api
    → (live : Result Resource) (change : Resource → Result Resource) (status : Bool) → Resource
    → Trace Resource
unfolding mutation patch_changes
mutate api live change status resource =
    or_raise (mutation live change status resource)
      (λ (current, operations). patch_changes api status current operations)

-- The callback of `ensure_finalizer`
unfoldable pub add_finalizer : Api → Text → Resource → Result Resource
add_finalizer api finalizer obj =
    if contains text_discrete finalizer (api.finalizers obj)
    then ok obj
    else (raise_if (api.is_deleting obj) terminal_error
        >> ok (api.with_finalizers (api.finalizers obj ++ finalizer ∷ []) obj))

-- The callback of `remove_finalizer`
unfoldable pub drop_finalizer : Api → Text → Resource → Resource
unfolding filter
drop_finalizer api finalizer obj =
    if contains text_discrete finalizer (api.finalizers obj)
    then api.with_finalizers
        (filter (λ value. not (equal_texts value finalizer)) (api.finalizers obj)) obj
    else obj

unfoldable pub ensure_finalizer : Api → (live : Result Resource) → Text → Resource → Trace Resource
unfolding mutate add_finalizer
ensure_finalizer api live finalizer resource =
    or_raise (raise_if (is_empty finalizer || not (contains ℕ_discrete b'/' finalizer)) value_error)
      (λ _. mutate api live (add_finalizer api finalizer) false resource)

unfoldable pub remove_finalizer : Api → (live : Result Resource) → Text → Resource → Trace Resource
unfolding mutate drop_finalizer
remove_finalizer api live finalizer resource =
    mutate api live (λ obj. ok (drop_finalizer api finalizer obj)) false resource

-- `model_dump(...).get("status")`
unfoldable pub status_of : Resource → Option Json
status_of r = elim r.dump [ dict d ↦ lookup (codes "status") d | _ ↦ none ]

abbrev pub same_status : Api → Option Json → Option Json → Bool
same_status api none none = true
same_status api (some v) (some w) = api.equal v w
same_status api v w = false

-- The tests before the status is written after the rest
unfoldable pub check_current : Api → Resource → Resource → Result (Unit {0})
unfolding status_of
check_current api original current =
    raise_if (not (equal_options current.uid original.uid) || not (is_set current.resource_version))
      conflict
    >> raise_if (not (same_status api (status_of original) (status_of current))) conflict

abbrev pub status_patch : Resource → Resource → List Operation → Sent
status_patch original current changes = record {
  target = current;
  operations = guards (record original { resource_version = current.resource_version }) ++ changes;
  to_status = true;
}

abbrev pub main_patch : Resource → List Operation → Sent
main_patch original changes = record {
  target = original;
  operations = guards original ++ changes;
  to_status = false;
}

abbrev pub before : Sent → Trace Resource → Trace Resource
before s (l, r) = (s ∷ l, r)

-- The status changes, after the main patch was answered
unfoldable pub write_status : Api → Resource → List Operation → Result Resource → Trace Resource
unfolding check_current send
write_status api original changes (raise e) = ([], raise e)
write_status api original [] (ok current) = ([], ok current)
write_status api original (op ∷ ops) (ok current) =
    or_raise (check_current api original current)
      (λ _. send api (status_patch original current (op ∷ ops)))

-- The main and the status changes on their endpoints
unfoldable pub write_split : Api → Resource → List Operation → List Operation → Trace Resource
unfolding write_status send
write_split api original [] [] = ([], ok original)
write_split api original [] (op ∷ ops) = send api (status_patch original original (op ∷ ops))
write_split api original (op ∷ ops) status =
    let s = main_patch original (op ∷ ops) in
    before s (write_status api original status (api.patch s))

-- The changes that follow the two guards
abbrev pub changes_of : List Operation → List Operation
changes_of (a ∷ b ∷ changes) = changes
changes_of other = []

unfoldable pub write : Api → (has_status : Bool) → Resource → List Operation → Trace Resource
unfolding write_split filter is_status
write api has_status original [] = ([], ok original)
write api false original (op ∷ ops) =
    send api (record { target = original; operations = op ∷ ops; to_status = false })
write api true original (op ∷ ops) =
    write_split api original (filter (λ c. not (is_status c)) (changes_of (op ∷ ops)))
      (filter is_status (changes_of (op ∷ ops)))

-- `_persist`
unfoldable pub persist : Api → (has_status : Bool) → Resource → Resource → Trace Resource
unfolding write
persist api has_status original desired =
    or_raise (diff original desired) (write api has_status original)
