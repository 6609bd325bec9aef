-- ===== src/Controller/Mutations/Requests.antt =====
-- What the patches that `mutate` and `_persist` of cloudcoil/controller/_mutations.py send may touch.
use cloudcoil.Base.{
  Bool, true, false, not, ◌&&◌, ◌||◌, Option, none, some, List, [], ◌∷◌, ◌++◌, ◌≡◌, refl, sym, ap,
  subst, ◌∙◌, arith, All, filter, Bool-cases,
}
use cloudcoil.Base.Json.{Text, equal_options}
use cloudcoil.Base.Results.{
  bind_returned, then_returned, raise_if_returned, ok_inj, value_error, Result, ok, raise, raise_if,
  ◌>>◌,
}
use cloudcoil.Controller.Status.Conditions.{equal_texts_iff}
use cloudcoil.Patches.{Operation, Resource, is_set, guards, guarded, diff}
use cloudcoil.Patches.Guards.{diff-guarded}
use cloudcoil.Controller.Mutations.{
  Sent, Api, is_test, is_status, any_other, conflict, send, patch_changes, or_raise, mutation,
  mutate, check_current, status_patch, main_patch, write_status, write_split, changes_of, write,
  persist,
}

-- A patch of one endpoint: it is sent to the original's object, starts with the tests that it still has
-- the original's UID and the version that was seen, and changes only what belongs to the endpoint.
pub record IsPart (original : Resource) (s : Sent) : Type 0 where
  pub same_uid : s.target.uid ≡ original.uid
  pub is_guarded :
      s.operations
      ≡ guards (record original { resource_version = s.target.resource_version })
        ++ changes_of s.operations
  pub routed : All (λ op. is_status op ≡ s.to_status) (changes_of s.operations)

equal_options-eq : (s t : Option Text) → equal_options s t ≡ true → s ≡ t
unfolding equal_options
equal_options-eq none none h = refl
equal_options-eq none (some t) h = cc
equal_options-eq (some s) none h = cc
equal_options-eq (some s) (some t) h = ap some ((equal_texts_iff s t).0 h)

filter-All :
    (test : Operation → Bool) (ops : List Operation) → All (λ op. test op ≡ true) (filter test ops)
unfolding filter
filter-All test [] = tt
filter-All test (op ∷ ops) = go (test op) refl (filter-All test ops)
  where
    go :
        (b : Bool)
        → test op ≡ b
        → All (λ o. test o ≡ true) (filter test ops)
        → All
            (λ o. test o ≡ true)
            (elim b [ true ↦ op ∷ filter test ops | false ↦ filter test ops ])
    go true e a = (e, a)
    go false e a = a

not_status :
    (ops : List Operation)
    → All (λ op. not (is_status op) ≡ true) ops
    → All (λ op. is_status op ≡ false) ops
not_status [] a = tt
not_status (op ∷ ops) a = (ground (arith, a.0), not_status ops a.1)

check_current-eq :
    (api : Api) (original current : Resource)
    → check_current api original current ≡ ok tt
    → current.uid ≡ original.uid
unfolding check_current
check_current-eq api original current h =
    let same = equal_options current.uid original.uid in
    let (e, _) =
      then_returned (raise_if (not same || not (is_set current.resource_version)) conflict) _ h in
    equal_options-eq current.uid original.uid (
      ground
        (arith, raise_if_returned (not same || not (is_set current.resource_version)) conflict e))

status_patch-IsPart :
    (original current : Resource) (ops : List Operation)
    → current.uid ≡ original.uid
    → All (λ op. is_status op ≡ true) ops
    → IsPart original (status_patch original current ops)
unfolding guards
status_patch-IsPart original current ops e a = record {
  same_uid = e;
  is_guarded = refl;
  routed = a;
}

main_patch-IsPart :
    (original : Resource) (ops : List Operation)
    → All (λ op. is_status op ≡ false) ops
    → IsPart original (main_patch original ops)
unfolding guards
main_patch-IsPart original ops a = record { same_uid = refl; is_guarded = refl; routed = a }

write_status-IsPart :
    (api : Api) (original : Resource) (ops : List Operation) (answer : Result Resource)
    → All (λ op. is_status op ≡ true) ops
    → All (IsPart original) (write_status api original ops answer).0
unfolding write_status send
write_status-IsPart api original ops (raise e) a = tt
write_status-IsPart api original [] (ok current) a = tt
write_status-IsPart api original (op ∷ ops) (ok current) a =
    go (check_current api original current) refl
  where
    go :
        (r : Result (Unit {0}))
        → check_current api original current ≡ r
        → All
            (IsPart original)
            (or_raise r (λ _. send api (status_patch original current (op ∷ ops)))).0
    go (raise e) h = tt
    go (ok _) h = (
      status_patch-IsPart original current (op ∷ ops) (check_current-eq api original current h) a,
      tt,
    )

write_split-IsPart :
    (api : Api) (original : Resource) (main status : List Operation)
    → All (λ op. is_status op ≡ false) main
    → All (λ op. is_status op ≡ true) status
    → All (IsPart original) (write_split api original main status).0
unfolding write_split send
write_split-IsPart api original [] [] a b = tt
write_split-IsPart api original [] (op ∷ ops) a b =
    (status_patch-IsPart original original (op ∷ ops) refl b, tt)
write_split-IsPart api original (op ∷ ops) status a b = (
  main_patch-IsPart original (op ∷ ops) a,
  write_status-IsPart api original status (api.patch (main_patch original (op ∷ ops))) b,
)

write-IsPart :
    (api : Api) (original : Resource) (ops : List Operation)
    → All (IsPart original) (write api true original ops).0
unfolding write
write-IsPart api original [] = tt
write-IsPart api original (op ∷ ops) =
    let main = filter (λ c. not (is_status c)) (changes_of (op ∷ ops)) in
    write_split-IsPart api original main (filter is_status (changes_of (op ∷ ops)))
      (not_status main (filter-All (λ c. not (is_status c)) (changes_of (op ∷ ops))))
      (filter-All is_status (changes_of (op ∷ ops)))

-- Of a type with a status subresource, each patch that _persist sends, whatever the API answers, is
-- sent to an object with the original's UID, starts with the tests of that UID and of the version of
-- the object that it is sent to, and changes only the status if it goes to the status subresource
-- and nothing of the status otherwise.
pub persist-IsPart :
    (api : Api) (original desired : Resource)
    → All (IsPart original) (persist api true original desired).0
unfolding persist
persist-IsPart api original desired = go (diff original desired)
  where
    go :
        (r : Result (List Operation))
        → All (IsPart original) (or_raise r (write api true original)).0
    go (raise e) = tt
    go (ok ops) = write-IsPart api original ops

-- A patch of the live object
pub record IsMutation (resource : Resource) (status : Bool) (s : Sent) : Type 0 where
  pub same_uid : s.target.uid ≡ resource.uid
  pub is_guarded : s.operations ≡ guards s.target ++ changes_of s.operations
  pub subresource : s.to_status ≡ status
  pub allowed : status ≡ true → All (λ op. (is_test op || is_status op) ≡ true) s.operations

any_other-All :
    (ops : List Operation)
    → any_other ops ≡ false
    → All (λ op. (is_test op || is_status op) ≡ true) ops
unfolding any_other
any_other-All [] h = tt
any_other-All (op ∷ ops) h = (
  ground (arith, Bool-cases (is_test op), Bool-cases (is_status op)),
  any_other-All ops (ground arith),
)

diff-cons :
    (current desired : Resource) (op : Operation) (ops : List Operation)
    → diff current desired ≡ ok (op ∷ ops)
    → op ∷ ops ≡ guards current ++ changes_of (op ∷ ops)
diff-cons current desired op ops h =
    let (patch, e) = diff-guarded current desired (op ∷ ops) h in go patch e
  where
    go :
        (patch : List Operation)
        → op ∷ ops ≡ guarded current patch
        → op ∷ ops ≡ guards current ++ changes_of (op ∷ ops)
    go [] e = cc
    go (o ∷ patch) e =
        subst (λ l. l ≡ guards current ++ changes_of l) (sym e) (unfold guards in refl)

pair-eq :
    {A B : Type 0} {a c : A} {b d : B}
    → ◌≡◌ {A = Result (A × B)} (ok (a, b)) (ok (c, d))
    → (a ≡ c) × (b ≡ d)
pair-eq h = (ap (λ p. p.0) (ok_inj h), ap (λ p. p.1) (ok_inj h))

mutation-IsMutation :
    (live : Result Resource) (change : Resource → Result Resource) (status : Bool)
    (resource current : Resource) (op : Operation) (ops : List Operation)
    → mutation live change status resource ≡ ok (current, op ∷ ops)
    → IsMutation resource status
        (record { target = current; operations = op ∷ ops; to_status = status })
unfolding mutation
mutation-IsMutation live change status resource current op ops h =
    let fetched = raise_if (not (is_set resource.name) || not (is_set resource.uid)) value_error in
    let (found, _, h1) = bind_returned (fetched >> live) _ h in
    let same = raise_if (not (equal_options found.uid resource.uid)) conflict in
    let (desired, first, h2) = bind_returned (same >> change found) _ h1 in
    let (is_same, _) = then_returned same (change found) first in
    let (made, changed, h3) = bind_returned (diff found desired) _ h2 in
    let (is_allowed, final) =
      then_returned (raise_if (status && any_other made) value_error) (ok (found, made)) h3 in
    let (e, e') = pair-eq final in
    let uid = equal_options-eq found.uid resource.uid (
      ground
        (arith, raise_if_returned (not (equal_options found.uid resource.uid)) conflict is_same)) in
    let no_other =
      subst (λ l. (status && any_other l) ≡ false) e'
        (raise_if_returned (status && any_other made) value_error is_allowed) in
    record {
      same_uid = subst (λ r. r.uid ≡ resource.uid) e uid;
      is_guarded =
          diff-cons current desired op ops
            (subst (λ r. diff r desired ≡ ok (op ∷ ops)) e (changed ∙ ap ok e'));
      subresource = refl;
      allowed = λ t. any_other-All (op ∷ ops) (ground (arith, t, no_other));
    }

-- Each patch that mutate sends, whatever the API answers to its GET and PATCH and whatever the callback
-- does, is sent to an object with the UID of the resource, starts with the tests of the UID and of
-- the version of the live object, and goes to the status subresource exactly for a status mutation,
-- where all that is no test is a change of the status.
pub mutate-IsMutation :
    (api : Api) (live : Result Resource) (change : Resource → Result Resource) (status : Bool)
    (resource : Resource)
    → All (IsMutation resource status) (mutate api live change status resource).0
unfolding mutate patch_changes send
mutate-IsMutation api live change status resource = go (mutation live change status resource) refl
  where
    sent :
        (current : Resource) (ops : List Operation)
        → mutation live change status resource ≡ ok (current, ops)
        → All (IsMutation resource status) (patch_changes api status current ops).0
    sent current [] h = tt
    sent current (op ∷ ops) h =
        (mutation-IsMutation live change status resource current op ops h, tt)

    go :
        (r : Result (Resource × List Operation))
        → mutation live change status resource ≡ r
        → All
            (IsMutation resource status)
            (or_raise r (λ (current, operations). patch_changes api status current operations)).0
    go (raise e) h = tt
    go (ok (current, ops)) h = sent current ops h
