-- ===== src/Controller/Registry.antt =====
-- cloudcoil/controller/_registry.py: the order of stages and cases, and their registration. Python
-- objects are compared by identity, so they are points of a type with decidable equality.
pub mod Orders
pub mod Branches
pub mod Entry
pub mod Frozen
mod Tests
use cloudcoil.Base.{ℕ, zero, suc, Bool, true, not, ◌&&◌, String, List, [], ◌∷◌, length, filter, map}
use cloudcoil.Base.Sets.{contains}
use cloudcoil.Base.Results.{value_error, assertion_error, Result, ok, raise, raise_if, ◌>>=◌, ◌>>◌}

-- What `_ordered` reads of a stage or a case: the object itself, its identity, and what it comes after
pub record Node (Object : Type 0) : Type 0 where
  pub self : Object
  pub identity : Object
  pub dependencies : List Object
  pub name : String

module _ {Object : Type 0} (dec : Discrete Object) where
  -- `all(id(d) in known for d in dependencies)`
  unfoldable pub all_in : List Object → List Object → Bool
  all_in known [] = true
  all_in known (d ∷ ds) = let rest = all_in known ds in contains dec d known && rest

  unfoldable pub is_ready : List Object → Node Object → Bool
  is_ready completed node = all_in completed node.dependencies

  -- `remaining.remove(node)`
  unfoldable pub remove : Node Object → List (Node Object) → List (Node Object)
  remove node [] = []
  remove node (n ∷ nodes) =
      let rest = n ∷ remove node nodes in
      elim (dec node.identity n.identity) [ yes _ ↦ nodes | no _ ↦ rest ]

  -- `completed.update((id(node.identity), id(node)))`
  unfoldable pub complete : Node Object → List Object → List Object
  complete node completed = node.self ∷ node.identity ∷ completed

  -- The loop of `_ordered`, which takes one node out of `remaining` each time
  unfoldable pub place : ℕ → List (Node Object) → List Object → Result (List (Node Object))
  place fuel [] completed = ok []
  place zero (n ∷ nodes) completed = raise assertion_error
  place (suc fuel) (n ∷ nodes) completed = elim (filter (is_ready completed) (n ∷ nodes)) [
    | [] ↦ raise value_error
    | node ∷ others ↦ elim others [
      | [] ↦ place fuel (remove node (n ∷ nodes)) (complete node completed) >>= λ rest.
          ok (node ∷ rest)
      | _ ∷ _ ↦ raise value_error
    ]
  ]

  unfoldable pub are_distinct : List Object → Bool
  are_distinct [] = true
  are_distinct (x ∷ xs) = let rest = are_distinct xs in not (contains dec x xs) && rest

  unfoldable pub identities : List (Node Object) → List Object
  identities [] = []
  identities (node ∷ nodes) = node.self ∷ node.identity ∷ identities nodes

  unfoldable pub are_known : List Object → List (Node Object) → Bool
  are_known known [] = true
  are_known known (node ∷ nodes) =
      let rest = are_known known nodes in all_in known node.dependencies && rest

  -- `_ordered`
  unfoldable pub ordered : List (Node Object) → Result (List (Node Object))
  ordered nodes =
      raise_if (not (are_distinct (map (λ node. node.identity) nodes))) value_error
      >> raise_if (not (are_known (identities nodes) nodes)) value_error
      >> place (length nodes) nodes []
