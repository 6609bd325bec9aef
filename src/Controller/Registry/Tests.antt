-- ===== src/Controller/Registry/Tests.antt =====
-- Registries of cloudcoil/controller/_registry.py on small inputs, and the theorems at them.
use cloudcoil.Base.{
  true, false, some, none, String, String-discrete, List, [], ◌∷◌, map, filter, ◌≡◌, ◌≢◌, refl,
  arith,
}
use cloudcoil.Base.Sets.{contains}
use cloudcoil.Base.Results.{Result, ok, raise, value_error, assertion_error}
use cloudcoil.Controller.Registry.{
  Node, all_in, is_ready, remove, complete, place, are_distinct, identities, are_known, ordered,
}
use cloudcoil.Controller.Registry.Orders.{IsOrder, ordered-IsOrder}
use cloudcoil.Controller.Registry.Branches.{
  Branches, Matches, bool, case, otherwise, populated, validate, cases_of, first, select, IsFirst,
  select-IsFirst,
}
use cloudcoil.Controller.Registry.Entry.{
  Stage, Registry, reconcile, add_stage, set_handler, finalize, all_valid, modes, check_branches,
  validated, freeze,
}

program : Unit {0}
unfolding all_in is_ready remove complete place are_distinct identities are_known ordered case
    otherwise populated validate cases_of first select reconcile add_stage set_handler finalize
    all_valid modes check_branches validated freeze contains filter String-discrete
program = tt

abbrev node : String → List String → Node String
node name dependencies = record {
  self = name;
  identity = name;
  dependencies = dependencies;
  name = name;
}

-- "deploy" comes after "build", and "announce" after both.
abbrev nodes : List (Node String)
nodes =
    node "announce" ("build" ∷ "deploy" ∷ []) ∷ node "build" [] ∷ node "deploy" ("build" ∷ []) ∷ []

abbrev in_order : List (Node String)
in_order =
    node "build" [] ∷ node "deploy" ("build" ∷ []) ∷ node "announce" ("build" ∷ "deploy" ∷ []) ∷ []

sorted : ordered String-discrete nodes ≡ ok in_order
unfolding program
sorted = refl

-- Two that could come first
ambiguous : ordered String-discrete (node "a" [] ∷ node "b" [] ∷ []) ≡ raise value_error
unfolding program
ambiguous = refl

cyclic :
    ordered String-discrete (node "a" ("b" ∷ []) ∷ node "b" ("a" ∷ []) ∷ []) ≡ raise value_error
unfolding program
cyclic = refl

ordered-IsOrder_example :
    ((order : List (Node String))
      → ordered String-discrete nodes ≡ ok order
      → IsOrder String-discrete [] nodes order)
    × (ordered String-discrete nodes ≢ raise assertion_error)
ordered-IsOrder_example = ordered-IsOrder String-discrete nodes

abbrev cases : Branches String
cases = record { branches = nodes; fallback = some "other"; order = none }

-- Only "deploy" applies.
abbrev applies : String → Result Matches
applies name = elim (String-discrete name "deploy") [
  | yes _ ↦ ok (bool true)
  | no _ ↦ ok (bool false)
]

select-IsFirst_example :
    (order : List (Node String)) × IsOrder String-discrete [] nodes order
    × IsFirst String-discrete applies order (some "other") "deploy"
    × (record cases { order = some in_order } ≡ record cases { order = some order })
unfolding program
select-IsFirst_example =
    select-IsFirst String-discrete applies cases "deploy" (record cases { order = some in_order })
      (λ order q. absurd (ground (arith, q))) refl

abbrev stage_of : Node String → Stage String
stage_of n = record {
  node = n;
  condition = n.name;
  handler = some n.name;
  branches = record { branches = []; fallback = none; order = none };
}

abbrev registry : Registry String
registry = record {
  handler = none;
  stages = map stage_of nodes;
  branches = record { branches = []; fallback = none; order = none };
  finalizer = none;
  every = none;
  frozen = false;
  order = [];
}

abbrev frozen_registry : Registry String
frozen_registry = record registry { order = in_order; frozen = true }

-- Cases beside the stages
two_entries :
    freeze String-discrete (ok tt) true (record registry { branches = cases }) ≡ raise value_error
unfolding program
two_entries = refl
