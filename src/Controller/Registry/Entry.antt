-- ===== src/Controller/Registry/Entry.antt =====
-- `StageScope` and `Registry` of cloudcoil/controller/_registry.py: what may be registered, and the
-- validation that freezes it.
use cloudcoil.Base.{
  ℕ, ◌+◌, Bool, true, not, ◌||◌, Option, none, some, String, String-discrete, List, [], ◌∷◌, ◌++◌,
  ◌==◌, if◌then◌else◌, is_empty, map,
}
use cloudcoil.Base.Durations.{Duration, ticks}
use cloudcoil.Base.Results.{value_error, runtime_error, Result, ok, raise, raise_if, ◌>>=◌, ◌>>◌}
use cloudcoil.Controller.Registry.{Node, ordered, are_distinct}
use cloudcoil.Controller.Registry.Branches.{Branches, is_some, populated, validate}

pub record Stage (Object : Type 0) : Type 0 where
  pub node : Node Object
  pub condition : String
  pub handler : Option Object
  pub branches : Branches Object

pub record Registry (Object : Type 0) : Type 0 where
  pub handler : Option Object
  pub stages : List (Stage Object)
  pub branches : Branches Object
  pub finalizer : Option (String × Object)
  pub every : Option ℕ
  pub frozen : Bool
  pub order : List (Node Object)

abbrev pub count_of : Bool → ℕ
count_of b = if b then 1 else 0

module _ {Object : Type 0} where
  -- `reconcile`
  unfoldable pub reconcile : Option Duration → Object → Registry Object → Result (Registry Object)
  reconcile every function r = elim every [
    | none ↦
        raise_if r.frozen runtime_error
        >> raise_if (is_some r.handler) value_error
        >> ok (record r { handler = some function; every = none })
    | some duration ↦ elim duration [
      | ticks period ↦
          raise_if (period == 0) value_error
          >> raise_if r.frozen runtime_error
          >> raise_if (is_some r.handler) value_error
          >> ok (record r { handler = some function; every = some period })
      | _ ↦ raise value_error
    ]
  ]

  -- `stage`, for a condition that `StageScope` accepts
  unfoldable pub add_stage : Stage Object → Registry Object → Result (Registry Object)
  add_stage stage r =
      raise_if r.frozen runtime_error >> ok (record r { stages = r.stages ++ stage ∷ [] })

  -- `StageScope._check_cases`
  unfoldable pub check_cases : Bool → Stage Object → Result (Unit {0})
  check_cases frozen s = raise_if frozen runtime_error >> raise_if (is_some s.handler) value_error

  -- `StageScope.__call__`
  unfoldable pub set_handler : Bool → Object → Stage Object → Result (Stage Object)
  set_handler frozen function s =
      raise_if frozen runtime_error
      >> raise_if (is_some s.handler || populated s.branches) value_error
      >> ok (record s { handler = some function; node = record s.node { identity = function } })

  -- `finalize`, with whether the key is qualified
  unfoldable pub finalize : Bool → String → Object → Registry Object → Result (Registry Object)
  finalize qualified key function r =
      raise_if (not qualified) value_error
      >> raise_if r.frozen runtime_error
      >> raise_if (is_some r.finalizer) value_error
      >> ok (record r { finalizer = some (key, function) })

  unfoldable pub all_valid :
      (Branches Object → Result (Unit {0})) → List (Stage Object) → Result (Unit {0})
  all_valid check [] = ok tt
  all_valid check (stage ∷ stages) =
      elim stage.handler [ some _ ↦ ok tt | none ↦ check stage.branches ] >> all_valid check stages

  -- `modes`
  unfoldable pub modes : Registry Object → ℕ
  modes r =
      count_of (is_some r.handler)
      + count_of (not (is_empty r.stages))
      + count_of (populated r.branches)

  module _ (dec : Discrete Object) where
    -- `Branches.validate`, without the order
    unfoldable pub check_branches : Branches Object → Result (Unit {0})
    check_branches b = validate dec b >>= λ _. ok tt

    -- `Registry.validate` on a registry that is not frozen, until it freezes it; `model` is what the
    -- checks of the status model raise, if it reports status. Each stage raises ValueError only, so
    -- which one is asked first makes no difference.
    unfoldable pub validated : Result (Unit {0}) → Registry Object → Result (List (Node Object))
    validated model r =
        raise_if (not (modes r == 1)) value_error
        >> model
        >> raise_if (not (are_distinct String-discrete (map (λ s. s.condition) r.stages)))
            value_error
        >> raise_if (not (are_distinct String-discrete (map (λ s. s.node.name) r.stages)))
            value_error
        >> ordered dec (map (λ s. s.node) r.stages)
        >>= λ order.
            all_valid check_branches r.stages
            >> (if populated r.branches then check_branches r.branches else ok tt)
            >> ok order

    -- `Registry.validate`
    unfoldable pub freeze :
        Result (Unit {0}) → Bool → Registry Object → Result (List (Node Object) × Registry Object)
    freeze model freezes r =
        if r.frozen
        then ok (r.order, r)
        else (validated model r >>= λ order.
            ok (order, if freezes then record r { order = order; frozen = true } else r))
