-- ===== src/Controller/Registry/Frozen.antt =====
-- What a validation that freezes a registry of cloudcoil/controller/_registry.py has found.
use cloudcoil.Base.{
  Bool, true, false, Option, none, String, String-discrete, List, [], map, ◌≡◌, ◌≢◌, ◌⊎◌, All,
}
use cloudcoil.Base.Sets.{Unique}
use cloudcoil.Base.Durations.{Duration}
use cloudcoil.Base.Results.{Exception, runtime_error, Result, ok, raise}
use cloudcoil.Controller.Registry.{Node}
use cloudcoil.Controller.Registry.Orders.{IsOrder}
use cloudcoil.Controller.Registry.Branches.{Branches}
use cloudcoil.Controller.Registry.Entry.{
  Stage, Registry, reconcile, add_stage, check_cases, set_handler, finalize, freeze,
}

-- One of three is true.
abbrev OneOf : Bool → Bool → Bool → Type 0
OneOf a b c =
    ((a ≡ true) × (b ≡ false) × (c ≡ false))
    ⊎ (((a ≡ false) × (b ≡ true) × (c ≡ false)) ⊎ ((a ≡ false) × (b ≡ false) × (c ≡ true)))

module _ {Object : Type 0} where
  -- Neither a case nor a fallback
  abbrev pub IsBare : Branches Object → Type 0
  IsBare b = (b.branches ≡ []) × (b.fallback ≡ none)

  -- A reconcile handler, or stages, or cases, and only one of them
  abbrev pub HasOneEntry : Registry Object → Type 0
  HasOneEntry r =
      ((r.handler ≢ none) × (r.stages ≡ []) × IsBare r.branches)
      ⊎ (((r.handler ≡ none) × (r.stages ≢ []) × IsBare r.branches)
          ⊎ ((r.handler ≡ none) × (r.stages ≡ []) × (IsBare r.branches → ⊥)))

  module _ (dec : Discrete Object) where
    -- Cases with a fallback and exactly one order
    abbrev pub AreValid : Branches Object → Type 0
    AreValid b =
        (b.fallback ≢ none) × ((order : List (Node Object)) × IsOrder dec [] b.branches order)

    abbrev pub IsHandled : Stage Object → Type 0
    IsHandled s = (s.handler ≢ none) ⊎ AreValid s.branches

    -- What a validation requires of a registry, and its order
    pub record IsValid (model : Result (Unit {0})) (r : Registry Object)
        (order : List (Node Object)) : Type 0 where
      pub one_entry : HasOneEntry r
      pub model_accepted : model ≡ ok tt
      pub conditions : Unique String-discrete (map (λ s. s.condition) r.stages)
      pub names : Unique String-discrete (map (λ s. s.node.name) r.stages)
      pub ordered_by : IsOrder dec [] (map (λ s. s.node) r.stages) order
      pub handled : All IsHandled r.stages
      pub cases : IsBare r.branches ⊎ AreValid r.branches

    abbrev pub Raises : {A : Type 0} → Result A → Type 0
    Raises m = (e : Exception) × (m ≡ raise e)

    -- Every registration raises, that of a stage's handler or case included, and every validation returns
    -- the order and leaves the registry as it is.
    pub record IsFrozen (next : Registry Object) : Type 0 where
      pub no_stage : (stage : Stage Object) → add_stage stage next ≡ raise runtime_error
      pub no_handler :
          (every : Option Duration) (function : Object) → Raises (reconcile every function next)
      pub no_finalizer :
          (qualified : Bool) (key : String) (function : Object)
          → Raises (finalize qualified key function next)
      pub no_stage_handler :
          (function : Object) (stage : Stage Object)
          → set_handler next.frozen function stage ≡ raise runtime_error
      pub no_stage_case :
          (stage : Stage Object) → check_cases next.frozen stage ≡ raise runtime_error
      pub same :
          (model : Result (Unit {0})) (freezes : Bool)
          → freeze dec model freezes next ≡ ok (next.order, next)
