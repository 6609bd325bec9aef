-- ===== src/Controller/Status.antt =====
-- cloudcoil/controller/_status.py: the conditions of a resource, and the two fields of
-- ReconcileStatus. Other fields and the validation of a status model are pydantic's.
pub mod Conditions
mod Tests
use mathlib.Core.Option
use cloudcoil.Base.{
  ℕ, zero, suc, Bool, not, ◌||◌, Option, none, some, List, [], ◌∷◌, is_empty, filter, if◌then◌else◌,
}
use cloudcoil.Base.Json.{Text, codes, equal_texts}
use cloudcoil.Base.Results.{value_error, Result, ok, raise_if, ◌>>◌}

pub record Condition : Type 0 where
  pub type : Text
  pub status : Text
  pub reason : Text
  pub message : Text
  pub observed_generation : Option ℕ
  pub last_transition_time : ℕ

pub record Status : Type 0 where
  pub conditions : List Condition
  pub observed_generation : Option ℕ

-- What the code reads and edits of a resource
pub record Resource : Type 0 where
  pub generation : Option ℕ
  -- `metadata and metadata.deletion_timestamp`
  pub deleting : Bool
  pub status : Option Status

abbrev pub status_true : Text
status_true = codes "True"

abbrev pub status_false : Text
status_false = codes "False"

abbrev pub status_unknown : Text
status_unknown = codes "Unknown"

-- `values`, with an absent status made by its schema
unfoldable pub status_of : Resource → Status
status_of r = elim r.status [
  | none ↦ record { conditions = []; observed_generation = none }
  | some s ↦ s
]

-- `update_status(resource, conditions=...)`, `update_status(resource, observed_generation=...)` and
-- `update_status(resource)`
unfoldable pub update_conditions : List Condition → Resource → Resource
unfolding status_of
update_conditions conditions r = record r {
  status = some (record (status_of r) { conditions = conditions });
}

unfoldable pub update_generation : Option ℕ → Resource → Resource
unfolding status_of
update_generation generation r = record r {
  status = some (record (status_of r) { observed_generation = generation });
}

unfoldable pub update_nothing : Resource → Resource
unfolding status_of
update_nothing r = record r { status = some (status_of r) }

unfoldable pub conditions_of : Resource → List Condition
conditions_of r = elim r.status [ none ↦ [] | some s ↦ s.conditions ]

abbrev pub is_of : Text → Condition → Bool
is_of type c = equal_texts c.type type

unfoldable pub find : Text → List Condition → Option Condition
find type [] = none
find type (c ∷ l) = let rest = find type l in if is_of type c then some c else rest

unfoldable pub get_condition : Resource → Text → Option Condition
unfolding conditions_of find
get_condition r type = find type (conditions_of r)

-- `next((i for i, item in enumerate(conditions) if item.type == condition), len(conditions))`
unfoldable pub index_of : Text → List Condition → ℕ
index_of type [] = 0
index_of type (c ∷ l) = let rest = index_of type l in if is_of type c then 0 else suc rest

-- `conditions.insert(index, updated)`
unfoldable pub insert_at : ℕ → Condition → List Condition → List Condition
insert_at zero c l = c ∷ l
insert_at (suc i) c [] = c ∷ []
insert_at (suc i) c (d ∷ l) = d ∷ insert_at i c l

unfoldable pub replaced : Condition → List Condition → List Condition
unfolding index_of insert_at filter
replaced updated l =
    insert_at (index_of updated.type l) updated (filter (λ c. not (is_of updated.type c)) l)

unfoldable pub transition_time : ℕ → Text → Option Condition → ℕ
transition_time now status none = now
transition_time now status (some previous) =
    if equal_texts previous.status status then previous.last_transition_time else now

unfoldable pub updated_condition : ℕ → Text → Text → Text → Text → Resource → Condition
unfolding get_condition transition_time
updated_condition now type status reason message r = record {
  type = type;
  status = status;
  reason = reason;
  message = message;
  observed_generation = r.generation;
  last_transition_time = transition_time now status (get_condition r type);
}

abbrev pub is_status : Text → Bool
is_status s =
    equal_texts s status_true || (equal_texts s status_false || equal_texts s status_unknown)

unfoldable pub set_condition :
    (now : ℕ) (type status reason message : Text) → Resource → Result Resource
unfolding updated_condition replaced update_conditions
set_condition now type status reason message r =
    raise_if (is_empty type || is_empty reason) value_error
    >> raise_if (not (is_status status)) value_error
    >> ok (
        update_conditions
          (replaced (updated_condition now type status reason message r) (conditions_of r)) r)
