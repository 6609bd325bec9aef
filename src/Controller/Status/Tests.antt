-- ===== src/Controller/Status/Tests.antt =====
-- Conditions of cloudcoil/controller/_status.py on small inputs, and the theorem at them.
use cloudcoil.Base.{ℕ, false, none, some, [], ◌∷◌, ◌≡◌, refl, filter}
use cloudcoil.Base.Json.{Text, codes, text_discrete, equal_texts}
use cloudcoil.Base.Results.{value_error, ok, raise}
use cloudcoil.Controller.Status.{
  Condition, Resource, status_of, update_conditions, conditions_of, find, get_condition, index_of,
  insert_at, replaced, transition_time, updated_condition, set_condition, status_false,
}
use cloudcoil.Controller.Status.Conditions.{IsSetBy, set_condition-IsSetBy}

program : Unit {0}
unfolding text_discrete equal_texts status_of update_conditions conditions_of find get_condition
    index_of insert_at replaced transition_time updated_condition set_condition filter
program = tt

abbrev entry : Text → ℕ → Condition
entry type time = record {
  type = type;
  status = status_false;
  reason = codes "Pending";
  message = [];
  observed_generation = some 1;
  last_transition_time = time;
}

-- "Ready" stands twice.
abbrev object : Resource
object = record {
  generation = some 4;
  deleting = false;
  status = some (record {
    conditions =
        entry (codes "A") 10
        ∷ entry (codes "Ready") 11
        ∷ entry (codes "B") 12
        ∷ entry (codes "Ready") 13
        ∷ [];
    observed_generation = none;
  });
}

abbrev again : Condition
again = record (entry (codes "Ready") 11) { reason = codes "Waiting"; observed_generation = some 4 }

abbrev merged : Resource
merged = record object {
  status = some (record {
    conditions = entry (codes "A") 10 ∷ again ∷ entry (codes "B") 12 ∷ [];
    observed_generation = none;
  });
}

-- The duplicate goes, the place and the time stay.
set_again : set_condition 50 (codes "Ready") status_false (codes "Waiting") [] object ≡ ok merged
unfolding program
set_again = refl

no_reason : set_condition 50 (codes "Ready") status_false [] [] object ≡ raise value_error
unfolding program
no_reason = refl

set_condition-IsSetBy_example :
    IsSetBy 50 (codes "Ready") status_false (codes "Waiting") [] object merged
set_condition-IsSetBy_example =
    set_condition-IsSetBy 50 (codes "Ready") status_false (codes "Waiting") [] object merged
      set_again
