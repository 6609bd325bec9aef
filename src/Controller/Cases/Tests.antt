-- ===== src/Controller/Cases/Tests.antt =====
-- Cases of cloudcoil/controller/_stages.py on small inputs, and the theorem at them.
use cloudcoil.Base.{true, false, none, some, [], ◌∷◌, ◌≡◌, inl, refl, filter}
use cloudcoil.Base.Json.{Text, codes, text_discrete, equal_texts}
use cloudcoil.Base.Sets.{contains}
use cloudcoil.Base.Results.{
  runtime_error, type_error, terminal_error, value_error, Result, ok, raise, ◌>>=◌,
}
use cloudcoil.Controller.Events.{is_identifier}
use cloudcoil.Controller.Status.{
  Resource, status_of, update_conditions, update_generation, update_nothing, conditions_of, find,
  get_condition, index_of, insert_at, replaced, transition_time, updated_condition, set_condition,
  status_false,
}
use cloudcoil.Controller.Requests.{
  Request, Wait, stage, each, set_generation, noted, after_set, condition, ready,
}
use cloudcoil.Controller.Requests.Framed.{condition_at, status_at}
use cloudcoil.Controller.Stages.{
  Outcome, waits, make_stage, start, up_to_date, waiting, report_wait, after_run, run_stage, done,
  Reconciled,
}
use cloudcoil.Controller.Cases.{
  ℤ, pos, negsuc, int_ltb, same_int, Answer, answers, not_bool, Case, Cases, init, any_named,
  check_name, any_priority, case, add_otherwise, place, sort, any_given, any_missing, arrange,
  freeze, asked, choose, run_selected, conduct, call,
}
use cloudcoil.Controller.Cases.Served.{IsServed, call-IsServed}

program : Unit {0}
unfolding text_discrete equal_texts contains is_identifier status_of update_conditions
    update_generation update_nothing conditions_of find get_condition index_of insert_at replaced
    transition_time updated_condition set_condition filter stage each set_generation noted after_set
    condition make_stage start up_to_date waiting report_wait after_run run_stage done condition_at
    int_ltb same_int any_named check_name any_priority case add_otherwise place sort any_given
    any_missing arrange freeze asked choose run_selected conduct call
program = tt

abbrev pause : Wait
pause = record { reason = codes "Waiting"; message = []; requeue_after = 30 }

abbrev run : Request → Request × Outcome
run r = (r, waits pause)

abbrev register : Answer → Result Cases
register low =
    case (codes "Low") (λ r. low) (some (negsuc 0)) run (init true)
    >>= case (codes "High") (λ r. answers false) (some (pos 7)) run
    >>= case (codes "Middle") (λ r. answers true) (some (pos 2)) run
    >>= add_otherwise (codes "Fallback") run

abbrev of : Text → Answer → ℤ → Case
of name answer priority = record {
  stage = record { name = name; run = run };
  when = λ r. answer;
  priority = some priority;
}

abbrev registered : Cases
registered = record {
  report_status = true;
  cases =
      of (codes "Low") (answers true) (negsuc 0)
      ∷ of (codes "High") (answers false) (pos 7)
      ∷ of (codes "Middle") (answers true) (pos 2)
      ∷ [];
  otherwise = some (record { name = codes "Fallback"; run = run });
  frozen = false;
}

abbrev sorted : Cases
sorted = record registered {
  cases =
      of (codes "High") (answers false) (pos 7)
      ∷ of (codes "Middle") (answers true) (pos 2)
      ∷ of (codes "Low") (answers true) (negsuc 0)
      ∷ [];
  frozen = true;
}

was_registered : register (answers true) ≡ ok registered
unfolding program
was_registered = refl

same_priority_refused :
    case (codes "Other") (λ r. answers true) (some (pos 2)) run registered ≡ raise value_error
unfolding program
same_priority_refused = refl

no_priority_refused :
    (case (codes "Other") (λ r. answers true) none run registered >>= freeze (λ b. ok tt))
    ≡ raise value_error
unfolding program
no_priority_refused = refl

too_late : case (codes "Other") (λ r. answers true) (some (pos 3)) run sorted ≡ raise runtime_error
unfolding program
too_late = refl

abbrev request : Request
request = record {
  resource = some (record { generation = some 3; deleting = false; status = none });
  report = record {
    status = none;
    dirty = false;
    managed = false;
    stage_conditions = true;
    pending = [];
    events = [];
  };
}

abbrev served : Request
served = (call 9 (λ b. ok tt) registered request).1

status_reported :
    (status_at served ready ≡ some status_false)
    × (status_at served (codes "Middle") ≡ none)
    × (served.report.pending ≡ codes "Middle" ∷ [])
unfolding program
status_reported = (refl, refl, refl)

not_bool_refused :
    (call 9
      (λ b. ok tt)
      (record sorted { cases = of (codes "Odd") not_bool (pos 1) ∷ [] })
      request).2
    ≡ raise type_error
unfolding program
not_bool_refused = refl

none_matched :
    (call 9
      (λ b. ok tt)
      (record sorted { cases = of (codes "Odd") (answers false) (pos 1) ∷ []; otherwise = none })
      request).2
    ≡ raise terminal_error
unfolding program
none_matched = refl

abbrev object : Request → Resource
object r = elim r.resource [
  | none ↦ record { generation = none; deleting = false; status = none }
  | some o ↦ o
]

abbrev result : Reconciled
result = record { resource = object served; requeue_after = some 30 }

returned : call 9 (λ b. ok tt) registered request ≡ (sorted, served, ok (some result))
unfolding program
returned = refl

call-IsServed_example :
    (freeze (λ b. ok tt) registered ≡ ok sorted)
    × IsServed 9 registered sorted request served result
call-IsServed_example =
    call-IsServed 9 (λ b. ok tt) registered registered sorted request served result refl (inl refl)
      returned
