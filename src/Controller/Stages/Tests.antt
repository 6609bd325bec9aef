-- ===== src/Controller/Stages/Tests.antt =====
-- Stages of cloudcoil/controller/_stages.py on small inputs, and the theorem at them.
use cloudcoil.Base.{true, false, none, some, [], ◌∷◌, ◌≡◌, refl, All, filter}
use cloudcoil.Base.Json.{Text, codes, text_discrete, equal_texts}
use cloudcoil.Base.Sets.{contains, Unique}
use cloudcoil.Base.Results.{value_error, ok, raise}
use cloudcoil.Controller.Events.{is_identifier}
use cloudcoil.Controller.Status.{
  Resource, status_of, update_conditions, update_generation, update_nothing, conditions_of, find,
  get_condition, index_of, insert_at, replaced, transition_time, updated_condition, set_condition,
  status_true, status_false, status_unknown,
}
use cloudcoil.Controller.Requests.{
  Request, Wait, stage, each, set_generation, noted, after_set, condition, ready, report_failure,
  failed,
}
use cloudcoil.Controller.Requests.Framed.{condition_at, status_at}
use cloudcoil.Controller.Stages.{
  Outcome, proceeds, waits, fails, Stage, make_stage, start, up_to_date, waiting, report_wait,
  after_run, run_stage, run_all, done, Stages, names, make_stages, call,
}
use cloudcoil.Controller.Stages.Frames.{Kept-refl}
use cloudcoil.Controller.Stages.Conduct.{IsModest}
use cloudcoil.Controller.Stages.Waits.{IsWaiting}
use cloudcoil.Controller.Stages.Failure.{failed-IsWaiting}
use cloudcoil.Controller.Stages.Reported.{Reported, call-Reported}

program : Unit {0}
unfolding text_discrete equal_texts contains is_identifier status_of update_conditions
    update_generation update_nothing conditions_of find get_condition index_of insert_at replaced
    transition_time updated_condition set_condition filter stage each set_generation noted after_set
    condition report_failure failed make_stage start up_to_date waiting report_wait after_run
    run_stage run_all done make_stages call condition_at
program = tt

abbrev pause : Wait
pause = record { reason = codes "Provisioning"; message = []; requeue_after = 30 }

abbrev step : Text → Outcome → Stage
step name outcome = record { name = name; run = λ r. (r, outcome) }

step-IsModest : (name : Text) (outcome : Outcome) → IsModest (step name outcome)
step-IsModest name outcome r = Kept-refl (λ _. Unit) r

abbrev steps : Outcome → Stages
steps second = record {
  stages =
      step (codes "Network") proceeds
      ∷ step (codes "Disk") second
      ∷ step (codes "Node") proceeds
      ∷ [];
  report_status = true;
}

abbrev object : Resource
object = record { generation = some 3; deleting = false; status = none }

abbrev request : Request
request = record {
  resource = some object;
  report = record {
    status = none;
    dirty = false;
    managed = false;
    stage_conditions = true;
    pending = [];
    events = [];
  };
}

waiting_reported :
    (status_at (call 9 (steps (waits pause)) request).0 (codes "Network") ≡ some status_true)
    × (status_at (call 9 (steps (waits pause)) request).0 (codes "Disk") ≡ some status_false)
    × (status_at (call 9 (steps (waits pause)) request).0 (codes "Node") ≡ some status_unknown)
    × (status_at (call 9 (steps (waits pause)) request).0 ready ≡ some status_false)
unfolding program
waiting_reported = (refl, refl, refl, refl)

all_ready : status_at (call 9 (steps proceeds) request).0 ready ≡ some status_true
unfolding program
all_ready = refl

-- After a failure the pending stages are reported by `_failed`.
failure_reported :
    status_at
      (failed 9 value_error [] (call 9 (steps (fails value_error)) request).0).0
      (codes "Node")
    ≡ some status_unknown
unfolding program
failure_reported = refl

abbrev half_done : Request
half_done = record request {
  report = record request.report { managed = true; pending = codes "Disk" ∷ codes "Node" ∷ [] };
}

distinct : Unique text_discrete (codes "Disk" ∷ codes "Node" ∷ [])
unfolding program
distinct = (refl, (refl, tt))

not_reserved : contains text_discrete ready (codes "Disk" ∷ codes "Node" ∷ []) ≡ false
unfolding program
not_reserved = refl

failed-IsWaiting_example :
    (r' : Request) × (failed 9 value_error [] half_done ≡ (r', ok tt))
    × IsWaiting (codes "Disk") (codes "Node" ∷ []) r'
failed-IsWaiting_example =
    failed-IsWaiting 9 value_error [] (codes "Disk") (codes "Node" ∷ []) half_done refl refl refl
      refl (refl, (refl, tt)) distinct not_reserved

ready_reserved : make_stage ready (λ r. (r, proceeds)) ≡ raise value_error
unfolding program
ready_reserved = refl

steps_accepted : make_stages (steps (waits pause)).stages true ≡ ok (steps (waits pause))
unfolding program
steps_accepted = refl

steps_made : All (λ s. make_stage s.name s.run ≡ ok s) (steps (waits pause)).stages
unfolding program
steps_made = (refl, (refl, (refl, tt)))

call-Reported_example :
    Reported
      (names (steps (waits pause)).stages)
      (call 9 (steps (waits pause)) request).0
      (call 9 (steps (waits pause)) request).1
call-Reported_example =
    call-Reported 9 (steps (waits pause)) request object steps_accepted steps_made
      (
        step-IsModest (codes "Network") proceeds,
        (step-IsModest (codes "Disk") (waits pause), (step-IsModest (codes "Node") proceeds, tt)),
      )
      refl refl
