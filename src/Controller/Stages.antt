-- ===== src/Controller/Stages.antt =====
-- cloudcoil/controller/_stages.py: Stage, and Stages with the helpers that it shares with Cases. The
-- handler of a stage edits the request and ends with an outcome.
pub mod Frames
pub mod Waits
pub mod Advance
pub mod Conduct
pub mod Reported
pub mod Failure
mod Tests
use cloudcoil.Base.{
  ℕ, Bool, true, false, not, ◌&&◌, ◌||◌, Option, none, some, List, [], ◌∷◌, ◌++◌, is_empty, length,
  ltb, if◌then◌else◌,
}
use cloudcoil.Base.Json.{Text, codes, text_discrete, equal_texts}
use cloudcoil.Base.Sets.{contains}
use cloudcoil.Base.Results.{Exception, value_error, type_error, Result, ok, raise, raise_if, ◌>>◌}
use cloudcoil.Controller.Events.{is_identifier}
use cloudcoil.Controller.Status.{Resource, status_true, status_false}
use cloudcoil.Controller.Requests.{
  Request, Wait, M, and_then, each, set_generation, Observation, condition, dependency_not_ready,
  ready, tail, when,
}

-- How the call of a handler ends: it may fail to be asynchronous, by raising Wait at once or by
-- returning a value that is not awaitable, and its result may be of another type.
pub data Outcome : Type 0 where
  proceeds other_value sync_wait not_awaitable : Outcome
  waits : Wait → Outcome
  fails : Exception → Outcome

pub record Stage : Type 0 where
  pub name : Text
  pub run : Request → Request × Outcome

-- `Stage.__post_init__`
unfoldable pub make_stage : Text → (Request → Request × Outcome) → Result Stage
make_stage name run =
    raise_if (not (is_identifier name) || ltb 128 (length name)) value_error
    >> raise_if (equal_texts name ready) value_error
    >> ok (record { name = name; run = run })

unfoldable pub start : List Text → (report_status stage_conditions : Bool) → M Bool
unfolding set_generation
start names report_status stage_conditions r = elim r.resource [
  | none ↦ (r, ok false)
  | some o ↦
      if o.deleting
      then (r, ok false)
      else and_then
          (when report_status (set_generation o.generation) (record r {
            report = record r.report {
              managed = report_status;
              stage_conditions = stage_conditions;
              pending = names;
            };
          }))
          (λ _ r'. (r', ok true))
]

-- What `_run` reports of a stage that continues, and of one that waits
unfoldable pub up_to_date : Bool → Text → Observation
up_to_date stage_conditions name = record {
  type = if stage_conditions then name else ready;
  status = status_true;
  reason = if stage_conditions then codes "Reconciled" else name;
  message = name ++ codes " is up to date";
  event = true;
  warning = false;
  action = name;
}

unfoldable pub waiting : Bool → Text → Wait → Observation
waiting stage_conditions name wait = record {
  type = if stage_conditions then name else ready;
  status = status_false;
  reason = wait.reason;
  message = wait.message;
  event = true;
  warning = false;
  action = name;
}

abbrev pub not_ready : Wait → Observation
not_ready wait = record {
  type = ready;
  status = status_false;
  reason = wait.reason;
  message = wait.message;
  event = false;
  warning = false;
  action = ready;
}

unfoldable pub report_wait : ℕ → Text → Wait → M (Unit {0})
unfolding condition each waiting
report_wait now name wait r =
    let stages = r.report.stage_conditions in
    and_then (condition now (waiting stages name wait) r) (λ _. when stages (λ r1.
      and_then (each (λ p. condition now (dependency_not_ready p)) (tail r1.report.pending) r1)
        (λ _. condition now (not_ready wait))))

abbrev pub drop_pending : Request → Request
drop_pending r = record r { report = record r.report { pending = tail r.report.pending } }

unfoldable pub after_run : ℕ → Text → Outcome → M (Option Wait)
unfolding condition up_to_date report_wait
after_run now name proceeds r =
    and_then (when r.report.managed (condition now (up_to_date r.report.stage_conditions name)) r)
      (λ _ r'. (drop_pending r', ok none))
after_run now name (waits wait) r =
    and_then (when r.report.managed (report_wait now name wait) r) (λ _ r'. (r', ok (some wait)))
after_run now name (fails e) r = (r, raise e)
after_run now name other r = (r, raise type_error)

-- `_run`
unfoldable pub run_stage : ℕ → Stage → M (Option Wait)
unfolding after_run
run_stage now stage r = let (r', outcome) = stage.run r in after_run now stage.name outcome r'

-- The loop of `Stages.__call__`: the first wait, if any
unfoldable pub run_all : ℕ → List Stage → M (Option Wait)
unfolding run_stage
run_all now [] r = (r, ok none)
run_all now (stage ∷ stages) r =
    and_then (run_stage now stage r)
      (λ wait r'. elim wait [ none ↦ run_all now stages r' | some w ↦ (r', ok (some w)) ])

-- `Result(resource=..., requeue_after=...)`
pub record Reconciled : Type 0 where
  pub resource : Resource
  pub requeue_after : Option ℕ

abbrev pub all_current : Observation
all_current = record {
  type = ready;
  status = status_true;
  reason = codes "Reconciled";
  message = codes "All required work is current";
  event = true;
  warning = false;
  action = ready;
}

abbrev pub result_of : Option ℕ → M (Option Reconciled)
result_of requeue_after r = elim r.resource [
  | none ↦ (r, raise value_error)
  | some o ↦ (r, ok (some (record { resource = o; requeue_after = requeue_after })))
]

-- `_done`
unfoldable pub done : ℕ → Option Wait → M (Option Reconciled)
unfolding condition
done now none r =
    and_then (when (r.report.managed && r.report.stage_conditions) (condition now all_current) r)
      (λ _. result_of none)
done now (some wait) r = result_of (some wait.requeue_after) r

pub record Stages : Type 0 where
  pub stages : List Stage
  pub report_status : Bool

abbrev pub names : List Stage → List Text
names [] = []
names (s ∷ l) = s.name ∷ names l

abbrev pub repeats : List Text → Bool
repeats [] = false
repeats (t ∷ l) = contains text_discrete t l || repeats l

-- `Stages.__init__`
unfoldable pub make_stages : List Stage → Bool → Result Stages
make_stages stages report_status =
    raise_if (is_empty stages) value_error
    >> raise_if (repeats (names stages)) value_error
    >> ok (record { stages = stages; report_status = report_status })

-- `Stages.__call__`
unfoldable pub call : ℕ → Stages → M (Option Reconciled)
unfolding start run_all done
call now s r = and_then (start (names s.stages) s.report_status true r) (λ started r1.
    elim started [ false ↦ (r1, ok none) | true ↦ and_then (run_all now s.stages r1) (done now) ])
