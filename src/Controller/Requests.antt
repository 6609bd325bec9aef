-- ===== src/Controller/Requests.antt =====
-- cloudcoil/controller/_types.py: a request with its report, and the outcomes of a handler. One pass
-- reads the clock once here. Readers, clients, `_report.baseline` and `_report.current` are left out.
pub mod Framed
pub mod Conditions
use cloudcoil.Base.{
  ℕ, Bool, true, false, not, ◌&&◌, Option, none, some, List, [], ◌∷◌, ◌++◌, is_empty, ◌==◌,
  if◌then◌else◌,
}
use cloudcoil.Base.Json.{Text, codes, equal_texts}
use cloudcoil.Base.Durations.{Duration, ticks}
use cloudcoil.Base.Results.{
  Exception, value_error, terminal_error, assertion_error, Result, ok, raise, raise_if, ◌>>◌,
}
use cloudcoil.Controller.Status as Status
use cloudcoil.Controller.Status.{
  Condition, Resource, update_generation, update_nothing, get_condition, set_condition,
  status_false, status_unknown,
}

pub record Event : Type 0 where
  pub reason : Text
  pub message : Text
  pub warning : Bool
  pub action : Text

pub record Report : Type 0 where
  pub status : Option Status.Status
  pub dirty : Bool
  pub managed : Bool
  pub stage_conditions : Bool
  pub pending : List Text
  pub events : List Event

pub record Request : Type 0 where
  pub resource : Option Resource
  pub report : Report

-- `self._report.status = self.object.status.model_copy(); self._report.dirty = True`
unfoldable pub stage : Resource → Request → Request
stage o r = record {
  resource = some o;
  report = record r.report { status = o.status; dirty = true };
}

pub record Wait : Type 0 where
  pub reason : Text
  pub message : Text
  pub requeue_after : ℕ

unfoldable pub timed_wait : Text → Text → Duration → Result Wait
timed_wait reason message (ticks delay) =
    raise_if (is_empty reason) value_error
    >> raise_if (delay == 0) value_error
    >> ok (record { reason = reason; message = message; requeue_after = delay })
timed_wait reason message other = raise value_error

-- `Wait.__init__`, where `default` is 30 seconds
unfoldable pub make_wait :
    (default : ℕ) (reason message : Text) (after requeue_after : Option Duration) → Result Wait
unfolding timed_wait
make_wait default reason message (some a) (some b) = raise value_error
make_wait default reason message (some delay) none = timed_wait reason message delay
make_wait default reason message none (some delay) = timed_wait reason message delay
make_wait default reason message none none = timed_wait reason message (ticks default)

-- A method of a request edits it, and returns or raises.
abbrev pub M : Type 0 → Type 0
M A = Request → Request × Result A

abbrev pub and_then : {A B : Type 0} → Request × Result A → (A → M B) → Request × Result B
and_then (r, raise e) next = (r, raise e)
and_then (r, ok a) next = next a r

-- `for x in xs: body(x)`
unfoldable pub each : {A : Type 0} → (A → M (Unit {0})) → List A → M (Unit {0})
each body [] r = (r, ok tt)
each body (x ∷ xs) r = and_then (body x r) (λ _. each body xs)

-- `request.object`, and an edit of its status that the report keeps
abbrev pub edit_object : (Resource → Resource) → M (Unit {0})
edit_object edit r = elim r.resource [
  | none ↦ (r, raise value_error)
  | some o ↦ (stage (edit o) r, ok tt)
]

-- `set_status(observed_generation=...)`
unfoldable pub set_generation : Option ℕ → M (Unit {0})
unfolding stage
set_generation generation = edit_object (update_generation generation)

-- The arguments of `condition`; `action` is the type where none is given.
pub record Observation : Type 0 where
  pub type : Text
  pub status : Text
  pub reason : Text
  pub message : Text
  pub event : Bool
  pub warning : Bool
  pub action : Text

abbrev pub is_transition : Option Condition → Condition → Bool
is_transition none current = true
is_transition (some previous) current =
    not (equal_texts previous.status current.status && equal_texts previous.reason current.reason)

abbrev pub push : Event → Request → Request
push event r = record r { report = record r.report { events = r.report.events ++ event ∷ [] } }

abbrev pub event_of : Observation → Event
event_of c = record {
  reason = c.reason;
  message = c.message;
  warning = c.warning;
  action = c.action;
}

unfoldable pub noted : Observation → Option Condition → Option Condition → M (Unit {0})
noted c previous none r = (r, raise assertion_error)
noted c previous (some current) r =
    (if c.event && is_transition previous current then push (event_of c) r else r, ok tt)

unfoldable pub after_set : Observation → Resource → Result Resource → M (Unit {0})
unfolding noted stage
after_set c o (raise e) r = (r, raise e)
after_set c o (ok o') r =
    noted c (get_condition o c.type) (get_condition (update_nothing o') c.type)
      (stage (update_nothing o') r)

unfoldable pub condition : ℕ → Observation → M (Unit {0})
unfolding after_set
condition now c r = elim r.resource [
  | none ↦ (r, raise value_error)
  | some o ↦ after_set c o (set_condition now c.type c.status c.reason c.message o) r
]

abbrev pub dependency_not_ready : Text → Observation
dependency_not_ready name = record {
  type = name;
  status = status_unknown;
  reason = codes "DependencyNotReady";
  message = [];
  event = false;
  warning = false;
  action = name;
}

abbrev pub ready : Text
ready = codes "Ready"

abbrev pub tail : List Text → List Text
tail [] = []
tail (x ∷ xs) = xs

abbrev pub head_or : Text → List Text → Text
head_or t [] = t
head_or t (x ∷ xs) = x

abbrev pub failure_reason : Exception → Text
failure_reason terminal_error = codes "TerminalError"
failure_reason other = codes "ReconcileFailed"

-- The failure of the active stage, with its message
unfoldable pub failure : Exception → Text → Text → Bool → Text → Observation
failure error message type event action = record {
  type = type;
  status = status_false;
  reason = failure_reason error;
  message = message;
  event = event;
  warning = true;
  action = action;
}

abbrev pub when : Bool → M (Unit {0}) → M (Unit {0})
when test m r = elim test [ true ↦ m r | false ↦ (r, ok tt) ]

-- `_failed`, where `message` is the text made of the active stage and the class of the error; first
-- with what it reads of the report
unfoldable pub report_failure :
    (now : ℕ) (error : Exception) (message : Text) (managed stages : Bool) (pending : List Text)
    → M (Unit {0})
unfolding condition each failure
report_failure now error message managed stages pending r =
    let name = head_or (codes "Reconcile") pending in
    if managed
    then and_then
        (when (not (is_empty pending) && stages)
          (condition now (failure error message name true name)) r)
        (λ _ r1.
          and_then
            (when stages (each (λ p. condition now (dependency_not_ready p)) (tail pending)) r1)
            (λ _. condition now (failure error message ready (not stages) name)))
    else (
      if is_empty pending then r else push (event_of (failure error message name true name)) r,
      ok tt,
    )

unfoldable pub failed : ℕ → Exception → Text → M (Unit {0})
unfolding report_failure
failed now error message r =
    report_failure now error message r.report.managed r.report.stage_conditions r.report.pending r
