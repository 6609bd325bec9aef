-- ===== src/Controller/Worker.antt =====
-- cloudcoil/controller/_controller.py: one turn of `_worker`, from what the handler returned to the
-- calls of the queue that it makes. The clock, the random factor of a retry, and whether the patch
-- and the report of a failure succeed are given; copies, events, metrics and log lines are left out.
-- A cancellation comes while the handler or the patch runs, not while events or a failure are sent.
pub mod Turns
pub mod Answers
mod Tests
use cloudcoil.Base.{
  ℕ, Bool, true, false, not, ◌||◌, Option, none, some, List, [], ◌∷◌, ◌++◌, if◌then◌else◌,
}
use cloudcoil.Base.Durations.{ticks}
use cloudcoil.Base.Results.{
  Exception, value_error, type_error, terminal_error, assertion_error, cancelled, Result, ok, raise,
  raise_if, ◌>>=◌, ◌>>◌,
}
use cloudcoil.Controller.Queue.Calls.{Call, adds_after, retries, forgets, finishes}

-- A resource that a handler returns: of the primary type, or of another
pub data Returned : Type 0 where
  nothing other_value : Returned
  -- a Wait that was returned or raised, with its delay
  waits : ℕ → Returned
  -- a resource, and whether it is of the primary type
  resource : Bool → Returned
  -- a Result with its resource, if any, and its delay, if any
  result : Option Bool → Option ℕ → Returned

pub record Pass : Type 0 where
  -- `original is not None`
  pub present : Bool
  pub returned : Result Returned
  -- `request._report.dirty`
  pub dirty : Bool
  -- what `_persist` raises
  pub persist : Result (Unit {0})
  -- what `_report_failure` returns
  pub report : Bool

-- The resource and the delay of the normalised result
unfoldable pub normalise : Returned → Result (Option Bool × Option ℕ)
normalise nothing = ok (none, none)
normalise other_value = raise type_error
normalise (waits delay) = ok (none, some delay)
normalise (resource primary) = ok (some primary, none)
normalise (result saved delay) = ok (saved, delay)

-- A status that helpers edited is saved with the snapshot, if no resource is returned.
unfoldable pub with_status : Pass → Option Bool → Result (Option Bool)
with_status p (some primary) = ok (some primary)
with_status p none =
    if p.dirty then (raise_if (not p.present) assertion_error >> ok (some true)) else ok none

unfoldable pub persisted : Pass → Option Bool → Result (Unit {0})
persisted p none = ok tt
persisted p (some primary) =
    raise_if (not p.present) value_error >> raise_if (not primary) type_error >> p.persist

-- The body of the attempt, which ends with the delay of the result
unfoldable pub attempt : Pass → Result (Option ℕ)
attempt p = p.returned >>= λ returned.
    normalise returned >>= λ r. with_status p r.0 >>= λ saved. persisted p saved >> ok r.1

-- `callback_complete`
unfoldable pub is_complete : Pass → Bool
is_complete p = elim p.returned [ ok _ ↦ true | raise _ ↦ false ]

-- The `except` clauses
unfoldable pub after_error : {K : Type 0} → ℕ → ℕ → K → Pass → Exception → List (Call K)
after_error now draw key p cancelled = []
after_error now draw key p terminal_error =
    if is_complete p || p.report then forgets key ∷ [] else retries now draw key ∷ []
after_error now draw key p other = retries now draw key ∷ []

unfoldable pub after_attempt : {K : Type 0} → ℕ → ℕ → K → Pass → Result (Option ℕ) → List (Call K)
after_attempt now draw key p (ok none) = forgets key ∷ []
after_attempt now draw key p (ok (some delay)) = forgets key ∷ adds_after now key (ticks delay) ∷ []
after_attempt now draw key p (raise error) = after_error now draw key p error

-- One turn on the key, with the `finally` clause
unfoldable pub turn : {K : Type 0} → ℕ → ℕ → K → Pass → List (Call K)
turn now draw key p = after_attempt now draw key p (attempt p) ++ finishes key ∷ []
