-- ===== src/Controller/Worker/Tests.antt =====
-- Turns of the worker of cloudcoil/controller/_controller.py on small inputs, and the theorem at them.
use cloudcoil.Base.{ℕ, none, some, true, false, List, [], ◌∷◌, ◌≡◌, ◌⊎◌, inr, refl, ℕ_discrete}
use cloudcoil.Base.Sets.{contains, insert, discard}
use cloudcoil.Base.Dicts.{lookup, put, pop}
use cloudcoil.Base.Results.{ok, raise, value_error, terminal_error}
use cloudcoil.Base.Durations.{ticks}
use cloudcoil.Controller.Queue.{
  WorkQueue, init, fresh, doublings, backoff_delay, check_idle, add, call_at, add_after, release,
  num_retries, retry_delay, count_retry, retry, forget, take_key, get, done, shutdown,
}
use cloudcoil.Controller.Queue.Calls.{
  Call, adds, adds_after, retries, forgets, gets, finishes, step, run,
}
use cloudcoil.Controller.Queue.Phases.{held, again}
use cloudcoil.Controller.Queue.Guarantees.{run-init-Inv}
use cloudcoil.Controller.Queue.Specification.{key_state}
use cloudcoil.Controller.Worker.{
  Pass, resource, result, normalise, with_status, persisted, attempt, is_complete, after_error,
  after_attempt, turn,
}
use cloudcoil.Controller.Worker.Answers.{IsAnswered, turn-IsAnswered}

program : Unit {0}
unfolding init fresh doublings backoff_delay check_idle add call_at add_after release num_retries
    retry_delay count_retry retry forget take_key get done shutdown step run contains insert discard
    lookup put pop ℕ_discrete key_state normalise with_status persisted attempt is_complete
    after_error after_attempt turn
program = tt

abbrev start : WorkQueue ℕ
unfolding fresh
start = fresh 1000 60000 100

-- Key 1 is taken, and requested again while it is held.
abbrev calls : List (Call ℕ)
calls = adds 1 ∷ gets ∷ adds 1 ∷ []

start_accepted : init (ticks 1000) (ticks 60000) (ticks 100) ≡ ok start
unfolding program
start_accepted = refl

-- The handler returned a resource of the primary type, and the patch is refused.
abbrev refused : Pass
refused = record {
  present = true;
  returned = ok (resource true);
  dirty = false;
  persist = raise value_error;
  report = false;
}

abbrev failed_terminally : Pass
failed_terminally = record refused { returned = raise terminal_error; report = true }

abbrev absent_saved : Pass
absent_saved = record refused { present = false; returned = ok (resource true) }

refused_retried : turn {K = ℕ} 5 50 1 refused ≡ retries 5 50 1 ∷ finishes 1 ∷ []
unfolding program
refused_retried = refl

reported_forgotten : turn {K = ℕ} 5 50 1 failed_terminally ≡ forgets 1 ∷ finishes 1 ∷ []
unfolding program
reported_forgotten = refl

absent_refused : attempt absent_saved ≡ raise value_error
unfolding program
absent_refused = refl

held_again :
    ((key_state ℕ_discrete (run ℕ_discrete calls start) 1).phase ≡ held)
    ⊎ ((key_state ℕ_discrete (run ℕ_discrete calls start) 1).phase ≡ again)
unfolding program
held_again = inr refl

-- The handler asked for a delay, so the key, which was requested again, is queued.
delay_kept :
    turn {K = ℕ} 5 50 1 (record refused { returned = ok (result none (some 30)) })
    ≡ forgets 1 ∷ adds_after 5 1 (ticks 30) ∷ finishes 1 ∷ []
unfolding program
delay_kept = refl

turn-IsAnswered_example :
    IsAnswered ℕ_discrete 1 5 refused
      (run ℕ_discrete calls start)
      (run ℕ_discrete (turn 5 50 1 refused) (run ℕ_discrete calls start))
turn-IsAnswered_example =
    turn-IsAnswered ℕ_discrete 1 5 50 refused (run ℕ_discrete calls start) held_again
      (run-init-Inv ℕ_discrete (ticks 1000) (ticks 60000) (ticks 100) calls start_accepted)
