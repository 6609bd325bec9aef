-- ===== src/Controller/Queue/Tests.antt =====
-- Runs of the queue of cloudcoil/controller/_queue.py on small inputs, and the theorems at them.
use cloudcoil.Base.{
  ℕ, ◌*◌, ◌/◌, ◌^◌, ◌-◌, ◌≤◌, min, true, false, some, List, [], ◌∷◌, ◌≡◌, ◌≢◌, refl, arith,
  ℕ_discrete,
}
use cloudcoil.Base.Sets.{contains, insert, discard}
use cloudcoil.Base.Dicts.{lookup, put, pop}
use cloudcoil.Base.Results.{ok, raise, value_error}
use cloudcoil.Base.Durations.{ticks, negative}
use cloudcoil.Controller.Queue.{
  WorkQueue, init, fresh, doublings, backoff_delay, whole, check_idle, add, call_at, add_after,
  release, num_retries, retry_delay, count_retry, retry, forget, take_key, get, took, missing, done,
  shutdown,
}
use cloudcoil.Controller.Queue.Calls.{Call, adds, adds_after, gets, finishes, shuts_down, step, run}
use cloudcoil.Controller.Queue.Backoff.{backoff_delay-eq-min, retry_delay_bounds}
use cloudcoil.Controller.Queue.Invariant.{Inv}
use cloudcoil.Controller.Queue.Specification.{key_state, effect, key_state-step}
use cloudcoil.Controller.Queue.Guarantees.{run-init-Inv, get-exclusive, update_kept}
use cloudcoil.Controller.Queue.Drain.{serve, serve-ready}

program : Unit {0}
unfolding init fresh doublings backoff_delay check_idle add call_at add_after release num_retries
    retry_delay count_retry retry forget take_key get done shutdown step run contains insert discard
    lookup put pop ℕ_discrete key_state effect serve
program = tt

-- Delays from 1 s to 60 s in milliseconds, and a jitter of a tenth.
abbrev start : WorkQueue ℕ
unfolding fresh
start = fresh 1000 60000 100

-- Key 1 is taken, and requested again while it is held; key 2 waits.
abbrev calls : List (Call ℕ)
calls = adds 1 ∷ adds 2 ∷ gets ∷ adds 1 ∷ []

busy : (run ℕ_discrete calls start).ready ≡ 2 ∷ []
unfolding program
busy = refl

requeued :
    (run ℕ_discrete (adds 1 ∷ adds 2 ∷ gets ∷ adds 1 ∷ finishes 1 ∷ []) start).ready ≡ 2 ∷ 1 ∷ []
unfolding program
requeued = refl

-- An immediate shutdown leaves the held key to its worker.
stopped_now :
    (run ℕ_discrete (adds 1 ∷ adds 2 ∷ gets ∷ shuts_down true ∷ []) start).processing ≡ 1 ∷ []
unfolding program
stopped_now = refl

-- The earlier of two deadlines stays.
deadline_kept :
    (run ℕ_discrete (adds_after 10 7 (ticks 5) ∷ adds_after 11 7 (ticks 9) ∷ []) start).delayed
    ≡ (7, 15) ∷ []
unfolding program
deadline_kept = refl

negative_refused : add_after ℕ_discrete 0 7 (negative 3) start ≡ raise value_error
unfolding program
negative_refused = refl

bad_settings : init {K = ℕ} (ticks 5) (ticks 4) (ticks 0) ≡ raise value_error
unfolding program
bad_settings = refl

delays :
    (backoff_delay 1000 60000 0 ≡ 1000)
    × (backoff_delay 1000 60000 5 ≡ 32000)
    × (backoff_delay 1000 60000 6 ≡ 60000)
unfolding program
delays = (refl, refl, refl)

start_accepted : init (ticks 1000) (ticks 60000) (ticks 100) ≡ ok start
unfolding program
start_accepted = refl

busy-Inv : Inv ℕ_discrete (run ℕ_discrete calls start)
busy-Inv = run-init-Inv ℕ_discrete (ticks 1000) (ticks 60000) (ticks 100) calls start_accepted

run-init-Inv_example : Inv ℕ_discrete (run ℕ_discrete calls start)
run-init-Inv_example =
    run-init-Inv ℕ_discrete (ticks 1000) (ticks 60000) (ticks 100) calls start_accepted

key_state-step_example :
    key_state ℕ_discrete (step ℕ_discrete (finishes 1) (run ℕ_discrete calls start)) 1
    ≡ effect ℕ_discrete
        (finishes 1)
        (run ℕ_discrete calls start)
        1
        (key_state ℕ_discrete (run ℕ_discrete calls start) 1)
key_state-step_example =
    key_state-step ℕ_discrete (finishes 1) (run ℕ_discrete calls start) 1 busy-Inv

get-exclusive_example :
    (get ℕ_discrete (run ℕ_discrete calls start) ≢ missing)
    × ((k : ℕ) (p : WorkQueue ℕ)
        → get ℕ_discrete (run ℕ_discrete calls start) ≡ took k p
        → (contains ℕ_discrete k (run ℕ_discrete calls start).processing ≡ false)
          × (contains ℕ_discrete k p.processing ≡ true)
          × (contains ℕ_discrete k p.dirty ≡ false))
get-exclusive_example = get-exclusive ℕ_discrete (run ℕ_discrete calls start) busy-Inv

update_kept_example :
    (p : WorkQueue ℕ) × (done ℕ_discrete 1
        (run ℕ_discrete (gets ∷ adds 3 ∷ shuts_down false ∷ []) (run ℕ_discrete calls start))
      ≡ ok p)
    × (contains ℕ_discrete 1 p.ready ≡ true)
    × (p.available ≡ true)
unfolding program
update_kept_example =
    update_kept ℕ_discrete 1 (gets ∷ adds 3 ∷ shuts_down false ∷ []) (run ℕ_discrete calls start)
      busy-Inv (refl, (refl, (refl, tt))) refl

abbrev closing : List (Call ℕ)
closing = adds 1 ∷ adds 2 ∷ shuts_down false ∷ []

serve-ready_example :
    serve ℕ_discrete 3 (run ℕ_discrete closing start) ≡ some (run ℕ_discrete closing start).ready
unfolding program
serve-ready_example =
    serve-ready ℕ_discrete 3 (run ℕ_discrete closing start)
      (run-init-Inv ℕ_discrete (ticks 1000) (ticks 60000) (ticks 100) closing start_accepted) refl
      refl (omega arith)

backoff_delay-eq-min_example : backoff_delay 1000 60000 7 ≡ min 60000 (1000 * 2 ^ 7)
backoff_delay-eq-min_example = backoff_delay-eq-min 1000 60000 7 (omega arith)

retry_delay_bounds_example :
    (retry_delay ℕ_discrete 950 1 start ≤ start.max_delay)
    × (min start.max_delay (start.base_delay * 2 ^ num_retries ℕ_discrete 1 start)
          * (whole - start.jitter)
          / whole
        ≤ retry_delay ℕ_discrete 950 1 start)
unfolding fresh
retry_delay_bounds_example =
    retry_delay_bounds ℕ_discrete 950 1 start (omega arith) (omega arith) (omega arith)
