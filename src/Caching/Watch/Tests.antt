-- ===== src/Caching/Watch/Tests.antt =====
-- Runs of the watch managers of cloudcoil/caching/_watch_manager.py, and the theorems at them.
use cloudcoil.Base.{
  ◌+◌, ◌*◌, ◌/◌, ◌^◌, ◌≤◌, min, some, none, String, List, [], ◌∷◌, ◌≡◌, refl, arith,
}
use cloudcoil.Base.Results.{ok, raise, api_error, watch_expired}
use cloudcoil.Caching.Watch.{
  running, failed, async, sync, WatchManager, Backoff, backoff_init, jitter_amount, next_delay,
  reset, Signal, starts, stops, joins, lists, hears, ends, listing, make, start, stop, joined,
  again, state_version, initial_list, is_fatal, fail, back_off, relist, async_error, sync_error,
  on_error, step, run,
}
use cloudcoil.Caching.Watch.States.{Fine, OneLoop, run-make-Fine}
use cloudcoil.Caching.Watch.Resume.{resumed, AtPhase, run-make-resumed}
use cloudcoil.Caching.Watch.Delays.{after, next_delay-after-reset}

program : Unit {0}
unfolding backoff_init jitter_amount next_delay reset make start stop joined again state_version
    initial_list is_fatal fail back_off relist async_error sync_error on_error step run resumed
    after
program = tt

-- `_ExponentialBackoff()`, in milliseconds
abbrev backoff : Backoff
unfolding program
backoff = backoff_init 1000 300000 2 100

-- A list at the version "5", an event at "6", the end of the history, a new list.
abbrev signals : List (Signal String)
signals =
    starts
    ∷ lists (ok ("a" ∷ [], some (some "5"))) 0
    ∷ hears "ADDED" "b" (some (some "6"))
    ∷ ends (raise watch_expired) 0
    ∷ lists (ok ("a" ∷ "b" ∷ [], some (some "9"))) 0
    ∷ []

resumes_at : (run async signals (make backoff)).0.resource_version ≡ some "9"
unfolding program
resumes_at = refl

-- A forbidden watch fails the async manager, and the sync one retries.
forbidden : List (Signal String)
forbidden = starts ∷ lists (ok ([], some (some "5"))) 0 ∷ ends (raise (api_error 403)) 0 ∷ []

forbidden_async : (run async forbidden (make backoff)).0.state ≡ failed
unfolding program forbidden
forbidden_async = refl

forbidden_sync : (run sync forbidden (make backoff)).0.state ≡ running
unfolding program forbidden
forbidden_sync = refl

signals-OneLoop : OneLoop async signals (make backoff)
unfolding program
signals-OneLoop = (λ _. refl, (tt, (tt, (tt, (tt, tt)))))

run-make-Fine_example :
    Fine async
      (run async signals (make backoff)).0.state
      (run async signals (make backoff)).0.phase
      (run async signals (make backoff)).0.error
      (run async signals (make backoff)).0.stop_event
run-make-Fine_example = run-make-Fine async signals backoff signals-OneLoop

-- A sync stop that gives its thread up, which still waits for its list
given_up : (run {Obj = String} sync (starts ∷ stops ∷ joins ∷ []) (make backoff)).0.phase ≡ listing
unfolding program
given_up = refl

run-make-resumed_example :
    AtPhase
      (run async signals (make backoff)).0.phase
      (run async signals (make backoff)).0.resource_version
      (resumed (run async signals (make backoff)).1 none)
run-make-resumed_example = run-make-resumed async signals backoff signals-OneLoop

abbrev ready : WatchManager
unfolding program
ready = (run async signals (make backoff)).0

refused : Signal String
refused = ends (raise (api_error 403)) 0

-- The third delay, with no jitter drawn: four seconds less a tenth.
next_delay-after-reset_example :
    (4000 ≡ min (1000 * 2 ^ 2) 300000)
    × (3600 ≤ 300000 + 300000 * 100 / 1000)
    × (4000 ≤ 3600 + 400)
    × (3600 ≤ 4000 + 400)
unfolding program
next_delay-after-reset_example =
    next_delay-after-reset (0 ∷ 0 ∷ []) 0 backoff (omega arith) (omega arith) (omega arith)
      (omega arith)
