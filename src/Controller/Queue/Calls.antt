-- ===== src/Controller/Queue/Calls.antt =====
-- Sequences of calls of `WorkQueue`, cloudcoil/controller/_queue.py, as the event loop makes them.
use cloudcoil.Base.{ℕ, Bool, none, some, List, [], ◌∷◌}
use cloudcoil.Base.Dicts.{lookup}
use cloudcoil.Base.Results.{Result, ok, raise}
use cloudcoil.Base.Durations.{Duration}
use cloudcoil.Controller.Queue.{
  WorkQueue, Taken, took, drained, missing, waiting, add, add_after, release, retry, forget, get,
  done, shutdown,
}

-- A call made on the event loop, at its time. A call that raises changes nothing; a timer fires
-- only while it is pending, and `get` is one test of `_ready`.
pub data Call {ℓ} (K : Type ℓ) : Type ℓ where
  adds : K → Call K
  adds_after : ℕ → K → Duration → Call K
  fires : K → Call K
  retries : ℕ → ℕ → K → Call K
  forgets : K → Call K
  gets : Call K
  finishes : K → Call K
  shuts_down : Bool → Call K

-- The queue after a call that may raise.
abbrev pub after {ℓ} : {K : Type ℓ} → WorkQueue K → Result (WorkQueue K) → WorkQueue K
after q (ok p) = p
after q (raise e) = q

abbrev pub forget_delay {ℓ} : {K : Type ℓ} → Result (WorkQueue K × ℕ) → Result (WorkQueue K)
forget_delay (ok (p, delay)) = ok p
forget_delay (raise e) = raise e

abbrev pub after_get {ℓ} : {K : Type ℓ} → WorkQueue K → Taken K → WorkQueue K
after_get q (took key p) = p
after_get q drained = q
after_get q missing = q
after_get q (waiting p) = p

module _ {ℓ} {K : Type ℓ} (dec : Discrete K) where
  unfoldable pub step : Call K → WorkQueue K → WorkQueue K
  step (adds key) q = add dec key q
  step (adds_after now key delay) q = after q (add_after dec now key delay q)
  step (fires key) q = elim (lookup dec key q.delayed) [ some when ↦ release dec key q | none ↦ q ]
  step (retries now draw key) q = after q (forget_delay (retry dec now draw key q))
  step (forgets key) q = forget dec key q
  step gets q = after_get q (get dec q)
  step (finishes key) q = after q (done dec key q)
  step (shuts_down immediate) q = shutdown immediate q

  unfoldable pub run : List (Call K) → WorkQueue K → WorkQueue K
  run [] q = q
  run (c ∷ cs) q = run cs (step c q)
