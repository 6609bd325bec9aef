-- ===== src/Controller/Queue/Invariant.antt =====
-- The invariant of `WorkQueue`, cloudcoil/controller/_queue.py, and that every call keeps it.
use cloudcoil.Base.{
  ℕ, Bool, true, false, some, List, [], ◌∷◌, ◌≡◌, refl, inl, inr, arith, Option-cases, subst, sym,
  if_ind,
}
use cloudcoil.Base.Sets.{Unique, snoc-Unique, contains}
use cloudcoil.Base.Dicts.{lookup}
use cloudcoil.Base.Results.{ok, raise, Result, ◌>>=◌}
use cloudcoil.Base.Durations.{Duration, not_finite, negative, ticks}
use cloudcoil.Controller.Queue.{
  WorkQueue, fresh, check_idle, add, call_at, add_after, release, take_key, get, done, shutdown,
  forget, retry, get_from, count_retry, retry_delay,
}
use cloudcoil.Controller.Queue.Calls.{
  after_get, Call, adds, adds_after, fires, retries, forgets, gets, finishes, shuts_down, step, run,
  after, forget_delay,
}
use cloudcoil.Controller.Queue.Keys.{
  KeyInv, fresh-KeyInv, add-KeyInv, add_after-KeyInv, release-KeyInv, recount-KeyInv, wait-KeyInv,
  take_key-KeyInv, done-KeyInv, shutdown-KeyInv,
}
use cloudcoil.Controller.Queue.Events.{
  Events, add-Events, add_after-Events, release-Events, take_key-Events, done-Events,
  shutdown-Events,
}

pub record Inv {ℓ} {K : Type ℓ} (dec : Discrete K) (q : WorkQueue K) : Type ℓ where
  pub keys : (k : K) → KeyInv dec q k
  pub ready_once : Unique dec q.ready
  pub events : Events q

module _ {ℓ} {K : Type ℓ} (dec : Discrete K) where
  pub fresh-Inv : (b m j : ℕ) → Inv dec (fresh b m j)
  unfolding fresh
  fresh-Inv b m j = record {
    keys = λ k. fresh-KeyInv dec k b m j;
    ready_once = tt;
    events = ground arith;
  }

  add-Unique : (key : K) (q : WorkQueue K) → Inv dec q → Unique dec (add dec key q).ready
  unfolding add
  add-Unique key q h =
      let keys = h.keys key in
      ground (
        arith,
        λ (c : contains dec key q.ready ≡ false). snoc-Unique dec key q.ready c h.ready_once,
      )

  pub add-Inv : (key : K) (q : WorkQueue K) → Inv dec q → Inv dec (add dec key q)
  add-Inv key q h = record {
    keys = λ k. add-KeyInv dec k key q (h.keys k);
    ready_once = add-Unique key q h;
    events = add-Events dec key q h.events;
  }

  add_after-Unique :
      (now : ℕ) (key : K) (delay : Duration) (q : WorkQueue K) {p : WorkQueue K}
      → Inv dec q
      → add_after dec now key delay q ≡ ok p
      → Unique dec p.ready
  unfolding add_after call_at
  add_after-Unique now key (ticks delay) q h e =
      let once = h.ready_once in ground (arith, add-Unique key q h)
  add_after-Unique now key not_finite q h e = cc
  add_after-Unique now key (negative n) q h e = cc

  pub add_after-Inv :
      (now : ℕ) (key : K) (delay : Duration) (q : WorkQueue K) {p : WorkQueue K}
      → Inv dec q
      → add_after dec now key delay q ≡ ok p
      → Inv dec p
  add_after-Inv now key delay q h e = record {
    keys = λ k. add_after-KeyInv dec k now key delay q (h.keys k) e;
    ready_once = add_after-Unique now key delay q h e;
    events = add_after-Events dec now key delay q h.events e;
  }

  release-Unique : (key : K) (q : WorkQueue K) → Inv dec q → Unique dec (release dec key q).ready
  unfolding release add
  release-Unique key q h =
      let keys = h.keys key in
      ground (
        arith,
        λ (c : contains dec key q.ready ≡ false). snoc-Unique dec key q.ready c h.ready_once,
      )

  done-Unique :
      (key : K) (q : WorkQueue K) {p : WorkQueue K}
      → Inv dec q
      → done dec key q ≡ ok p
      → Unique dec p.ready
  unfolding done check_idle
  done-Unique key q h e =
      let keys = h.keys key in
      ground (
        arith,
        λ (c : contains dec key q.ready ≡ false). snoc-Unique dec key q.ready c h.ready_once,
      )

  recount-Inv :
      (counts : List (K × ℕ)) (q : WorkQueue K)
      → Inv dec q
      → Inv dec (record q { retries = counts })
  recount-Inv counts q h = record {
    keys = λ k. recount-KeyInv dec k counts q (h.keys k);
    ready_once = h.ready_once;
    events = let events = h.events in ground arith;
  }

  count_retry-Inv : (key : K) (q : WorkQueue K) → Inv dec q → Inv dec (count_retry dec key q)
  unfolding count_retry
  count_retry-Inv key q h = recount-Inv _ q h

  release-Inv :
      (key : K) (q : WorkQueue K) {when : ℕ}
      → Inv dec q
      → lookup dec key q.delayed ≡ some when
      → Inv dec (release dec key q)
  release-Inv key q h e = record {
    keys = λ k. release-KeyInv dec k key q (h.keys k);
    ready_once = release-Unique key q h;
    events = release-Events dec key q h.events (h.keys key) e;
  }

  -- Of what a call returns, only a queue matters.
  after-Inv :
      (q : WorkQueue K) (r : Result (WorkQueue K))
      → Inv dec q
      → ((p : WorkQueue K) → r ≡ ok p → Inv dec p)
      → Inv dec (after q r)
  after-Inv q (ok p) h f = f p refl
  after-Inv q (raise e) h f = h

  pub retry_queue :
      (r : Result (WorkQueue K)) (delay : ℕ) → forget_delay (r >>= λ p. ok (p, delay)) ≡ r
  retry_queue (ok p) delay = refl
  retry_queue (raise e) delay = refl

  retry-Inv :
      (now draw : ℕ) (key : K) (q : WorkQueue K)
      → Inv dec q
      → Inv dec (after q (forget_delay (retry dec now draw key q)))
  unfolding retry
  retry-Inv now draw key q h =
      let delay = retry_delay dec draw key q in
      let added = add_after dec now key (ticks delay) (count_retry dec key q) in
      if_ind (λ r. Inv dec (after q (forget_delay r))) q.closed (λ c. h)
        (λ o.
          subst (λ r. Inv dec (after q r)) {x = added} (sym (retry_queue added delay))
            (after-Inv q added h (λ p e. add_after-Inv now key _ _ (count_retry-Inv key q h) e)))

  wait-Inv :
      (q : WorkQueue K)
      → q.ready ≡ []
      → q.closed ≡ false
      → Inv dec q
      → Inv dec (record q { available = false })
  wait-Inv q e o h = record {
    keys = λ k. wait-KeyInv dec k q (h.keys k);
    ready_once = h.ready_once;
    events = let events = h.events in ground arith;
  }

  take_key-Inv :
      (key : K) (rest : List K) (q : WorkQueue K)
      → q.ready ≡ key ∷ rest
      → contains dec key q.dirty ≡ true
      → Inv dec q
      → Inv dec (take_key dec key rest q)
  unfolding take_key
  take_key-Inv key rest q e d h =
      let (once, others) : Unique dec (key ∷ rest) = subst (λ l. Unique dec l) e h.ready_once in
      record {
        keys = λ k. take_key-KeyInv dec k key rest q e once (h.keys k);
        ready_once = others;
        events = take_key-Events dec key rest q e d h.events;
      }

  get_from-Inv :
      (keys : List K) (q : WorkQueue K)
      → q.ready ≡ keys
      → Inv dec q
      → Inv dec (after_get q (get_from dec keys q))
  unfolding get_from
  get_from-Inv [] q e h =
      if_ind (λ t. Inv dec (after_get q t)) q.closed (λ c. h) (λ o. wait-Inv q e o h)
  get_from-Inv (key ∷ rest) q e h =
      if_ind (λ t. Inv dec (after_get q t)) (contains dec key q.dirty)
        (λ d. take_key-Inv key rest q e d h) (λ m. h)

  done-Inv :
      (key : K) (q : WorkQueue K) {p : WorkQueue K} → Inv dec q → done dec key q ≡ ok p → Inv dec p
  done-Inv key q h e = record {
    keys = λ k. done-KeyInv dec k key q (h.keys k) e;
    ready_once = done-Unique key q h e;
    events = done-Events dec key q h.events e;
  }

  shutdown-Unique :
      (immediate : Bool) (q : WorkQueue K)
      → Unique dec q.ready
      → Unique dec (shutdown immediate q).ready
  unfolding shutdown check_idle
  shutdown-Unique immediate q h = ground arith

  shutdown-Inv : (immediate : Bool) (q : WorkQueue K) → Inv dec q → Inv dec (shutdown immediate q)
  shutdown-Inv immediate q h = record {
    keys = λ k. shutdown-KeyInv dec k immediate q (h.keys k);
    ready_once = shutdown-Unique immediate q h.ready_once;
    events = shutdown-Events dec immediate q h.events;
  }

  pub step-Inv : (c : Call K) (q : WorkQueue K) → Inv dec q → Inv dec (step dec c q)
  unfolding step
  step-Inv (adds key) q h = add-Inv key q h
  step-Inv (adds_after now key delay) q h =
      after-Inv q _ h (λ p e. add_after-Inv now key delay q h e)
  step-Inv (fires key) q h = elim (Option-cases (lookup dec key q.delayed)) [
    | inl e ↦ rw (e, step) h
    | inr (when, e) ↦ rw (e, step) (release-Inv key q h e)
  ]
  step-Inv (retries now draw key) q h = retry-Inv now draw key q h
  step-Inv (forgets key) q h = unfold forget in recount-Inv _ q h
  step-Inv gets q h = unfold get in get_from-Inv q.ready q refl h
  step-Inv (finishes key) q h = after-Inv q _ h (λ p e. done-Inv key q h e)
  step-Inv (shuts_down immediate) q h = shutdown-Inv immediate q h

  pub run-Inv : (cs : List (Call K)) (q : WorkQueue K) → Inv dec q → Inv dec (run dec cs q)
  unfolding run
  run-Inv [] q h = h
  run-Inv (c ∷ cs) q h = run-Inv cs (step dec c q) (step-Inv c q h)
