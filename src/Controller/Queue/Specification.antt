-- ===== src/Controller/Queue/Specification.antt =====
-- What the calls of `WorkQueue`, cloudcoil/controller/_queue.py, mean for a single key: the state
-- machine of `Phases`, which forgets the order of the other keys.
use cloudcoil.Base.{
  ℕ, ◌+◌, Bool, false, ◌||◌, some, List, [], ◌∷◌, ◌≡◌, refl, inl, inr, arith, Option-cases, ◌≢◌,
  ◌∙◌, subst, sym, if_ind,
}
use cloudcoil.Base.Sets.{contains, contains-insert, contains-discard, contains-nil, contains-head}
use cloudcoil.Base.Dicts.{lookup, lookup-put, lookup-pop, lookup-nil, pop}
use cloudcoil.Base.Results.{ok, raise, Result}
use cloudcoil.Base.Durations.{Duration, not_finite, negative, ticks}
use cloudcoil.Controller.Queue.{
  WorkQueue, check_idle, add, call_at, add_after, release, take_key, get, done, shutdown, forget,
  retry, count_retry, retry_delay, get_from,
}
use cloudcoil.Controller.Queue.Calls.{
  after, forget_delay, after_get, Call, adds, adds_after, fires, retries, forgets, gets, finishes,
  shuts_down, step,
}
use cloudcoil.Controller.Queue.Keys.{KeyInv, recount-KeyInv}
use cloudcoil.Controller.Queue.Invariant.{Inv, retry_queue}
use cloudcoil.Controller.Queue.Phases.{
  KeyState, phase_of, requested, requested_after, fired, taken, finished, stopped, at, while_open,
}

module _ {ℓ} {K : Type ℓ} (dec : Discrete K) where
  unfoldable pub key_state : WorkQueue K → K → KeyState
  key_state q k = record {
    phase = phase_of (contains dec k q.dirty) (contains dec k q.processing);
    timer = lookup dec k q.delayed;
  }

  module _ (k j : K) (q : WorkQueue K) where
    key_state-add :
        KeyInv dec q j
        → key_state (add dec k q) j ≡ at dec k j (while_open q.closed requested) (key_state q j)
    unfolding add key_state
    key_state-add h = ground (arith, contains-insert dec j k q.dirty, lookup-pop dec k j q.delayed)

    key_state-call_at :
        (deadline : ℕ)
        → contains dec k q.dirty ≡ false
        → key_state (call_at dec deadline k q) j
          ≡ at dec k j (λ s. record s { timer = some deadline }) (key_state q j)
    unfolding call_at key_state
    key_state-call_at deadline c = ground (arith, lookup-put dec k j deadline q.delayed)

    key_state-add_after :
        (now : ℕ) (delay : Duration)
        → KeyInv dec q j
        → key_state (after q (add_after dec now k delay q)) j
          ≡ at dec k j (while_open q.closed (requested_after now delay)) (key_state q j)
    unfolding add_after call_at key_state
    key_state-add_after now (ticks delay) h =
        ground (arith, key_state-add h, lookup-put dec k j (now + delay) q.delayed)
    key_state-add_after now not_finite h = ground arith
    key_state-add_after now (negative n) h = ground arith

    key_state-release :
        {when : ℕ}
        → lookup dec k q.delayed ≡ some when
        → KeyInv dec q k
        → KeyInv dec q j
        → key_state (release dec k q) j ≡ at dec k j requested (key_state q j)
    unfolding release add key_state
    key_state-release e h g = ground (
      arith,
      contains-insert dec j k q.dirty,
      lookup-pop dec k j q.delayed,
      lookup-pop dec k j (pop dec k q.delayed),
    )

    key_state-take_key :
        (rest : List K) → key_state (take_key dec k rest q) j ≡ at dec k j taken (key_state q j)
    unfolding take_key key_state
    key_state-take_key rest =
        ground (arith, contains-insert dec j k q.processing, contains-discard dec j k q.dirty)

    key_state-done :
        KeyInv dec q j → key_state (after q (done dec k q)) j ≡ at dec k j finished (key_state q j)
    unfolding done check_idle key_state
    key_state-done h = ground (arith, contains-discard dec j k q.processing)

  key_state-shutdown :
      (immediate : Bool) (j : K) (q : WorkQueue K)
      → KeyInv dec q j
      → key_state (shutdown immediate q) j ≡ stopped (q.immediate || immediate) (key_state q j)
  unfolding shutdown check_idle key_state
  key_state-shutdown immediate j q h = ground (arith, contains-nil dec j, lookup-nil {V = ℕ} dec j)

  -- `get` takes the first ready key.
  abbrev pub first_taken : List K → K → KeyState → KeyState
  first_taken [] j s = s
  first_taken (key ∷ _) j s = at dec key j taken s

  -- What a call does to the key `j`. The rest of the queue shows only in whether it is closed, in
  -- its first ready key, and in the delay that a retry chooses.
  unfoldable pub effect : Call K → WorkQueue K → K → KeyState → KeyState
  effect (adds key) q j = at dec key j (while_open q.closed requested)
  effect (adds_after now key delay) q j =
      at dec key j (while_open q.closed (requested_after now delay))
  effect (fires key) q j = at dec key j fired
  effect (retries now draw key) q j =
      at dec key j (while_open q.closed (requested_after now (ticks (retry_delay dec draw key q))))
  effect (forgets key) q j = λ s. s
  effect gets q j = first_taken q.ready j
  effect (finishes key) q j = at dec key j finished
  effect (shuts_down immediate) q j = stopped (q.immediate || immediate)

  -- A call that raises leaves the state that it was called in.
  key_state-after :
      (r : Result (WorkQueue K)) (j : K) (q p : WorkQueue K) {s : KeyState}
      → key_state q j ≡ key_state p j
      → key_state (after p r) j ≡ s
      → key_state (after q r) j ≡ s
  key_state-after (ok t) j q p e h = h
  key_state-after (raise x) j q p e h = e ∙ h

  key_state-retry :
      (now draw : ℕ) (key j : K) (q : WorkQueue K)
      → KeyInv dec q j
      → key_state (after q (forget_delay (retry dec now draw key q))) j
        ≡ at dec key j
            (while_open q.closed (requested_after now (ticks (retry_delay dec draw key q))))
            (key_state q j)
  unfolding retry count_retry key_state
  key_state-retry now draw key j q h =
      let delay = retry_delay dec draw key q in
      let counted = count_retry dec key q in
      let added = add_after dec now key (ticks delay) counted in
      let spec =
        at dec key j (while_open q.closed (requested_after now (ticks delay))) (key_state q j) in
      if_ind (λ r. key_state (after q (forget_delay r)) j ≡ spec) q.closed (λ c. ground arith)
        (λ o.
          subst (λ r. key_state (after q r) j ≡ spec) {x = added}
            (sym (retry_queue dec added delay))
            (key_state-after added j q counted refl
              (key_state-add_after key j counted now (ticks delay) (recount-KeyInv dec j _ q h))))

  head_dirty :
      (key : K) (rest : List K) (q : WorkQueue K)
      → q.ready ≡ key ∷ rest
      → Inv dec q
      → contains dec key q.dirty ≢ false
  head_dirty key rest q e h m = let keys = h.keys key in ground (arith, contains-head dec key rest)

  key_state-fires :
      (key j : K) (q : WorkQueue K) {when : ℕ}
      → lookup dec key q.delayed ≡ some when
      → Inv dec q
      → key_state (release dec key q) j ≡ at dec key j fired (key_state q j)
  unfolding key_state
  key_state-fires key j q e h =
      ground (arith, e, key_state-release key j q e (h.keys key) (h.keys j))

  key_state-get_from :
      (keys : List K) (j : K) (q : WorkQueue K)
      → q.ready ≡ keys
      → Inv dec q
      → key_state (after_get q (get_from dec keys q)) j ≡ first_taken keys j (key_state q j)
  unfolding get_from
  key_state-get_from [] j q e h =
      if_ind (λ t. key_state (after_get q t) j ≡ key_state q j) q.closed (λ c. refl)
        (λ o. unfold key_state in refl)
  key_state-get_from (key ∷ rest) j q e h =
      if_ind (λ t. key_state (after_get q t) j ≡ at dec key j taken (key_state q j))
        (contains dec key q.dirty) (λ d. key_state-take_key key j q rest)
        (λ m. absurd (head_dirty key rest q e h m))

  -- Every call acts on each key as the state machine says, whatever the other keys do.
  pub key_state-step :
      (c : Call K) (q : WorkQueue K) (j : K)
      → Inv dec q
      → key_state (step dec c q) j ≡ effect c q j (key_state q j)
  unfolding step effect
  key_state-step (adds key) q j h = key_state-add key j q (h.keys j)
  key_state-step (adds_after now key delay) q j h = key_state-add_after key j q now delay (h.keys j)
  key_state-step (fires key) q j h = elim (Option-cases (lookup dec key q.delayed)) [
    | inl e ↦ rw (e, step) (unfold key_state in ground arith)
    | inr (when, e) ↦ rw (e, step) (key_state-fires key j q e h)
  ]
  key_state-step (retries now draw key) q j h = key_state-retry now draw key j q (h.keys j)
  key_state-step (forgets key) q j h = unfold forget key_state in refl
  key_state-step gets q j h = unfold get in key_state-get_from q.ready j q refl h
  key_state-step (finishes key) q j h = key_state-done key j q (h.keys j)
  key_state-step (shuts_down immediate) q j h = key_state-shutdown immediate j q (h.keys j)
