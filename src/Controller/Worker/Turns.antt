-- ===== src/Controller/Worker/Turns.antt =====
-- What a turn of the worker of cloudcoil/controller/_controller.py leaves in the queue.
use cloudcoil.Base.{
  Bool-cases, if_ind, ℕ, Bool, true, false, not, ◌||◌, Option, none, some, [], ◌∷◌, ◌++◌, ◌≡◌, ◌≢◌,
  ◌⊎◌, inl, inr, refl, sym, ap, ◌∙◌, subst, arith,
}
use cloudcoil.Base.Durations.{ticks}
use cloudcoil.Base.Results.{Exception, cancelled, terminal_error, Result, ok, raise}
use cloudcoil.Controller.Queue.{WorkQueue, retry_delay, forget}
use cloudcoil.Controller.Queue.Calls.{adds_after, retries, forgets, finishes, step, run}
use cloudcoil.Controller.Queue.Phases.{
  absent, queued, held, again, KeyState, at, while_open, requested_after, finished,
}
use cloudcoil.Controller.Queue.Invariant.{Inv, step-Inv}
use cloudcoil.Controller.Queue.Specification.{key_state, effect, key_state-step}
use cloudcoil.Controller.Worker.{Pass, attempt, is_complete, after_error, after_attempt, turn}

-- A key that a worker holds, requested again or not
abbrev pub IsHeld : KeyState → Type 0
IsHeld s = (s.phase ≡ held) ⊎ (s.phase ≡ again)

-- A key that no worker holds
abbrev pub IsReleased : KeyState → Type 0
IsReleased s = (s.phase ≡ absent) ⊎ (s.phase ≡ queued)

-- A key that a worker will take again, now or by its timer
abbrev pub IsRequested : KeyState → Type 0
IsRequested s = (s.phase ≡ queued) ⊎ (s.timer ≢ none)

-- A request keeps a held key held.
requested_after-IsHeld :
    (closed : Bool) (now : ℕ) (delay : ℕ) (s : KeyState)
    → IsHeld s
    → IsHeld (while_open closed (requested_after now (ticks delay)) s)
requested_after-IsHeld closed now delay s h = ground arith

finished-IsReleased : (s : KeyState) → IsHeld s → IsReleased (finished s)
finished-IsReleased s (inl e) = inl (rw e refl)
finished-IsReleased s (inr e) = inr (rw e refl)

requested_after-IsRequested :
    (now : ℕ) (delay : ℕ) (s : KeyState)
    → IsHeld s
    → IsRequested (finished (requested_after now (ticks delay) s))
requested_after-IsRequested now delay s h = ground arith

-- Whether the attempt asks for another one: a delay was returned, or it failed in a way that neither
-- the loop's own cancellation nor a terminal error that is dealt with explains.
abbrev pub asks_more : Pass → Result (Option ℕ) → Bool
asks_more p (ok none) = false
asks_more p (ok (some _)) = true
asks_more p (raise cancelled) = false
asks_more p (raise terminal_error) = not (is_complete p || p.report)
asks_more p (raise other) = true

-- What a turn that started in `q` has come to when it ends in `t`
pub record IsTurned {K : Type 0} (dec : Discrete K) (key : K) (q t : WorkQueue K) (more : Bool)
    : Type 0 where
  pub inv : Inv dec t
  pub released : IsReleased (key_state dec t key)
  pub asked : (more ≡ false) ⊎ ((q.closed ≡ true) ⊎ IsRequested (key_state dec t key))
  pub dropped : (more ≡ true) ⊎ (key_state dec t key ≡ finished (key_state dec q key))

while_open-false :
    (closed : Bool) (f : KeyState → KeyState) (s : KeyState)
    → closed ≡ false
    → while_open closed f s ≡ f s
while_open-false closed f s h = ground arith

module _ {K : Type 0} (dec : Discrete K) (key : K) where
  at_self : (f : KeyState → KeyState) (s : KeyState) → at dec key key f s ≡ f s
  at_self f s = ground arith

  finished-step :
      (q : WorkQueue K)
      → Inv dec q
      → key_state dec (step dec (finishes key) q) key ≡ finished (key_state dec q key)
  unfolding effect
  finished-step q h =
      key_state-step dec (finishes key) q key h ∙ at_self finished (key_state dec q key)

  forgotten-step :
      (q : WorkQueue K)
      → Inv dec q
      → key_state dec (step dec (forgets key) q) key ≡ key_state dec q key
  unfolding effect
  forgotten-step q h = key_state-step dec (forgets key) q key h

  forgotten-closed : (q : WorkQueue K) → (step dec (forgets key) q).closed ≡ q.closed
  unfolding step forget
  forgotten-closed q = refl

  -- The key's state after `add_after` on a key that is held
  unfoldable Later : ℕ → ℕ → WorkQueue K → WorkQueue K → Type 0
  Later now delay q t =
      key_state dec t key
      ≡ while_open q.closed (requested_after now (ticks delay)) (key_state dec q key)

  retries-Later :
      (now draw : ℕ) (q : WorkQueue K)
      → Inv dec q
      → Later now (retry_delay dec draw key q) q (step dec (retries now draw key) q)
  unfolding effect Later
  retries-Later now draw q h =
      key_state-step dec (retries now draw key) q key h
      ∙ at_self (while_open q.closed (requested_after now (ticks (retry_delay dec draw key q))))
          (key_state dec q key)

  adds_after-Later :
      (now delay : ℕ) (q : WorkQueue K)
      → Inv dec q
      → Later now delay q (step dec (adds_after now key (ticks delay)) q)
  unfolding effect Later
  adds_after-Later now delay q h =
      key_state-step dec (adds_after now key (ticks delay)) q key h
      ∙ at_self (while_open q.closed (requested_after now (ticks delay))) (key_state dec q key)

  postponed-IsTurned :
      (now delay : ℕ) (q t : WorkQueue K)
      → IsHeld (key_state dec q key)
      → Inv dec t
      → Later now delay q t
      → IsTurned dec key q (step dec (finishes key) t) true
  unfolding Later
  postponed-IsTurned now delay q t holds h e =
      let s = key_state dec q key in
      let f = requested_after now (ticks delay) in
      let kept = subst IsHeld (sym e) (requested_after-IsHeld q.closed now delay s holds) in
      record {
        inv = step-Inv dec (finishes key) t h;
        released =
            subst IsReleased (sym (finished-step t h))
              (finished-IsReleased (key_state dec t key) kept);
        asked = elim (Bool-cases q.closed) [
          | inl closed ↦ inr (inl closed)
          | inr opened ↦ inr (
              inr (
                subst IsRequested
                  (sym (finished-step t h ∙ ap finished (e ∙ while_open-false q.closed f s opened)))
                  (requested_after-IsRequested now delay s holds)))
        ];
        dropped = inl refl;
      }

  dropped-IsTurned :
      (q t : WorkQueue K)
      → IsHeld (key_state dec q key)
      → Inv dec t
      → key_state dec t key ≡ key_state dec q key
      → IsTurned dec key q (step dec (finishes key) t) false
  dropped-IsTurned q t holds h e =
      let last = finished-step t h ∙ ap finished e in
      record {
        inv = step-Inv dec (finishes key) t h;
        released = subst IsReleased (sym last) (finished-IsReleased (key_state dec q key) holds);
        asked = inl refl;
        dropped = inr last;
      }

  retried-IsTurned :
      (now draw : ℕ) (q : WorkQueue K)
      → IsHeld (key_state dec q key)
      → Inv dec q
      → IsTurned dec key q (run dec (retries now draw key ∷ finishes key ∷ []) q) true
  unfolding run
  retried-IsTurned now draw q holds h =
      postponed-IsTurned now (retry_delay dec draw key q) q (step dec (retries now draw key) q)
        holds (step-Inv dec (retries now draw key) q h) (retries-Later now draw q h)

  forgotten-IsTurned :
      (q : WorkQueue K)
      → IsHeld (key_state dec q key)
      → Inv dec q
      → IsTurned dec key q (run dec (forgets key ∷ finishes key ∷ []) q) false
  unfolding run
  forgotten-IsTurned q holds h =
      dropped-IsTurned q (step dec (forgets key) q) holds (step-Inv dec (forgets key) q h)
        (forgotten-step q h)

  delayed-IsTurned :
      (now delay : ℕ) (q : WorkQueue K)
      → IsHeld (key_state dec q key)
      → Inv dec q
      → IsTurned dec key q
          (run dec (forgets key ∷ adds_after now key (ticks delay) ∷ finishes key ∷ []) q)
          true
  unfolding run
  delayed-IsTurned now delay q holds h =
      let t = step dec (forgets key) q in
      let e = forgotten-step q h in
      let t_inv = step-Inv dec (forgets key) q h in
      let turned =
        postponed-IsTurned now delay t (step dec (adds_after now key (ticks delay)) t)
          (subst IsHeld (sym e) holds) (step-Inv dec (adds_after now key (ticks delay)) t t_inv)
          (adds_after-Later now delay t t_inv) in
      record {
        inv = turned.inv;
        released = turned.released;
        asked =
            subst
              (λ c.
                (true ≡ false)
                ⊎ ((c ≡ true)
                    ⊎ IsRequested (
                        key_state dec
                          (step dec (finishes key) (step dec (adds_after now key (ticks delay)) t))
                          key)))
              (forgotten-closed q) turned.asked;
        dropped = inl refl;
      }

  -- A delay that was returned counts from now.
  pub delayed-state :
      (now delay : ℕ) (q : WorkQueue K)
      → Inv dec q
      → key_state dec
          (run dec (forgets key ∷ adds_after now key (ticks delay) ∷ finishes key ∷ []) q)
          key
        ≡ finished (while_open q.closed (requested_after now (ticks delay)) (key_state dec q key))
  unfolding run Later
  delayed-state now delay q h =
      let t = step dec (forgets key) q in
      let t_inv = step-Inv dec (forgets key) q h in
      finished-step (step dec (adds_after now key (ticks delay)) t)
        (step-Inv dec (adds_after now key (ticks delay)) t t_inv)
      ∙ ap finished (
          adds_after-Later now delay t t_inv
          ∙ ap (while_open t.closed (requested_after now (ticks delay))) (forgotten-step q h)
          ∙ ap (λ c. while_open c (requested_after now (ticks delay)) (key_state dec q key))
              (forgotten-closed q))

  after_error-IsTurned :
      (now draw : ℕ) (p : Pass) (q : WorkQueue K) (error : Exception)
      → IsHeld (key_state dec q key)
      → Inv dec q
      → IsTurned dec key q
          (run dec (after_error now draw key p error ++ finishes key ∷ []) q)
          (asks_more p (raise error))
  unfolding after_error
  after_error-IsTurned now draw p q cancelled holds h =
      unfold run in dropped-IsTurned q q holds h refl
  after_error-IsTurned now draw p q terminal_error holds h =
      if_ind
        (λ calls.
          IsTurned dec key q (run dec (calls ++ finishes key ∷ []) q)
            (not (is_complete p || p.report)))
        (is_complete p || p.report) (λ dealt. rw (dealt) (forgotten-IsTurned q holds h))
        (λ left. rw (left) (retried-IsTurned now draw q holds h))
  after_error-IsTurned now draw p q _ holds h = retried-IsTurned now draw q holds h

  after_attempt-IsTurned :
      (now draw : ℕ) (p : Pass) (q : WorkQueue K) (r : Result (Option ℕ))
      → IsHeld (key_state dec q key)
      → Inv dec q
      → IsTurned dec key q
          (run dec (after_attempt now draw key p r ++ finishes key ∷ []) q)
          (asks_more p r)
  unfolding after_attempt
  after_attempt-IsTurned now draw p q (ok none) holds h = forgotten-IsTurned q holds h
  after_attempt-IsTurned now draw p q (ok (some delay)) holds h =
      delayed-IsTurned now delay q holds h
  after_attempt-IsTurned now draw p q (raise error) holds h =
      after_error-IsTurned now draw p q error holds h

  -- The turn, by what its attempt asks for
  pub turn-IsTurned :
      (now draw : ℕ) (p : Pass) (q : WorkQueue K)
      → IsHeld (key_state dec q key)
      → Inv dec q
      → IsTurned dec key q (run dec (turn now draw key p) q) (asks_more p (attempt p))
  unfolding turn
  turn-IsTurned now draw p q holds h = after_attempt-IsTurned now draw p q (attempt p) holds h
