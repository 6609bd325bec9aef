-- ===== src/Controller/Worker/Answers.antt =====
-- What a turn of the worker of cloudcoil/controller/_controller.py makes of what the handler did.
use cloudcoil.Base.{
  ℕ, Bool, true, false, Option, none, some, [], ◌∷◌, ◌++◌, ◌≡◌, ◌≢◌, ◌⊎◌, inl, inr, refl, ap, ◌∙◌,
  subst, arith, Bool-cases,
}
use cloudcoil.Base.Durations.{ticks}
use cloudcoil.Base.Results.{
  Exception, value_error, type_error, terminal_error, assertion_error, cancelled, Result, ok, raise,
  ◌>>=◌, ◌>>◌,
}
use cloudcoil.Controller.Queue.{WorkQueue}
use cloudcoil.Controller.Queue.Calls.{finishes, run}
use cloudcoil.Controller.Queue.Phases.{while_open, requested_after, finished}
use cloudcoil.Controller.Queue.Invariant.{Inv}
use cloudcoil.Controller.Queue.Specification.{key_state}
use cloudcoil.Controller.Worker.{
  Returned, nothing, other_value, waits, resource, result, Pass, normalise, with_status, persisted,
  attempt, is_complete, after_attempt, turn,
}
use cloudcoil.Controller.Worker.Turns.{
  IsHeld, IsReleased, IsRequested, asks_more, IsTurned, turn-IsTurned, delayed-state,
}

-- What a handler says: the resource to write, if any (with whether it is of the primary type), and
-- the delay that it asks for, if any
pub data Says : Returned → Option Bool → Option ℕ → Type 0 where
  says_nothing : Says nothing none none
  says_wait : (delay : ℕ) → Says (waits delay) none (some delay)
  says_resource : (primary : Bool) → Says (resource primary) (some primary) none
  says_result : (saved : Option Bool) (delay : Option ℕ) → Says (result saved delay) saved delay

-- The snapshot that the pass began with was written over.
abbrev pub IsWritten : Pass → Type 0
IsWritten p = (p.present ≡ true) × (p.persist ≡ ok tt)

-- There was nothing to write, or it was written.
abbrev pub IsSaved : Pass → Option Bool → Type 0
IsSaved p none = (p.dirty ≡ false) ⊎ ((p.dirty ≡ true) × IsWritten p)
IsSaved p (some true) = IsWritten p
IsSaved p (some false) = ⊥

-- What there was to write was refused with the exception: by the API, or for want of a snapshot or of
-- the primary type.
abbrev pub IsRefused : Pass → Option Bool → Exception → Type 0
IsRefused p none e =
    (p.dirty ≡ true)
    × (((p.present ≡ false) × (e ≡ assertion_error)) ⊎ ((p.present ≡ true) × (p.persist ≡ raise e)))
IsRefused p (some true) e =
    ((p.present ≡ false) × (e ≡ value_error)) ⊎ ((p.present ≡ true) × (p.persist ≡ raise e))
IsRefused p (some false) e =
    ((p.present ≡ false) × (e ≡ value_error)) ⊎ ((p.present ≡ true) × (e ≡ type_error))

-- What the pass comes to: the delay that is asked for, or an exception
pub data Ends (p : Pass) : Result (Option ℕ) → Type 0 where
  raised : (e : Exception) → p.returned ≡ raise e → Ends p (raise e)
  unusable : p.returned ≡ ok other_value → Ends p (raise type_error)
  saved :
      (v : Returned) (o : Option Bool) (delay : Option ℕ)
      → p.returned ≡ ok v
      → Says v o delay
      → IsSaved p o
      → Ends p (ok delay)
  refused :
      (v : Returned) (o : Option Bool) (delay : Option ℕ) (e : Exception)
      → p.returned ≡ ok v
      → Says v o delay
      → IsRefused p o e
      → Ends p (raise e)

Says-normalise :
    (v : Returned) (o : Option Bool) (delay : Option ℕ)
    → Says v o delay
    → normalise v ≡ ok (o, delay)
unfolding normalise
Says-normalise _ _ _ says_nothing = refl
Says-normalise _ _ _ (says_wait delay) = refl
Says-normalise _ _ _ (says_resource primary) = refl
Says-normalise _ _ _ (says_result o delay) = refl

-- The end of `attempt`
abbrev write : Pass → Option Bool → Option ℕ → Result (Option ℕ)
write p o delay = with_status p o >>= λ kept. persisted p kept >> ok delay

write-saved :
    (p : Pass) (o : Option Bool) (delay : Option ℕ) → IsSaved p o → write p o delay ≡ ok delay
unfolding with_status persisted
write-saved p none delay (inl d) = rw d refl
write-saved p none delay (inr (d, (a, b))) = rw (d, a, b) refl
write-saved p (some true) delay (a, b) = rw (a, b) refl
write-saved p (some false) delay h = absurd h

write-refused :
    (p : Pass) (o : Option Bool) (delay : Option ℕ) (e : Exception)
    → IsRefused p o e
    → write p o delay ≡ raise e
unfolding with_status persisted
write-refused p none delay e (d, inl (a, b)) = rw (d, a, b) refl
write-refused p none delay e (d, inr (a, b)) = rw (d, a, b) refl
write-refused p (some true) delay e (inl (a, b)) = rw (a, b) refl
write-refused p (some true) delay e (inr (a, b)) = rw (a, b) refl
write-refused p (some false) delay e (inl (a, b)) = rw (a, b) refl
write-refused p (some false) delay e (inr (a, b)) = rw (a, b) refl

attempt-Says :
    (p : Pass) (v : Returned) (o : Option Bool) (delay : Option ℕ)
    → p.returned ≡ ok v
    → Says v o delay
    → attempt p ≡ write p o delay
unfolding attempt
attempt-Says p v o delay e s = rw (e, Says-normalise v o delay s) refl

Ends-attempt : (p : Pass) (r : Result (Option ℕ)) → Ends p r → attempt p ≡ r
Ends-attempt p _ (raised e h) = unfold attempt in rw h refl
Ends-attempt p _ (unusable h) = unfold attempt in unfold normalise in rw h refl
Ends-attempt p _ (saved v o delay h s k) = attempt-Says p v o delay h s ∙ write-saved p o delay k
Ends-attempt p _ (refused v o delay e h s k) =
    attempt-Says p v o delay h s ∙ write-refused p o delay e k

IsWritten-or :
    (p : Pass)
    → IsWritten p
      ⊎ ((p.present ≡ false) ⊎ ((p.present ≡ true) × ((e : Exception) × (p.persist ≡ raise e))))
IsWritten-or p = elim (Bool-cases p.present) [ inr f ↦ inr (inl f) | inl t ↦ go t p.persist refl ]
  where
    go :
        p.present ≡ true
        → (r : Result (Unit {0})) → p.persist ≡ r
        → IsWritten p
          ⊎ ((p.present ≡ false) ⊎ ((p.present ≡ true) × ((e : Exception) × (p.persist ≡ raise e))))
    go t (ok _) h = inl (t, h)
    go t (raise e) h = inr (inr (t, (e, h)))

IsSaved-or : (p : Pass) (o : Option Bool) → IsSaved p o ⊎ ((e : Exception) × IsRefused p o e)
IsSaved-or p none = elim (Bool-cases p.dirty) [
  | inr f ↦ inl (inl f)
  | inl d ↦ elim (IsWritten-or p) [
    | inl w ↦ inl (inr (d, w))
    | inr (inl f) ↦ inr (assertion_error, (d, inl (f, refl)))
    | inr (inr (t, (e, h))) ↦ inr (e, (d, inr (t, h)))
  ]
]
IsSaved-or p (some true) = elim (IsWritten-or p) [
  | inl w ↦ inl w
  | inr (inl f) ↦ inr (value_error, inl (f, refl))
  | inr (inr (t, (e, h))) ↦ inr (e, inr (t, h))
]
IsSaved-or p (some false) = elim (Bool-cases p.present) [
  | inl t ↦ inr (type_error, inr (t, refl))
  | inr f ↦ inr (value_error, inl (f, refl))
]

Says-or :
    (v : Returned) → (v ≡ other_value) ⊎ ((o : Option Bool) × (delay : Option ℕ) × Says v o delay)
Says-or nothing = inr (none, none, says_nothing)
Says-or other_value = inl refl
Says-or (waits delay) = inr (none, some delay, says_wait delay)
Says-or (resource primary) = inr (some primary, none, says_resource primary)
Says-or (result o delay) = inr (o, delay, says_result o delay)

-- Every pass ends.
every-Ends : (p : Pass) → (r : Result (Option ℕ)) × Ends p r
every-Ends p = go p.returned refl
  where
    go : (m : Result Returned) → p.returned ≡ m → (r : Result (Option ℕ)) × Ends p r
    go (raise e) h = (raise e, raised e h)
    go (ok v) h = elim (Says-or v) [
      | inl same ↦ (raise type_error, unusable (h ∙ ap ok same))
      | inr (o, delay, s) ↦ elim (IsSaved-or p o) [
        | inl k ↦ (ok delay, saved v o delay h s k)
        | inr (e, k) ↦ (raise e, refused v o delay e h s k)
      ]
    ]

-- The key is queued or has a timer, while the queue is open.
abbrev pub Comes : {K : Type 0} → Discrete K → K → WorkQueue K → WorkQueue K → Type 0
Comes dec key q t = (q.closed ≡ true) ⊎ IsRequested (key_state dec t key)

-- What a turn has done to the queue `q` when it ends in `t`
pub record IsAnswered {K : Type 0} (dec : Discrete K) (key : K) (now : ℕ) (p : Pass)
    (q t : WorkQueue K) : Type 0 where
  pub inv : Inv dec t
  pub released : IsReleased (key_state dec t key)
  pub ends : (r : Result (Option ℕ)) × Ends p r
  pub delayed :
      (delay : ℕ)
      → Ends p (ok (some delay))
      → Comes dec key q t
        × (key_state dec t key
            ≡ finished
                (while_open q.closed (requested_after now (ticks delay)) (key_state dec q key)))
  pub failed :
      (e : Exception)
      → Ends p (raise e)
      → e ≢ cancelled
      → (e ≢ terminal_error) ⊎ (((x : Exception) × (p.returned ≡ raise x)) × (p.report ≡ false))
      → Comes dec key q t
  pub settled :
      Ends p (ok none)
        ⊎ (Ends p (raise cancelled)
            ⊎ (Ends p (raise terminal_error)
                × (((v : Returned) × (p.returned ≡ ok v)) ⊎ (p.report ≡ true))))
      → key_state dec t key ≡ finished (key_state dec q key)

module _ {K : Type 0} (dec : Discrete K) (key : K) (now draw : ℕ) (p : Pass) (q : WorkQueue K)
    (holds : IsHeld (key_state dec q key)) (inv : Inv dec q) where
  abbrev after : WorkQueue K
  after = run dec (turn now draw key p) q

  turned : (r : Result (Option ℕ)) → Ends p r → IsTurned dec key q after (asks_more p r)
  turned r e =
      subst (λ x. IsTurned dec key q after (asks_more p x)) (Ends-attempt p r e)
        (turn-IsTurned dec key now draw p q holds inv)

  asks-Comes : (r : Result (Option ℕ)) → Ends p r → asks_more p r ≡ true → Comes dec key q after
  asks-Comes r e more = elim (turned r e).asked [
    | inl f ↦ absurd (ground (arith, f, more))
    | inr c ↦ c
  ]

  drops-finished :
      (r : Result (Option ℕ))
      → Ends p r
      → asks_more p r ≡ false
      → key_state dec after key ≡ finished (key_state dec q key)
  drops-finished r e more = elim (turned r e).dropped [
    | inl t ↦ absurd (ground (arith, t, more))
    | inr s ↦ s
  ]

  error-asks :
      (e : Exception)
      → e ≢ cancelled
      → (e ≢ terminal_error) ⊎ (((x : Exception) × (p.returned ≡ raise x)) × (p.report ≡ false))
      → asks_more p (raise e) ≡ true
  unfolding is_complete
  error-asks cancelled c k = absurd (c refl)
  error-asks terminal_error c (inl n) = absurd (n refl)
  error-asks terminal_error c (inr ((x, h), f)) = rw (h, f) refl
  error-asks e c k = refl

  terminal-asks :
      ((v : Returned) × (p.returned ≡ ok v)) ⊎ (p.report ≡ true)
      → asks_more p (raise terminal_error) ≡ false
  unfolding is_complete
  terminal-asks (inl (v, h)) = rw h refl
  terminal-asks (inr h) = ground (arith, h)

  delayed-finished :
      (delay : ℕ)
      → Ends p (ok (some delay))
      → key_state dec after key
        ≡ finished (while_open q.closed (requested_after now (ticks delay)) (key_state dec q key))
  unfolding turn after_attempt
  delayed-finished delay e =
      ap (λ r. key_state dec (run dec (after_attempt now draw key p r ++ finishes key ∷ []) q) key)
        (Ends-attempt p (ok (some delay)) e)
      ∙ delayed-state dec key now delay q inv

  -- A turn of a worker on a key that it holds keeps the invariant of the queue and leaves the key to
  -- no worker. The pass ends: with an exception of the handler, with TypeError where it returned
  -- another value, with an exception where the resource that it returned, or else the edited
  -- status, was refused, and otherwise with the delay that it said, if any. If there is a delay the
  -- state of the key is that of a request after this delay and then done, and if an exception ended
  -- the pass, but for a cancellation and for a terminal error that is dealt with, the key is queued
  -- or has a timer; both while the queue is open. In any other case its state is what done makes of
  -- the state before. A terminal error is dealt with if the handler had returned or the failure was
  -- reported.
  pub turn-IsAnswered : IsAnswered dec key now p q (run dec (turn now draw key p) q)
  turn-IsAnswered =
      let (r, e) = every-Ends p in
      record {
        inv = (turned r e).inv;
        released = (turned r e).released;
        ends = (r, e);
        delayed = λ delay k. (asks-Comes (ok (some delay)) k refl, delayed-finished delay k);
        failed = λ x k c d. asks-Comes (raise x) k (error-asks x c d);
        settled = λ k. elim k [
          | inl n ↦ drops-finished (ok none) n refl
          | inr (inl c) ↦ drops-finished (raise cancelled) c refl
          | inr (inr (t, d)) ↦ drops-finished (raise terminal_error) t (terminal-asks d)
        ];
      }
