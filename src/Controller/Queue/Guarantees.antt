-- ===== src/Controller/Queue/Guarantees.antt =====
-- What workers and event sources may rely on, cloudcoil/controller/_queue.py.
use cloudcoil.Base.{
  Bool, true, false, not, List, [], ◌∷◌, ◌≡◌, refl, arith, ◌≢◌, All, subst, ◌∙◌, ap,
}
use cloudcoil.Base.Sets.{
  contains, contains-head, contains-cons, contains-snoc, contains-insert, contains-discard,
}
use cloudcoil.Base.Results.{ok}
use cloudcoil.Base.Durations.{Duration, ticks, not_finite, negative}
use cloudcoil.Controller.Queue.{
  WorkQueue, init, fresh, get, get_from, take_key, took, missing, done, check_idle,
}
use cloudcoil.Controller.Queue.Calls.{
  Call, adds, adds_after, fires, retries, forgets, gets, finishes, shuts_down, step, run, after,
}
use cloudcoil.Controller.Queue.Invariant.{Inv, fresh-Inv, step-Inv, run-Inv}
use cloudcoil.Controller.Queue.Specification.{key_state, key_state-step, effect, first_taken}
use cloudcoil.Controller.Queue.Phases.{KeyState, again}
use cloudcoil.Controller.Queue.Keys.{KeyInv}

-- A queue that `__init__` accepts starts without keys and keeps the invariant through any calls.
pub run-init-Inv {ℓ} :
    {K : Type ℓ} (dec : Discrete K) (base_delay max_delay jitter : Duration) (cs : List (Call K))
    {q : WorkQueue K}
    → init base_delay max_delay jitter ≡ ok q
    → Inv dec (run dec cs q)
unfolding init
run-init-Inv {K = K} dec (ticks b) (ticks m) (ticks j) cs {q} e =
    run-Inv dec cs q (subst (Inv dec) {x = fresh b m j} (ground arith) (fresh-Inv dec b m j))
run-init-Inv dec b m j cs e = cc

module _ {ℓ} {K : Type ℓ} (dec : Discrete K) where
  -- A key that a getter receives was held by nobody, is held afterwards, and is no longer requested.
  get-took_from :
      (keys : List K) (q : WorkQueue K) {k : K} {p : WorkQueue K}
      → q.ready ≡ keys
      → Inv dec q
      → get_from dec keys q ≡ took k p
      → (contains dec k q.processing ≡ false)
        × (contains dec k p.processing ≡ true)
        × (contains dec k p.dirty ≡ false)
  unfolding get_from take_key
  get-took_from [] q e h t = ground arith
  get-took_from (key ∷ rest) q e h t =
      let keys = h.keys key in
      ground (
        arith,
        contains-head dec key rest,
        contains-insert dec key key q.processing,
        contains-discard dec key key q.dirty,
      )

  not_missing :
      (keys : List K) (q : WorkQueue K) → q.ready ≡ keys → Inv dec q → get_from dec keys q ≢ missing
  unfolding get_from
  not_missing [] q e h = λ m. ground arith
  not_missing (key ∷ rest) q e h =
      λ m. let keys = h.keys key in ground (arith, contains-head dec key rest)

  -- `get` never raises `KeyError`, and a key that it returns was held by no worker, is held from
  -- then on, and is requested no longer: two workers never hold one key.
  pub get-exclusive :
      (q : WorkQueue K)
      → Inv dec q
      → (get dec q ≢ missing)
        × ((k : K) (p : WorkQueue K)
            → get dec q ≡ took k p
            → (contains dec k q.processing ≡ false)
              × (contains dec k p.processing ≡ true)
              × (contains dec k p.dirty ≡ false))
  unfolding get
  get-exclusive q h = (not_missing q.ready q refl h, λ k p t. get-took_from q.ready q refl h t)

  -- The calls that do not give `k` back and do not throw requests away.
  abbrev pub spares : K → Call K → Bool
  spares k (finishes j) = elim (dec j k) [ yes _ ↦ false | no _ ↦ true ]
  spares k (shuts_down immediate) = not immediate
  spares k c = true

  -- A key that is held and requested again is not ready, so no getter takes it.
  first_taken-again :
      (k : K) (keys : List K) (s : KeyState)
      → contains dec k keys ≡ false
      → s.phase ≡ again
      → (first_taken dec keys k s).phase ≡ again
  first_taken-again k [] s c a = a
  first_taken-again k (key ∷ rest) s c a = ground (arith, contains-cons dec k key rest)

  again-unready :
      (k : K) (q : WorkQueue K)
      → KeyInv dec q k
      → (key_state dec q k).phase ≡ again
      → (contains dec k q.ready ≡ false) × (q.immediate ≡ false)
  unfolding key_state
  again-unready k q h a = ground arith

  effect-again :
      (k : K) (c : Call K) (q : WorkQueue K) (s : KeyState)
      → contains dec k q.ready ≡ false
      → q.immediate ≡ false
      → spares k c ≡ true
      → s.phase ≡ again
      → (effect dec c q k s).phase ≡ again
  unfolding effect
  effect-again k (adds key) q s c i p a = ground arith
  effect-again k (adds_after now key (ticks delay)) q s c i p a = ground arith
  effect-again k (adds_after now key not_finite) q s c i p a = ground arith
  effect-again k (adds_after now key (negative n)) q s c i p a = ground arith
  effect-again k (fires key) q s c i p a = ground arith
  effect-again k (retries now draw key) q s c i p a = ground arith
  effect-again k (forgets key) q s c i p a = a
  effect-again k gets q s c i p a = first_taken-again k q.ready s c a
  effect-again k (finishes key) q s c i p a = ground arith
  effect-again k (shuts_down true) q s c i p a = ground arith
  effect-again k (shuts_down false) q s c i p a = ground arith

  run-again :
      (k : K) (cs : List (Call K)) (q : WorkQueue K)
      → Inv dec q
      → All (λ c. spares k c ≡ true) cs
      → (key_state dec q k).phase ≡ again
      → (key_state dec (run dec cs q) k).phase ≡ again
  unfolding run
  run-again k [] q h p a = a
  run-again k (c ∷ cs) q h p a =
      let (unready, kept) = again-unready k q (h.keys k) a in
      run-again k cs (step dec c q) (step-Inv dec c q h) p.1 (
        ap (λ (s : KeyState). s.phase) (key_state-step dec c q k h)
        ∙ effect-again k c q (key_state dec q k) unready kept p.0 a)

  done-again :
      (k : K) (q : WorkQueue K)
      → KeyInv dec q k
      → (key_state dec q k).phase ≡ again
      → (p : WorkQueue K) × (done dec k q ≡ ok p)
        × (contains dec k p.ready ≡ true)
        × (p.available ≡ true)
  unfolding done check_idle key_state
  done-again k q h a = (
    after q (done dec k q),
    ground (arith, contains-discard dec k k q.processing),
    ground (arith, contains-discard dec k k q.processing, contains-snoc dec k k q.ready),
    ground (arith, contains-discard dec k k q.processing),
  )

  -- An update is never lost: once a held key is requested again, then whatever calls follow, short
  -- of an immediate shutdown, the worker's `done` succeeds, makes the key ready and wakes a getter.
  pub update_kept :
      (k : K) (cs : List (Call K)) (q : WorkQueue K)
      → Inv dec q
      → All (λ c. spares k c ≡ true) cs
      → (key_state dec q k).phase ≡ again
      → (p : WorkQueue K) × (done dec k (run dec cs q) ≡ ok p)
        × (contains dec k p.ready ≡ true)
        × (p.available ≡ true)
  update_kept k cs q h p a =
      done-again k (run dec cs q) ((run-Inv dec cs q h).keys k) (run-again k cs q h p a)
