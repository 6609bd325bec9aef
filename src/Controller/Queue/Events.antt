-- ===== src/Controller/Queue/Events.antt =====
-- The two events of `WorkQueue`, cloudcoil/controller/_queue.py: they tell exactly what they stand for.
use cloudcoil.Base.{ℕ, ◌+◌, Bool, true, false, ◌&&◌, some, List, ◌∷◌, ◌≡◌, arith, is_empty}
use cloudcoil.Base.Sets.{contains, insert-nonempty, snoc-nonempty, contains-nonempty}
use cloudcoil.Base.Dicts.{lookup, put-nonempty, lookup-nonempty}
use cloudcoil.Base.Results.{ok}
use cloudcoil.Base.Durations.{Duration, not_finite, negative, ticks}
use cloudcoil.Controller.Queue.{
  WorkQueue, check_idle, add, call_at, add_after, release, take_key, done, shutdown,
}
use cloudcoil.Controller.Queue.Keys.{KeyInv}

-- `join` may return: nothing is dirty, in flight or delayed.
abbrev pub is_quiet {ℓ} : {K : Type ℓ} → WorkQueue K → Bool
is_quiet q = is_empty q.dirty && is_empty q.processing && is_empty q.delayed

-- The two events: `available` is set while there is a key or the queue is closed, so no getter
-- sleeps beside work, and `idle` is set exactly while nothing is left.
pub record Events {ℓ} {K : Type ℓ} (q : WorkQueue K) : Type 0 where
  pub wakes : is_empty q.ready ≡ false → q.available ≡ true
  pub closed_wakes : q.closed ≡ true → q.available ≡ true
  pub idle_exact : q.idle ≡ is_quiet q

module _ {ℓ} {K : Type ℓ} (dec : Discrete K) where
  pub add-Events : (key : K) (q : WorkQueue K) → Events q → Events (add dec key q)
  unfolding add
  add-Events key q h = ground (
    arith,
    insert-nonempty dec key q.dirty,
    snoc-nonempty q.ready key,
    contains-nonempty dec key q.dirty,
  )

  pub add_after-Events :
      (now : ℕ) (key : K) (delay : Duration) (q : WorkQueue K) {p : WorkQueue K}
      → Events q
      → add_after dec now key delay q ≡ ok p
      → Events p
  unfolding add_after call_at
  add_after-Events now key (ticks delay) q h e =
      ground (arith, add-Events key q h, put-nonempty dec key (now + delay) q.delayed)
  add_after-Events now key not_finite q h e = cc
  add_after-Events now key (negative n) q h e = cc

  -- The timer that fires is pending, so the queue was not idle.
  pub release-Events :
      (key : K) (q : WorkQueue K) {when : ℕ}
      → Events q
      → KeyInv dec q key
      → lookup dec key q.delayed ≡ some when
      → Events (release dec key q)
  unfolding release add
  release-Events key q events keys e = ground (
    arith,
    insert-nonempty dec key q.dirty,
    snoc-nonempty q.ready key,
    contains-nonempty dec key q.dirty,
    lookup-nonempty dec key q.delayed e,
  )

  pub take_key-Events :
      (key : K) (rest : List K) (q : WorkQueue K)
      → q.ready ≡ key ∷ rest
      → contains dec key q.dirty ≡ true
      → Events q
      → Events (take_key dec key rest q)
  unfolding take_key
  take_key-Events key rest q e d h =
      ground (arith, insert-nonempty dec key q.processing, contains-nonempty dec key q.dirty)

  pub done-Events :
      (key : K) (q : WorkQueue K) {p : WorkQueue K} → Events q → done dec key q ≡ ok p → Events p
  unfolding done check_idle
  done-Events key q h e =
      ground (arith, contains-nonempty dec key q.processing, snoc-nonempty q.ready key)

  pub shutdown-Events :
      (immediate : Bool) (q : WorkQueue K) → Events q → Events (shutdown immediate q)
  unfolding shutdown check_idle
  shutdown-Events immediate q h = ground arith
