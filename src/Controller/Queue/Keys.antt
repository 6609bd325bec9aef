-- ===== src/Controller/Queue/Keys.antt =====
-- What holds of one key of a queue between two calls, cloudcoil/controller/_queue.py.
use cloudcoil.Base.{ℕ, ◌+◌, Bool, true, false, none, List, ◌∷◌, ◌≡◌, arith}
use cloudcoil.Base.Sets.{
  contains, contains-insert, contains-discard, contains-snoc, contains-nil, contains-cons,
}
use cloudcoil.Base.Dicts.{lookup, lookup-put, lookup-pop, lookup-nil, pop}
use cloudcoil.Base.Results.{ok}
use cloudcoil.Base.Durations.{Duration, not_finite, negative, ticks}
use cloudcoil.Controller.Queue.{
  WorkQueue, fresh, check_idle, add, call_at, add_after, release, take_key, done, shutdown,
}

-- The facts about the key `k`: a ready key is dirty and no worker holds it, a dirty key is ready or
-- held by a worker, and a key with a timer is not dirty.
pub record KeyInv {ℓ} {K : Type ℓ} (dec : Discrete K) (q : WorkQueue K) (k : K) : Type 0 where
  pub ready_dirty : contains dec k q.ready ≡ true → contains dec k q.dirty ≡ true
  pub ready_free : contains dec k q.ready ≡ true → contains dec k q.processing ≡ false
  pub dirty_held :
      contains dec k q.dirty ≡ true
      → contains dec k q.processing ≡ false
      → contains dec k q.ready ≡ true
  pub dirty_undelayed : contains dec k q.dirty ≡ true → lookup dec k q.delayed ≡ none
  pub closed_undelayed : q.closed ≡ true → lookup dec k q.delayed ≡ none
  pub discarded : q.immediate ≡ true → (q.closed ≡ true) × (contains dec k q.dirty ≡ false)

module _ {ℓ} {K : Type ℓ} (dec : Discrete K) (k : K) where
  pub fresh-KeyInv : (b m j : ℕ) → KeyInv dec (fresh b m j) k
  unfolding fresh
  fresh-KeyInv b m j = ground (arith, contains-nil dec k, lookup-nil {V = ℕ} dec k)

  pub check_idle-KeyInv : (q : WorkQueue K) → KeyInv dec q k → KeyInv dec (check_idle q) k
  unfolding check_idle
  check_idle-KeyInv q h = ground arith

  pub add-KeyInv : (key : K) (q : WorkQueue K) → KeyInv dec q k → KeyInv dec (add dec key q) k
  unfolding add
  add-KeyInv key q h = ground (
    arith,
    contains-insert dec k key q.dirty,
    contains-snoc dec k key q.ready,
    lookup-pop dec key k q.delayed,
  )

  call_at-KeyInv :
      (deadline : ℕ) (key : K) (q : WorkQueue K)
      → q.closed ≡ false
      → contains dec key q.dirty ≡ false
      → KeyInv dec q k
      → KeyInv dec (call_at dec deadline key q) k
  unfolding call_at
  call_at-KeyInv deadline key q o c h = ground (arith, lookup-put dec key k deadline q.delayed)

  pub add_after-KeyInv :
      (now : ℕ) (key : K) (delay : Duration) (q : WorkQueue K) {p : WorkQueue K}
      → KeyInv dec q k
      → add_after dec now key delay q ≡ ok p
      → KeyInv dec p k
  unfolding add_after
  add_after-KeyInv now key (ticks delay) q h e = ground (
    arith,
    add-KeyInv key q h,
    λ (o : q.closed ≡ false) (c : contains dec key q.dirty ≡ false).
        call_at-KeyInv (now + delay) key q o c h,
  )
  add_after-KeyInv now key not_finite q h e = cc
  add_after-KeyInv now key (negative n) q h e = cc

  undelay-KeyInv :
      (key : K) (q : WorkQueue K)
      → KeyInv dec q k
      → KeyInv dec (record q { delayed = pop dec key q.delayed }) k
  undelay-KeyInv key q h = ground (arith, lookup-pop dec key k q.delayed)

  pub release-KeyInv :
      (key : K) (q : WorkQueue K) → KeyInv dec q k → KeyInv dec (release dec key q) k
  unfolding release
  release-KeyInv key q h = add-KeyInv key _ (undelay-KeyInv key q h)

  -- The failure counts play no part.
  pub recount-KeyInv :
      (counts : List (K × ℕ)) (q : WorkQueue K)
      → KeyInv dec q k
      → KeyInv dec (record q { retries = counts }) k
  recount-KeyInv counts q h = ground arith

  pub wait-KeyInv :
      (q : WorkQueue K) → KeyInv dec q k → KeyInv dec (record q { available = false }) k
  wait-KeyInv q h = ground arith

  pub take_key-KeyInv :
      (key : K) (rest : List K) (q : WorkQueue K)
      → q.ready ≡ key ∷ rest
      → contains dec key rest ≡ false
      → KeyInv dec q k
      → KeyInv dec (take_key dec key rest q) k
  unfolding take_key
  take_key-KeyInv key rest q e u h = ground (
    arith,
    contains-insert dec k key q.processing,
    contains-discard dec k key q.dirty,
    contains-cons dec k key rest,
  )

  pub done-KeyInv :
      (key : K) (q : WorkQueue K) {p : WorkQueue K}
      → KeyInv dec q k
      → done dec key q ≡ ok p
      → KeyInv dec p k
  unfolding done check_idle
  done-KeyInv key q h e =
      ground (arith, contains-discard dec k key q.processing, contains-snoc dec k key q.ready)

  pub shutdown-KeyInv :
      (immediate : Bool) (q : WorkQueue K) → KeyInv dec q k → KeyInv dec (shutdown immediate q) k
  unfolding shutdown check_idle
  shutdown-KeyInv immediate q h = ground (arith, contains-nil dec k, lookup-nil {V = ℕ} dec k)
