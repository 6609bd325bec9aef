-- ===== src/Controller/Queue.antt =====
-- cloudcoil/controller/_queue.py: `WorkQueue`. Sets and the deque are lists of keys, `_delayed` maps
-- a key to the deadline of its timer, and the two `asyncio.Event`s are Booleans. A coroutine that
-- would wait returns `waiting`; the event loop calls it again once `available` is set.
pub mod Backoff
pub mod Calls
pub mod Events
pub mod Keys
pub mod Invariant
pub mod Phases
pub mod Specification
pub mod Guarantees
pub mod Drain
mod Tests
use cloudcoil.Base.{
  ℕ, zero, suc, ◌+◌, Bool, true, false, not, ◌&&◌, ◌||◌, none, some, List, [], ◌∷◌, ◌++◌, ltb, leb,
  ◌==◌, if◌then◌else◌, is_empty, min, ◌*◌, ◌/◌, ◌^◌,
}
use cloudcoil.Base.Sets.{contains, insert, discard}
use cloudcoil.Base.Dicts.{lookup, put, pop}
use cloudcoil.Base.Results.{Result, ok, raise, value_error, ◌>>=◌}
use cloudcoil.Base.Durations.{Duration, ticks}

-- A jitter of 1.0, in the parts that `jitter` and a random draw are counted in.
abbrev pub whole : ℕ
whole = 1000

pub record WorkQueue {ℓ} (K : Type ℓ) : Type ℓ where
  pub base_delay : ℕ
  pub max_delay : ℕ
  pub jitter : ℕ
  pub ready : List K
  pub dirty : List K
  pub processing : List K
  pub delayed : List (K × ℕ)
  pub retries : List (K × ℕ)
  pub available : Bool
  pub idle : Bool
  pub closed : Bool
  pub immediate : Bool

-- The fields of a new queue, once the settings are accepted.
unfoldable pub fresh {ℓ} : {K : Type ℓ} → ℕ → ℕ → ℕ → WorkQueue K
fresh base_delay max_delay jitter = record {
  base_delay = base_delay;
  max_delay = max_delay;
  jitter = jitter;
  ready = [];
  dirty = [];
  processing = [];
  delayed = [];
  retries = [];
  available = false;
  idle = true;
  closed = false;
  immediate = false;
}

-- `__init__`
unfoldable pub init {ℓ} : {K : Type ℓ} → Duration → Duration → Duration → Result (WorkQueue K)
unfolding fresh
init (ticks base_delay) (ticks max_delay) (ticks jitter) =
    if base_delay == 0 || ltb max_delay base_delay || ltb whole jitter
    then raise value_error
    else ok (fresh base_delay max_delay jitter)
init _ _ _ = raise value_error

-- The least `n` with `limit ≤ delay * 2 ^ n`. The code takes it as `ceil(log2(limit) - log2(delay))`
-- with floats, whose rounding may move it by one at a power of two; here it is exact.
unfoldable pub doublings : ℕ → ℕ → ℕ → ℕ
doublings zero delay limit = 0
doublings (suc fuel) delay limit =
    let more = suc (doublings fuel (delay * 2) limit) in if leb limit delay then 0 else more

-- The delay of `retry` before the jitter. A limit is at most `delay * 2 ^ limit`.
unfoldable pub backoff_delay : ℕ → ℕ → ℕ → ℕ
unfolding doublings
backoff_delay base_delay max_delay attempt =
    if leb (doublings max_delay base_delay max_delay) attempt
    then max_delay
    else base_delay * 2 ^ attempt

-- What `get` does when it is called or woken.
pub data Taken {ℓ} (K : Type ℓ) : Type ℓ where
  took : K → WorkQueue K → Taken K
  missing : Taken K  -- `_dirty.remove` raises `KeyError`
  drained : Taken K  -- raises `QueueClosed`
  waiting : WorkQueue K → Taken K

-- `_check_idle`
unfoldable pub check_idle {ℓ} : {K : Type ℓ} → WorkQueue K → WorkQueue K
check_idle q =
    if not (is_empty q.dirty) || not (is_empty q.processing) || not (is_empty q.delayed)
    then q
    else record q { idle = true }

-- `shutdown(immediate=…)`
unfoldable pub shutdown {ℓ} : {K : Type ℓ} → Bool → WorkQueue K → WorkQueue K
shutdown immediate q =
    let p = record q {
      closed = true;
      immediate = q.immediate || immediate;
      delayed = [];
      retries = [];
      available = true;
    } in
    check_idle (if p.immediate then record p { ready = []; dirty = [] } else p)

module _ {ℓ} {K : Type ℓ} (dec : Discrete K) where
  unfoldable pub add : K → WorkQueue K → WorkQueue K
  add key q =
      let p = record q { delayed = pop dec key q.delayed } in
      let d = record p { idle = false; dirty = insert dec key p.dirty } in
      if q.closed
      then q
      else if contains dec key p.dirty
      then p
      else if contains dec key d.processing
      then d
      else record d { ready = d.ready ++ key ∷ []; available = true }

  -- The end of `add_after`: a new timer, which replaces the one that it cancels.
  unfoldable pub call_at : ℕ → K → WorkQueue K → WorkQueue K
  call_at deadline key q = record q { idle = false; delayed = put dec key deadline q.delayed }

  -- `add_after`; `now` is the time of the event loop
  unfoldable pub add_after : ℕ → K → Duration → WorkQueue K → Result (WorkQueue K)
  add_after now key (ticks delay) q =
      if q.closed
      then ok q
      else if delay == 0
      then ok (add key q)
      else if contains dec key q.dirty
      then ok q
      else elim (lookup dec key q.delayed) [
        | some when ↦ if leb when (now + delay) then ok q else ok (call_at (now + delay) key q)
        | none ↦ ok (call_at (now + delay) key q)
      ]
  add_after now key _ q = raise value_error

  -- `_release`, the callback of a timer
  unfoldable pub release : K → WorkQueue K → WorkQueue K
  release key q = add key (record q { delayed = pop dec key q.delayed })

  unfoldable pub num_retries : K → WorkQueue K → ℕ
  num_retries key q = elim (lookup dec key q.retries) [ some n ↦ n | none ↦ 0 ]

  -- The delay that `retry` returns; `draw` is the random factor, in parts of `whole`.
  unfoldable pub retry_delay : ℕ → K → WorkQueue K → ℕ
  retry_delay draw key q =
      min q.max_delay (backoff_delay q.base_delay q.max_delay (num_retries key q) * draw / whole)

  -- `self._retries[key] = attempt + 1`
  unfoldable pub count_retry : K → WorkQueue K → WorkQueue K
  count_retry key q = record q { retries = put dec key (num_retries key q + 1) q.retries }

  unfoldable pub retry : ℕ → ℕ → K → WorkQueue K → Result (WorkQueue K × ℕ)
  retry now draw key q =
      let delay = retry_delay draw key q in
      if q.closed
      then ok (q, 0)
      else (add_after now key (ticks delay) (count_retry key q) >>= λ p. ok (p, delay))

  unfoldable pub forget : K → WorkQueue K → WorkQueue K
  forget key q = record q { retries = pop dec key q.retries }

  -- `get` with a first key
  unfoldable pub take_key : K → List K → WorkQueue K → WorkQueue K
  take_key key rest q = record q {
    ready = rest;
    dirty = discard dec key q.dirty;
    processing = insert dec key q.processing;
  }

  -- `get`, from one test of `_ready` to the next
  unfoldable pub get_from : List K → WorkQueue K → Taken K
  get_from [] q = if q.closed then drained else waiting (record q { available = false })
  get_from (key ∷ rest) q =
      if contains dec key q.dirty then took key (take_key key rest q) else missing

  unfoldable pub get : WorkQueue K → Taken K
  unfolding get_from
  get q = get_from q.ready q

  unfoldable pub done : K → WorkQueue K → Result (WorkQueue K)
  done key q =
      let p = record q { processing = discard dec key q.processing } in
      if not (contains dec key q.processing)
      then raise value_error
      else ok (
          check_idle (
            if contains dec key p.dirty && not p.immediate
            then record p { ready = p.ready ++ key ∷ []; available = true }
            else p))
