-- ===== src/Controller/Queue/Backoff.antt =====
-- The retry delay of `WorkQueue.retry`, cloudcoil/controller/_queue.py: the clamped exponent
-- against the plain formula, and the bounds of the jittered delay.
use cloudcoil.Base.{ℕ, zero, suc, ◌+◌, ◌*◌, ◌/◌, ◌^◌, ◌-◌, ◌≤◌, ◌<◌, min, ◌≡◌, arith, sym, ap, ◌∙◌}
use native.Mathlib.Nat.{pow-succ', mul_assoc, pow-le-pow_right, mul-le-mul_left}
use cloudcoil.Controller.Queue.{
  WorkQueue, doublings, backoff_delay, retry_delay, whole, num_retries,
}

double-pow : (delay n : ℕ) → delay * 2 ^ suc n ≡ delay * 2 * 2 ^ n
double-pow delay n = ap (λ (t : ℕ). delay * t) (pow-succ' 2 n) ∙ sym (mul_assoc delay 2 (2 ^ n))

-- With enough fuel the count is reached.
le-doublings :
    (fuel delay limit : ℕ)
    → limit ≤ delay + fuel
    → 0 < delay
    → limit ≤ delay * 2 ^ doublings fuel delay limit
unfolding doublings
le-doublings zero delay limit h p = omega arith
le-doublings (suc fuel) delay limit h p = ground (
  arith,
  le-doublings fuel (delay * 2) limit,
  double-pow delay (doublings fuel (delay * 2) limit),
)

-- It is the least count.
doublings-lt : (fuel delay limit n : ℕ) → n < doublings fuel delay limit → delay * 2 ^ n < limit
unfolding doublings
doublings-lt zero delay limit n h = absurd (omega arith)
doublings-lt (suc fuel) delay limit zero h = ground arith
doublings-lt (suc fuel) delay limit (suc n) h =
    ground (arith, doublings-lt fuel (delay * 2) limit n, double-pow delay n)

-- Clamping the exponent first changes nothing: the delay doubles with each attempt, up to the limit.
pub backoff_delay-eq-min :
    (base_delay max_delay attempt : ℕ)
    → 0 < base_delay
    → backoff_delay base_delay max_delay attempt ≡ min max_delay (base_delay * 2 ^ attempt)
unfolding backoff_delay
backoff_delay-eq-min base_delay max_delay attempt p =
    let cap = doublings max_delay base_delay max_delay in
    ground (
      arith,
      le-doublings max_delay base_delay max_delay,
      doublings-lt max_delay base_delay max_delay attempt,
      λ (h : cap ≤ attempt). mul-le-mul_left base_delay (pow-le-pow_right {n = 2} (omega arith) h),
    )

div_mono : (a b : ℕ) → a ≤ b → a / whole ≤ b / whole
div_mono a b h = omega arith

-- The delay of a retry is at most the limit, and falls short of the doubling delay of the key's
-- failures by the jitter at most.
pub retry_delay_bounds {ℓ} :
    {K : Type ℓ} (dec : Discrete K) (draw : ℕ) (key : K) (q : WorkQueue K)
    → 0 < q.base_delay
    → q.jitter ≤ whole
    → whole - q.jitter ≤ draw
    → (retry_delay dec draw key q ≤ q.max_delay)
      × (min q.max_delay (q.base_delay * 2 ^ num_retries dec key q) * (whole - q.jitter) / whole
          ≤ retry_delay dec draw key q)
unfolding retry_delay
retry_delay_bounds dec draw key q p j d =
    let plain = min q.max_delay (q.base_delay * 2 ^ num_retries dec key q) in
    let low = whole - q.jitter in
    let e = backoff_delay-eq-min q.base_delay q.max_delay (num_retries dec key q) p in
    let capped : plain * low ≤ plain * whole = mul-le-mul_left plain (omega arith) in
    let drawn : plain * low ≤ plain * draw = mul-le-mul_left plain d in
    rw e (omega arith, omega arith)
