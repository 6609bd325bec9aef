-- ===== src/Caching/Watch/Delays.antt =====
-- The delays of `_ExponentialBackoff` in cloudcoil/caching/_watch_manager.py.
use cloudcoil.Base.{
  ℕ, suc, ◌+◌, ◌*◌, ◌/◌, ◌^◌, ◌≤◌, ◌<◌, min, List, [], ◌∷◌, length, ◌≡◌, refl, sym, ap, ◌∙◌, arith,
  dec_le,
}
use native.Mathlib.Nat.{
  pow-zero, pow-succ', mul-le-mul_left, mul_assoc, mul-one, le-mul_of_pos_right, mul-le-mul_right,
}
use cloudcoil.Caching.Watch.{Backoff, jitter_amount, next_delay, reset}

-- The backoff after the draws.
unfoldable pub after : List ℕ → Backoff → Backoff
after [] b = b
after (draw ∷ draws) b = after draws (next_delay draw b).1

min-mul : (a m k : ℕ) → 0 < k → min (min a m * k) m ≡ min (a * k) m
min-mul a m k h = elim (dec_le a m) [
  | yes p ↦ ap (λ (t : ℕ). min (t * k) m) (min_low p)
  | no n ↦
      let high : min a m ≡ m = omega (arith, n) in
      let over : m ≤ m * k = le-mul_of_pos_right m h in
      let more : m * k ≤ a * k = mul-le-mul_right k (omega (arith, n)) in
      ap (λ (t : ℕ). min (t * k) m) high ∙ omega (arith, over, more)
]
  where
    min_low : a ≤ m → min a m ≡ a
    min_low p = omega (arith, p)

times-pow : (x k n : ℕ) → x * k ^ suc n ≡ x * k * k ^ n
times-pow x k n = ap (λ (t : ℕ). x * t) (pow-succ' k n) ∙ sym (mul_assoc x k (k ^ n))

after-current_delay :
    (draws : List ℕ) (x : ℕ) (b : Backoff)
    → 0 < b.multiplier
    → b.current_delay ≡ min x b.max_delay
    → (after draws b).current_delay ≡ min (x * b.multiplier ^ length draws) b.max_delay
unfolding after next_delay
after-current_delay [] x b p h =
    h
    ∙ ap (λ (t : ℕ). min t b.max_delay)
        (sym (ap (λ (t : ℕ). x * t) (pow-zero b.multiplier) ∙ mul-one x))
after-current_delay (draw ∷ draws) x b p h =
    after-current_delay draws (x * b.multiplier) (next_delay draw b).1 p
      (ap (λ (t : ℕ). min (t * b.multiplier) b.max_delay) h ∙ min-mul x b.max_delay b.multiplier p)
    ∙ ap (λ (t : ℕ). min t b.max_delay) (sym (times-pow x b.multiplier (length draws)))

div_mono : (a b : ℕ) → a ≤ b → a / 1000 ≤ b / 1000
div_mono a b h = omega (arith, h)

keeps_max : (draws : List ℕ) (b : Backoff) → (after draws b).max_delay ≡ b.max_delay
unfolding after next_delay
keeps_max [] b = refl
keeps_max (draw ∷ draws) b = keeps_max draws (next_delay draw b).1

keeps_jitter : (draws : List ℕ) (b : Backoff) → (after draws b).jitter ≡ b.jitter
unfolding after next_delay
keeps_jitter [] b = refl
keeps_jitter (draw ∷ draws) b = keeps_jitter draws (next_delay draw b).1

-- With a positive multiplier, an initial delay within the limit, a jitter of at most one and a draw
-- of at most twice the jitter, the delay after a reset and n delays is the initial one times the
-- multiplier to the n, cut at the limit, and the jittered delay is neither above nor below it by
-- more than the jitter and stays within the limit and the jitter of the limit.
pub next_delay-after-reset :
    (draws : List ℕ) (draw : ℕ) (b : Backoff)
    → 0 < b.multiplier
    → b.initial_delay ≤ b.max_delay
    → b.jitter ≤ 1000
    → draw ≤ 2 * jitter_amount (after draws (reset b))
    → let c = after draws (reset b) in
      (c.current_delay ≡ min (b.initial_delay * b.multiplier ^ length draws) b.max_delay)
      × ((next_delay draw c).0 ≤ b.max_delay + b.max_delay * b.jitter / 1000)
      × (c.current_delay ≤ (next_delay draw c).0 + jitter_amount c)
      × ((next_delay draw c).0 ≤ c.current_delay + jitter_amount c)
unfolding next_delay jitter_amount reset
next_delay-after-reset draws draw b p q j d =
    let c = after draws (reset b) in
    let current = after-current_delay draws b.initial_delay (reset b) p (omega (arith, q)) in
    let below : c.current_delay ≤ b.max_delay = omega (arith, current) in
    let scaled : c.current_delay * b.jitter ≤ b.max_delay * b.jitter =
      mul-le-mul_right b.jitter below in
    let amount = div_mono (c.current_delay * b.jitter) (b.max_delay * b.jitter) scaled in
    let same : c.current_delay * c.jitter / 1000 ≡ c.current_delay * b.jitter / 1000 =
      ap (λ (t : ℕ). c.current_delay * t / 1000) (keeps_jitter draws (reset b)) in
    let part : c.current_delay * b.jitter ≤ c.current_delay * 1000 =
      mul-le-mul_left c.current_delay j in
    let least = div_mono (c.current_delay * b.jitter) (c.current_delay * 1000) part in
    (
      current,
      omega (arith, d, below, amount, same, least),
      omega (arith, same),
      omega (arith, d, same, least),
    )
