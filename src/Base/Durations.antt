-- ===== src/Base/Durations.antt =====
-- Python floats that stand for lengths of time. A finite one is a whole number of ticks, which may
-- be as fine as the clock; the other cases are those that the code tests for.
use Prim.Native.Nat.{ℕ}

pub data Duration : Type 0 where
  not_finite : Duration  -- nan and the infinities
  negative : ℕ → Duration  -- below zero, by so many ticks and one
  ticks : ℕ → Duration
