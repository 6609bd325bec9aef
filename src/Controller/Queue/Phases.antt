-- ===== src/Controller/Queue/Phases.antt =====
-- The state machine of one key of a work queue: what cloudcoil/controller/_queue.py promises of it.
use cloudcoil.Base.{ℕ, ◌+◌, Bool, true, false, Option, none, some, if◌then◌else◌, leb, ◌==◌}
use cloudcoil.Base.Durations.{Duration, ticks}

-- Absent, waiting for a worker, held by a worker, or held and requested again meanwhile.
pub data Phase : Type 0 where
  absent queued held again : Phase

pub record KeyState : Type 0 where
  pub phase : Phase
  pub timer : Option ℕ

abbrev pub phase_of : (dirty processing : Bool) → Phase
phase_of false false = absent
phase_of true false = queued
phase_of false true = held
phase_of true true = again

-- A request now drops the timer.
abbrev pub requested : KeyState → KeyState
requested s = record {
  phase = elim s.phase [ absent ↦ queued | queued ↦ queued | held ↦ again | again ↦ again ];
  timer = none;
}

abbrev pub earliest : ℕ → Option ℕ → ℕ
earliest deadline none = deadline
earliest deadline (some when) = if leb when deadline then when else deadline

-- A request for later counts only if the key is not requested already; the earliest deadline stays.
abbrev pub scheduled : ℕ → KeyState → KeyState
scheduled deadline s = record s {
  timer = elim s.phase [
    | queued ↦ s.timer
    | again ↦ s.timer
    | _ ↦ some (earliest deadline s.timer)
  ];
}

abbrev pub requested_after : ℕ → Duration → KeyState → KeyState
requested_after now (ticks delay) s = if delay == 0 then requested s else scheduled (now + delay) s
requested_after now _ s = s

abbrev pub fired : KeyState → KeyState
fired s = elim s.timer [ some _ ↦ requested s | none ↦ s ]

-- A worker takes the key, and gives it back: a key requested meanwhile waits once more.
abbrev pub taken : KeyState → KeyState
taken s = record s { phase = held }

abbrev pub finished : KeyState → KeyState
finished s = record s { phase = elim s.phase [ again ↦ queued | held ↦ absent | p ↦ p ] }

-- A shutdown drops the timer; an immediate one drops the request too, and never what a worker holds.
abbrev pub stopped : Bool → KeyState → KeyState
stopped false s = record s { timer = none }
stopped true s = record {
  phase = elim s.phase [ queued ↦ absent | again ↦ held | p ↦ p ];
  timer = none;
}

-- Apply `f` at the key `k`.
abbrev pub at {ℓ} : {K : Type ℓ} → Discrete K → K → K → (KeyState → KeyState) → KeyState → KeyState
at dec k j f s = elim (dec k j) [ yes _ ↦ f s | no _ ↦ s ]

-- A closed queue takes no request.
abbrev pub while_open : Bool → (KeyState → KeyState) → KeyState → KeyState
while_open closed f s = if closed then s else f s
