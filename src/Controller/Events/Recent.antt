-- ===== src/Controller/Events/Recent.antt =====
-- The keys that EventRecorder of cloudcoil/controller/_events.py remembers, oldest first.
use cloudcoil.Base.{
  ℕ, ◌+◌, ◌≤◌, ◌<◌, none, some, List, [], ◌∷◌, ◌++◌, ◌≡◌, ◌≢◌, refl, ◌∙◌, arith, length,
  length-append,
}
use cloudcoil.Base.Dicts.{lookup, lookup-pop, pop, length-pop-le}
use cloudcoil.Controller.Events.{EventKey, EventKey-discrete, touch, trim}

abbrev Memory : Type 0
Memory = List (EventKey × ℕ)

pub length-trim : (m : ℕ) (l : Memory) → length (trim m l) ≤ m
unfolding trim
length-trim m [] = omega arith
length-trim m (e ∷ l) = ground (arith, length-trim m l)

-- How many entries are newer than that of `key`
unfoldable pub behind : EventKey → Memory → ℕ
behind key [] = 0
behind key ((j, w) ∷ l) = elim (EventKey-discrete key j) [ yes _ ↦ length l | no _ ↦ behind key l ]

-- A key whose entry is among the newest `m` stays.
pub trim-kept :
    (key : EventKey) (m : ℕ) (l : Memory)
    → behind key l < m
    → (lookup EventKey-discrete key (trim m l) ≡ lookup EventKey-discrete key l)
      × (behind key (trim m l) ≡ behind key l)
unfolding trim behind lookup
trim-kept key m [] h = (refl, refl)
trim-kept key m ((j, w) ∷ l) h = ground (arith, trim-kept key m l)

lookup-snoc_self :
    (key : EventKey) (now : ℕ) (l : Memory)
    → lookup EventKey-discrete key l ≡ none
    → (lookup EventKey-discrete key (l ++ (key, now) ∷ []) ≡ some now)
      × (behind key (l ++ (key, now) ∷ []) ≡ 0)
unfolding lookup behind
lookup-snoc_self key now [] h = ground arith
lookup-snoc_self key now ((j, w) ∷ l) h = ground (arith, lookup-snoc_self key now l)

lookup-snoc :
    (key j : EventKey) (now : ℕ) (l : Memory)
    → key ≢ j
    → (lookup EventKey-discrete key (l ++ (j, now) ∷ []) ≡ lookup EventKey-discrete key l)
unfolding lookup
lookup-snoc key j now [] n = ground arith
lookup-snoc key j now ((i, w) ∷ l) n = ground (arith, lookup-snoc key j now l)

behind-snoc :
    (key j : EventKey) (now : ℕ) (l : Memory)
    → key ≢ j
    → behind key (l ++ (j, now) ∷ []) ≤ behind key l + 1
unfolding behind
behind-snoc key j now [] n = ground arith
behind-snoc key j now ((i, w) ∷ l) n =
    ground (arith, behind-snoc key j now l, length-append l ((j, now) ∷ []))

behind-pop :
    (key j : EventKey) (l : Memory)
    → key ≢ j
    → behind key (pop EventKey-discrete j l) ≤ behind key l
unfolding behind pop
behind-pop key j [] n = omega arith
behind-pop key j ((i, w) ∷ l) n =
    ground (arith, behind-pop key j l, length-pop-le EventKey-discrete j l)

-- `key` was noted at `t` or later, and at most `n` entries are newer.
pub record Noted (key : EventKey) (t n : ℕ) (l : Memory) : Type 0 where
  pub time : ℕ
  pub found : lookup EventKey-discrete key l ≡ some time
  pub since : t ≤ time
  pub newer : behind key l ≤ n

pub touch-Noted_self : (key : EventKey) (now n : ℕ) (l : Memory) → Noted key now n (touch key now l)
unfolding touch
touch-Noted_self key now n l =
    let gone = lookup-pop EventKey-discrete key key l in
    let (p, q) = lookup-snoc_self key now (pop EventKey-discrete key l) (ground (arith, gone)) in
    record { time = now; found = p; since = omega arith; newer = omega (arith, q) }

pub touch-Noted :
    (key j : EventKey) (t now n : ℕ) (l : Memory)
    → key ≢ j
    → Noted key t n l
    → Noted key t (n + 1) (touch j now l)
unfolding touch
touch-Noted key j t now n l d h = record {
  time = h.time;
  found =
      lookup-snoc key j now (pop EventKey-discrete j l) d
      ∙ ground (arith, lookup-pop EventKey-discrete j key l, h.found);
  since = h.since;
  newer =
      omega
        (arith, behind-snoc key j now (pop EventKey-discrete j l) d, behind-pop key j l d, h.newer);
}

pub trim-Noted :
    (key : EventKey) (t n m : ℕ) (l : Memory) → n < m → Noted key t n l → Noted key t n (trim m l)
trim-Noted key t n m l lt h =
    let (p, q) = trim-kept key m l (omega (arith, h.newer)) in
    record {
      time = h.time;
      found = p ∙ h.found;
      since = h.since;
      newer = omega (arith, q, h.newer);
    }
