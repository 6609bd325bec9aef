-- ===== src/Caching/Watch/Failure.antt =====
-- Which errors end a loop of cloudcoil/caching/_watch_manager.py, and for how long.
use cloudcoil.Base.{ℕ, ◌≤◌, ◌<◌, List, [], ◌∷◌, ◌≡◌, ◌≢◌}
use cloudcoil.Base.Results.{Exception, api_error, watch_expired, raise}
use cloudcoil.Caching.Watch.{
  starting, Flavour, async, sync, listing, watching, WatchManager, Signal, stops, lists, ends,
}

-- The errors that no other attempt mends: of the async manager a client error other than 408 and
-- 429, of the sync manager any but an expired history while it is starting
abbrev pub Fatal : Flavour → Exception → WatchManager → Type 0
Fatal async e m =
    (status : ℕ) × (e ≡ api_error status)
    × (400 ≤ status)
    × (status < 500)
    × (status ≢ 408)
    × (status ≢ 429)
Fatal sync e m = (e ≢ watch_expired) × (m.state ≡ starting)

status_of : Exception → ℕ
status_of e = elim e [ api_error status ↦ status | _ ↦ 0 ]

-- The state and the error are the same.
abbrev pub Goes : WatchManager → WatchManager → Type 0
Goes m n = (n.state ≡ m.state) × (n.error ≡ m.error)

module _ {Obj : Type 0} (flavour : Flavour) where
  -- No caller stops the manager.
  abbrev pub NoStop : List (Signal Obj) → Type 0
  NoStop [] = Unit
  NoStop (stops ∷ signals) = ⊥
  NoStop (signal ∷ signals) = NoStop signals

  -- The error reaches the loop, from the list or from the watch that it waits for.
  abbrev pub Brings : Signal Obj → Exception → WatchManager → Type 0
  Brings (lists (raise x) draw) e m = (x ≡ e) × (m.phase ≡ listing)
  Brings (ends (raise x) draw) e m = (x ≡ e) × (m.phase ≡ watching)
  Brings signal e m = ⊥
