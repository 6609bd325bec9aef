-- ===== src/Caching/Watch/States.antt =====
-- The states of a watch manager of cloudcoil/caching/_watch_manager.py.
use cloudcoil.Base.{
  ℕ, Bool, true, false, Option, none, some, List, [], ◌∷◌, if_ind, ◌≡◌, ◌≢◌, ◌⊎◌, inl, inr, refl,
  arith,
}
use cloudcoil.Base.Results.{Exception, ok, raise}
use cloudcoil.Caching.Watch.{
  InformerState, stopped, starting, running, stopping, failed, Phase, listing, watching, sleeping,
  done, Flavour, WatchManager, Call, Backoff, Signal, starts, stops, joins, wakes, lists, hears,
  ends, Stated, async, sync, make, reset, start, stop, joined, again, state_version, initial_list,
  fail, back_off, relist, async_error, sync_error, on_error, step, run,
}

-- A stop is asked for while the manager is stopping and not while it is starting or running; nothing
-- runs where it failed, and a failure has its error. Where it is stopped the loop is over, or a sync
-- one is still asked to stop.
abbrev pub Fine : Flavour → InformerState → Phase → Option Exception → Bool → Type 0
Fine flavour starting phase error stop_event = stop_event ≡ false
Fine flavour running phase error stop_event = stop_event ≡ false
Fine flavour stopping phase error stop_event = stop_event ≡ true
Fine flavour stopped phase error stop_event =
    (phase ≡ done) ⊎ ((flavour ≡ sync) × (stop_event ≡ true))
Fine flavour failed phase error stop_event = (phase ≡ done) × (error ≢ none)

module _ (flavour : Flavour) where
  abbrev pub Inv : WatchManager → Type 0
  Inv m = Fine flavour m.state m.phase m.error m.stop_event

  -- A loop that is not over goes on to any phase.
  moves-Fine :
      (state : InformerState) (phase next : Phase) (error : Option Exception) (stop_event : Bool)
      → phase ≢ done
      → Fine flavour state phase error stop_event
      → Fine flavour state next error stop_event
  moves-Fine starting phase next error stop_event n h = h
  moves-Fine running phase next error stop_event n h = h
  moves-Fine stopping phase next error stop_event n h = h
  moves-Fine stopped phase next error stop_event n (inl e) = absurd (n e)
  moves-Fine stopped phase next error stop_event n (inr e) = inr e
  moves-Fine failed phase next error stop_event n h = absurd (n h.0)

  start-Inv : (m : WatchManager) → Inv m → Inv (start m)
  unfolding start
  start-Inv m h = ground (arith, h)

  stop-Inv : (m : WatchManager) → Inv m → Inv (stop m)
  unfolding stop
  stop-Inv m h = ground (arith, h)

  again-Inv : (m : WatchManager) → m.phase ≢ done → Inv m → Inv (again m)
  unfolding again
  again-Inv m n h =
      if_ind Inv m.stop_event (λ _. moves-Fine m.state m.phase done m.error m.stop_event n h)
        (λ _. moves-Fine m.state m.phase _ m.error m.stop_event n h)

  state_version-Inv : (stated : Stated) (m : WatchManager) → Inv m → Inv (state_version stated m)
  unfolding state_version
  state_version-Inv none m h = h
  state_version-Inv (some version) m h = h

  initial_list-Inv :
      (stated : Stated) (m : WatchManager) → m.phase ≢ done → Inv m → Inv (initial_list stated m)
  unfolding initial_list state_version
  initial_list-Inv none m n h = ground (arith, n, h)
  initial_list-Inv (some version) m n h = ground (arith, n, h)

  fail-Inv : (e : Exception) (m : WatchManager) → Inv (fail e m)
  unfolding fail
  fail-Inv e m = (refl, λ q. absurd (ground (arith, q)))

  back_off-Inv : (draw : ℕ) (m : WatchManager) → m.phase ≢ done → Inv m → Inv (back_off draw m)
  unfolding back_off
  back_off-Inv draw m n h = moves-Fine m.state m.phase sleeping m.error m.stop_event n h

  relist-Inv : (m : WatchManager) → m.phase ≢ done → Inv m → Inv (relist m)
  unfolding relist
  relist-Inv m n h = again-Inv (record m { resource_version = none }) n h

  over-Inv : (m : WatchManager) → m.phase ≢ done → Inv m → Inv (record m { phase = done })
  over-Inv m n h = moves-Fine m.state m.phase done m.error m.stop_event n h

  on_error-Inv :
      (f : Flavour) (e : Exception) (draw : ℕ) (m : WatchManager)
      → m.phase ≢ done
      → Inv m
      → Inv (on_error f e draw m)
  unfolding on_error async_error sync_error
  on_error-Inv f e draw m n h =
      ground (arith, over-Inv m n h, relist-Inv m n h, back_off-Inv draw m n h, fail-Inv e m)

  -- The end of the stream
  ended-Inv :
      (m : WatchManager)
      → m.phase ≢ done
      → Inv m
      → Inv (again (record m { backoff = reset m.backoff }))
  ended-Inv m n h = again-Inv (record m { backoff = reset m.backoff }) n h

  make-Inv : (b : Backoff) → Inv (make b)
  unfolding make
  make-Inv b = inl refl

joined-Inv : (flavour : Flavour) (m : WatchManager) → Inv flavour m → Inv flavour (joined flavour m)
unfolding joined
joined-Inv async m h = ground (arith, h)
joined-Inv sync m h = ground (arith, h)

-- What a signal does in the phase that it is for, and that it does nothing in any other.
module _ {ℓ κ} {A : Type ℓ} (P : A → Type κ) where
  pub listing_or :
      (phase : Phase) (next stay : A)
      → (phase ≡ listing → P next)
      → P stay
      → P (elim phase [ listing ↦ next | _ ↦ stay ])
  listing_or listing next stay k h = k refl
  listing_or watching next stay k h = h
  listing_or sleeping next stay k h = h
  listing_or done next stay k h = h

  pub watching_or :
      (phase : Phase) (next stay : A)
      → (phase ≡ watching → P next)
      → P stay
      → P (elim phase [ watching ↦ next | _ ↦ stay ])
  watching_or listing next stay k h = h
  watching_or watching next stay k h = k refl
  watching_or sleeping next stay k h = h
  watching_or done next stay k h = h

  pub sleeping_or :
      (phase : Phase) (next stay : A)
      → (phase ≡ sleeping → P next)
      → P stay
      → P (elim phase [ sleeping ↦ next | _ ↦ stay ])
  sleeping_or listing next stay k h = h
  sleeping_or watching next stay k h = h
  sleeping_or sleeping next stay k h = k refl
  sleeping_or done next stay k h = h

listing_busy : {phase : Phase} → phase ≡ listing → phase ≢ done
listing_busy e q = cc

watching_busy : {phase : Phase} → phase ≡ watching → phase ≢ done
watching_busy e q = cc

sleeping_busy : {phase : Phase} → phase ≡ sleeping → phase ≢ done
sleeping_busy e q = cc

module _ {Obj : Type 0} (flavour : Flavour) where
  step-Inv :
      (signal : Signal Obj) (m : WatchManager)
      → Inv flavour m
      → Inv flavour (step flavour signal m).0
  unfolding step
  step-Inv starts m h = start-Inv flavour m h
  step-Inv stops m h = stop-Inv flavour m h
  step-Inv joins m h = joined-Inv flavour m h
  step-Inv wakes m h =
      sleeping_or (λ (r : WatchManager × List (Call Obj)). Inv flavour r.0) m.phase _ _
        (λ at. again-Inv flavour m (sleeping_busy at) h) h
  step-Inv (lists (ok (objs, stated)) draw) m h =
      listing_or (λ (r : WatchManager × List (Call Obj)). Inv flavour r.0) m.phase _ _
        (λ at. initial_list-Inv flavour stated m (listing_busy at) h) h
  step-Inv (lists (raise e) draw) m h =
      listing_or (λ (r : WatchManager × List (Call Obj)). Inv flavour r.0) m.phase _ _
        (λ at. on_error-Inv flavour flavour e draw m (listing_busy at) h) h
  step-Inv (ends (ok _) draw) m h =
      watching_or (λ (r : WatchManager × List (Call Obj)). Inv flavour r.0) m.phase _ _
        (λ at. ended-Inv flavour m (watching_busy at) h) h
  step-Inv (ends (raise e) draw) m h =
      watching_or (λ (r : WatchManager × List (Call Obj)). Inv flavour r.0) m.phase _ _
        (λ at. on_error-Inv flavour flavour e draw m (watching_busy at) h) h
  step-Inv (hears type obj stated) m h =
      watching_or (λ (r : WatchManager × List (Call Obj)). Inv flavour r.0) m.phase _ _
        (λ at.
          if_ind (λ (r : WatchManager × List (Call Obj)). Inv flavour r.0) m.stop_event
            (λ _. ended-Inv flavour m (watching_busy at) h)
            (λ _. state_version-Inv flavour stated m h))
        h

  run-Inv :
      (signals : List (Signal Obj)) (m : WatchManager)
      → Inv flavour m
      → Inv flavour (run flavour signals m).0
  unfolding run
  run-Inv [] m h = h
  run-Inv (signal ∷ signals) m h = run-Inv signals _ (step-Inv signal m h)

  -- Each start finds that the loop of the start before is over.
  abbrev pub IsAlone : Signal Obj → WatchManager → Type 0
  IsAlone starts m = m.state ≡ stopped → m.phase ≡ done
  IsAlone signal m = Unit

  abbrev pub OneLoop : List (Signal Obj) → WatchManager → Type 0
  OneLoop [] m = Unit
  OneLoop (signal ∷ signals) m = IsAlone signal m × OneLoop signals (step flavour signal m).0

  -- After any signals to a new watch manager of either kind, where no start finds the loop of an
  -- earlier one alive: the stop event is not set while it is starting or running and is set while it
  -- is stopping; where it failed its loop is over and it holds an error; and where it is stopped its
  -- loop is over, or it is sync and the stop event is set.
  pub run-make-Fine :
      (signals : List (Signal Obj)) (b : Backoff)
      → OneLoop signals (make b)
      → let m = (run flavour signals (make b)).0 in
        Fine flavour m.state m.phase m.error m.stop_event
  run-make-Fine signals b one = run-Inv signals (make b) (make-Inv flavour b)
