-- ===== src/Caching/Watch/Resume.antt =====
-- Where a watch of cloudcoil/caching/_watch_manager.py resumes.
use cloudcoil.Base.{
  ℕ, Option, none, some, String, List, [], ◌∷◌, ◌++◌, if_ind, ◌≡◌, ◌⊎◌, inl, inr, refl, sym, subst,
  arith,
}
use cloudcoil.Base.Results.{Exception, ok, raise}
use cloudcoil.Caching.Watch.{
  Flavour, async, sync, Phase, listing, watching, sleeping, done, WatchManager, Call, on_items,
  on_event, Backoff, Signal, starts, stops, joins, wakes, lists, hears, ends, Stated, make, reset,
  start, stop, joined, again, state_version, initial_list, fail, back_off, relist, async_error,
  sync_error, on_error, step, run,
}
use cloudcoil.Caching.Watch.States.{listing_or, watching_or, sleeping_or, OneLoop}

-- The version that a list states, if it states any
abbrev pub listed : Stated → Option String
listed none = none
listed (some version) = version

-- The version that the calls of the callbacks state last, after `version`; a list starts anew.
unfoldable pub resumed : {Obj : Type 0} → List (Call Obj) → Option String → Option String
resumed [] version = version
resumed (on_items _ stated ∷ calls) version = resumed calls (listed stated)
resumed (on_event _ _ (some stated) ∷ calls) version = resumed calls stated
resumed (on_event _ _ none ∷ calls) version = resumed calls version

resumed-append :
    {Obj : Type 0} (xs ys : List (Call Obj)) (version : Option String)
    → resumed (xs ++ ys) version ≡ resumed ys (resumed xs version)
unfolding resumed
resumed-append [] ys version = refl
resumed-append (on_items _ stated ∷ xs) ys version = resumed-append xs ys (listed stated)
resumed-append (on_event _ _ (some stated) ∷ xs) ys version = resumed-append xs ys stated
resumed-append (on_event _ _ none ∷ xs) ys version = resumed-append xs ys version

-- A watch is at the version that the callbacks were given last, a list has none, and what waits or is over
-- has the one or the other.
abbrev pub AtPhase : Phase → Option String → Option String → Type 0
AtPhase watching version last = version ≡ last
AtPhase listing version last = version ≡ none
AtPhase sleeping version last = (version ≡ none) ⊎ (version ≡ last)
AtPhase done version last = (version ≡ none) ⊎ (version ≡ last)

abbrev At : Option String → WatchManager → Type 0
At last m = AtPhase m.phase m.resource_version last

abbrev Known : Option String → Option String → Type 0
Known last version = (version ≡ none) ⊎ (version ≡ last)

AtPhase-Known :
    (phase : Phase) (version last : Option String) → AtPhase phase version last → Known last version
AtPhase-Known watching version last h = inr h
AtPhase-Known listing version last h = inl h
AtPhase-Known sleeping version last h = h
AtPhase-Known done version last h = h

At-Known : (last : Option String) (m : WatchManager) → At last m → Known last m.resource_version
At-Known last m h = AtPhase-Known m.phase m.resource_version last h

start-At : (last : Option String) (m : WatchManager) → At last m → At last (start m)
unfolding start
start-At last m h = ground (arith, h)

stop-At : (last : Option String) (m : WatchManager) → At last m → At last (stop m)
unfolding stop
stop-At last m h = ground (arith, h)

joined-At :
    (last : Option String) (flavour : Flavour) (m : WatchManager)
    → At last m
    → At last (joined flavour m)
unfolding joined
joined-At last async m h = ground (arith, h)
joined-At last sync m h = ground (arith, h)

next_phase-At :
    (last version : Option String)
    → Known last version
    → AtPhase (elim version [ none ↦ listing | some _ ↦ watching ]) version last
next_phase-At last none h = refl
next_phase-At last (some v) (inl e) = absurd (ground (arith, e))
next_phase-At last (some v) (inr e) = e

again-At :
    (last : Option String) (m : WatchManager) → Known last m.resource_version → At last (again m)
unfolding again
again-At last m h =
    if_ind (At last) m.stop_event (λ _. h) (λ _. next_phase-At last m.resource_version h)

relist-At : (last : Option String) (m : WatchManager) → At last (relist m)
unfolding relist
relist-At last m = again-At last (record m { resource_version = none }) (inl refl)

-- An error keeps the version, or asks for a list.
on_error-At :
    (last : Option String) (flavour : Flavour) (e : Exception) (draw : ℕ) (m : WatchManager)
    → Known last m.resource_version
    → At last (on_error flavour e draw m)
unfolding on_error async_error sync_error fail back_off
on_error-At last flavour e draw m h = ground (arith, h, relist-At last m)

initial_list-At :
    (last : Option String) (stated : Stated) (m : WatchManager)
    → m.phase ≡ listing
    → At last m
    → At (listed stated) (initial_list stated m)
unfolding initial_list state_version
initial_list-At last none m e h = subst (λ p. AtPhase p m.resource_version last) e h
initial_list-At last (some v) m e h = refl

state_version-At :
    (last : Option String) (v : Option String) (m : WatchManager)
    → m.phase ≡ watching
    → At v (state_version (some v) m)
unfolding state_version
state_version-At last v m e = subst (λ p. AtPhase p v v) (sym e) refl

ended-At :
    (last : Option String) (m : WatchManager)
    → At last m
    → At last (again (record m { backoff = reset m.backoff }))
ended-At last m h = again-At last (record m { backoff = reset m.backoff }) (At-Known last m h)

module _ {Obj : Type 0} (flavour : Flavour) where
  -- Whatever the step does, the version is that of what the callbacks got.
  abbrev Resumes : Option String → WatchManager × List (Call Obj) → Type 0
  Resumes last r = At (resumed r.1 last) r.0

  step-Resumes :
      (signal : Signal Obj) (last : Option String) (m : WatchManager)
      → At last m
      → Resumes last (step flavour signal m)
  unfolding step resumed
  step-Resumes starts last m h = start-At last m h
  step-Resumes stops last m h = stop-At last m h
  step-Resumes joins last m h = joined-At last flavour m h
  step-Resumes wakes last m h =
      sleeping_or (Resumes last) m.phase _ _ (λ _. again-At last m (At-Known last m h)) h
  step-Resumes (lists (ok (objs, stated)) draw) last m h =
      listing_or (Resumes last) m.phase _ _ (λ at. initial_list-At last stated m at h) h
  step-Resumes (lists (raise e) draw) last m h =
      listing_or (Resumes last) m.phase _ _
        (λ _. on_error-At last flavour e draw m (At-Known last m h)) h
  step-Resumes (ends (ok _) draw) last m h =
      watching_or (Resumes last) m.phase _ _ (λ _. ended-At last m h) h
  step-Resumes (ends (raise e) draw) last m h =
      watching_or (Resumes last) m.phase _ _
        (λ _. on_error-At last flavour e draw m (At-Known last m h)) h
  step-Resumes (hears type obj none) last m h =
      watching_or (Resumes last) m.phase _ _
        (λ _.
          if_ind (Resumes last) m.stop_event (λ _. ended-At last m h)
            (λ _. unfold state_version in h))
        h
  step-Resumes (hears type obj (some v)) last m h =
      watching_or (Resumes last) m.phase _ _
        (λ at.
          if_ind (Resumes last) m.stop_event (λ _. ended-At last m h)
            (λ _. state_version-At last v m at))
        h

  run-Resumes :
      (signals : List (Signal Obj)) (last : Option String) (m : WatchManager)
      → At last m
      → Resumes last (run flavour signals m)
  unfolding run resumed
  run-Resumes [] last m h = h
  run-Resumes (signal ∷ signals) last m h =
      let first = step flavour signal m in
      subst (λ v. At v (run flavour signals first.0).0)
        (sym (resumed-append first.1 (run flavour signals first.0).1 last))
        (run-Resumes signals (resumed first.1 last) first.0 (step-Resumes signal last m h))

  -- After any signals to a new watch manager of either kind, where no start finds the loop of an
  -- earlier one alive: while it watches, its version is the one that the callbacks were given last,
  -- by a list or by an event after it; while it lists it has no version; and while it waits, or its
  -- loop is over, it has that version or none.
  pub run-make-resumed :
      (signals : List (Signal Obj)) (b : Backoff)
      → OneLoop flavour signals (make b)
      → let r = run flavour signals (make b) in
        AtPhase r.0.phase r.0.resource_version (resumed r.1 none)
  unfolding make
  run-make-resumed signals b one = run-Resumes signals none (make b) (inl refl)
