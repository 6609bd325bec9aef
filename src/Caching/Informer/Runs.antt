-- ===== src/Caching/Informer/Runs.antt =====
-- Any sequence of relists and watch events of cloudcoil/caching/_informer.py, from a new informer.
use cloudcoil.Base.{some, String, String-discrete, List, [], ◌∷◌, ◌++◌, ◌≡◌, refl, sym, subst, All}
use cloudcoil.Base.Sets.{Unique}
use cloudcoil.Base.Dicts.{lookup}
use cloudcoil.Base.Results.{Result, ok, ◌>>=◌}
use cloudcoil.Caching.Store.{get, init}
use cloudcoil.Caching.Store.Invariant.{init-IsValid}
use cloudcoil.Caching.Store.Replace.{keys}
use cloudcoil.Caching.Informer.{
  Resource, Informer, Notice, Key-discrete, default_key_func, make, handle_initial_items,
  handle_watch_event, EventType,
}
use cloudcoil.Caching.Informer.Replay.{View, replay, replay-append}
use cloudcoil.Caching.Informer.Relist.{IsNamed}
use cloudcoil.Caching.Informer.Follow.{
  Follows, Keeps, nil-Mirrors, handle_initial_items-Keeps, handle_watch_event-Keeps,
}

-- What the watch brings.
pub data Signal (Body : Type 0) : Type 0 where
  lists : List (Resource Body) → Signal Body
  hears : EventType → Resource Body → Signal Body

module _ {Body : Type 0} where
  unfoldable pub handle :
      Signal Body → Informer Body → Result (Informer Body × List (Notice (Resource Body)))
  handle (lists objs) inf = handle_initial_items objs inf
  handle (hears type obj) inf = handle_watch_event type obj inf

  unfoldable pub run :
      List (Signal Body) → Informer Body → Result (Informer Body × List (Notice (Resource Body)))
  run [] inf = ok (inf, [])
  run (signal ∷ signals) inf =
      handle signal inf >>= λ first. run signals first.0 >>= λ rest. ok (rest.0, first.1 ++ rest.1)

  -- The objects have keys, and no list has two of one key.
  abbrev pub IsProper : Signal Body → Type 0
  IsProper (lists objs) = All IsNamed objs × Unique String-discrete (keys default_key_func objs)
  IsProper (hears type obj) = IsNamed obj

  handle-Keeps :
      (signal : Signal Body) (inf : Informer Body) (view : View Body)
      → IsProper signal
      → Follows inf view
      → Keeps view (handle signal inf)
  unfolding handle
  handle-Keeps (lists objs) inf view p h = handle_initial_items-Keeps objs inf view p.0 p.1 h
  handle-Keeps (hears type obj) inf view p h = handle_watch_event-Keeps type obj inf view p h

  pub run-Keeps :
      (signals : List (Signal Body)) (inf : Informer Body) (view : View Body)
      → All IsProper signals
      → Follows inf view
      → Keeps view (run signals inf)
  unfolding run replay
  run-Keeps [] inf view p h = (inf, [], refl, h)
  run-Keeps (signal ∷ signals) inf view p h =
      let (next, notices, e, h') = handle-Keeps signal inf view p.0 h in
      let (last, others, e', h'') = run-Keeps signals next (replay notices view) p.1 h' in
      (
        last,
        notices ++ others,
        rw e (rw e' refl),
        subst (Follows last) (sym (replay-append notices others view)) h'',
      )

  make-Follows : Follows {Body = Body} (make 0) []
  unfolding make init
  make-Follows = record {
    valid = init-IsValid default_key_func 0;
    unlimited = refl;
    keyed = tt;
    mirrors = nil-Mirrors;
  }

  -- From a new informer without a limit, any sequence of lists and watch events whose objects have
  -- keys is handled without an exception, and replaying the notices from nothing gives under every
  -- key what the cache holds.
  pub run-make-Mirrors :
      (signals : List (Signal Body))
      → All IsProper signals
      → (last : Informer Body) × (notices : List (Notice (Resource Body))) × (run signals (make 0)
          ≡ ok (last, notices))
        × ((key : String) → lookup Key-discrete (some key) (replay notices []) ≡ get key last.store)
  unfolding get
  run-make-Mirrors signals p =
      let (last, notices, e, h) = run-Keeps signals (make 0) [] p make-Follows in
      (last, notices, e, h.mirrors.named)
