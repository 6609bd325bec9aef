-- ===== src/Caching/Watch.antt =====
-- cloudcoil/caching/_watch_manager.py: `_AsyncWatchManager` and `_SyncWatchManager`, whose loops differ
-- in what an error does, and `_ExponentialBackoff`. The loop is cut where it waits for the API, for a
-- sleep or for a caller; the callbacks it calls are its output, and return. `phase` is that of the loop
-- that was started last: a thread that `stop` left alive is not followed once another is started.
pub mod States
pub mod Resume
pub mod Failure
pub mod Delays
mod Tests
use cloudcoil.Base.{
  ℕ, ◌+◌, ◌-◌, ◌*◌, ◌/◌, min, Bool, true, false, not, ◌&&◌, ◌||◌, Option, none, some, String, List,
  [], ◌∷◌, ◌++◌, leb, ltb, ◌==◌, if◌then◌else◌,
}
use cloudcoil.Base.Results.{
  Exception, api_error, cancelled, timed_out, watch_expired, Result, ok, raise,
}

pub data InformerState : Type 0 where
  stopped starting running stopping failed : InformerState

-- `_ExponentialBackoff`, with the jitter in thousandths of the delay
pub record Backoff : Type 0 where
  pub initial_delay : ℕ
  pub max_delay : ℕ
  pub multiplier : ℕ
  pub jitter : ℕ
  pub current_delay : ℕ

unfoldable pub backoff_init : ℕ → ℕ → ℕ → ℕ → Backoff
backoff_init initial_delay max_delay multiplier jitter = record {
  initial_delay = initial_delay;
  max_delay = max_delay;
  multiplier = multiplier;
  jitter = jitter;
  current_delay = initial_delay;
}

unfoldable pub jitter_amount : Backoff → ℕ
jitter_amount b = b.current_delay * b.jitter / 1000

-- `next_delay`: the random part is what the draw adds to the least delay.
unfoldable pub next_delay : ℕ → Backoff → ℕ × Backoff
next_delay draw b = (
  b.current_delay - jitter_amount b + draw,
  record b { current_delay = min (b.current_delay * b.multiplier) b.max_delay },
)

unfoldable pub reset : Backoff → Backoff
reset b = record b { current_delay = b.initial_delay }

-- Where the task or the thread of `_run` is: it waits for a list, for the stream, for the end of a
-- sleep, or it is over.
pub data Phase : Type 0 where
  listing watching sleeping done : Phase

pub data Flavour : Type 0 where
  async sync : Flavour

pub record WatchManager : Type 0 where
  pub state : InformerState
  pub phase : Phase
  pub error : Option Exception
  pub resource_version : Option String
  pub stop_event : Bool
  pub backoff : Backoff

-- What an object or a list says of its version: nothing without metadata
abbrev pub Stated : Type 0
Stated = Option (Option String)

-- A call of `on_items_callback` or `on_event_callback`
pub data Call (Obj : Type 0) : Type 0 where
  on_items : List Obj → Stated → Call Obj
  on_event : String → Obj → Stated → Call Obj

-- What the loop or a caller brings
pub data Signal (Obj : Type 0) : Type 0 where
  starts stops joins wakes : Signal Obj
  lists : Result (List Obj × Stated) → ℕ → Signal Obj
  hears : String → Obj → Stated → Signal Obj
  ends : Result (Unit {0}) → ℕ → Signal Obj

unfoldable pub make : Backoff → WatchManager
make backoff = record {
  state = stopped;
  phase = done;
  error = none;
  resource_version = none;
  stop_event = false;
  backoff = backoff;
}

unfoldable pub start : WatchManager → WatchManager
start m = elim m.state [
  | stopped ↦ record m {
    state = starting;
    resource_version = none;
    error = none;
    stop_event = false;
    phase = listing;
  }
  | _ ↦ m
]

-- `stop` until it waits for the loop
unfoldable pub stop : WatchManager → WatchManager
stop m = elim m.state [
  | stopped ↦ m
  | stopping ↦ m
  | _ ↦ record m { state = stopping; stop_event = true }
]

-- The end of `stop`: the async one waits until the loop is over, the sync one for ten seconds at most
unfoldable pub joined : Flavour → WatchManager → WatchManager
joined async m = elim m.state [
  | stopping ↦ elim m.phase [ done ↦ record m { state = stopped } | _ ↦ m ]
  | _ ↦ m
]
joined sync m = elim m.state [ stopping ↦ record m { state = stopped } | _ ↦ m ]

-- The head of the loop of `_run`
unfoldable pub again : WatchManager → WatchManager
again m =
    if m.stop_event
    then record m { phase = done }
    else record m { phase = elim m.resource_version [ none ↦ listing | some _ ↦ watching ] }

unfoldable pub state_version : Stated → WatchManager → WatchManager
state_version (some version) m = record m { resource_version = version }
state_version none m = m

-- `_initial_list` after its request
unfoldable pub initial_list : Stated → WatchManager → WatchManager
initial_list stated m =
    let n = state_version stated m in
    record n { phase = watching; state = elim n.state [ starting ↦ running | other ↦ other ] }

unfoldable pub is_fatal : ℕ → Bool
is_fatal status = leb 400 status && ltb status 500 && not (status == 408 || status == 429)

unfoldable pub fail : Exception → WatchManager → WatchManager
fail e m = record m { error = some e; state = failed; phase = done }

unfoldable pub back_off : ℕ → WatchManager → WatchManager
back_off draw m = record m { phase = sleeping; backoff = (next_delay draw m.backoff).1 }

unfoldable pub relist : WatchManager → WatchManager
relist m = again (record m { resource_version = none })

-- The `except` clauses of `_AsyncWatchManager._run`
unfoldable pub async_error : Exception → ℕ → WatchManager → WatchManager
async_error cancelled draw m = record m { phase = done }
async_error watch_expired draw m = relist m
async_error timed_out draw m = relist m
async_error (api_error status) draw m =
    if is_fatal status then fail (api_error status) m else back_off draw m
async_error other draw m = back_off draw m

-- The `except` clauses of `_SyncWatchManager._run`
unfoldable pub sync_error : Exception → ℕ → WatchManager → WatchManager
sync_error watch_expired draw m = relist m
sync_error other draw m = elim m.state [ starting ↦ fail other m | _ ↦ back_off draw m ]

unfoldable pub on_error : Flavour → Exception → ℕ → WatchManager → WatchManager
on_error async e draw m = async_error e draw m
on_error sync e draw m = sync_error e draw m

module _ {Obj : Type 0} (flavour : Flavour) where
  -- One signal, in the phase that waits for it; in any other it changes nothing.
  unfoldable pub step : Signal Obj → WatchManager → WatchManager × List (Call Obj)
  step starts m = (start m, [])
  step stops m = (stop m, [])
  step joins m = (joined flavour m, [])
  step wakes m = elim m.phase [ sleeping ↦ (again m, []) | _ ↦ (m, []) ]
  step (lists (ok (objs, stated)) draw) m = elim m.phase [
    | listing ↦ (initial_list stated m, on_items objs stated ∷ [])
    | _ ↦ (m, [])
  ]
  step (lists (raise e) draw) m = elim m.phase [
    | listing ↦ (on_error flavour e draw m, [])
    | _ ↦ (m, [])
  ]
  step (hears type obj stated) m = elim m.phase [
    | watching ↦
        if m.stop_event
        then (again (record m { backoff = reset m.backoff }), [])
        else (state_version stated m, on_event type obj stated ∷ [])
    | _ ↦ (m, [])
  ]
  step (ends (ok _) draw) m = elim m.phase [
    | watching ↦ (again (record m { backoff = reset m.backoff }), [])
    | _ ↦ (m, [])
  ]
  step (ends (raise e) draw) m = elim m.phase [
    | watching ↦ (on_error flavour e draw m, [])
    | _ ↦ (m, [])
  ]

  unfoldable pub run : List (Signal Obj) → WatchManager → WatchManager × List (Call Obj)
  run [] m = (m, [])
  run (signal ∷ signals) m =
      let first = step signal m in let rest = run signals first.0 in (rest.0, first.1 ++ rest.1)
