-- ===== src/Controller/Events.antt =====
-- cloudcoil/controller/_events.py: EventRecorder. The clock counts microseconds and the bucket counts
-- tokens times `second`, so that its arithmetic is exact. `emit` is cut at its only await, the POST:
-- what that comes to is an argument. Identifiers and times that only the body carries are left out.
pub mod Recent
pub mod Limits
pub mod Suppression
mod Tests
use cloudcoil.Base.{
  ℕ, ◌+◌, ◌-◌, ◌*◌, min, Bool, true, false, not, ◌&&◌, ◌||◌, Option, none, some, List, [], ◌∷◌,
  ◌++◌, ltb, leb, ◌==◌, if◌then◌else◌, length, is_empty,
}
use cloudcoil.Base.Json.{Text, text_discrete, codes, equal_texts}
use cloudcoil.Base.Dicts.{lookup, pop}
use cloudcoil.Base.Durations.{Duration, ticks}
use cloudcoil.Base.Results.{value_error, cancelled, Result, ok, raise, raise_if, ◌>>◌}

abbrev pub second : ℕ
second = 1000000

-- The bucket holds 20 tokens at most, and 5 come in a second.
abbrev pub burst : ℕ
burst = 20

abbrev pub rate : ℕ
rate = 5

-- `(config.server or "", namespace, resource.metadata.uid, type, reason, action)`
pub record EventKey : Type 0 where
  pub server : Text
  pub namespace : Text
  pub uid : Text
  pub type : Text
  pub reason : Text
  pub action : Text

unfoldable pub EventKey-discrete : Discrete EventKey
EventKey-discrete = hlevel (text_discrete)

pub record EventRecorder : Type 0 where
  pub reporting_controller : Text
  pub namespace : Option Text
  pub interval : ℕ
  pub max_keys : ℕ
  pub recent : List (EventKey × ℕ)
  pub tokens : ℕ
  pub last_token : ℕ

abbrev is_positive : Duration → Bool
is_positive (ticks n) = ltb 0 n
is_positive other = false

-- A recorder, or the exception that `__init__` raises; `now` is the clock's first reading.
unfoldable pub init :
    (reporting_controller : Text) (interval timeout : Duration) (max_keys : ℕ)
    (namespace : Option Text) (now : ℕ)
    → Result EventRecorder
init reporting_controller (ticks interval) timeout max_keys namespace now =
    raise_if (is_empty reporting_controller || ltb 128 (length reporting_controller)) value_error
    >> raise_if (not (ltb 0 interval && is_positive timeout)) value_error
    >> raise_if (ltb max_keys 1) value_error
    >> ok (record {
      reporting_controller = reporting_controller;
      namespace = namespace;
      interval = interval;
      max_keys = max_keys;
      recent = [];
      tokens = burst * second;
      last_token = now;
    })
init reporting_controller other timeout max_keys namespace now = raise value_error

abbrev is_letter : ℕ → Bool
is_letter c = (leb b'a' c && leb c b'z') || (leb b'A' c && leb c b'Z')

abbrev is_word : ℕ → Bool
is_word c = is_letter c || (leb b'0' c && leb c b'9') || c == b'_'

abbrev every : (ℕ → Bool) → Text → Bool
every test [] = true
every test (c ∷ s) = test c && every test s

-- `re.fullmatch(r"[A-Za-z][A-Za-z0-9_]*", text)`
unfoldable pub is_identifier : Text → Bool
is_identifier [] = false
is_identifier (c ∷ s) = is_letter c && every is_word s

-- What `emit` reads of the resource and of the config
pub record Subject : Type 0 where
  pub name : Option Text
  pub namespace : Option Text
  pub uid : Option Text
  pub server : Option Text
  pub config_namespace : Text

pub record Message : Type 0 where
  pub reason : Text
  pub type : Text
  pub action : Option Text

-- `a or b` for texts that may be None
abbrev pub or_else : Option Text → Text → Text
or_else (some (c ∷ s)) t = c ∷ s
or_else other t = t

abbrev pub is_set : Option Text → Bool
is_set (some (c ∷ s)) = true
is_set other = false

unfoldable pub action_of : Message → Text
action_of m = elim m.action [ none ↦ m.reason | some a ↦ a ]

unfoldable pub check : Message → Result (Unit {0})
check m =
    raise_if (not (is_identifier m.reason) || ltb 128 (length m.reason)) value_error
    >> raise_if (not (equal_texts m.type (codes "Normal") || equal_texts m.type (codes "Warning")))
        value_error
    >> raise_if (is_empty (action_of m) || ltb 128 (length (action_of m))) value_error

unfoldable pub namespace_of : EventRecorder → Subject → Text
namespace_of r s = or_else s.namespace (or_else r.namespace s.config_namespace)

unfoldable pub event_key : EventRecorder → Subject → Message → EventKey
event_key r s m = record {
  server = or_else s.server [];
  namespace = namespace_of r s;
  uid = or_else s.uid [];
  type = m.type;
  reason = m.reason;
  action = action_of m;
}

-- `self._recent[key] = now; self._recent.move_to_end(key)`
unfoldable pub touch : EventKey → ℕ → List (EventKey × ℕ) → List (EventKey × ℕ)
touch key now recent = pop EventKey-discrete key recent ++ (key, now) ∷ []

-- `while len(self._recent) > self.max_keys: self._recent.popitem(last=False)`
unfoldable pub trim : ℕ → List (EventKey × ℕ) → List (EventKey × ℕ)
trim max_keys [] = []
trim max_keys (e ∷ recent) =
    let rest = trim max_keys recent in
    if ltb max_keys (length (e ∷ recent)) then rest else e ∷ recent

abbrev pub is_recent : ℕ → ℕ → Option ℕ → Bool
is_recent now interval none = false
is_recent now interval (some previous) = ltb now (previous + interval)

unfoldable pub refill : ℕ → EventRecorder → EventRecorder
refill now r = record r {
  tokens = min (burst * second) (r.tokens + (now - r.last_token) * rate);
  last_token = now;
}

-- The recorder after the synchronous part of `emit`, and whether the request is sent
unfoldable pub reserve : EventKey → ℕ → EventRecorder → EventRecorder × Bool
reserve key now r =
    let filled = refill now r in
    if is_recent now r.interval (lookup EventKey-discrete key r.recent)
    then (r, false)
    else if ltb filled.tokens second
    then (filled, false)
    else (
      record filled {
        tokens = filled.tokens - second;
        recent = trim r.max_keys (touch key now r.recent);
      },
      true,
    )

-- What the POST comes to: a response that is fine, any exception, or a cancellation.
pub data Answer : Type 0 where
  accepted refused interrupted : Answer

abbrev pub delivered : Answer → Result Bool
delivered accepted = ok true
delivered refused = ok false
delivered interrupted = raise cancelled

pub record Emission : Type 0 where
  pub recorder : EventRecorder
  pub sent : Bool
  pub outcome : Result Bool

abbrev pub emission : EventRecorder × Bool → Answer → Emission
emission (r, true) answer = record { recorder = r; sent = true; outcome = delivered answer }
emission (r, false) answer = record { recorder = r; sent = false; outcome = ok false }

abbrev pub unless_raised : EventRecorder → Result (Unit {0}) → Emission → Emission
unless_raised r (raise e) after = record { recorder = r; sent = false; outcome = raise e }
unless_raised r (ok _) after = after

unfoldable pub emit : Subject → Message → ℕ → Answer → EventRecorder → Emission
emit s m now answer r = unless_raised r (check m) (
    if not (is_set s.name) || not (is_set s.uid)
    then record { recorder = r; sent = false; outcome = ok false }
    else emission (reserve (event_key r s m) now r) answer)
