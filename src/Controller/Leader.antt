-- ===== src/Controller/Leader.antt =====
-- cloudcoil/controller/_leader.py: `LeaderElection`. A coroutine is cut where it awaits: each
-- function is what runs between two awaits, at one reading of the clock, and what it sends or
-- raises is a value. Clocks count microseconds.
pub mod Attempts
pub mod Exchanges
pub mod Cluster
pub mod Invariant
pub mod Moves
pub mod Sound
pub mod Turns
pub mod Steps
pub mod Safety
pub mod Progress
mod Tests
use cloudcoil.Base.{
  ℕ, ◌+◌, ◌-◌, ◌*◌, Bool, true, false, not, ◌&&◌, ◌||◌, Option, none, some, String, String-discrete,
  ℕ_discrete, ltb, leb, ◌==◌, if◌then◌else◌, min,
}
use Prim.Native.String.{count}
use mathlib.Core.Option
use cloudcoil.Base.Results.{
  Exception, value_error, runtime_error, leadership_lost, request_failed, timed_out, api_error,
  Result, ok, raise, raise_if, ◌>>=◌, ◌>>◌,
}
use cloudcoil.Base.Durations.{Duration, ticks}

abbrev pub second : ℕ
second = 1000000

-- `leaseDurationSeconds`: a number of seconds, a value of another type or sign, or no value.
pub data Seconds : Type 0 where
  seconds : ℕ → Seconds
  unusable : String → Seconds
  absent : Seconds

pub record Spec : Type 0 where
  pub holder : Option String
  pub duration : Seconds
  pub acquire_time : Option ℕ
  pub renew_time : Option ℕ
  pub transitions : Option ℕ

-- The parts of a Lease that the code reads; a missing UID is the empty text.
pub record Lease : Type 0 where
  pub uid : String
  pub resource_version : Option ℕ
  pub spec : Spec

-- What `_observe` serialises to compare.
pub record Record : Type 0 where
  pub uid : String
  pub spec : Spec

Seconds-discrete : Discrete Seconds
Seconds-discrete = hlevel (ℕ_discrete, String-discrete)

unfoldable pub Record-discrete : Discrete Record
Record-discrete = hlevel (ℕ_discrete, String-discrete)

pub record LeaderElection : Type 0 where
  pub identity : String
  pub lease_duration : ℕ
  pub renew_deadline : ℕ
  pub retry_period : ℕ
  pub active : Bool
  pub failure : Option Exception
  pub used : Bool
  pub last_renewed : ℕ
  pub observed_at : ℕ
  pub observed : Option Record
  pub lease : Option Lease
  pub acquisitions : ℕ
  pub renewal_failures : ℕ

-- The object that `__init__` builds, once the settings are accepted.
unfoldable pub fresh : String → ℕ → ℕ → ℕ → LeaderElection
fresh identity lease_duration renew_deadline retry_period = record {
  identity = identity;
  lease_duration = lease_duration;
  renew_deadline = renew_deadline;
  retry_period = retry_period;
  active = false;
  failure = none;
  used = false;
  last_renewed = 0;
  observed_at = 0;
  observed = none;
  lease = none;
  acquisitions = 0;
  renewal_failures = 0;
}

-- `__init__`, for the names that `_dns_name` accepts
unfoldable pub init : String → ℕ → Duration → Duration → Result LeaderElection
init identity lease_duration (ticks renew_deadline) (ticks retry_period) =
    raise_if (count identity == 0 || ltb 128 (count identity)) value_error
    >> raise_if (ltb lease_duration 1 || ltb 2147483647 lease_duration) value_error
    >> raise_if
        (not (
          ltb 0 retry_period
          && ltb retry_period renew_deadline
          && ltb renew_deadline (lease_duration * second)))
        value_error
    >> ok (fresh identity lease_duration renew_deadline retry_period)
init identity lease_duration renew_deadline retry_period = raise value_error

unfoldable pub is_leader : ℕ → LeaderElection → Bool
is_leader now e = e.active && ltb now (e.last_renewed + e.renew_deadline)

unfoldable pub record_of : Lease → Record
record_of lease = record { uid = lease.uid; spec = lease.spec }

unfoldable pub same_record : Lease → Option Record → Bool
same_record lease (some observed) = elim (Record-discrete (record_of lease) observed) [
  | yes _ ↦ true
  | no _ ↦ false
]
same_record lease none = false

-- The end of `_observe`
unfoldable pub remember : ℕ → Lease → LeaderElection → LeaderElection
remember now lease e =
    if same_record lease e.observed
    then record e { lease = some lease }
    else record e { observed = some (record_of lease); observed_at = now; lease = some lease }

unfoldable pub is_identified : Lease → Bool
is_identified lease =
    not (count lease.uid == 0) && elim lease.resource_version [ some _ ↦ true | none ↦ false ]

-- `_observe`
unfoldable pub observe : ℕ → Lease → LeaderElection → Result LeaderElection
observe now lease e = if is_identified lease then ok (remember now lease e) else raise value_error

-- What the API server answers, as httpx gives it: a success with its Lease, another status, or an
-- error of the request.
pub data Reply : Type 0 where
  replied : Lease → Reply
  refused : ℕ → Reply
  unanswered : Reply

-- `raise_for_status(response)` and `response.json()`
unfoldable pub body_of : Reply → Result Lease
body_of (replied lease) = ok lease
body_of (refused status) = raise (api_error status)
body_of unanswered = raise request_failed

-- The writes of an attempt: a POST of a new Lease or a PUT of a changed one.
pub data Request : Type 0 where
  posts : Spec → Request
  puts : Lease → Request

-- An attempt after its GET sends its write, or is over.
pub data Plan : Type 0 where
  sends : Request → Plan
  returns : Bool → Plan
  fails : Exception → Plan

-- `exc.status_code not in {404, 408, 409, 429}` of the client errors
unfoldable pub is_fatal : ℕ → Bool
is_fatal status =
    leb 400 status
    && ltb status 500
    && not (status == 404 || status == 408 || status == 409 || status == 429)

-- The handlers of `_attempt`: what an exception in it makes of the attempt.
unfoldable pub settle : Exception → Result Bool
settle (api_error status) = if is_fatal status then raise (api_error status) else ok false
settle request_failed = ok false
settle timed_out = ok false
settle other = raise other

unfoldable pub settle_plan : Exception → Plan
settle_plan e = elim (settle e) [ ok answer ↦ returns answer | raise other ↦ fails other ]

-- `_attempt` before its GET: the timeout, at the time the attempt starts
unfoldable pub begin : ℕ → LeaderElection → Result ℕ
begin started e =
    let remaining = (e.last_renewed + e.renew_deadline) - started in
    if e.active
    then (raise_if (leb (e.last_renewed + e.renew_deadline) started) leadership_lost
        >> ok (min e.retry_period remaining))
    else ok e.retry_period

-- The spec of the POST
unfoldable pub new_spec : ℕ → LeaderElection → Spec
new_spec utc e = record {
  holder = some e.identity;
  duration = seconds e.lease_duration;
  acquire_time = some utc;
  renew_time = some utc;
  transitions = some 0;
}

-- `holder and holder != self.identity`, where an empty holder is none
unfoldable pub is_other : LeaderElection → Option String → Bool
is_other e (some holder) =
    not (count holder == 0)
    && elim (String-discrete holder e.identity) [ yes _ ↦ false | no _ ↦ true ]
is_other e none = false

-- `holder == self.identity`
unfoldable pub is_own : LeaderElection → Option String → Bool
is_own e (some holder) = elim (String-discrete holder e.identity) [ yes _ ↦ true | no _ ↦ false ]
is_own e none = false

-- The spec of the PUT
unfoldable pub claim : ℕ → LeaderElection → Spec → Spec
claim utc e spec =
    let renewed = record spec {
      holder = some e.identity;
      duration = seconds e.lease_duration;
      renew_time = some utc;
    } in
    if is_own e spec.holder then renewed else record renewed {
      acquire_time = some utc;
      transitions = some (elim spec.transitions [ some n ↦ n + 1 | none ↦ 1 ]);
    }

unfoldable pub same_uid : Lease → Option Lease → Bool
same_uid current (some previous) = elim (String-discrete current.uid previous.uid) [
  | yes _ ↦ true
  | no _ ↦ false
]
same_uid current none = false

-- `if holder and holder != self.identity`: a Lease that another participant holds is taken only
-- when its record has stayed the same for its duration.
unfoldable pub challenge : ℕ → ℕ → Lease → LeaderElection → Plan
challenge now utc current e =
    let write = sends (puts (record current { spec = claim utc e current.spec })) in
    if is_other e current.spec.holder
    then elim current.spec.duration [
      | seconds n ↦
          if n == 0
          then fails value_error
          else if ltb now (e.observed_at + n * second)
          then returns false
          else write
      | unusable _ ↦ fails value_error
      | absent ↦ fails value_error
    ]
    else write

-- `_attempt` between a successful GET and its write
unfoldable pub on_lease : ℕ → ℕ → Lease → LeaderElection → LeaderElection × Plan
on_lease now utc current e =
    if e.active && not (is_own e current.spec.holder && same_uid current e.lease)
    then (e, fails leadership_lost)
    else elim (observe now current e) [
      | ok seen ↦ (seen, challenge now utc current seen)
      | raise other ↦ (e, fails other)
    ]

-- `_attempt` between its GET and its write
unfoldable pub on_get : ℕ → ℕ → Reply → LeaderElection → LeaderElection × Plan
on_get now utc (replied current) e = on_lease now utc current e
on_get now utc (refused status) e =
    if status == 404
    then (e, if e.active then fails leadership_lost else sends (posts (new_spec utc e)))
    else (e, settle_plan (api_error status))
on_get now utc unanswered e = (e, settle_plan request_failed)

-- `_attempt` after its write
unfoldable pub on_write : ℕ → ℕ → Reply → LeaderElection → LeaderElection × Result Bool
on_write started now reply e = elim (body_of reply >>= λ lease. observe now lease e) [
  | ok seen ↦ (record seen { last_renewed = started }, ok true)
  | raise other ↦ (e, settle other)
]

-- `_renew` before its sleep, which lasts as long as it returns
unfoldable pub renew_wait : ℕ → LeaderElection → Result ℕ
renew_wait now e =
    raise_if (leb (e.last_renewed + e.renew_deadline) now) leadership_lost
    >> ok (min e.retry_period ((e.last_renewed + e.renew_deadline) - now))

-- `_renew` after an attempt
unfoldable pub count_failure : Bool → LeaderElection → LeaderElection
count_failure renewed e =
    if renewed then e else record e { renewal_failures = e.renewal_failures + 1 }

-- `_release` after its GET: the PUT that gives the Lease up. It swallows the errors of requests.
unfoldable pub on_release : ℕ → Reply → LeaderElection → Option Request
on_release utc (replied current) e =
    if is_own e current.spec.holder && same_uid current e.lease
    then some (
        puts (record current {
          spec = record current.spec {
            holder = some "";
            duration = seconds 1;
            renew_time = some utc;
          };
        }))
    else none
on_release utc other e = none

-- `_run` before its first attempt
unfoldable pub start : LeaderElection → Result LeaderElection
start e = if e.used then raise runtime_error else ok (record e { used = true })

-- `_run` once an attempt has succeeded and no stop was asked for
unfoldable pub lead : LeaderElection → LeaderElection
lead e = record e { active = true; acquisitions = e.acquisitions + 1 }

-- The `except` and the start of the `finally` of `_run`
unfoldable pub stand_down : Option Exception → LeaderElection → LeaderElection
stand_down (some error) e = record e { failure = some error; active = false }
stand_down none e = record e { active = false }
