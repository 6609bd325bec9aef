-- ===== src/Controller/Leader/Cluster.antt =====
-- The participants of an election of cloudcoil/controller/_leader.py, the API server that keeps
-- their Lease, and what is on its way between them. One clock stands for all of their clocks: the
-- code compares spans of time only, and each span is measured by one clock.
use cloudcoil.Base.{
  ℕ, ◌+◌, ◌<◌, Bool, true, false, Option, none, some, String, String-discrete, List, [], ◌∷◌, ◌==◌,
  if◌then◌else◌, ◌≡◌, ◌≢◌, Member,
}
use Prim.Native.String.{count}
use cloudcoil.Base.Results.{Exception, Result, ok, raise}
use cloudcoil.Controller.Leader.{
  Spec, Lease, LeaderElection, Reply, replied, refused, unanswered, Request, posts, puts, Plan,
  sends, returns, fails, begin, on_get, on_write, on_release, count_failure, lead, stand_down,
  is_leader,
}

-- Where the run of a participant is: between attempts; in an attempt, before the server has served
-- its GET, after it, before the server has served its write, after it; or over.
pub data Phase : Type 0 where
  resting : Phase
  asking : Phase
  answered : Reply → Phase
  writing : Request → Phase
  acknowledged : Reply → Phase
  finished : Phase

pub record Participant : Type 0 where
  pub elector : LeaderElection
  pub started : ℕ
  pub phase : Phase

pub record Cluster : Type 0 where
  pub now : ℕ
  pub server : Option Lease
  -- writes that nobody waits for any more, or that release the Lease
  pub in_flight : List Request
  pub participants : String → Participant

-- What an API server with optimistic concurrency does with a write: it refuses it, or it stores a
-- new Lease or a change of the version that the write names, which gets a later version.
pub data Served : Request → Option Lease → Option Lease → Reply → Type 0 where
  rejects :
      {r : Request} {before : Option Lease} (status : ℕ) → Served r before before (refused status)
  loses : {r : Request} {before : Option Lease} → Served r before before unanswered
  creates :
      {spec : Spec} {lease : Lease}
      → lease.spec ≡ spec
      → Served (posts spec) none (some lease) (replied lease)
  updates :
      {put before after : Lease} {v w : ℕ}
      → put.resource_version ≡ some v
      → before.resource_version ≡ some v
      → after.resource_version ≡ some w
      → v < w
      → after.spec ≡ put.spec
      → Served (puts put) (some before) (some after) (replied after)

abbrev pub set : String → Participant → Cluster → Cluster
set p x s = record s {
  participants = λ q. elim (String-discrete p q) [ yes _ ↦ x | no _ ↦ s.participants q ];
}

-- A write that is cut off may still arrive.
abbrev pub abandon : Phase → Cluster → Cluster
abandon phase s = record s {
  in_flight = elim phase [ writing r ↦ r ∷ s.in_flight | _ ↦ s.in_flight ];
}

abbrev pub fail : Exception → Participant → Participant
fail error x = record x { elector = stand_down (some error) x.elector; phase = finished }

-- An attempt that fails counts when it was to renew.
abbrev pub retry : LeaderElection → Participant → Participant
retry e x = record x { elector = if e.active then count_failure false e else e; phase = resting }

-- The participant after its GET
abbrev pub after_get : LeaderElection × Plan → Participant → Participant
after_get (e, sends r) x = record x { elector = e; phase = writing r }
after_get (e, returns _) x = retry e x
after_get (e, fails error) x = fail error (record x { elector = e })

-- The participant after its write
abbrev pub after_write : LeaderElection × Result Bool → Participant → Participant
after_write (e, ok true) x = record x { elector = if e.active then e else lead e; phase = resting }
after_write (e, ok false) x = retry e x
after_write (e, raise error) x = fail error (record x { elector = e })

pub data Step : Cluster → Cluster → Type 0 where
  passes : {s : Cluster} (d : ℕ) → Step s (record s { now = s.now + d })
  -- `_attempt` starts and sends its GET
  begins :
      {s : Cluster} (p : String) {timeout : ℕ}
      → (s.participants p).phase ≡ resting
      → begin s.now (s.participants p).elector ≡ ok timeout
      → Step s (set p (record (s.participants p) { started = s.now; phase = asking }) s)
  -- the server serves the GET
  reads :
      {s : Cluster} (p : String) {lease : Lease}
      → (s.participants p).phase ≡ asking
      → s.server ≡ some lease
      → Step s (set p (record (s.participants p) { phase = answered (replied lease) }) s)
  -- there is no Lease, or the GET fails
  misses :
      {s : Cluster} (p : String) (reply : Reply)
      → (s.participants p).phase ≡ asking
      → ((lease : Lease) → reply ≢ replied lease)
      → Step s (set p (record (s.participants p) { phase = answered reply }) s)
  -- the answer to the GET arrives
  hears :
      {s : Cluster} (p : String) {reply : Reply}
      → (s.participants p).phase ≡ answered reply
      → Step s (
          set p
            (after_get (on_get s.now s.now reply (s.participants p).elector) (s.participants p))
            s)
  -- the server serves the write
  serves :
      {s : Cluster} (p : String) {r : Request} {after : Option Lease} {reply : Reply}
      → (s.participants p).phase ≡ writing r
      → Served r s.server after reply
      → Step s (
          set p
            (record (s.participants p) { phase = acknowledged reply })
            (record s { server = after }))
  -- the answer to the write arrives
  learns :
      {s : Cluster} (p : String) {reply : Reply}
      → (s.participants p).phase ≡ acknowledged reply
      → Step s (
          set p
            (after_write
              (on_write (s.participants p).started s.now reply (s.participants p).elector)
              (s.participants p))
            s)
  -- the attempt runs into its timeout, and the run goes on
  gives_up :
      {s : Cluster} (p : String)
      → (s.participants p).phase ≢ finished
      → Step s (
          set p
            (retry (s.participants p).elector (s.participants p))
            (abandon (s.participants p).phase s))
  -- the run ends, for whatever reason
  ends :
      {s : Cluster} (p : String) (error : Exception)
      → Step s (set p (fail error (s.participants p)) (abandon (s.participants p).phase s))
  -- `_release` reads the Lease and sends its write
  releases :
      {s : Cluster} (p : String) {lease : Lease} {r : Request}
      → (s.participants p).phase ≡ finished
      → s.server ≡ some lease
      → on_release s.now (replied lease) (s.participants p).elector ≡ some r
      → Step s (record s { in_flight = r ∷ s.in_flight })
  -- the server serves a write that nobody waits for, and may do so again
  arrives :
      {s : Cluster} {r : Request} {after : Option Lease} {reply : Reply}
      → Member r s.in_flight
      → Served r s.server after reply
      → Step s (record s { server = after })

-- Nobody runs yet; nothing is asked of the Lease that may be there but that no clock is behind it.
-- The participant without a name stands for the identity that `__init__` refuses.
abbrev pub opening : ℕ → Option Lease → (String → LeaderElection) → Cluster
opening now server electors = record {
  now = now;
  server = server;
  in_flight = [];
  participants = λ p. record {
    elector = electors p;
    started = 0;
    phase = if count p == 0 then finished else resting;
  };
}

pub data Reaches (s : Cluster) : Cluster → Type 0 where
  stays : Reaches s s
  goes : {t u : Cluster} → Reaches s t → Step t u → Reaches s u

-- Whether the participant `p` believes to lead
abbrev pub leads : String → Cluster → Bool
leads p s = is_leader s.now (s.participants p).elector
