-- ===== src/Controller/Leader/Tests.antt =====
-- An election of cloudcoil/controller/_leader.py on small inputs, and the theorems at it.
use cloudcoil.Base.{
  ◌+◌, ◌≤◌, ◌<◌, [], ◌∷◌, true, false, none, some, String, String-discrete, ℕ_discrete, ap, ◌≡◌,
  refl, arith,
}
use cloudcoil.Base.Results.{ok}
use cloudcoil.Base.Durations.{ticks}
use cloudcoil.Controller.Leader.{
  seconds, Lease, LeaderElection, init, fresh, is_leader, same_record, record_of, remember,
  is_identified, observe, body_of, replied, refused, puts, posts, sends, is_fatal, settle,
  settle_plan, begin, new_spec, is_other, is_own, claim, same_uid, challenge, on_lease, on_get,
  on_write, renew_wait, count_failure, on_release, lead, stand_down, start, Record-discrete,
}
use cloudcoil.Controller.Leader.Cluster.{
  Cluster, set, asking, answered, acknowledged, after_get, after_write, begins, misses, hears,
  serves, learns, creates, opening, Reaches, stays, goes, leads,
}
use cloudcoil.Controller.Leader.Safety.{IsElector, leads-exclusive}
use cloudcoil.Controller.Leader.Progress.{after_reads, on_get-takeover, renew_wait-bounds}

program : Unit {0}
unfolding init fresh is_leader same_record record_of remember is_identified observe body_of is_fatal
    settle settle_plan begin new_spec is_other is_own claim same_uid challenge on_lease on_get
    on_write renew_wait count_failure on_release lead stand_down start Record-discrete
    String-discrete ℕ_discrete after_reads
program = tt

-- A Lease of 15 s, renewed every 2 s, for at most 10 s
abbrev elector : String → LeaderElection
unfolding fresh
elector p = fresh p 15 10000000 2000000

accepted : init "a" 15 (ticks 10000000) (ticks 2000000) ≡ ok (elector "a")
unfolding program
accepted = refl

elector-IsElector : (p : String) → IsElector p (elector p)
unfolding program
elector-IsElector p = record {
  identity = refl;
  deadline = omega arith;
  inactive = refl;
  unseen = refl;
}

abbrev idle_cluster : Cluster
idle_cluster = opening 1000 none elector

abbrev created : Lease
created = record {
  uid = "u";
  resource_version = some 7;
  spec = record {
    holder = some "a";
    duration = seconds 15;
    acquire_time = some 1000;
    renew_time = some 1000;
    transitions = some 0;
  };
}

-- "a" finds no Lease, creates it, and learns of it.
abbrev asked : Cluster
asked =
    set "a" (record (idle_cluster.participants "a") { started = 1000; phase = asking }) idle_cluster

abbrev missed : Cluster
missed = set "a" (record (asked.participants "a") { phase = answered (refused 404) }) asked

abbrev heard : Cluster
heard =
    set "a"
      (after_get (on_get 1000 1000 (refused 404) (missed.participants "a").elector)
        (missed.participants "a"))
      missed

abbrev served : Cluster
served =
    set "a" (record (heard.participants "a") { phase = acknowledged (replied created) })
      (record heard { server = some created })

abbrev led : Cluster
led =
    set "a"
      (after_write
        (on_write (served.participants "a").started 1000 (replied created)
          (served.participants "a").elector)
        (served.participants "a"))
      served

led-Reaches : Reaches idle_cluster led
unfolding program
led-Reaches =
    goes
      (goes
        (goes
          (goes (goes stays (begins "a" refl refl))
            (misses "a" (refused 404) refl (λ lease q. absurd (ground (arith, q)))))
          (hears "a" refl))
        (serves "a" {r = posts created.spec} {after = some created} {reply = replied created} refl
          (creates refl)))
      (learns "a" refl)

leads-exclusive_example : leads "b" led ≡ false
unfolding program
leads-exclusive_example =
    leads-exclusive 1000 none elector led "a" "b" elector-IsElector
      (λ lease q. absurd (ground (arith, q))) led-Reaches
      (λ q.
        let e : true ≡ false = ap (λ t. is_own (elector "a") (some t)) q in
        absurd (ground (arith, e)))
      refl

-- "b" finds the Lease of "a" unchanged for its 15 s, at three reads.
taken_over :
    (on_get 15002000 15002500
      (replied (record created { resource_version = some 9 }))
      (on_get 9000 9500
        (replied (record created { resource_version = some 8 }))
        (on_get 2000 2500 (replied created) (elector "b")).0).0).1
    ≡ sends (
        puts (record {
          uid = "u";
          resource_version = some 9;
          spec = record {
            holder = some "b";
            duration = seconds 15;
            acquire_time = some 15002500;
            renew_time = some 15002500;
            transitions = some 1;
          };
        }))
unfolding program
taken_over = refl

on_get-takeover_example :
    (on_get 15002000 15002500
      (replied (record created { resource_version = some 9 }))
      (on_get 9000 9500
        (replied (record created { resource_version = some 8 }))
        (on_get 2000 2500 (replied created) (elector "b")).0).0).1
    ≡ sends (
        puts (record {
          uid = "u";
          resource_version = some 9;
          spec = record {
            holder = some "b";
            duration = seconds 15;
            acquire_time = some 15002500;
            renew_time = some 15002500;
            transitions = some 1;
          };
        }))
unfolding program
on_get-takeover_example =
    on_get-takeover created "a" 15 refl refl refl (omega arith) refl (elector "b")
      (λ q.
        let e : true ≡ false = ap (λ t. is_own (elector t) (some "a")) q in
        absurd (ground (arith, e)))
      2000 2500 7 ((9000, 9500, 8) ∷ []) 15002000 15002500 9 refl (λ q. absurd (ground (arith, q)))

renew_wait-bounds_example : (0 < 2000000) × (5000000 + 2000000 ≤ 10000000) × (2000000 ≤ 2000000)
unfolding program
renew_wait-bounds_example = renew_wait-bounds 5000000 2000000 (elector "a") (omega arith) refl
