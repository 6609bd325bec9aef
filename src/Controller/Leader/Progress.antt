-- ===== src/Controller/Leader/Progress.antt =====
-- What an election of cloudcoil/controller/_leader.py does once the time has come.
use Prim.Native.String.{count}
use cloudcoil.Base.{
  ℕ, ◌+◌, ◌*◌, ◌≤◌, ◌<◌, true, false, Option, none, some, String, List, [], ◌∷◌, ◌==◌, ltb, leb,
  if◌then◌else◌, if_ind, ◌≡◌, ◌≢◌, refl, sym, ap, ◌∙◌, subst, arith,
}
use cloudcoil.Base.Results.{value_error, ok}
use cloudcoil.Controller.Leader.{
  second, Seconds, seconds, unusable, absent, Lease, LeaderElection, Spec, Record, record_of,
  same_record, remember, is_identified, observe, replied, puts, Plan, sends, returns, fails,
  is_other, is_own, claim, challenge, on_lease, on_get, renew_wait,
}

timed :
    (now n since : ℕ) (write : Plan) (duration : Seconds)
    → duration ≡ seconds n
    → 0 < n
    → elim duration [
      | seconds m ↦
          if m == 0
          then fails value_error
          else if ltb now (since + m * second)
          then returns false
          else write
      | unusable _ ↦ fails value_error
      | absent ↦ fails value_error
    ]
      ≡ (if leb (since + n * second) now then write else returns false)
timed now n since write (unusable _) d p = absurd (ground (arith, d))
timed now n since write absent d p = absurd (ground (arith, d))
timed now n since write (seconds m) d p =
    subst
      (λ k.
        (if m == 0
          then fails value_error
          else if ltb now (since + m * second)
          then returns false
          else write)
        ≡ (if leb (since + k * second) now then write else returns false))
      {x = m} (ground (arith, d)) (ground (arith, p, d))

-- The Lease of another participant, at some version
module _ (current : Lease) (holder : String) (n : ℕ) (held : current.spec.holder ≡ some holder)
    (named : (count holder == 0) ≡ false) (lasts : current.spec.duration ≡ seconds n)
    (positive : 0 < n) (stored : (count current.uid == 0) ≡ false) where
  abbrev pub at : ℕ → Lease
  at version = record current { resource_version = some version }

  -- Attempts that read it, each with its clock, its UTC time and the version that it finds
  unfoldable pub after_reads : List (ℕ × ℕ × ℕ) → LeaderElection → LeaderElection
  after_reads [] e = e
  after_reads ((now, utc, version) ∷ reads) e =
      after_reads reads (on_get now utc (replied (at version)) e).0

  -- What a candidate has seen since `since`
  record Watches (since : ℕ) (e f : LeaderElection) : Type 0 where
    inactive : f.active ≡ false
    since_then : f.observed_at ≡ since
    seen : f.observed ≡ some (record_of current)
    identity : f.identity ≡ e.identity
    lease_duration : f.lease_duration ≡ e.lease_duration

  same_record_refl :
      (version : ℕ) (o : Option Record)
      → o ≡ some (record_of current)
      → same_record (at version) o ≡ true
  unfolding same_record record_of
  same_record_refl version o h = rw h (ground arith)

  read-remember :
      (now utc version : ℕ) (e : LeaderElection)
      → e.active ≡ false
      → (on_get now utc (replied (at version)) e).0 ≡ remember now (at version) e
  unfolding on_get on_lease observe is_identified
  read-remember now utc version e a = ground (arith, a, stored)

  same_record-eq :
      (version : ℕ) (o : Option Record)
      → same_record (at version) o ≡ true
      → o ≡ some (record_of current)
  unfolding same_record record_of
  same_record-eq version none h = cc
  same_record-eq version (some o) h = ground arith

  first-Watches :
      (now version : ℕ) (e : LeaderElection)
      → e.active ≡ false
      → e.observed ≢ some (record_of current)
      → Watches now e (remember now (at version) e)
  unfolding remember record_of
  first-Watches now version e a n =
      if_ind {A = LeaderElection} (Watches now e) (same_record (at version) e.observed)
        (λ t. absurd (n (same_record-eq version e.observed t)))
        (λ _. record {
          inactive = a;
          since_then = refl;
          seen = refl;
          identity = refl;
          lease_duration = refl;
        })

  again-Watches :
      (since now version : ℕ) (e f : LeaderElection)
      → Watches since e f
      → Watches since e (remember now (at version) f)
  unfolding remember
  again-Watches since now version e f w =
      if_ind {A = LeaderElection} (Watches since e) (same_record (at version) f.observed)
        (λ _. record {
          inactive = w.inactive;
          since_then = w.since_then;
          seen = w.seen;
          identity = w.identity;
          lease_duration = w.lease_duration;
        })
        (λ t. absurd (ground (arith, t, same_record_refl version f.observed w.seen)))

  after_reads-Watches :
      (since : ℕ) (reads : List (ℕ × ℕ × ℕ)) (e f : LeaderElection)
      → Watches since e f
      → Watches since e (after_reads reads f)
  unfolding after_reads
  after_reads-Watches since [] e f w = w
  after_reads-Watches since ((now, utc, version) ∷ reads) e f w =
      after_reads-Watches since reads e (on_get now utc (replied (at version)) f).0 (
        subst (Watches since e) (sym (read-remember now utc version f w.inactive))
          (again-Watches since now version e f w))

  module _ (e : LeaderElection) (other : holder ≢ e.identity) where
    -- The spec with which the candidate takes the Lease
    abbrev pub taken : ℕ → Spec
    taken utc = record {
      holder = some e.identity;
      duration = seconds e.lease_duration;
      acquire_time = some utc;
      renew_time = some utc;
      transitions = some (elim current.spec.transitions [ none ↦ 1 | some k ↦ k + 1 ]);
    }

    not_own : (f : LeaderElection) → f.identity ≡ e.identity → is_own f current.spec.holder ≡ false
    unfolding is_own
    not_own f h = rw held (ground (arith, other, h))

    others : (f : LeaderElection) → f.identity ≡ e.identity → is_other f current.spec.holder ≡ true
    unfolding is_other
    others f h = rw held (ground (arith, named, other, h))

    claim-taken :
        (utc since : ℕ) (f : LeaderElection)
        → Watches since e f
        → claim utc f current.spec ≡ taken utc
    unfolding claim
    claim-taken utc since f w =
        if_ind {A = Spec} (λ x. x ≡ taken utc) (is_own f current.spec.holder)
          (λ t. absurd (ground (arith, t, not_own f w.identity)))
          (λ _. rw (w.identity, w.lease_duration) refl)

    abbrev pub takes : ℕ → ℕ → ℕ → ℕ → Plan
    takes now utc version since =
        if leb (since + n * second) now
        then sends (puts (record (at version) { spec = taken utc }))
        else returns false

    challenge-takes :
        (now utc version since : ℕ) (f : LeaderElection)
        → Watches since e f
        → challenge now utc (at version) f ≡ takes now utc version since
    unfolding challenge
    challenge-takes now utc version since f w =
        if_ind (λ x. x ≡ takes now utc version since) (is_other f current.spec.holder)
          (λ _.
            let write = sends (puts (record (at version) { spec = claim utc f current.spec })) in
            timed now n f.observed_at write current.spec.duration lasts positive
            ∙ ap (λ t. if leb (t + n * second) now then write else returns false) w.since_then
            ∙ ap
                (λ spec.
                  if leb (since + n * second) now
                  then sends (puts (record (at version) { spec = spec }))
                  else returns false)
                (claim-taken utc since f w))
          (λ t. absurd (ground (arith, t, others f w.identity)))

    read-takes :
        (now utc version since : ℕ) (f : LeaderElection)
        → Watches since e f
        → (on_get now utc (replied (at version)) f).1 ≡ takes now utc version since
    unfolding on_get on_lease observe is_identified
    read-takes now utc version since f w = ground (
      arith,
      w.inactive,
      stored,
      challenge-takes now utc version since (remember now (at version) f)
          (again-Watches since now version e f w),
    )

    -- A candidate that is not active and reads for the first time, at `since`, a Lease with a UID, a
    -- named holder that is not itself and a positive duration, and then only Leases with the same
    -- record, at any times and versions, sends at a later read nothing before that duration is over
    -- since then, and afterwards a PUT, at the version that it read, of a spec with its own identity
    -- and duration, the time of this read as that of the acquisition and of the renewal, and one
    -- transition more.
    pub on_get-takeover :
        (since utc_since first : ℕ) (reads : List (ℕ × ℕ × ℕ)) (now utc version : ℕ)
        → e.active ≡ false
        → e.observed ≢ some (record_of current)
        → (on_get now utc
            (replied (at version))
            (after_reads reads (on_get since utc_since (replied (at first)) e).0)).1
          ≡ (if leb (since + n * second) now
              then sends (
                  puts (record {
                    uid = current.uid;
                    resource_version = some version;
                    spec = record {
                      holder = some e.identity;
                      duration = seconds e.lease_duration;
                      acquire_time = some utc;
                      renew_time = some utc;
                      transitions =
                          some (elim current.spec.transitions [ none ↦ 1 | some k ↦ k + 1 ]);
                    };
                  }))
              else returns false)
    on_get-takeover since utc_since first reads now utc version a unseen =
        read-takes now utc version since _ (
          after_reads-Watches since reads e _ (
            subst (Watches since e) (sym (read-remember since utc_since first e a))
              (first-Watches since first e a unseen)))

-- The sleep between two renewals ends by the deadline of the last one, and if it is not cut short it
-- lasts the retry period.
pub renew_wait-bounds :
    (now delay : ℕ) (e : LeaderElection)
    → 0 < e.retry_period
    → renew_wait now e ≡ ok delay
    → (0 < delay) × (now + delay ≤ e.last_renewed + e.renew_deadline) × (delay ≤ e.retry_period)
unfolding renew_wait
renew_wait-bounds now delay e p h = ground (arith, h)
