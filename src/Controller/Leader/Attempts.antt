-- ===== src/Controller/Leader/Attempts.antt =====
-- One attempt of cloudcoil/controller/_leader.py: what it keeps of the election's state, and which
-- writes it may send.
use cloudcoil.Base.{
  ℕ, ◌+◌, ◌*◌, ◌≤◌, Bool, true, false, Option, none, some, String, String-discrete, ltb, ◌==◌,
  if◌then◌else◌, if_ind, Bool-cases, ◌≡◌, ◌⊎◌, inl, inr, refl, sym, ap, subst, arith,
}
use Prim.Native.String.{count}
use cloudcoil.Base.Results.{Exception, value_error, Result, ok, raise}
use cloudcoil.Controller.Leader.{
  second, Seconds, seconds, unusable, absent, Spec, Lease, Record, LeaderElection, record_of,
  same_record, Record-discrete, remember, Request, posts, puts, Plan, sends, returns, fails, settle,
  settle_plan, new_spec, is_other, is_own, claim, challenge,
}

-- The spec of a write.
abbrev pub spec_of : Request → Spec
spec_of (posts spec) = spec
spec_of (puts lease) = lease.spec

-- Nothing of the election's state but what it observed has changed.
pub record Keeps (e e' : LeaderElection) : Type 0 where
  pub identity : e'.identity ≡ e.identity
  pub lease_duration : e'.lease_duration ≡ e.lease_duration
  pub renew_deadline : e'.renew_deadline ≡ e.renew_deadline
  pub active : e'.active ≡ e.active
  pub last_renewed : e'.last_renewed ≡ e.last_renewed

-- A Lease was not renewed after it was observed first.
abbrev pub Sees : LeaderElection → Type 0
Sees e =
    (observed : Record) (u : ℕ)
    → e.observed ≡ some observed
    → observed.spec.renew_time ≡ some u
    → u ≤ e.observed_at

-- A Lease that is renewed by `now`.
abbrev pub IsPast : ℕ → Spec → Type 0
IsPast now spec = (u : ℕ) → spec.renew_time ≡ some u → u ≤ now

-- The write of `e` at the time `now` claims the Lease for `e`.
pub record Claims (now : ℕ) (e : LeaderElection) (spec : Spec) : Type 0 where
  pub holder : spec.holder ≡ some e.identity
  pub duration : spec.duration ≡ seconds e.lease_duration
  pub renew_time : spec.renew_time ≡ some now

-- The Lease is the elector's, nobody's, or has run out by `now`.
abbrev pub IsFree : ℕ → LeaderElection → Spec → Type 0
IsFree now e spec =
    (holder : String) (d u : ℕ)
    → spec.holder ≡ some holder
    → spec.duration ≡ seconds d
    → spec.renew_time ≡ some u
    → (holder ≡ e.identity) ⊎ ((count holder == 0) ≡ true) ⊎ (u + d * second ≤ now)

pub Keeps-refl : (e : LeaderElection) → Keeps e e
Keeps-refl e = record {
  identity = refl;
  lease_duration = refl;
  renew_deadline = refl;
  active = refl;
  last_renewed = refl;
}

pub remember-Keeps : (now : ℕ) (lease : Lease) (e : LeaderElection) → Keeps e (remember now lease e)
unfolding remember
remember-Keeps now lease e =
    if_ind (Keeps e) (same_record lease e.observed)
      (λ _. record {
        identity = refl;
        lease_duration = refl;
        renew_deadline = refl;
        active = refl;
        last_renewed = refl;
      })
      (λ _. record {
        identity = refl;
        lease_duration = refl;
        renew_deadline = refl;
        active = refl;
        last_renewed = refl;
      })

pub remember-Sees :
    (now : ℕ) (lease : Lease) (e : LeaderElection)
    → IsPast now lease.spec
    → Sees e
    → Sees (remember now lease e)
unfolding remember record_of
remember-Sees now lease e p h =
    if_ind Sees (same_record lease e.observed) (λ _ observed u o r. h observed u o r)
      (λ _ observed u o r. p u (ground (arith, o, r)))

same_record_lem :
    (lease : Lease) (observed : Option Record)
    → same_record lease observed ≡ true
    → observed ≡ some (record_of lease)
unfolding same_record
same_record_lem lease none h = cc
same_record_lem lease (some observed) h = elim (Record-discrete (record_of lease) observed) [
  | yes p ↦ ap some (sym p)
  | no n ↦ absurd (ground (arith, h))
]

-- Afterwards the record is what is observed.
remember-observed :
    (now : ℕ) (lease : Lease) (e : LeaderElection)
    → (remember now lease e).observed ≡ some (record_of lease)
unfolding remember
remember-observed now lease e =
    if_ind {A = LeaderElection} (λ e'. e'.observed ≡ some (record_of lease))
      (same_record lease e.observed) (λ t. same_record_lem lease e.observed t) (λ _. refl)

-- What is observed was renewed by the time that the duration counts from.
pub remember-renewed :
    (now u : ℕ) (lease : Lease) (e : LeaderElection)
    → IsPast now lease.spec
    → Sees e
    → lease.spec.renew_time ≡ some u
    → u ≤ (remember now lease e).observed_at
unfolding record_of
remember-renewed now u lease e p h r =
    remember-Sees now lease e p h (record_of lease) u (remember-observed now lease e) r

pub own_lem :
    (e : LeaderElection) (holder : Option String)
    → is_own e holder ≡ true
    → holder ≡ some e.identity
unfolding is_own
own_lem e none h = cc
own_lem e (some holder) h = elim (String-discrete holder e.identity) [
  | yes p ↦ ap some p
  | no n ↦ absurd (ground (arith, h))
]

not_other_lem :
    (e : LeaderElection) (holder : Option String) (h : String)
    → is_other e holder ≡ false
    → holder ≡ some h
    → (h ≡ e.identity) ⊎ ((count h == 0) ≡ true)
unfolding is_other
not_other_lem e none h o q = cc
not_other_lem e (some holder) h o q = elim (String-discrete holder e.identity) [
  | yes p ↦ inl (ground (arith, p, q))
  | no n ↦ elim (Bool-cases (count holder == 0)) [
    | inl z ↦ inr (subst (λ t. (count t == 0) ≡ true) {x = holder} (ground (arith, q)) z)
    | inr z ↦ absurd (ground (arith, o, z))
  ]
]

claim-Claims : (now : ℕ) (e : LeaderElection) (spec : Spec) → Claims now e (claim now e spec)
unfolding claim
claim-Claims now e spec =
    if_ind (Claims now e) (is_own e spec.holder)
      (λ _. record { holder = refl; duration = refl; renew_time = refl })
      (λ _. record { holder = refl; duration = refl; renew_time = refl })

pub new_spec-Claims : (now : ℕ) (e : LeaderElection) → Claims now e (new_spec now e)
unfolding new_spec
new_spec-Claims now e = record { holder = refl; duration = refl; renew_time = refl }

-- All that a plan may send has the property.
abbrev pub SendsOnly {ℓ} : (Request → Type ℓ) → Plan → Type ℓ
SendsOnly P plan = (r : Request) → plan ≡ sends r → P r

pub silent_fails {ℓ} : (P : Request → Type ℓ) (x : Exception) → SendsOnly P (fails x)
silent_fails P x r q = cc

silent_returns {ℓ} : (P : Request → Type ℓ) (b : Bool) → SendsOnly P (returns b)
silent_returns P b r q = cc

pub only_sends {ℓ} : (P : Request → Type ℓ) (r : Request) → P r → SendsOnly P (sends r)
only_sends P r h r' q = subst P {x = r} (ground (arith, q)) h

pub settle-SendsOnly {ℓ} : (P : Request → Type ℓ) (x : Exception) → SendsOnly P (settle_plan x)
unfolding settle_plan
settle-SendsOnly P x = settled_SendsOnly (settle x)
  where
    settled_SendsOnly :
        (r : Result Bool)
        → SendsOnly P (elim r [ ok answer ↦ returns answer | raise other ↦ fails other ])
    settled_SendsOnly (ok answer) = silent_returns P answer
    settled_SendsOnly (raise other) = silent_fails P other

-- A write over a Lease that was read: a claim at its version, where it was free.
pub record Supersedes (now : ℕ) (e : LeaderElection) (current : Lease) (r : Request) : Type 0 where
  pub put : Lease
  pub is_put : r ≡ puts put
  pub version : put.resource_version ≡ current.resource_version
  pub claims : Claims now e put.spec
  pub free : IsFree now e current.spec

module _ (now : ℕ) (current : Lease) (e : LeaderElection) where
  abbrev write : Request
  write = puts (record current { spec = claim now e current.spec })

  write-Supersedes : IsFree now e current.spec → SendsOnly (Supersedes now e current) (sends write)
  write-Supersedes h = only_sends (Supersedes now e current) write (record {
    put = record current { spec = claim now e current.spec };
    is_put = refl;
    version = refl;
    claims = claim-Claims now e current.spec;
    free = h;
  })

  timed-Supersedes :
      (duration : Seconds)
      → current.spec.duration ≡ duration
      → ((u : ℕ) → current.spec.renew_time ≡ some u → u ≤ e.observed_at)
      → SendsOnly (Supersedes now e current) (elim duration [
        | seconds n ↦
            if n == 0
            then fails value_error
            else if ltb now (e.observed_at + n * second)
            then returns false
            else sends write
        | unusable _ ↦ fails value_error
        | absent ↦ fails value_error
      ])
  timed-Supersedes (unusable _) d h = silent_fails _ _
  timed-Supersedes absent d h = silent_fails _ _
  timed-Supersedes (seconds n) d h =
      if_ind (SendsOnly (Supersedes now e current)) (n == 0) (λ _. silent_fails _ _)
        λ _.
          if_ind (SendsOnly (Supersedes now e current)) (ltb now (e.observed_at + n * second))
            (λ _. silent_returns _ _)
            λ t. write-Supersedes λ holder k u _ dk ru. inr (inr (ground (arith, t, h u ru, d, dk)))

  pub challenge-Supersedes :
      ((u : ℕ) → current.spec.renew_time ≡ some u → u ≤ e.observed_at)
      → SendsOnly (Supersedes now e current) (challenge now now current e)
  unfolding challenge
  challenge-Supersedes h =
      if_ind (SendsOnly (Supersedes now e current)) (is_other e current.spec.holder)
        (λ _. timed-Supersedes current.spec.duration refl h)
        (λ o. write-Supersedes λ holder _ _ q _ _. free_own o holder q)
    where
      free_own :
          is_other e current.spec.holder ≡ false
          → (holder : String) → current.spec.holder ≡ some holder
          → {A : Type 0} → (holder ≡ e.identity) ⊎ ((count holder == 0) ≡ true) ⊎ A
      free_own o holder q = elim (not_other_lem e current.spec.holder holder o q) [
        | inl i ↦ inl i
        | inr z ↦ inr (inl z)
      ]
