-- ===== src/Controller/Leader/Invariant.antt =====
-- What holds of the participants of cloudcoil/controller/_leader.py and of the writes on their way,
-- and that it holds on while time passes and participants move.
use cloudcoil.Base.{
  ℕ, ◌+◌, ◌*◌, ◌≤◌, ◌<◌, true, Option, some, String, String-discrete, ◌==◌, ◌≡◌, ◌≢◌, ◌⊎◌, inl, inr,
  sym, ap, ◌∙◌, subst, arith, Member,
}
use Prim.Native.String.{count}
use cloudcoil.Controller.Leader.{
  second, seconds, Spec, Lease, LeaderElection, replied, Request, puts,
}
use cloudcoil.Controller.Leader.Attempts.{Sees, IsPast, Claims, spec_of}
use cloudcoil.Controller.Leader.Cluster.{
  Phase, resting, asking, answered, writing, acknowledged, finished, Participant, Cluster, set,
}

-- The Lease is the elector's since `t` or later, or it need not be any more.
abbrev pub Held : ℕ → Option Lease → LeaderElection → ℕ → Type 0
Held now server e t =
    ((lease : Lease) × (server ≡ some lease)
      × (lease.spec.holder ≡ some e.identity)
      × (lease.spec.duration ≡ seconds e.lease_duration)
      × (u : ℕ) × (lease.spec.renew_time ≡ some u)
      × (t ≤ u))
    ⊎ (t + e.renew_deadline ≤ now)

-- The Lease of `q` has run out, `q` is over, or the write is a later renewal by `q`.
abbrev pub Frees : Cluster → Spec → String → ℕ → Type 0
Frees s spec q u =
    let x = s.participants q in
    (u + x.elector.lease_duration * second ≤ s.now)
    ⊎ (x.phase ≡ finished)
    ⊎ ((spec.holder ≡ some q)
        × (spec.duration ≡ seconds x.elector.lease_duration)
        × (w : ℕ) × (spec.renew_time ≡ some w)
        × (u ≤ w))

-- A version that was read is not later than the server's, and `P` holds where it is the same.
abbrev pub Reached : Option Lease → Lease → (Lease → Type 0) → Type 0
Reached server lease P =
    (v : ℕ)
    → lease.resource_version ≡ some v
    → (current : Lease) × (server ≡ some current)
      × (w : ℕ) × (current.resource_version ≡ some w)
      × (v ≤ w)
      × (v ≡ w → P current)

-- A write takes the Lease from nobody that may still lead.
pub record IsTimely (s : Cluster) (r : Request) : Type 0 where
  pub past : IsPast s.now (spec_of r)
  pub frees :
      (put : Lease)
      → r ≡ puts put
      → Reached s.server put λ current.
        (q : String) (u : ℕ)
        → current.spec.holder ≡ some q
        → current.spec.duration ≡ seconds (s.participants q).elector.lease_duration
        → current.spec.renew_time ≡ some u
        → Frees s put.spec q u

-- A Lease that was read.
abbrev pub IsRead : Cluster → Lease → Type 0
IsRead s lease = IsPast s.now lease.spec × Reached s.server lease (λ current. lease ≡ current)

abbrev pub PhaseOk : Cluster → Participant → Phase → Type 0
PhaseOk s x resting = Unit {0}
PhaseOk s x finished = Unit {0}
PhaseOk s x asking = x.started ≤ s.now
PhaseOk s x (answered reply) =
    (x.started ≤ s.now) × ((lease : Lease) → reply ≡ replied lease → IsRead s lease)
PhaseOk s x (writing r) = IsTimely s r × (u : ℕ) × Claims u x.elector (spec_of r) × (x.started ≤ u)
PhaseOk s x (acknowledged reply) =
    (lease : Lease)
    → reply ≡ replied lease
    → IsPast s.now lease.spec × Held s.now s.server x.elector x.started

pub record Sound (s : Cluster) (p : String) (x : Participant) : Type 0 where
  pub identity : x.elector.identity ≡ p
  pub deadline : x.elector.renew_deadline < x.elector.lease_duration * second
  pub sees : Sees x.elector
  pub named : (count p == 0) ≡ true → x.phase ≡ finished
  pub phase : PhaseOk s x x.phase
  pub leading :
      x.elector.active ≡ true
      → (x.phase ≢ finished) × Held s.now s.server x.elector x.elector.last_renewed

pub record Inv (s : Cluster) : Type 0 where
  pub past : (lease : Lease) → s.server ≡ some lease → IsPast s.now lease.spec
  pub flying : (r : Request) → Member r s.in_flight → IsTimely s r
  pub each : (p : String) → Sound s p (s.participants p)

-- `t` is later than `s`, with the same Lease; no participant changed its settings or came back.
pub record Extends (s t : Cluster) : Type 0 where
  pub later : s.now ≤ t.now
  pub server : t.server ≡ s.server
  pub durations :
      (q : String)
      → (t.participants q).elector.lease_duration ≡ (s.participants q).elector.lease_duration
  pub ended :
      (q : String) → (s.participants q).phase ≡ finished → (t.participants q).phase ≡ finished

module _ {s t : Cluster} (x : Extends s t) where
  pub extend-IsPast : (spec : Spec) → IsPast s.now spec → IsPast t.now spec
  extend-IsPast spec h u e = omega (arith, h u e, x.later)

  pub extend-Held :
      (e : LeaderElection) (since : ℕ) → Held s.now s.server e since → Held t.now t.server e since
  extend-Held e since (inl (lease, q, o, d, u, r, l)) = inl (lease, x.server ∙ q, o, d, u, r, l)
  extend-Held e since (inr h) = inr (omega (arith, h, x.later))

  pub extend-Frees : (spec : Spec) (q : String) (u : ℕ) → Frees s spec q u → Frees t spec q u
  extend-Frees spec q u (inl h) = inl (omega (arith, h, x.later, x.durations q))
  extend-Frees spec q u (inr (inl h)) = inr (inl (x.ended q h))
  extend-Frees spec q u (inr (inr (h, d, w, r, l))) =
      inr (inr (h, d ∙ sym (ap seconds (x.durations q)), w, r, l))

  pub extend-Reached :
      (lease : Lease) (P Q : Lease → Type 0)
      → ((current : Lease) → P current → Q current)
      → Reached s.server lease P
      → Reached t.server lease Q
  extend-Reached lease P Q f h v e =
      let (current, c, w, r, l, same) = h v e in
      (current, x.server ∙ c, w, r, l, λ q. f current (same q))

  pub extend-IsTimely : (r : Request) → IsTimely s r → IsTimely t r
  extend-IsTimely r h = record {
    past = extend-IsPast (spec_of r) h.past;
    frees = λ put e.
        extend-Reached put _ _
          (λ current f q u o d n.
            extend-Frees put.spec q u (f q u o (d ∙ ap seconds (x.durations q)) n))
          (h.frees put e);
  }

  extend-PhaseOk : (y : Participant) (phase : Phase) → PhaseOk s y phase → PhaseOk t y phase
  extend-PhaseOk y resting h = tt
  extend-PhaseOk y finished h = tt
  extend-PhaseOk y asking h = omega (arith, h, x.later)
  extend-PhaseOk y (answered reply) h = (
    omega (arith, h.0, x.later),
    λ lease e.
        let (p, r) = h.1 lease e in
        (extend-IsPast lease.spec p, extend-Reached lease _ _ (λ _ q. q) r),
  )
  extend-PhaseOk y (writing r) (h, u, c, l) = (extend-IsTimely r h, u, c, l)
  extend-PhaseOk y (acknowledged reply) h = λ lease e.
      let (p, r) = h lease e in (extend-IsPast lease.spec p, extend-Held y.elector y.started r)

  pub extend-Sound : (p : String) (y : Participant) → Sound s p y → Sound t p y
  extend-Sound p y h = record {
    identity = h.identity;
    deadline = h.deadline;
    sees = h.sees;
    named = h.named;
    phase = extend-PhaseOk y y.phase h.phase;
    leading = λ a. let (n, l) = h.leading a in (n, extend-Held y.elector y.elector.last_renewed l);
  }

-- A property of the participants, after one of them changed.
pub set_ind {ℓ} :
    (P : String → Participant → Type ℓ) (p : String) (x : Participant) (s : Cluster)
    → P p x
    → ((q : String) → P q (s.participants q))
    → (q : String) → P q ((set p x s).participants q)
set_ind P p x s h k q = decided_ind (String-discrete p q)
  where
    decided_ind : (d : Dec (p ≡ q)) → P q (elim d [ yes _ ↦ x | no _ ↦ s.participants q ])
    decided_ind (yes e) = subst (λ t. P t x) e h
    decided_ind (no _) = k q
