-- ===== src/Controller/Leader/Safety.antt =====
-- At most one participant of an election of cloudcoil/controller/_leader.py believes to lead.
use cloudcoil.Base.{
  ℕ, ◌*◌, ◌<◌, Bool, true, false, Option, none, some, String, ◌==◌, if◌then◌else◌, ◌≡◌, ◌≢◌, inl,
  inr, refl, ap, ◌∙◌, subst, arith, Bool-cases,
}
use Prim.Native.String.{count}
use cloudcoil.Base.Results.{ok, raise_if, value_error, ◌>>◌}
use cloudcoil.Base.Durations.{Duration, ticks, negative, not_finite}
use cloudcoil.Controller.Leader.{second, Lease, LeaderElection, init, fresh, is_leader}
use cloudcoil.Controller.Leader.Attempts.{IsPast}
use cloudcoil.Controller.Leader.Cluster.{
  resting, finished, Cluster, opening, Reaches, stays, goes, leads,
}
use cloudcoil.Controller.Leader.Invariant.{Held, PhaseOk, Inv}
use cloudcoil.Controller.Leader.Steps.{Step-Inv}

-- The electors of an election before it starts: each name is its own identity, and its settings are
-- those that `__init__` accepts for a name that is not empty.
pub record IsElector (p : String) (e : LeaderElection) : Type 0 where
  pub identity : e.identity ≡ p
  pub deadline : e.renew_deadline < e.lease_duration * second
  pub inactive : e.active ≡ false
  pub unseen : e.observed ≡ none

accepted :
    (name length deadlines : Bool) (made e : LeaderElection)
    → (raise_if name value_error
        >> raise_if length value_error
        >> raise_if deadlines value_error
        >> ok made)
      ≡ ok e
    → (deadlines ≡ false) × (made ≡ e)
accepted true length deadlines made e h = absurd (ground (arith, h))
accepted false true deadlines made e h = absurd (ground (arith, h))
accepted false false true made e h = absurd (ground (arith, h))
accepted false false false made e h = (refl, ground (arith, h))

-- What `__init__` accepts.
pub init-IsElector :
    (identity : String) (lease_duration : ℕ) (renew_deadline retry_period : Duration)
    (e : LeaderElection)
    → init identity lease_duration renew_deadline retry_period ≡ ok e
    → IsElector identity e
unfolding init fresh
init-IsElector identity lease_duration not_finite retry_period e h = absurd (ground (arith, h))
init-IsElector identity lease_duration (negative _) retry_period e h = absurd (ground (arith, h))
init-IsElector identity lease_duration (ticks r) not_finite e h = absurd (ground (arith, h))
init-IsElector identity lease_duration (ticks r) (negative _) e h = absurd (ground (arith, h))
init-IsElector identity lease_duration (ticks r) (ticks t) e h =
    let (test, same) = accepted _ _ _ _ e h in
    subst (IsElector identity) {x = fresh identity lease_duration r t} same
      (record { identity = refl; deadline = ground (arith, test); inactive = refl; unseen = refl })

opening-Inv :
    (now : ℕ) (server : Option Lease) (electors : String → LeaderElection)
    → ((p : String) → IsElector p (electors p))
    → ((lease : Lease) → server ≡ some lease → IsPast now lease.spec)
    → Inv (opening now server electors)
opening-Inv now server electors h p = record {
  past = p;
  flying = λ r m. absurd m;
  each = λ q. record {
    identity = (h q).identity;
    deadline = (h q).deadline;
    sees = λ observed u o _. absurd (ground (arith, o, (h q).unseen));
    named = λ z. ground (arith, z);
    phase = opened_PhaseOk q (count q == 0);
    leading = λ a. absurd (ground (arith, a, (h q).inactive));
  };
}
  where
    opened_PhaseOk :
        (q : String) (b : Bool)
        → PhaseOk
            (opening now server electors)
            ((opening now server electors).participants q)
            (if b then finished else resting)
    opened_PhaseOk q true = tt
    opened_PhaseOk q false = tt

Reaches-Inv : {s t : Cluster} → Reaches s t → Inv s → Inv t
Reaches-Inv stays i = i
Reaches-Inv (goes r step) i = Step-Inv step (Reaches-Inv r i)

-- Whoever leads holds the Lease.
leads_holder :
    (s : Cluster) (p : String)
    → Inv s
    → leads p s ≡ true
    → (lease : Lease) × (s.server ≡ some lease) × (lease.spec.holder ≡ some p)
unfolding is_leader
leads_holder s p i l = held_holder ((i.each p).leading (ground (arith, l))).1
  where
    held_holder :
        Held s.now s.server (s.participants p).elector (s.participants p).elector.last_renewed
        → (lease : Lease) × (s.server ≡ some lease) × (lease.spec.holder ≡ some p)
    held_holder (inl (lease, q, o, _, _, _, _)) = (lease, q, o ∙ ap some (i.each p).identity)
    held_holder (inr e) = absurd (ground (arith, e, l))

unique_holder : (s : Cluster) (p q : String) → Inv s → leads p s ≡ true → leads q s ≡ true → p ≡ q
unique_holder s p q i lp lq =
    let (one, e, o) = leads_holder s p i lp in
    let (other, e', o') = leads_holder s q i lq in
    let same : one ≡ other = ground (arith, e, e') in
    ground (arith, o, o', ap (λ l. l.spec.holder) same)

-- From an opening in which the Lease, if there is one, is not from the future, no two participants
-- ever believe to lead at the same time, whatever is delayed, lost or given up.
pub leads-exclusive :
    (now : ℕ) (server : Option Lease) (electors : String → LeaderElection) (s : Cluster)
    (p q : String)
    → ((r : String) → IsElector r (electors r))
    → ((lease : Lease) → server ≡ some lease → IsPast now lease.spec)
    → Reaches (opening now server electors) s
    → p ≢ q
    → leads p s ≡ true
    → leads q s ≡ false
leads-exclusive now server electors s p q h past r n lp =
    let i = Reaches-Inv r (opening-Inv now server electors h past) in
    elim (Bool-cases (leads q s)) [
      | inl lq ↦ absurd (n (unique_holder s p q i lp lq))
      | inr no_leader ↦ no_leader
    ]
