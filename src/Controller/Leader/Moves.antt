-- ===== src/Controller/Leader/Moves.antt =====
-- That the API server's answer to a write, and the move of one participant, keep what holds of the
-- participants of cloudcoil/controller/_leader.py.
use cloudcoil.Base.{
  ℕ, Option, some, String, List, ◌≡◌, ◌≢◌, ◌⊎◌, inl, inr, refl, sym, ap, ◌∙◌, subst, arith, Member,
}
use cloudcoil.Controller.Leader.{seconds, Lease, Reply, replied, Request}
use cloudcoil.Controller.Leader.Attempts.{IsPast, spec_of}
use cloudcoil.Controller.Leader.Cluster.{
  Phase, resting, asking, answered, writing, acknowledged, finished, Participant, Cluster, Served,
  rejects, loses, creates, updates, set,
}
use cloudcoil.Controller.Leader.Invariant.{
  Held, Frees, Reached, IsTimely, PhaseOk, Sound, Inv, Extends, extend-IsTimely, extend-Sound,
  set_ind,
}

-- A write that the server accepted: it is now the Lease, what was read before is out of date, and
-- nobody that may still lead lost the Lease.
pub record Advances (s : Cluster) (r : Request) (after : Option Lease) (reply : Reply)
    : Type 1 where
  pub lease : Lease
  pub stored : after ≡ some lease
  pub reply_is : reply ≡ replied lease
  pub spec : lease.spec ≡ spec_of r
  pub outdated : (old : Lease) (P Q : Lease → Type 0) → Reached s.server old P → Reached after old Q
  pub frees :
      (current : Lease)
      → s.server ≡ some current
      → (q : String) (u : ℕ) → current.spec.holder ≡ some q
      → current.spec.duration ≡ seconds (s.participants q).elector.lease_duration
      → current.spec.renew_time ≡ some u
      → Frees s (spec_of r) q u

abbrev pub Answers : Cluster → Request → Option Lease → Reply → Type 1
Answers s r after reply =
    ((after ≡ s.server) × ((lease : Lease) → reply ≢ replied lease)) ⊎ Advances s r after reply

pub Served-Answers :
    (s : Cluster) {r : Request} {before after : Option Lease} {reply : Reply}
    → s.server ≡ before
    → IsTimely s r
    → Served r before after reply
    → Answers s r after reply
Served-Answers s e h (rejects status) = inl (sym e, λ lease q. cc)
Served-Answers s e h loses = inl (sym e, λ lease q. cc)
Served-Answers s e h (creates {lease = lease} q) = inr (record {
  lease = lease;
  stored = refl;
  reply_is = refl;
  spec = q;
  outdated = λ old P Q b v f. let (current, c, _, _, _, _) = b v f in absurd (ground (arith, c, e));
  frees = λ current c. absurd (ground (arith, c, e));
})
Served-Answers s e h
      (updates {put = put} {before = b} {after = a} {v = v} {w = w} pv bv aw less q) =
    inr (record {
      lease = a;
      stored = refl;
      reply_is = refl;
      spec = q;
      outdated = λ old P Q f k r.
          let (current, c, x, y, le, _) = f k r in
          let same : b ≡ current = ground (arith, c, e) in
          let vx : v ≡ x = ground (arith, y, ap (λ l. l.resource_version) same, bv) in
          (
            a,
            refl,
            w,
            aw,
            omega (arith, le, vx, less),
            λ z. absurd (omega (arith, le, vx, less, z)),
          );
      frees = λ current c q u o d n.
          let (now, c', x, y, le, at) = h.frees put refl v pv in
          let same : b ≡ now = ground (arith, c', e) in
          let vx : v ≡ x = ground (arith, y, ap (λ l. l.resource_version) same, bv) in
          let same' : current ≡ now = ground (arith, c, c') in
          at vx q u (ap (λ l. l.spec.holder) (sym same') ∙ o)
            (ap (λ l. l.spec.duration) (sym same') ∙ d)
            (ap (λ l. l.spec.renew_time) (sym same') ∙ n);
    })

module _ (s : Cluster) {r : Request} {after : Option Lease} {reply : Reply}
    (a : Advances s r after reply) where
  abbrev stored_in : Cluster
  stored_in = record s { server = after }

  advance-Held :
      (q : String) (since : ℕ)
      → Sound s q (s.participants q)
      → (s.participants q).phase ≢ finished
      → Held s.now s.server (s.participants q).elector since
      → Held s.now after (s.participants q).elector since
  advance-Held q since h n (inr l) = inr l
  advance-Held q since h n (inl (lease, stored, o, d, u, ru, l)) =
      freed (a.frees lease stored q u (o ∙ ap some h.identity) d ru)
    where
      freed : Frees s (spec_of r) q u → Held s.now after (s.participants q).elector since
      freed (inl expired) = inr (omega (arith, expired, l, h.deadline))
      freed (inr (inl over)) = absurd (n over)
      freed (inr (inr (o', d', w, rw', le))) = inl (
        a.lease,
        a.stored,
        ap (λ x. x.holder) a.spec ∙ o' ∙ ap some (sym h.identity),
        ap (λ x. x.duration) a.spec ∙ d',
        w,
        ap (λ x. x.renew_time) a.spec ∙ rw',
        omega (arith, le, l),
      )

  advance-IsTimely : (r' : Request) → IsTimely s r' → IsTimely stored_in r'
  advance-IsTimely r' h = record {
    past = h.past;
    frees = λ put e. a.outdated put _ _ (h.frees put e);
  }

  advance-PhaseOk :
      (q : String)
      → (phase : Phase) → (s.participants q).phase ≡ phase
      → Sound s q (s.participants q)
      → PhaseOk s (s.participants q) phase
      → PhaseOk stored_in (s.participants q) phase
  advance-PhaseOk q resting e g h = tt
  advance-PhaseOk q finished e g h = tt
  advance-PhaseOk q asking e g h = h
  advance-PhaseOk q (answered got) e g h =
      (h.0, λ lease f. let (p, k) = h.1 lease f in (p, a.outdated lease _ _ k))
  advance-PhaseOk q (writing w) e g (h, u, c, l) = (advance-IsTimely w h, u, c, l)
  advance-PhaseOk q (acknowledged got) e g h = λ lease f.
      let (p, k) = h lease f in
      (p, advance-Held q (s.participants q).started g (λ x. absurd (ground (arith, x, e))) k)

  advance-Sound : (q : String) → Sound s q (s.participants q) → Sound stored_in q (s.participants q)
  advance-Sound q g = record {
    identity = g.identity;
    deadline = g.deadline;
    sees = g.sees;
    named = g.named;
    phase = advance-PhaseOk q (s.participants q).phase refl g g.phase;
    leading = λ b.
        let (n, l) = g.leading b in
        (n, advance-Held q (s.participants q).elector.last_renewed g n l);
  }

  advance-IsPast : IsTimely s r → (lease : Lease) → after ≡ some lease → IsPast s.now lease.spec
  advance-IsPast h lease e u f =
      let same : a.lease ≡ lease = ground (arith, e, a.stored) in
      h.past u (ap (λ x. x.renew_time) (sym a.spec) ∙ ap (λ x. x.spec.renew_time) same ∙ f)

  pub advance-Inv : Inv s → IsTimely s r → Inv stored_in
  advance-Inv i h = record {
    past = advance-IsPast h;
    flying = λ r' m. advance-IsTimely r' (i.flying r' m);
    each = λ q. advance-Sound q (i.each q);
  }

-- A write that is served, whether it is accepted or not.
pub serve-Inv :
    (s : Cluster) {r : Request} {after : Option Lease} {reply : Reply}
    → Inv s
    → IsTimely s r
    → Answers s r after reply
    → Inv (record s { server = after })
serve-Inv s i h (inl (e, n)) = subst (λ o. Inv (record s { server = o })) (sym e) i
serve-Inv s i h (inr a) = advance-Inv s a i h

-- One participant changes, and more writes are on their way.
pub set-Inv :
    (s : Cluster) (p : String) (x : Participant) (writes : List Request)
    → Inv s
    → x.elector.lease_duration ≡ (s.participants p).elector.lease_duration
    → ((s.participants p).phase ≡ finished → x.phase ≡ finished)
    → Sound s p x
    → ((r : Request) → Member r writes → IsTimely s r)
    → Inv (set p x (record s { in_flight = writes }))
set-Inv s p x writes i d f g w =
    let t = set p x (record s { in_flight = writes }) in
    let extends : Extends s t = record {
      later = omega arith;
      server = refl;
      durations =
          set_ind (λ q y. y.elector.lease_duration ≡ (s.participants q).elector.lease_duration) p x
            s d (λ _. refl);
      ended =
          set_ind (λ q y. (s.participants q).phase ≡ finished → y.phase ≡ finished) p x s f
            (λ _ e. e);
    } in
    record {
      past = i.past;
      flying = λ r m. extend-IsTimely extends r (w r m);
      each =
          set_ind (λ q y. Sound t q y) p x s (extend-Sound extends p x g)
            (λ q. extend-Sound extends q (s.participants q) (i.each q));
    }
