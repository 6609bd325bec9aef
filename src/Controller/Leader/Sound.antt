-- ===== src/Controller/Leader/Sound.antt =====
-- The turns of a participant of the election, cloudcoil/controller/_leader.py, keep what holds of it.
use cloudcoil.Base.{
  ℕ, ◌≤◌, Bool, true, false, some, String, if◌then◌else◌, if_ind, ◌≡◌, ◌≢◌, inl, inr, refl, sym, ap,
  ◌∙◌, subst, arith,
}
use cloudcoil.Base.Results.{Exception, Result, ok, raise}
use cloudcoil.Controller.Leader.{
  seconds, Spec, Lease, LeaderElection, remember, Reply, replied, Request, posts, puts, Plan, sends,
  returns, fails, count_failure, lead, stand_down,
}
use cloudcoil.Controller.Leader.Attempts.{
  Keeps, Sees, IsPast, Claims, Supersedes, spec_of, Keeps-refl, remember-Keeps, remember-Sees,
}
use cloudcoil.Controller.Leader.Exchanges.{Writes, Follows, Wrote}
use cloudcoil.Controller.Leader.Cluster.{
  Phase, resting, writing, finished, Participant, Cluster, fail, retry, after_get, after_write,
}
use cloudcoil.Controller.Leader.Invariant.{Held, Frees, IsTimely, IsRead, PhaseOk, Sound, Inv}

module _ (s : Cluster) (p : String) (x : Participant) (g : Sound s p x) where
  -- The run goes on in another phase.
  pub resume-Sound :
      (e : LeaderElection) (phase : Phase)
      → Keeps x.elector e
      → Sees e
      → x.phase ≢ finished
      → phase ≢ finished
      → PhaseOk s (record x { elector = e; phase = phase }) phase
      → Sound s p (record x { elector = e; phase = phase })
  resume-Sound e phase k sees running n ok_phase = record {
    identity = k.identity ∙ g.identity;
    deadline = omega (arith, g.deadline, k.renew_deadline, k.lease_duration);
    sees = sees;
    named = λ z. absurd (running (g.named z));
    phase = ok_phase;
    leading = λ a. let (_, l) = g.leading (sym k.active ∙ a) in (n, held_again l);
  }
    where
      held_again :
          Held s.now s.server x.elector x.elector.last_renewed
          → Held s.now s.server e e.last_renewed
      held_again (inl (lease, q, o, d, u, r, l)) = inl (
        lease,
        q,
        o ∙ ap some (sym k.identity),
        d ∙ ap seconds (sym k.lease_duration),
        u,
        r,
        omega (arith, l, k.last_renewed),
      )
      held_again (inr l) = inr (omega (arith, l, k.last_renewed, k.renew_deadline))

  counted :
      (e : LeaderElection)
      → Keeps x.elector e
      → Keeps x.elector (if e.active then count_failure false e else e)
  unfolding count_failure
  counted e k =
      if_ind (Keeps x.elector) e.active
        (λ _. record {
          identity = k.identity;
          lease_duration = k.lease_duration;
          renew_deadline = k.renew_deadline;
          active = k.active;
          last_renewed = k.last_renewed;
        })
        (λ _. k)

  counted-Sees :
      (e : LeaderElection) → Sees e → Sees (if e.active then count_failure false e else e)
  unfolding count_failure
  counted-Sees e h = if_ind Sees e.active (λ _ observed u o r. h observed u o r) (λ _. h)

  -- An attempt that is over.
  pub retry-Sound :
      (e : LeaderElection) → Keeps x.elector e → Sees e → x.phase ≢ finished → Sound s p (retry e x)
  retry-Sound e k h n =
      resume-Sound _ resting (counted e k) (counted-Sees e h) n (λ q. absurd (ground (arith, q))) tt

  -- A run that is over.
  pub fail-Sound :
      (e : LeaderElection) (error : Exception)
      → Keeps x.elector e
      → Sees e
      → Sound s p (fail error (record x { elector = e }))
  unfolding stand_down
  fail-Sound e error k h = record {
    identity = k.identity ∙ g.identity;
    deadline = omega (arith, g.deadline, k.renew_deadline, k.lease_duration);
    sees = λ observed u o r. h observed u o r;
    named = λ _. refl;
    phase = tt;
    leading = λ a. absurd (ground (arith, a));
  }

  -- What the elector writes at the time `now`.
  Claims-IsPast : (e : LeaderElection) (spec : Spec) → Claims s.now e spec → IsPast s.now spec
  Claims-IsPast e spec c u q = ground (arith, c.renew_time, q)

  module _ (i : Inv s)
      (same : x.elector.lease_duration ≡ (s.participants p).elector.lease_duration) where
    -- The write that follows a GET takes the Lease from nobody.
    supersede-IsTimely :
        (e : LeaderElection) (current : Lease) (r : Request)
        → Keeps x.elector e
        → IsRead s current
        → Supersedes s.now e current r
        → IsTimely s r
    supersede-IsTimely e current r k read u =
        subst (IsTimely s) {x = puts u.put} (sym u.is_put) (record {
          past = Claims-IsPast e u.put.spec u.claims;
          frees = λ put q v ev.
              let same_put : u.put ≡ put = ground (arith, q) in
              let (now, stored, w, ew, le, at) =
                read.1 v (sym u.version ∙ ap (λ l. l.resource_version) same_put ∙ ev) in
              (
                now,
                stored,
                w,
                ew,
                le,
                λ vw.
                    subst
                      (λ l.
                        (t : String) (n : ℕ)
                        → l.spec.holder ≡ some t
                        → l.spec.duration ≡ seconds (s.participants t).elector.lease_duration
                        → l.spec.renew_time ≡ some n
                        → Frees s put.spec t n)
                      (at vw)
                      (subst
                        (λ m.
                          (t : String) (n : ℕ)
                          → current.spec.holder ≡ some t
                          → current.spec.duration
                            ≡ seconds (s.participants t).elector.lease_duration
                          → current.spec.renew_time ≡ some n
                          → Frees s m.spec t n)
                        same_put frees_now),
              );
        })
      where
        frees_now :
            (t : String) (n : ℕ)
            → current.spec.holder ≡ some t
            → current.spec.duration ≡ seconds (s.participants t).elector.lease_duration
            → current.spec.renew_time ≡ some n
            → Frees s u.put.spec t n
        frees_now t n o d a = elim (u.free t (s.participants t).elector.lease_duration n o d a) [
          | inl own ↦ inr (
              inr (
                u.claims.holder ∙ ap some (sym own),
                u.claims.duration
                    ∙ ap seconds (
                        k.lease_duration
                        ∙ same
                        ∙ ap (λ y. (s.participants y).elector.lease_duration)
                            (sym g.identity ∙ sym k.identity ∙ sym own)),
                s.now,
                u.claims.renew_time,
                read.0 n a,
              ))
          | inr (inl unnamed) ↦ inr (inl ((i.each t).named unnamed))
          | inr (inr expired) ↦ inl expired
        ]

    post-IsTimely :
        (e : LeaderElection) (spec : Spec) → Claims s.now e spec → IsTimely s (posts spec)
    post-IsTimely e spec c = record {
      past = Claims-IsPast e spec c;
      frees = λ put q. absurd (ground (arith, q));
    }

    written :
        (e : LeaderElection) (reply : Reply) (r : Request)
        → Keeps x.elector e
        → ((lease : Lease) → reply ≡ replied lease → IsRead s lease)
        → Writes s.now reply e r
        → IsTimely s r × Claims s.now e (spec_of r)
    written e reply r k read (inl (spec, q, c)) =
        subst (λ t. IsTimely s t × Claims s.now e (spec_of t)) {x = posts spec} (sym q)
          (post-IsTimely e spec c, c)
    written e reply r k read (inr (current, q, u)) = (
      supersede-IsTimely e current r k (read current q) u,
      subst (λ t. Claims s.now e (spec_of t)) {x = puts u.put} (sym u.is_put) u.claims,
    )

    pub after_get-Sound :
        (reply : Reply) (next : LeaderElection × Plan)
        → x.started ≤ s.now
        → ((lease : Lease) → reply ≡ replied lease → IsRead s lease)
        → x.phase ≢ finished
        → Follows s.now reply x.elector next
        → Sound s p (after_get next x)
    after_get-Sound reply (e, returns _) le read n f = retry-Sound e f.keeps f.sees n
    after_get-Sound reply (e, fails error) le read n f = fail-Sound e error f.keeps f.sees
    after_get-Sound reply (e, sends r) le read n f =
        let (timely, claims) = written e reply r f.keeps read (f.writes r refl) in
        resume-Sound e (writing r) f.keeps f.sees n (λ q. absurd (ground (arith, q)))
          (timely, s.now, claims, le)

  -- The elector renews from the start of the attempt, and leads.
  renewed-Sound :
      (e : LeaderElection)
      → e.identity ≡ x.elector.identity
      → e.lease_duration ≡ x.elector.lease_duration
      → e.renew_deadline ≡ x.elector.renew_deadline
      → e.last_renewed ≡ x.started
      → Sees e
      → x.phase ≢ finished
      → Held s.now s.server x.elector x.started
      → Sound s p (record x { elector = e; phase = resting })
  renewed-Sound e a b c d h n held = record {
    identity = a ∙ g.identity;
    deadline = omega (arith, g.deadline, b, c);
    sees = h;
    named = λ z. absurd (n (g.named z));
    phase = tt;
    leading = λ _. (λ q. absurd (ground (arith, q)), held_now held);
  }
    where
      held_now : Held s.now s.server x.elector x.started → Held s.now s.server e e.last_renewed
      held_now (inl (lease, q, o, u, t, r, l)) =
          inl (lease, q, o ∙ ap some (sym a), u ∙ ap seconds (sym b), t, r, omega (arith, l, d))
      held_now (inr l) = inr (omega (arith, l, d, c))

  led_Sound :
      (e : LeaderElection)
      → e.identity ≡ x.elector.identity
      → e.lease_duration ≡ x.elector.lease_duration
      → e.renew_deadline ≡ x.elector.renew_deadline
      → e.last_renewed ≡ x.started
      → Sees e
      → x.phase ≢ finished
      → Held s.now s.server x.elector x.started
      → Sound s p (after_write (e, ok true) x)
  unfolding lead
  led_Sound e a b c d h n held =
      if_ind (λ f. Sound s p (record x { elector = f; phase = resting })) e.active
        (λ _. renewed-Sound e a b c d h n held)
        (λ _. renewed-Sound (lead e) a b c d (λ observed u o r. h observed u o r) n held)

  pub after_write-Sound :
      (reply : Reply) (next : LeaderElection × Result Bool)
      → ((lease : Lease)
          → reply ≡ replied lease
          → IsPast s.now lease.spec × Held s.now s.server x.elector x.started)
      → x.phase ≢ finished
      → Wrote x.started s.now reply x.elector next
      → Sound s p (after_write next x)
  after_write-Sound reply (e, ok true) h n (inl (lease, q, r, _)) =
      let seen = remember s.now lease x.elector in
      let k = remember-Keeps s.now lease x.elector in
      let sees = remember-Sees s.now lease x.elector (h lease q).0 g.sees in
      subst (λ f. Sound s p (after_write (f, ok true) x))
        {x = record seen { last_renewed = x.started }} (sym r)
        (led_Sound _ k.identity k.lease_duration k.renew_deadline refl
          (λ observed u o t. sees observed u o t) n (h lease q).1)
  after_write-Sound reply (e, ok true) h n (inr (_, no_success)) = absurd (no_success refl)
  after_write-Sound reply (e, ok false) h n (inl (_, _, _, q)) = absurd (ground (arith, q))
  after_write-Sound reply (e, ok false) h n (inr (q, _)) =
      subst (λ f. Sound s p (retry f x)) (sym q)
        (retry-Sound x.elector (Keeps-refl x.elector) g.sees n)
  after_write-Sound reply (e, raise error) h n (inl (_, _, _, q)) = absurd (ground (arith, q))
  after_write-Sound reply (e, raise error) h n (inr (q, _)) =
      subst (λ f. Sound s p (fail error (record x { elector = f }))) (sym q)
        (fail-Sound x.elector error (Keeps-refl x.elector) g.sees)
