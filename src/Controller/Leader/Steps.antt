-- ===== src/Controller/Leader/Steps.antt =====
-- Every step of a cluster, cloudcoil/controller/_leader.py, keeps the invariant.
use cloudcoil.Base.{
  ℕ, ◌+◌, false, Option, some, String, List, ◌∷◌, ◌≡◌, ◌≢◌, inl, inr, refl, sym, ap, ◌∙◌, subst,
  arith, Member,
}
use cloudcoil.Base.Results.{Exception}
use cloudcoil.Controller.Leader.{
  Lease, Reply, replied, Request, returns, fails, on_get, on_write, on_release,
}
use cloudcoil.Controller.Leader.Attempts.{IsPast, spec_of, Keeps-refl}
use cloudcoil.Controller.Leader.Exchanges.{on_get-Follows, on_write-Wrote}
use cloudcoil.Controller.Leader.Cluster.{
  Phase, resting, asking, answered, writing, acknowledged, finished, Participant, Cluster, Served,
  set, abandon, fail, retry, after_get, after_write, Step, passes, begins, reads, misses, hears,
  serves, learns, gives_up, ends, releases, arrives,
}
use cloudcoil.Controller.Leader.Invariant.{
  IsTimely, IsRead, PhaseOk, Inv, Extends, extend-IsTimely, extend-Sound, extend-IsPast,
}
use cloudcoil.Controller.Leader.Moves.{serve-Inv, Served-Answers, Answers, set-Inv}
use cloudcoil.Controller.Leader.Turns.{
  after_get-duration, after_write-duration, Wrote-duration, release-IsTimely,
}
use cloudcoil.Controller.Leader.Sound.{
  after_get-Sound, resume-Sound, retry-Sound, fail-Sound, after_write-Sound,
}

-- The writes on their way when a participant gives an attempt up.
abandoned :
    (s : Cluster) (x : Participant) (phase : Phase) (writes : List Request)
    → PhaseOk s x phase
    → ((r : Request) → Member r writes → IsTimely s r)
    → (r : Request) → Member r (elim phase [ writing w ↦ w ∷ writes | _ ↦ writes ])
    → IsTimely s r
abandoned s x (writing w) writes (h, _, _, _) k r (inl e) = subst (IsTimely s) (sym e) h
abandoned s x (writing w) writes h k r (inr m) = k r m
abandoned s x resting writes h k r m = k r m
abandoned s x asking writes h k r m = k r m
abandoned s x (answered _) writes h k r m = k r m
abandoned s x (acknowledged _) writes h k r m = k r m
abandoned s x finished writes h k r m = k r m

passes-Inv : (s : Cluster) (d : ℕ) → Inv s → Inv (record s { now = s.now + d })
passes-Inv s d i =
    let extends : Extends s (record s { now = s.now + d }) = record {
      later = omega arith;
      server = refl;
      durations = λ _. refl;
      ended = λ _ e. e;
    } in
    record {
      past = λ lease e. extend-IsPast extends lease.spec (i.past lease e);
      flying = λ r m. extend-IsTimely extends r (i.flying r m);
      each = λ q. extend-Sound extends q (s.participants q) (i.each q);
    }

-- A participant in one phase is in no other.
module _ (s : Cluster) (p : String) (i : Inv s) where
  abbrev pub x : Participant
  x = s.participants p

  at_phase : {phase : Phase} → x.phase ≡ phase → PhaseOk s x phase
  at_phase e = subst (PhaseOk s x) e (i.each p).phase

  begins-Inv : x.phase ≡ resting → Inv (set p (record x { started = s.now; phase = asking }) s)
  begins-Inv e =
      set-Inv s p (record x { started = s.now; phase = asking }) s.in_flight i refl
        (λ f. ground (arith, e, f))
        (record {
          identity = (i.each p).identity;
          deadline = (i.each p).deadline;
          sees = (i.each p).sees;
          named = λ z. absurd (ground (arith, (i.each p).named z, e));
          phase = omega arith;
          leading = λ a. (λ q. absurd (ground (arith, q)), ((i.each p).leading a).1);
        })
        i.flying

  -- The elector stays as it is.
  turn-Inv :
      (phase : Phase)
      → x.phase ≢ finished
      → phase ≢ finished
      → PhaseOk s (record x { phase = phase }) phase
      → Inv (set p (record x { phase = phase }) s)
  turn-Inv phase n m h =
      set-Inv s p (record x { phase = phase }) s.in_flight i refl (λ e. absurd (n e))
        (resume-Sound s p x (i.each p) x.elector phase (Keeps-refl x.elector) (i.each p).sees n m h)
        i.flying

  reads-Inv :
      (lease : Lease)
      → x.phase ≡ asking
      → s.server ≡ some lease
      → Inv (set p (record x { phase = answered (replied lease) }) s)
  reads-Inv lease e q =
      turn-Inv (answered (replied lease)) (λ f. absurd (ground (arith, e, f)))
        (λ f. absurd (ground (arith, f)))
        (
          at_phase e,
          λ other r.
              subst (IsRead s) (ground (arith, r))
                (i.past lease q, λ v f. (lease, q, v, f, omega arith, λ _. refl)),
        )

  misses-Inv :
      (reply : Reply)
      → x.phase ≡ asking
      → ((lease : Lease) → reply ≢ replied lease)
      → Inv (set p (record x { phase = answered reply }) s)
  misses-Inv reply e n =
      turn-Inv (answered reply) (λ f. absurd (ground (arith, e, f)))
        (λ f. absurd (ground (arith, f))) (at_phase e, λ lease r. absurd (n lease r))

  hears-Inv :
      (reply : Reply)
      → x.phase ≡ answered reply
      → Inv (set p (after_get (on_get s.now s.now reply x.elector) x) s)
  hears-Inv reply e =
      let (le, read) = at_phase e in
      let f = on_get-Follows s.now x.elector (i.each p).sees reply (λ lease q. (read lease q).0) in
      let next = on_get s.now s.now reply x.elector in
      set-Inv s p (after_get next x) s.in_flight i
        (after_get-duration next x ∙ f.keeps.lease_duration) (λ q. absurd (ground (arith, q, e)))
        (after_get-Sound s p x (i.each p) i refl reply next le read
          (λ q. absurd (ground (arith, q, e))) f)
        i.flying

  learns-Inv :
      (reply : Reply)
      → x.phase ≡ acknowledged reply
      → Inv (set p (after_write (on_write x.started s.now reply x.elector) x) s)
  learns-Inv reply e =
      let next = on_write x.started s.now reply x.elector in
      let w = on_write-Wrote x.started s.now reply x.elector in
      set-Inv s p (after_write next x) s.in_flight i
        (after_write-duration next x ∙ Wrote-duration x.started s.now reply x.elector next w)
        (λ q. absurd (ground (arith, q, e)))
        (after_write-Sound s p x (i.each p) reply next (at_phase e)
          (λ q. absurd (ground (arith, q, e))) w)
        i.flying

  gives_up-Inv : x.phase ≢ finished → Inv (set p (retry x.elector x) (abandon x.phase s))
  gives_up-Inv n =
      set-Inv s p (retry x.elector x) _ i (after_get-duration (x.elector, returns false) x)
        (λ e. absurd (n e))
        (retry-Sound s p x (i.each p) x.elector (Keeps-refl x.elector) (i.each p).sees n)
        (abandoned s x x.phase s.in_flight (i.each p).phase i.flying)

  ends-Inv : (error : Exception) → Inv (set p (fail error x) (abandon x.phase s))
  ends-Inv error =
      set-Inv s p (fail error x) _ i (after_get-duration (x.elector, fails error) x) (λ _. refl)
        (fail-Sound s p x (i.each p) x.elector error (Keeps-refl x.elector) (i.each p).sees)
        (abandoned s x x.phase s.in_flight (i.each p).phase i.flying)

  -- The server has served the write of `p`.
  acknowledged-PhaseOk :
      (r : Request) (after : Option Lease) (reply : Reply)
      → PhaseOk s x (writing r)
      → Answers s r after reply
      → PhaseOk
          (record s { server = after })
          (record x { phase = acknowledged reply })
          (acknowledged reply)
  acknowledged-PhaseOk r after reply h (inl (_, n)) lease e = absurd (n lease e)
  acknowledged-PhaseOk r after reply (timely, u, c, le) (inr a) lease e =
      let same : a.lease ≡ lease = ground (arith, a.reply_is, e) in
      let spec : lease.spec ≡ spec_of r = ap (λ l. l.spec) (sym same) ∙ a.spec in
      (
        subst (IsPast s.now) (sym spec) timely.past,
        inl (
          lease,
          a.stored ∙ ap some same,
          ap (λ t. t.holder) spec ∙ c.holder,
          ap (λ t. t.duration) spec ∙ c.duration,
          u,
          ap (λ t. t.renew_time) spec ∙ c.renew_time,
          le,
        ),
      )

  serves-Inv :
      (r : Request) (after : Option Lease) (reply : Reply)
      → x.phase ≡ writing r
      → Served r s.server after reply
      → Inv (set p (record x { phase = acknowledged reply }) (record s { server = after }))
  serves-Inv r after reply e served =
      let writes = at_phase e in
      let answers = Served-Answers s refl writes.0 served in
      let j = serve-Inv s i writes.0 answers in
      set-Inv (record s { server = after }) p (record x { phase = acknowledged reply }) s.in_flight
        j refl (λ q. absurd (ground (arith, q, e)))
        (resume-Sound (record s { server = after }) p x (j.each p) x.elector (acknowledged reply)
          (Keeps-refl x.elector) (i.each p).sees (λ q. absurd (ground (arith, q, e)))
          (λ q. absurd (ground (arith, q))) (acknowledged-PhaseOk r after reply writes answers))
        j.flying

arrives-Inv :
    (s : Cluster) (r : Request) (after : Option Lease) (reply : Reply)
    → Inv s
    → Member r s.in_flight
    → Served r s.server after reply
    → Inv (record s { server = after })
arrives-Inv s r after reply i m served =
    serve-Inv s i (i.flying r m) (Served-Answers s refl (i.flying r m) served)

releases-Inv :
    (s : Cluster) (p : String) (lease : Lease) (r : Request)
    → Inv s
    → (s.participants p).phase ≡ finished
    → s.server ≡ some lease
    → on_release s.now (replied lease) (s.participants p).elector ≡ some r
    → Inv (record s { in_flight = r ∷ s.in_flight })
releases-Inv s p lease r i f q e =
    let t = record s { in_flight = r ∷ s.in_flight } in
    let extends : Extends s t = record {
      later = omega arith;
      server = refl;
      durations = λ _. refl;
      ended = λ _ w. w;
    } in
    record {
      past = i.past;
      flying = λ w m. extend-IsTimely extends w (sent w m);
      each = λ y. extend-Sound extends y (s.participants y) (i.each y);
    }
  where
    sent : (t : Request) → Member t (r ∷ s.in_flight) → IsTimely s t
    sent t (inl same) = subst (IsTimely s) (sym same) (release-IsTimely s p lease r i f q e)
    sent t (inr m) = i.flying t m

pub Step-Inv : {s t : Cluster} → Step s t → Inv s → Inv t
Step-Inv {s} (passes d) i = passes-Inv s d i
Step-Inv {s} (begins p e _) i = begins-Inv s p i e
Step-Inv {s} (reads p {lease = lease} e q) i = reads-Inv s p i lease e q
Step-Inv {s} (misses p reply e n) i = misses-Inv s p i reply e n
Step-Inv {s} (hears p {reply = reply} e) i = hears-Inv s p i reply e
Step-Inv {s} (serves p {r = r} {after = after} {reply = reply} e served) i =
    serves-Inv s p i r after reply e served
Step-Inv {s} (learns p {reply = reply} e) i = learns-Inv s p i reply e
Step-Inv {s} (gives_up p n) i = gives_up-Inv s p i n
Step-Inv {s} (ends p error) i = ends-Inv s p i error
Step-Inv {s} (releases p {lease = lease} {r = r} f q e) i = releases-Inv s p lease r i f q e
Step-Inv {s} (arrives {r = r} {after = after} {reply = reply} m served) i =
    arrives-Inv s r after reply i m served
