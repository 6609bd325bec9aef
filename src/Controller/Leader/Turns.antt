-- ===== src/Controller/Leader/Turns.antt =====
-- The turns of one participant of cloudcoil/controller/_leader.py keep its settings, and what it writes
-- and releases is timely.
use cloudcoil.Base.{
  ℕ, Bool, true, false, ◌&&◌, none, some, String, if◌then◌else◌, if_ind, ◌≡◌, inl, inr, refl, sym,
  ap, ◌∙◌, subst, arith,
}
use cloudcoil.Base.Results.{Exception, Result, ok, raise}
use cloudcoil.Controller.Leader.{
  seconds, Lease, LeaderElection, Reply, replied, Request, puts, Plan, sends, returns, fails,
  on_release, is_own, same_uid, count_failure, lead, stand_down,
}
use cloudcoil.Controller.Leader.Attempts.{remember-Keeps, own_lem}
use cloudcoil.Controller.Leader.Exchanges.{Wrote}
use cloudcoil.Controller.Leader.Cluster.{
  finished, Participant, Cluster, fail, retry, after_get, after_write,
}
use cloudcoil.Controller.Leader.Invariant.{IsTimely, Inv}

-- No turn changes the length of the Lease.
retry-duration :
    (e : LeaderElection) (x : Participant) → (retry e x).elector.lease_duration ≡ e.lease_duration
unfolding count_failure
retry-duration e x =
    if_ind {A = LeaderElection} (λ f. f.lease_duration ≡ e.lease_duration) e.active (λ _. refl)
      (λ _. refl)

fail-duration :
    (error : Exception) (x : Participant)
    → (fail error x).elector.lease_duration ≡ x.elector.lease_duration
unfolding stand_down
fail-duration error x = refl

lead-duration :
    (e : LeaderElection) (x : Participant)
    → (after_write (e, ok true) x).elector.lease_duration ≡ e.lease_duration
unfolding lead
lead-duration e x =
    if_ind {A = LeaderElection} (λ f. f.lease_duration ≡ e.lease_duration) e.active (λ _. refl)
      (λ _. refl)

pub after_get-duration :
    (next : LeaderElection × Plan) (x : Participant)
    → (after_get next x).elector.lease_duration ≡ next.0.lease_duration
after_get-duration (e, sends r) x = refl
after_get-duration (e, returns _) x = retry-duration e x
after_get-duration (e, fails error) x = fail-duration error (record x { elector = e })

pub after_write-duration :
    (next : LeaderElection × Result Bool) (x : Participant)
    → (after_write next x).elector.lease_duration ≡ next.0.lease_duration
after_write-duration (e, ok true) x = lead-duration e x
after_write-duration (e, ok false) x = retry-duration e x
after_write-duration (e, raise error) x = fail-duration error (record x { elector = e })

pub Wrote-duration :
    (started now : ℕ) (reply : Reply) (e : LeaderElection) (next : LeaderElection × Result Bool)
    → Wrote started now reply e next
    → next.0.lease_duration ≡ e.lease_duration
Wrote-duration started now reply e next (inl (lease, _, q, _)) =
    ap (λ f. f.lease_duration) q ∙ (remember-Keeps now lease e).lease_duration
Wrote-duration started now reply e next (inr (q, _)) = ap (λ f. f.lease_duration) q

release_put :
    (now : ℕ) (lease : Lease) (e : LeaderElection) (r : Request)
    → on_release now (replied lease) e ≡ some r
    → (put : Lease) × (r ≡ puts put)
      × (put.resource_version ≡ lease.resource_version)
      × (put.spec.renew_time ≡ some now)
      × (lease.spec.holder ≡ some e.identity)
unfolding on_release
release_put now lease e r q = released (is_own e lease.spec.holder) (same_uid lease e.lease) refl q
  where
    put : Lease
    put = record lease {
      spec = record lease.spec { holder = some ""; duration = seconds 1; renew_time = some now };
    }

    released :
        (own same : Bool)
        → is_own e lease.spec.holder ≡ own
        → (if own && same then some (puts put) else none) ≡ some r
        → (put' : Lease) × (r ≡ puts put')
          × (put'.resource_version ≡ lease.resource_version)
          × (put'.spec.renew_time ≡ some now)
          × (lease.spec.holder ≡ some e.identity)
    released true true o w = (put, ground (arith, w), refl, refl, own_lem e lease.spec.holder o)
    released true false o w = absurd (ground (arith, w))
    released false same o w = absurd (ground (arith, w))

-- The release of a participant whose run is over takes the Lease from nobody else.
pub release-IsTimely :
    (s : Cluster) (p : String) (lease : Lease) (r : Request)
    → Inv s
    → (s.participants p).phase ≡ finished
    → s.server ≡ some lease
    → on_release s.now (replied lease) (s.participants p).elector ≡ some r
    → IsTimely s r
release-IsTimely s p lease r i f q e =
    let (put, is_put, version, renewed, owner) =
      release_put s.now lease (s.participants p).elector r e in
    subst (IsTimely s) {x = puts put} (sym is_put) (record {
      past = λ u w. ground (arith, w, renewed);
      frees = λ put' same v w.
          let same_put : put ≡ put' = ground (arith, same) in
          (
            lease,
            q,
            v,
            sym version ∙ ap (λ l. l.resource_version) same_put ∙ w,
            omega arith,
            λ _ t u o _ _.
                let is_p : p ≡ t = ground (arith, o, owner, (i.each p).identity) in
                inr (inl (ap (λ y. (s.participants y).phase) (sym is_p) ∙ f)),
          );
    })
