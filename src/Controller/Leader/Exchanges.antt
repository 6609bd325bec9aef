-- ===== src/Controller/Leader/Exchanges.antt =====
-- The two answers of one attempt of cloudcoil/controller/_leader.py: what the GET leads to, and what
-- the write leaves.
use cloudcoil.Base.{
  ℕ, Bool, true, false, not, ◌&&◌, ◌==◌, if◌then◌else◌, if_ind, ◌≡◌, ◌≢◌, ◌⊎◌, inl, inr, refl,
  arith,
}
use cloudcoil.Base.Results.{
  Exception, api_error, request_failed, value_error, leadership_lost, type_error, key_error,
  runtime_error, stop_iteration, index_error, queue_closed, terminal_error, assertion_error,
  timed_out, cancelled, watch_expired, Result, ok, raise,
}
use cloudcoil.Controller.Leader.{
  Spec, Lease, LeaderElection, remember, is_identified, observe, Reply, replied, refused,
  unanswered, body_of, Request, posts, Plan, fails, settle, new_spec, is_own, same_uid, challenge,
  on_lease, on_get, on_write,
}
use cloudcoil.Controller.Leader.Attempts.{
  Keeps, Sees, IsPast, Claims, Supersedes, SendsOnly, silent_fails, only_sends, settle-SendsOnly,
  Keeps-refl, remember-Keeps, remember-Sees, remember-renewed, challenge-Supersedes,
  new_spec-Claims,
}

-- A write claims the Lease for the elector, and a PUT is at the version of a free Lease that was read.
abbrev pub Writes : ℕ → Reply → LeaderElection → Request → Type 0
Writes now reply e r =
    ((spec : Spec) × (r ≡ posts spec) × Claims now e spec)
    ⊎ ((current : Lease) × (reply ≡ replied current) × Supersedes now e current r)

-- What an attempt may do after its GET.
pub record Follows (now : ℕ) (reply : Reply) (e : LeaderElection) (next : LeaderElection × Plan)
    : Type 0 where
  pub keeps : Keeps e next.0
  pub sees : Sees next.0
  pub writes : SendsOnly (Writes now reply next.0) next.1

module _ (now : ℕ) (e : LeaderElection) (h : Sees e) where
  -- An attempt that is over.
  silent :
      (reply : Reply) (plan : Plan)
      → SendsOnly (Writes now reply e) plan
      → Follows now reply e (e, plan)
  silent reply plan w = record { keeps = Keeps-refl e; sees = h; writes = w }

  on_lease-Follows :
      (current : Lease)
      → IsPast now current.spec
      → Follows now (replied current) e (on_lease now now current e)
  unfolding on_lease observe
  on_lease-Follows current p =
      if_ind (Follows now (replied current) e)
        (e.active && not (is_own e current.spec.holder && same_uid current e.lease))
        (λ _. silent (replied current) _ (silent_fails _ _))
        (λ _. identified_Follows (is_identified current))
    where
      identified_Follows :
          (b : Bool)
          → Follows now
              (replied current)
              e
              (elim (if b then ok (remember now current e) else raise value_error) [
                | ok seen ↦ (seen, challenge now now current seen)
                | raise other ↦ (e, fails other)
              ])
      identified_Follows true = record {
        keeps = remember-Keeps now current e;
        sees = remember-Sees now current e p h;
        writes = λ r q. inr (
          current,
          refl,
          challenge-Supersedes now current (remember now current e)
              (λ u ru. remember-renewed now u current e p h ru) r q,
        );
      }
      identified_Follows false = silent (replied current) _ (silent_fails _ _)

  pub on_get-Follows :
      (reply : Reply)
      → ((current : Lease) → reply ≡ replied current → IsPast now current.spec)
      → Follows now reply e (on_get now now reply e)
  unfolding on_get
  on_get-Follows (replied current) p = on_lease-Follows current (p current refl)
  on_get-Follows unanswered p = silent unanswered _ (settle-SendsOnly _ request_failed)
  on_get-Follows (refused status) p =
      if_ind (Follows now (refused status) e) (status == 404)
        (λ _. silent (refused status) _ (
          if_ind (SendsOnly (Writes now (refused status) e)) e.active (λ _. silent_fails _ _)
            (λ _. only_sends _ _ (inl (new_spec now e, refl, new_spec-Claims now e)))))
        (λ _. silent (refused status) _ (settle-SendsOnly _ (api_error status)))

-- A write that succeeds renews from the time its attempt started; any other leaves the state.
abbrev pub Wrote : ℕ → ℕ → Reply → LeaderElection → LeaderElection × Result Bool → Type 0
Wrote started now reply e next =
    ((lease : Lease) × (reply ≡ replied lease)
      × (next.0 ≡ record (remember now lease e) { last_renewed = started })
      × (next.1 ≡ ok true))
    ⊎ ((next.0 ≡ e) × (next.1 ≢ ok true))

-- No exception is an attempt that succeeds.
settle-false : (x : Exception) → settle x ≢ ok true
unfolding settle
settle-false (api_error status) q = absurd (ground (arith, q))
settle-false request_failed q = cc
settle-false timed_out q = cc
settle-false cancelled q = cc
settle-false watch_expired q = cc
settle-false value_error q = cc
settle-false type_error q = cc
settle-false key_error q = cc
settle-false runtime_error q = cc
settle-false stop_iteration q = cc
settle-false index_error q = cc
settle-false queue_closed q = cc
settle-false terminal_error q = cc
settle-false leadership_lost q = cc
settle-false assertion_error q = cc

pub on_write-Wrote :
    (started now : ℕ) (reply : Reply) (e : LeaderElection)
    → Wrote started now reply e (on_write started now reply e)
unfolding on_write body_of observe
on_write-Wrote started now (refused status) e = inr (refl, settle-false (api_error status))
on_write-Wrote started now unanswered e = inr (refl, settle-false request_failed)
on_write-Wrote started now (replied lease) e = identified_Wrote (is_identified lease)
  where
    identified_Wrote :
        (b : Bool)
        → Wrote started now
            (replied lease)
            e
            (elim (if b then ok (remember now lease e) else raise value_error) [
              | ok seen ↦ (record seen { last_renewed = started }, ok true)
              | raise other ↦ (e, settle other)
            ])
    identified_Wrote true = inl (lease, refl, refl, refl)
    identified_Wrote false = inr (refl, settle-false value_error)
