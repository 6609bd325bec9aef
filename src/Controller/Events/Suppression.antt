-- ===== src/Controller/Events/Suppression.antt =====
-- A repeated event is not sent again within the interval: EventRecorder of
-- cloudcoil/controller/_events.py.
use cloudcoil.Base.{
  ℕ, ◌+◌, ◌≤◌, ◌<◌, true, false, some, List, [], ◌∷◌, ◌≡◌, refl, sym, ap, ◌∙◌, subst, ◌⊎◌, inl, inr,
  arith,
}
use cloudcoil.Base.Dicts.{lookup}
use cloudcoil.Controller.Events.{
  EventKey, EventKey-discrete, EventRecorder, Subject, Message, event_key, namespace_of, touch,
  trim, refill, reserve,
}
use cloudcoil.Controller.Events.Recent.{Noted, touch-Noted_self, touch-Noted, trim-Noted}
use cloudcoil.Controller.Events.Limits.{
  Attempt, attempt, run, requests, one_if, Ordered, attempt-Stepped, attempt-cases,
}

weaken-Noted :
    {l : List (EventKey × ℕ)} (key : EventKey) (s t m n : ℕ)
    → s ≤ t
    → m ≤ n
    → Noted key t m l
    → Noted key s n l
weaken-Noted key s t m n p q h = record {
  time = h.time;
  found = h.found;
  since = omega (arith, h.since);
  newer = omega (arith, h.newer);
}

touched-Noted :
    (key j : EventKey) (t now n : ℕ) (l : List (EventKey × ℕ))
    → t ≤ now
    → Noted key t n l
    → Noted key t (n + 1) (touch j now l)
touched-Noted key j t now n l le h = elim (EventKey-discrete key j) [
  | yes e ↦
      subst (λ i. Noted key t (n + 1) (touch i now l)) e
        (weaken-Noted key t now 0 (n + 1) le (omega arith) (touch-Noted_self key now 0 l))
  | no d ↦ touch-Noted key j t now n l d h
]

-- The memory after `reserve`: as it was, or touched and trimmed
reserve-recent :
    (j : EventKey) (now : ℕ) (r : EventRecorder)
    → (((reserve j now r).1 ≡ false) × ((reserve j now r).0.recent ≡ r.recent))
      ⊎ (((reserve j now r).1 ≡ true)
          × ((reserve j now r).0.recent ≡ trim r.max_keys (touch j now r.recent)))
unfolding reserve refill
reserve-recent j now r = ground arith

attempt-recent :
    (a : Attempt) (r : EventRecorder)
    → (((attempt a r).sent ≡ false) × ((attempt a r).recorder.recent ≡ r.recent))
      ⊎ (((attempt a r).sent ≡ true)
          × ((attempt a r).recorder.recent
              ≡ trim r.max_keys (touch (event_key r a.subject a.message) a.now r.recent)))
attempt-recent a r = elim (attempt-cases a r) [
  | inl (p, q) ↦ inl (q, ap (λ x. x.recent) p)
  | inr (p, q) ↦ elim (reserve-recent (event_key r a.subject a.message) a.now r) [
    | inl (s, e) ↦ inl (q ∙ s, ap (λ x. x.recent) p ∙ e)
    | inr (s, e) ↦ inr (q ∙ s, ap (λ x. x.recent) p ∙ e)
  ]
]

attempt-Noted :
    (a : Attempt) (r : EventRecorder) (key : EventKey) (t n : ℕ)
    → t ≤ a.now
    → n + one_if (attempt a r).sent < r.max_keys
    → Noted key t n r.recent
    → Noted key t (n + one_if (attempt a r).sent) (attempt a r).recorder.recent
attempt-Noted a r key t n le lt h = elim (attempt-recent a r) [
  | inl (s, e) ↦
      subst (λ l. Noted key t (n + one_if (attempt a r).sent) l) (sym e)
        (weaken-Noted key t t n (n + one_if (attempt a r).sent) (omega arith) (omega arith) h)
  | inr (s, e) ↦
      let j = event_key r a.subject a.message in
      let one : one_if (attempt a r).sent ≡ 1 = ap one_if s in
      subst (λ l. Noted key t (n + one_if (attempt a r).sent) l) (sym e)
        (weaken-Noted key t t (n + 1) (n + one_if (attempt a r).sent) (omega arith) (omega arith) (
          trim-Noted key t (n + 1) r.max_keys (touch j a.now r.recent) (omega arith)
            (touched-Noted key j t a.now n r.recent le h)))
]

run-Noted :
    (l : List Attempt) (t u : ℕ) (r : EventRecorder) (key : EventKey) (s n : ℕ)
    → r.last_token ≤ t
    → Ordered t l u
    → s ≤ t
    → n + requests l r < r.max_keys
    → Noted key s n r.recent
    → Noted key s (n + requests l r) (run l r).recent
unfolding run requests
run-Noted [] t u r key s n last o le lt h =
    weaken-Noted key s s n (n + 0) (omega arith) (omega arith) h
run-Noted (a ∷ l) t u r key s n last o le lt h =
    let st = attempt-Stepped a r (omega (arith, o.0)) in
    let k = one_if (attempt a r).sent in
    let here = attempt-Noted a r key s n (omega (arith, o.0)) (omega arith) h in
    let there =
      run-Noted l a.now u (attempt a r).recorder key s (n + k) st.moved o.1 (omega (arith, o.0))
        (omega (arith, st.same_limit)) here in
    weaken-Noted key s s (n + k + requests l (attempt a r).recorder)
      (n + (k + requests l (attempt a r).recorder)) (omega arith) (omega arith) there

run-same :
    (l : List Attempt) (t u : ℕ) (r : EventRecorder)
    → r.last_token ≤ t
    → Ordered t l u
    → ((run l r).interval ≡ r.interval) × ((run l r).namespace ≡ r.namespace)
unfolding run
run-same [] t u r h o = (refl, refl)
run-same (a ∷ l) t u r h o =
    let st = attempt-Stepped a r (omega (arith, o.0)) in
    let (p, q) = run-same l a.now u (attempt a r).recorder st.moved o.1 in
    (p ∙ st.same_interval, q ∙ st.same_namespace)

event_key-same :
    (r r' : EventRecorder) (s : Subject) (m : Message)
    → r.namespace ≡ r'.namespace
    → event_key r s m ≡ event_key r' s m
unfolding event_key namespace_of
event_key-same r r' s m e = ground arith

reserve-recent_key :
    (j : EventKey) (now time : ℕ) (r : EventRecorder)
    → lookup EventKey-discrete j r.recent ≡ some time
    → now < time + r.interval
    → reserve j now r ≡ (r, false)
unfolding reserve
reserve-recent_key j now time r h lt = ground arith

attempt-Noted_suppressed :
    (b : Attempt) (r : EventRecorder) (key : EventKey) (t n : ℕ)
    → event_key r b.subject b.message ≡ key
    → b.now < t + r.interval
    → Noted key t n r.recent
    → ((attempt b r).sent ≡ false) × ((attempt b r).recorder ≡ r)
attempt-Noted_suppressed b r key t n e lt h =
    let same =
      ap (λ k. reserve k b.now r) e
      ∙ reserve-recent_key key b.now h.time r h.found (omega (arith, h.since)) in
    elim (attempt-cases b r) [
      | inl (p, q) ↦ (q, p)
      | inr (p, q) ↦ (q ∙ ap (λ x. x.1) same, p ∙ ap (λ x. x.0) same)
    ]

attempt-sent-Noted :
    (a : Attempt) (r : EventRecorder)
    → (attempt a r).sent ≡ true
    → 0 < r.max_keys
    → Noted (event_key r a.subject a.message) a.now 0 (attempt a r).recorder.recent
attempt-sent-Noted a r sent pos = elim (attempt-recent a r) [
  | inl (s, e) ↦ absurd (ground arith)
  | inr (s, e) ↦
      let j = event_key r a.subject a.message in
      subst (λ l. Noted j a.now 0 l) (sym e)
        (trim-Noted j a.now 0 r.max_keys (touch j a.now r.recent) pos
          (touch-Noted_self j a.now 0 r.recent))
]

-- After emit has sent a request for a key, another call for the same key, made before the interval is
-- over, sends nothing and changes nothing, whatever was emitted in between at times in order, as
-- long as that sent fewer requests than max_keys.
pub attempt_again-suppressed :
    (a b : Attempt) (l : List Attempt) (end : ℕ) (r : EventRecorder)
    → r.last_token ≤ a.now
    → (attempt a r).sent ≡ true
    → Ordered a.now l end
    → requests l (attempt a r).recorder < r.max_keys
    → event_key r b.subject b.message ≡ event_key r a.subject a.message
    → b.now < a.now + r.interval
    → ((attempt b (run l (attempt a r).recorder)).sent ≡ false)
      × ((attempt b (run l (attempt a r).recorder)).recorder ≡ run l (attempt a r).recorder)
attempt_again-suppressed a b l end r last sent ordered few same_key soon =
    let r1 = (attempt a r).recorder in
    let st = attempt-Stepped a r last in
    let key = event_key r a.subject a.message in
    let n = requests l r1 in
    let noted =
      run-Noted l a.now end r1 key a.now 0 st.moved ordered (omega arith)
        (omega (arith, st.same_limit)) (attempt-sent-Noted a r sent (omega arith)) in
    let (i, ns) = run-same l a.now end r1 st.moved ordered in
    attempt-Noted_suppressed b (run l r1) key a.now (0 + n)
      (event_key-same (run l r1) r b.subject b.message (ns ∙ st.same_namespace) ∙ same_key)
      (omega (arith, i, st.same_interval)) noted
