-- ===== src/Controller/Events/Limits.antt =====
-- How many requests EventRecorder of cloudcoil/controller/_events.py sends, and how much it remembers.
use cloudcoil.Base.{
  ℕ, ◌+◌, ◌*◌, ◌≤◌, Bool, true, false, not, ◌||◌, List, [], ◌∷◌, ◌≡◌, refl, sym, subst, ◌⊎◌, inl,
  inr, arith, if◌then◌else◌, length,
}
use cloudcoil.Base.Results.{Result, ok, raise}
use cloudcoil.Controller.Events.{
  second, burst, rate, EventKey, EventRecorder, Subject, Message, event_key, is_set, check, touch,
  refill, reserve, Answer, Emission, emission, unless_raised, emit,
}
use cloudcoil.Controller.Events.Recent.{length-trim}

pub record Attempt : Type 0 where
  pub subject : Subject
  pub message : Message
  pub now : ℕ
  pub answer : Answer

unfoldable pub attempt : Attempt → EventRecorder → Emission
attempt a r = emit a.subject a.message a.now a.answer r

-- The recorder after some calls of `emit`, and how many requests they sent
unfoldable pub run : List Attempt → EventRecorder → EventRecorder
run [] r = r
run (a ∷ l) r = run l (attempt a r).recorder

abbrev pub one_if : Bool → ℕ
one_if true = 1
one_if false = 0

unfoldable pub requests : List Attempt → EventRecorder → ℕ
requests [] r = 0
requests (a ∷ l) r = one_if (attempt a r).sent + requests l (attempt a r).recorder

-- The clock does not go back, from `t` to `u`.
abbrev pub Ordered : ℕ → List Attempt → ℕ → Type 0
Ordered t [] u = t ≤ u
Ordered t (a ∷ l) u = (t ≤ a.now) × Ordered a.now l u

-- What one call does to a recorder, where it sends the request if `sent`
pub record Stepped (r r' : EventRecorder) (sent : Bool) (now : ℕ) : Type 0 where
  pub paid :
      r'.tokens + one_if sent * second + rate * r.last_token ≤ r.tokens + rate * r'.last_token
  pub moved : r'.last_token ≤ now
  pub same_interval : r'.interval ≡ r.interval
  pub same_limit : r'.max_keys ≡ r.max_keys
  pub same_namespace : r'.namespace ≡ r.namespace
  pub bounded : length r.recent ≤ r.max_keys → length r'.recent ≤ r.max_keys

module _ (key : EventKey) (now : ℕ) (r : EventRecorder) (ordered : r.last_token ≤ now) where
  reserve-Stepped : Stepped r (reserve key now r).0 (reserve key now r).1 now
  unfolding reserve refill
  reserve-Stepped = ground (arith, length-trim r.max_keys (touch key now r.recent))

-- A call leaves the recorder alone, or reserves for its key.
pub attempt-cases :
    (a : Attempt) (r : EventRecorder)
    → (((attempt a r).recorder ≡ r) × ((attempt a r).sent ≡ false))
      ⊎ (((attempt a r).recorder ≡ (reserve (event_key r a.subject a.message) a.now r).0)
          × ((attempt a r).sent ≡ (reserve (event_key r a.subject a.message) a.now r).1))
unfolding attempt emit
attempt-cases a r =
    go (check a.message) (not (is_set a.subject.name) || not (is_set a.subject.uid))
      (reserve (event_key r a.subject a.message) a.now r)
  where
    go :
        (c : Result (Unit {0})) (anonymous : Bool) (p : EventRecorder × Bool)
        → (((unless_raised r c (
                if anonymous
                then record { recorder = r; sent = false; outcome = ok false }
                else emission p a.answer)).recorder
              ≡ r)
            × ((unless_raised r c (
                  if anonymous
                  then record { recorder = r; sent = false; outcome = ok false }
                  else emission p a.answer)).sent
                ≡ false))
          ⊎ (((unless_raised r c (
                  if anonymous
                  then record { recorder = r; sent = false; outcome = ok false }
                  else emission p a.answer)).recorder
                ≡ p.0)
              × ((unless_raised r c (
                    if anonymous
                    then record { recorder = r; sent = false; outcome = ok false }
                    else emission p a.answer)).sent
                  ≡ p.1))
    go (raise e) b p = inl (refl, refl)
    go (ok x) true p = inl (refl, refl)
    go (ok x) false (r', true) = inr (refl, refl)
    go (ok x) false (r', false) = inr (refl, refl)

stays-Stepped : (r : EventRecorder) (now : ℕ) → r.last_token ≤ now → Stepped r r false now
stays-Stepped r now h = record {
  paid = omega arith;
  moved = h;
  same_interval = refl;
  same_limit = refl;
  same_namespace = refl;
  bounded = λ b. b;
}

pub attempt-Stepped :
    (a : Attempt) (r : EventRecorder)
    → r.last_token ≤ a.now
    → Stepped r (attempt a r).recorder (attempt a r).sent a.now
attempt-Stepped a r h = elim (attempt-cases a r) [
  | inl (p, q) ↦ move r false p q (stays-Stepped r a.now h)
  | inr (p, q) ↦
      move (reserve (event_key r a.subject a.message) a.now r).0
        (reserve (event_key r a.subject a.message) a.now r).1 p q
        (reserve-Stepped (event_key r a.subject a.message) a.now r h)
]
  where
    move :
        (r' : EventRecorder) (s : Bool)
        → (attempt a r).recorder ≡ r'
        → (attempt a r).sent ≡ s
        → Stepped r r' s a.now
        → Stepped r (attempt a r).recorder (attempt a r).sent a.now
    move r' s p q st =
        subst (λ x. Stepped r x (attempt a r).sent a.now) (sym p)
          (subst (λ x. Stepped r r' x a.now) (sym q) st)

record Fresh (r : EventRecorder) (max_keys start : ℕ) : Type 0 where
  full : r.tokens ≡ burst * second
  started : r.last_token ≡ start
  limit : r.max_keys ≡ max_keys
  nothing : length r.recent ≡ 0
