-- ===== src/Controller/Requests/Conditions.antt =====
-- What `Request.condition` of cloudcoil/controller/_types.py leaves in a request.
use cloudcoil.Base.{
  is_empty, ℕ, Bool, true, false, Option, none, some, ◌≡◌, ◌≢◌, refl, sym, ap, ◌∙◌, subst, arith,
}
use mathlib.Core.Option
use cloudcoil.Base.Json.{Text}
use cloudcoil.Base.Results.{Exception, value_error, Result, ok, raise}
use cloudcoil.Controller.Status.{
  Condition, Resource, conditions_of, find, get_condition, update_nothing, status_of, is_status,
  set_condition,
}
use cloudcoil.Controller.Status.Conditions.{
  set_condition-IsSetBy, get_condition-set_condition_other,
}
use cloudcoil.Controller.Requests.{Request, stage, Observation, noted, after_set, condition}
use cloudcoil.Controller.Requests.Framed.{
  condition_at, status_at, is_present, Framed, after_set-Framed,
}

-- What `condition` has done where it returns
pub record IsNoted (c : Observation) (r r' : Request) : Type 0 where
  pub shown : status_at r' c.type ≡ some c.status
  pub others : (t : Text) → t ≢ c.type → condition_at r' t ≡ condition_at r t
  pub framed : Framed r r'

conditions-status_of : (o : Resource) → (status_of o).conditions ≡ conditions_of o
unfolding status_of conditions_of
conditions-status_of o = ground arith

get_condition-update_nothing :
    (o : Resource) (t : Text) → get_condition (update_nothing o) t ≡ get_condition o t
unfolding get_condition update_nothing
get_condition-update_nothing o t = ap (find t) (conditions-status_of o)

noted-resource :
    (c : Observation) (previous current : Option Condition) (r r' : Request)
    → noted c previous current r ≡ (r', ok tt)
    → r'.resource ≡ r.resource
unfolding noted
noted-resource c previous none r r' h = absurd (ground arith)
noted-resource c previous (some x) r r' h = ground arith

noted-same :
    (c : Observation) (previous current : Option Condition) (r : Request)
    → (noted c previous current r).0.resource ≡ r.resource
unfolding noted
noted-same c previous none r = refl
noted-same c previous (some x) r = ground arith

condition_at-present :
    (r : Request) (t : Text) (o : Resource)
    → r.resource ≡ some o
    → condition_at r t ≡ get_condition o t
unfolding condition_at
condition_at-present r t o e =
    ap (λ (x : Option Resource). elim x [ none ↦ none | some o ↦ get_condition o t ]) e

stage-resource : (o : Resource) (r : Request) → (stage o r).resource ≡ some o
unfolding stage
stage-resource o r = refl

after_set-IsNoted :
    (now : ℕ) (c : Observation) (o : Resource) (s : Result Resource) (r r' : Request)
    → r.resource ≡ some o
    → set_condition now c.type c.status c.reason c.message o ≡ s
    → after_set c o s r ≡ (r', ok tt)
    → IsNoted c r r'
unfolding after_set
after_set-IsNoted now c o (raise e) r r' here set h = absurd (ground arith)
after_set-IsNoted now c o (ok o') r r' here set h =
    let final =
      noted-resource c (get_condition o c.type) (get_condition (update_nothing o') c.type)
        (stage (update_nothing o') r) r' h
      ∙ stage-resource (update_nothing o') r in
    let written = set_condition-IsSetBy now c.type c.status c.reason c.message o o' set in
    record {
      shown =
          ap (Option.map (λ x. x.status)) (
            condition_at-present r' c.type (update_nothing o') final
            ∙ get_condition-update_nothing o' c.type
            ∙ written.found)
          ∙ ap some written.status_set;
      others = λ t n.
          condition_at-present r' t (update_nothing o') final
          ∙ get_condition-update_nothing o' t
          ∙ get_condition-set_condition_other now c.type c.status c.reason c.message t o o' set n
          ∙ sym (condition_at-present r t o here);
      framed = subst (λ x. Framed r x.0) h (after_set-Framed c o (ok o') r here);
    }

pub condition-IsNoted :
    (now : ℕ) (c : Observation) (r r' : Request) → condition now c r ≡ (r', ok tt) → IsNoted c r r'
unfolding condition
condition-IsNoted now c r r' h = go r.resource refl h
  where
    go :
        (x : Option Resource)
        → r.resource ≡ x
        → elim x as (λ _. Request × Result (Unit {0})) [
          | none ↦ (r, raise value_error)
          | some o ↦ after_set c o (set_condition now c.type c.status c.reason c.message o) r
        ]
          ≡ (r', ok tt)
        → IsNoted c r r'
    go none e g = absurd (ground arith)
    go (some o) e g =
        after_set-IsNoted now c o (set_condition now c.type c.status c.reason c.message o) r r' e
          refl g

-- Conditions of other types stay, also where `condition` raises.
after_set-others :
    (now : ℕ) (c : Observation) (o : Resource) (s : Result Resource) (r : Request) (t : Text)
    → r.resource ≡ some o
    → set_condition now c.type c.status c.reason c.message o ≡ s
    → t ≢ c.type
    → condition_at (after_set c o s r).0 t ≡ condition_at r t
unfolding after_set
after_set-others now c o (raise e) r t here set n = refl
after_set-others now c o (ok o') r t here set n =
    condition_at-present
      (noted c (get_condition o c.type) (get_condition (update_nothing o') c.type)
        (stage (update_nothing o') r)).0
      t (update_nothing o')
      (noted-same c (get_condition o c.type) (get_condition (update_nothing o') c.type)
          (stage (update_nothing o') r)
        ∙ stage-resource (update_nothing o') r)
    ∙ get_condition-update_nothing o' t
    ∙ get_condition-set_condition_other now c.type c.status c.reason c.message t o o' set n
    ∙ sym (condition_at-present r t o here)

pub condition-others :
    (now : ℕ) (c : Observation) (r : Request) (t : Text)
    → t ≢ c.type
    → condition_at (condition now c r).0 t ≡ condition_at r t
unfolding condition
condition-others now c r t n = go r.resource refl
  where
    go :
        (x : Option Resource)
        → r.resource ≡ x
        → condition_at
            (elim x as (λ _. Request × Result (Unit {0})) [
              | none ↦ (r, raise value_error)
              | some o ↦ after_set c o (set_condition now c.type c.status c.reason c.message o) r
            ]).0
            t
          ≡ condition_at r t
    go none e = refl
    go (some o) e =
        after_set-others now c o (set_condition now c.type c.status c.reason c.message o) r t e refl
          n

set_condition_raises :
    (now : ℕ) (c : Observation) (o : Resource) (e : Exception)
    → is_empty c.type ≡ false
    → is_empty c.reason ≡ false
    → is_status c.status ≡ true
    → set_condition now c.type c.status c.reason c.message o ≢ raise e
unfolding set_condition
set_condition_raises now c o e typed reasoned good h = ground arith

-- With a nonempty type and reason and a proper status, `condition` returns on a present object.
pub condition_returns :
    (now : ℕ) (c : Observation) (r : Request)
    → is_present r ≡ true
    → is_empty c.type ≡ false
    → is_empty c.reason ≡ false
    → is_status c.status ≡ true
    → (r' : Request) × (condition now c r ≡ (r', ok tt))
unfolding condition
condition_returns now c r here typed reasoned good = go r.resource here
  where
    noted_returns :
        (previous current : Option Condition) (x : Condition) (s : Request)
        → current ≡ some x
        → (r' : Request) × (noted c previous current s ≡ (r', ok tt))
    noted_returns previous none x s e = absurd (ground arith)
    noted_returns previous (some y) x s e = (_, unfold noted in refl)

    set :
        (o : Resource) (z : Result Resource)
        → set_condition now c.type c.status c.reason c.message o ≡ z
        → (r' : Request) × (after_set c o z r ≡ (r', ok tt))
    set o (raise e) h = absurd (set_condition_raises now c o e typed reasoned good h)
    set o (ok o') h =
        let w = set_condition-IsSetBy now c.type c.status c.reason c.message o o' h in
        unfold after_set in
        noted_returns (get_condition o c.type) (get_condition (update_nothing o') c.type) w.written
          (stage (update_nothing o') r) (get_condition-update_nothing o' c.type ∙ w.found)

    go :
        (x : Option Resource)
        → elim x as (λ _. Bool) [ none ↦ false | some _ ↦ true ] ≡ true
        → (r' : Request) × (elim x as (λ _. Request × Result (Unit {0})) [
          | none ↦ (r, raise value_error)
          | some o ↦ after_set c o (set_condition now c.type c.status c.reason c.message o) r
        ]
            ≡ (r', ok tt))
    go none h = absurd (ground arith)
    go (some o) h = set o (set_condition now c.type c.status c.reason c.message o) refl
