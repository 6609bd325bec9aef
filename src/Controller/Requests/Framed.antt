-- ===== src/Controller/Requests/Framed.antt =====
-- What the methods of a request, cloudcoil/controller/_types.py, leave alone.
use cloudcoil.Base.{ℕ, Bool, true, false, Option, none, some, ◌≡◌, refl, ◌∙◌, arith}
use mathlib.Core.Option
use cloudcoil.Base.Json.{Text}
use cloudcoil.Base.Results.{value_error, Result, ok, raise}
use cloudcoil.Controller.Status.{Condition, Resource, get_condition, update_nothing, set_condition}
use cloudcoil.Controller.Requests.{Request, stage, Observation, noted, after_set, condition}

-- The condition of a type in the request's object
unfoldable pub condition_at : Request → Text → Option Condition
condition_at r t = elim r.resource [ none ↦ none | some o ↦ get_condition o t ]

abbrev pub status_at : Request → Text → Option Text
status_at r t = Option.map (λ c. c.status) (condition_at r t)

abbrev pub is_present : Request → Bool
is_present r = elim r.resource [ none ↦ false | some _ ↦ true ]

-- The parts of the request that an edit of conditions leaves alone
pub record Framed (r r' : Request) : Type 0 where
  pub pending : r'.report.pending ≡ r.report.pending
  pub managed : r'.report.managed ≡ r.report.managed
  pub stage_conditions : r'.report.stage_conditions ≡ r.report.stage_conditions
  pub present : is_present r' ≡ is_present r

pub Framed-refl : (r : Request) → Framed r r
Framed-refl r = record { pending = refl; managed = refl; stage_conditions = refl; present = refl }

pub Framed-trans : {r s t : Request} → Framed r s → Framed s t → Framed r t
Framed-trans f g = record {
  pending = g.pending ∙ f.pending;
  managed = g.managed ∙ f.managed;
  stage_conditions = g.stage_conditions ∙ f.stage_conditions;
  present = g.present ∙ f.present;
}

noted-Framed :
    (c : Observation) (previous current : Option Condition) (r : Request)
    → Framed r (noted c previous current r).0
unfolding noted
noted-Framed c previous none r = Framed-refl r
noted-Framed c previous (some x) r = ground arith

stage-Framed : (o o' : Resource) (r : Request) → r.resource ≡ some o → Framed r (stage o' r)
unfolding stage
stage-Framed o o' r here = ground (arith, here)

pub after_set-Framed :
    (c : Observation) (o : Resource) (s : Result Resource) (r : Request)
    → r.resource ≡ some o
    → Framed r (after_set c o s r).0
unfolding after_set
after_set-Framed c o (raise e) r here = Framed-refl r
after_set-Framed c o (ok o') r here = Framed-trans (stage-Framed o (update_nothing o') r here) (
    noted-Framed c (get_condition o c.type) (get_condition (update_nothing o') c.type)
      (stage (update_nothing o') r))

pub condition-Framed : (now : ℕ) (c : Observation) (r : Request) → Framed r (condition now c r).0
unfolding condition
condition-Framed now c r = go r.resource refl
  where
    go :
        (x : Option Resource)
        → r.resource ≡ x
        → Framed r
            (elim x as (λ _. Request × Result (Unit {0})) [
              | none ↦ (r, raise value_error)
              | some o ↦ after_set c o (set_condition now c.type c.status c.reason c.message o) r
            ]).0
    go none e = Framed-refl r
    go (some o) e =
        after_set-Framed c o (set_condition now c.type c.status c.reason c.message o) r e
