-- ===== src/Controller/Status/Conditions.antt =====
-- What `set_condition` of cloudcoil/controller/_status.py leaves under each type.
use cloudcoil.Base.{
  ℕ, true, not, Option, none, some, List, [], ◌∷◌, filter, ◌≡◌, ◌≢◌, refl, arith, Bool-cases, ◌⊎◌,
  inl, inr, subst,
}
use cloudcoil.Base.Json.{Text, equal_texts}
use cloudcoil.Base.Results.{ok}
use cloudcoil.Controller.Status.{
  Condition, Resource, conditions_of, update_conditions, status_of, is_of, find, get_condition,
  index_of, insert_at, replaced, transition_time, updated_condition, set_condition,
}

pub equal_texts_iff :
    (s t : Text) → (equal_texts s t ≡ true → s ≡ t) × (s ≡ t → equal_texts s t ≡ true)
unfolding equal_texts
equal_texts_iff s t = (λ h. ground arith, λ e. ground arith)

-- The list without the conditions of a type
abbrev pub others : Text → List Condition → List Condition
others type l = filter (λ c. not (is_of type c)) l

find-others : (type t : Text) (l : List Condition) → t ≢ type → find t (others type l) ≡ find t l
unfolding find filter
find-others type t [] n = refl
find-others type t (d ∷ l) n =
    ground (arith, find-others type t l, equal_texts_iff d.type type, equal_texts_iff d.type t)

others_idem : (type : Text) (l : List Condition) → others type (others type l) ≡ others type l
unfolding filter
others_idem type [] = refl
others_idem type (d ∷ l) = ground (arith, others_idem type l)

none-others : (type : Text) (l : List Condition) → filter (is_of type) (others type l) ≡ []
unfolding filter
none-others type [] = refl
none-others type (d ∷ l) = ground (arith, none-others type l)

find-insert_at :
    (c : Condition) (l : List Condition)
    → find c.type (insert_at (index_of c.type l) c (others c.type l)) ≡ some c
unfolding find insert_at index_of filter
find-insert_at c [] = ground (arith, equal_texts_iff c.type c.type)
find-insert_at c (d ∷ l) =
    ground (arith, find-insert_at c l, equal_texts_iff c.type c.type, equal_texts_iff d.type c.type)

find-insert_at_other :
    (c : Condition) (t : Text) (l : List Condition)
    → t ≢ c.type
    → find t (insert_at (index_of c.type l) c (others c.type l)) ≡ find t l
unfolding find insert_at index_of filter
find-insert_at_other c t [] n = ground (arith, equal_texts_iff c.type t)
find-insert_at_other c t (d ∷ l) n = ground (
  arith,
  find-insert_at_other c t l,
  find-others c.type t l,
  equal_texts_iff c.type t,
  equal_texts_iff d.type c.type,
  equal_texts_iff d.type t,
)

others-insert_at :
    (c : Condition) (l : List Condition)
    → others c.type (insert_at (index_of c.type l) c (others c.type l)) ≡ others c.type l
unfolding insert_at index_of filter
others-insert_at c [] = ground (arith, equal_texts_iff c.type c.type)
others-insert_at c (d ∷ l) =
    ground (arith, others-insert_at c l, others_idem c.type l, equal_texts_iff c.type c.type)

only-insert_at :
    (c : Condition) (l : List Condition)
    → filter (is_of c.type) (insert_at (index_of c.type l) c (others c.type l)) ≡ c ∷ []
unfolding insert_at index_of filter
only-insert_at c [] = ground (arith, equal_texts_iff c.type c.type)
only-insert_at c (d ∷ l) =
    ground (arith, only-insert_at c l, none-others c.type l, equal_texts_iff c.type c.type)

-- The time of a condition that was set: that of the condition before if its status is the same, and
-- the present otherwise.
abbrev pub IsTimed : ℕ → Text → Option Condition → ℕ → Type 0
IsTimed now status before time =
    ((p : Condition) × (before ≡ some p) × (p.status ≡ status) × (time ≡ p.last_transition_time))
    ⊎ ((time ≡ now)
        × ((before ≡ none) ⊎ ((p : Condition) × (before ≡ some p) × (p.status ≢ status))))

transition_time-IsTimed :
    (now : ℕ) (status : Text) (before : Option Condition)
    → IsTimed now status before (transition_time now status before)
unfolding transition_time
transition_time-IsTimed now status none = inr (refl, inl refl)
transition_time-IsTimed now status (some p) = elim (Bool-cases (equal_texts p.status status)) [
  | inl e ↦ inl (p, refl, (equal_texts_iff p.status status).0 e, rw e)
  | inr e ↦ inr (rw e, inr (p, refl, λ q. ground (arith, (equal_texts_iff p.status status).1 q)))
]

pub record IsSetBy (now : ℕ) (type status reason message : Text) (r r' : Resource) : Type 0 where
  pub written : Condition
  pub found : get_condition r' type ≡ some written
  pub single : filter (is_of type) (conditions_of r') ≡ written ∷ []
  pub kept : others type (conditions_of r') ≡ others type (conditions_of r)
  pub status_set : written.status ≡ status
  pub reason_set : written.reason ≡ reason
  pub message_set : written.message ≡ message
  pub generation_set : written.observed_generation ≡ r.generation
  pub timed : IsTimed now status (get_condition r type) written.last_transition_time
  pub same_generation : r'.generation ≡ r.generation
  pub same_deleting : r'.deleting ≡ r.deleting
  pub same_observed : (status_of r').observed_generation ≡ (status_of r).observed_generation

updated-IsSetBy :
    (now : ℕ) (type status reason message : Text) (r : Resource)
    → IsSetBy now type status reason message r (
        update_conditions
          (replaced (updated_condition now type status reason message r) (conditions_of r))
          r)
unfolding update_conditions replaced get_condition conditions_of updated_condition status_of
updated-IsSetBy now type status reason message r =
    let c = updated_condition now type status reason message r in
    record {
      written = c;
      found = find-insert_at c (conditions_of r);
      single = only-insert_at c (conditions_of r);
      kept = others-insert_at c (conditions_of r);
      status_set = refl;
      reason_set = refl;
      message_set = refl;
      generation_set = refl;
      timed = transition_time-IsTimed now status (get_condition r type);
      same_generation = refl;
      same_deleting = refl;
      same_observed = refl;
    }

set_condition-ok :
    (now : ℕ) (type status reason message : Text) (r r' : Resource)
    → set_condition now type status reason message r ≡ ok r'
    → update_conditions
        (replaced (updated_condition now type status reason message r) (conditions_of r))
        r
      ≡ r'
unfolding set_condition
set_condition-ok now type status reason message r r' h = ground (arith, h)

-- If set_condition returns, the resource has exactly one condition of the type, with the status,
-- reason and message given and the generation of the resource, and get_condition finds it; its
-- time is that of the condition before if that has the same status, and the present otherwise; the
-- conditions of other types are the same in the same order, as is the observed generation.
pub set_condition-IsSetBy :
    (now : ℕ) (type status reason message : Text) (r r' : Resource)
    → set_condition now type status reason message r ≡ ok r'
    → IsSetBy now type status reason message r r'
set_condition-IsSetBy now type status reason message r r' h =
    subst (λ x. IsSetBy now type status reason message r x)
      (set_condition-ok now type status reason message r r' h)
      (updated-IsSetBy now type status reason message r)

pub get_condition-set_condition_other :
    (now : ℕ) (type status reason message t : Text) (r r' : Resource)
    → set_condition now type status reason message r ≡ ok r'
    → t ≢ type
    → get_condition r' t ≡ get_condition r t
unfolding get_condition conditions_of update_conditions replaced updated_condition
get_condition-set_condition_other now type status reason message t r r' h n =
    subst (λ x. get_condition x t ≡ get_condition r t)
      (set_condition-ok now type status reason message r r' h)
      (find-insert_at_other (updated_condition now type status reason message r) t (conditions_of r)
        n)
