-- ===== src/Controller/Stages/Frames.antt =====
-- What the edits of conditions by cloudcoil/controller/_stages.py leave alone.
use mathlib.Core.Option
use cloudcoil.Base.{ℕ, false, some, List, [], ◌∷◌, ◌≡◌, ◌≢◌, refl, ap, ◌∙◌, subst, arith, All}
use cloudcoil.Base.Json.{Text, text_discrete}
use cloudcoil.Base.Sets.{contains, contains-cons, Unique}
use cloudcoil.Base.Results.{Result, ok, raise}
use cloudcoil.Controller.Status.{status_unknown}
use cloudcoil.Controller.Requests.{
  Request, M, and_then, each, Observation, condition, dependency_not_ready,
}
use cloudcoil.Controller.Requests.Conditions.{condition-IsNoted, condition-others}
use cloudcoil.Controller.Requests.Framed.{
  condition_at, status_at, Framed, Framed-refl, Framed-trans, condition-Framed,
}

-- A later request with the same report, and the same conditions of the types `P`
pub record Kept (P : Text → Type 0) (r r' : Request) : Type 0 where
  pub framed : Framed r r'
  pub conditions : (t : Text) → P t → condition_at r' t ≡ condition_at r t

module _ (P : Text → Type 0) where
  pub Kept-refl : (r : Request) → Kept P r r
  Kept-refl r = record { framed = Framed-refl r; conditions = λ t p. refl }

  pub Kept-trans : {r s t : Request} → Kept P r s → Kept P s t → Kept P r t
  Kept-trans f g = record {
    framed = Framed-trans f.framed g.framed;
    conditions = λ t p. g.conditions t p ∙ f.conditions t p;
  }

  pub and_then-Kept :
      {A B : Type 0} (r : Request) (p : Request × Result A) (next : A → M B)
      → Kept P r p.0
      → ((a : A) (r' : Request) → p ≡ (r', ok a) → Kept P r' (next a r').0)
      → Kept P r (and_then p next).0
  and_then-Kept r (r', raise e) next f g = f
  and_then-Kept r (r', ok a) next f g = Kept-trans f (g a r' refl)

  pub condition-Kept :
      (now : ℕ) (c : Observation) (r : Request)
      → ((t : Text) → P t → t ≢ c.type)
      → Kept P r (condition now c r).0
  condition-Kept now c r n = record {
    framed = condition-Framed now c r;
    conditions = λ t p. condition-others now c r t (n t p);
  }

  each-Kept :
      {A : Type 0} (body : A → M (Unit {0})) (l : List A) (r : Request)
      → All (λ x. (r : Request) → Kept P r (body x r).0) l
      → Kept P r (each body l r).0
  unfolding each
  each-Kept body [] r h = Kept-refl r
  each-Kept body (x ∷ l) r h =
      and_then-Kept r (body x r) (λ _. each body l) (h.0 r) (λ a r' e. each-Kept body l r' h.1)

-- A type that is none of the list
abbrev pub Outside : List Text → Text → Type 0
Outside l t = contains text_discrete t l ≡ false

pub Outside-head : (n : Text) (l : List Text) (t : Text) → Outside (n ∷ l) t → t ≢ n
Outside-head n l t h e = ground (arith, contains-cons text_discrete t n l)

pub Outside-tail : (n : Text) (l : List Text) (t : Text) → Outside (n ∷ l) t → Outside l t
Outside-tail n l t h = ground (arith, contains-cons text_discrete t n l)

unfoldable pub unknowns : ℕ → List Text → M (Unit {0})
unknowns now l = each (λ p. condition now (dependency_not_ready p)) l

pub unknowns-Kept :
    (now : ℕ) (l : List Text) (r : Request) → Kept (Outside l) r (unknowns now l r).0
unfolding unknowns
unknowns-Kept now l r =
    each-Kept (Outside l) (λ p. condition now (dependency_not_ready p)) l r (all l (λ t p. p))
  where
    all :
        (k : List Text)
        → ((t : Text) → Outside l t → Outside k t)
        → All
            (λ x. (s : Request) → Kept (Outside l) s (condition now (dependency_not_ready x) s).0)
            k
    all [] h = tt
    all (x ∷ k) h = (
      λ s.
          condition-Kept (Outside l) now (dependency_not_ready x) s
            (λ t p. Outside-head x k t (h t p)),
      all k (λ t p. Outside-tail x k t (h t p)),
    )

pub and_then-ok :
    {A B : Type 0} (p : Request × Result A) (next : A → M B) (r' : Request) (b : B)
    → and_then p next ≡ (r', ok b)
    → (r1 : Request) × (a : A) × (p ≡ (r1, ok a)) × (next a r1 ≡ (r', ok b))
and_then-ok (r1, raise e) next r' b h = absurd (ground arith)
and_then-ok (r1, ok a) next r' b h = (r1, a, refl, h)

pub unknowns-Unknown :
    (now : ℕ) (l : List Text) (r r' : Request)
    → Unique text_discrete l
    → unknowns now l r ≡ (r', ok tt)
    → All (λ k. status_at r' k ≡ some status_unknown) l
unfolding unknowns each
unknowns-Unknown now [] r r' u h = tt
unknowns-Unknown now (x ∷ l) r r' u h =
    let (r1, a, first, rest) =
      and_then-ok (condition now (dependency_not_ready x) r) (λ _. unknowns now l) r' tt h in
    let noted = condition-IsNoted now (dependency_not_ready x) r r1 first in
    let kept = subst (λ p. Kept (Outside l) r1 p.0) rest (unknowns-Kept now l r1) in
    (
      ap (Option.map (λ c. c.status)) (kept.conditions x u.0) ∙ noted.shown,
      unknowns-Unknown now l r1 r' u.1 rest,
    )
