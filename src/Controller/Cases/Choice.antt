-- ===== src/Controller/Cases/Choice.antt =====
-- Which case a call of Cases, cloudcoil/controller/_stages.py, runs.
use cloudcoil.Base.{
  Bool, true, false, Option, some, List, [], ◌∷◌, ◌++◌, ◌≡◌, ◌⊎◌, inl, inr, refl, sym, ap, ◌∙◌,
  subst, arith, All, Member, if◌then◌else◌,
}
use cloudcoil.Base.Json.{Text}
use cloudcoil.Base.Results.{type_error, Result, ok, raise}
use cloudcoil.Controller.Requests.{Request}
use cloudcoil.Controller.Stages.{Stage}
use cloudcoil.Controller.Cases.{
  int_ltb, Answer, answers, not_bool, raises, Case, Cases, priority_of, any_given, with_pending,
  asked, choose,
}
use cloudcoil.Controller.Cases.Order.{Before, Descending, int_ltb_asym, IsArranged}

-- The predicate of the case is false.
abbrev pub Refused : List Text → Request → Case → Type 0
Refused names r c = c.when (asked names c r) ≡ answers false

-- The case and what stands before it
pub record Found (names : List Text) (r : Request) (cs : List Case) (s : Stage) : Type 0 where
  pub chosen : Case
  pub earlier : List Case
  pub later : List Case
  pub split : cs ≡ earlier ++ chosen ∷ later
  pub stage : chosen.stage ≡ s
  pub holds : chosen.when (asked names chosen r) ≡ answers true
  pub refused : All (Refused names r) earlier

abbrev pub Chosen : List Text → Request → List Case → Option Stage → Stage → Type 0
Chosen names r cs otherwise s = Found names r cs s ⊎ (otherwise ≡ some s) × All (Refused names r) cs

Found-tail :
    (names : List Text) (r : Request) (c : Case) (cs : List Case) (s : Stage)
    → Refused names r c
    → Found names (asked names c r) cs s
    → Found names r (c ∷ cs) s
unfolding asked
Found-tail names r c cs s e f = record {
  chosen = f.chosen;
  earlier = c ∷ f.earlier;
  later = f.later;
  split = ap (λ l. c ∷ l) f.split;
  stage = f.stage;
  holds = f.holds;
  refused = (e, f.refused);
}

reply_parts :
    {r r' : Request} {x y : Result (Option Stage)}
    → ◌≡◌ {A = Request × Result (Option Stage)} (r, x) (r', y)
    → (r ≡ r') × (x ≡ y)
reply_parts h = (ap (λ p. p.0) h, ap (λ p. p.1) h)

stage_inj : {s t : Stage} → ◌≡◌ {A = Result (Option Stage)} (ok (some s)) (ok (some t)) → s ≡ t
stage_inj h = cc

abbrev pub Chose : List Text → Request → List Case → Option Stage → Request → Stage → Type 0
Chose names r cs otherwise r' s =
    Chosen names r cs otherwise s
    × ((pending : List Text) → with_pending pending r' ≡ with_pending pending r)

pub choose-Chosen :
    (names : List Text) (r r' : Request) (cs : List Case) (otherwise : Option Stage) (s : Stage)
    → choose names cs otherwise r ≡ (r', ok (some s))
    → Chose names r cs otherwise r' s
unfolding choose asked
choose-Chosen names r r' [] otherwise s h =
    let (e, f) = reply_parts h in
    (inr (ground arith, tt), λ pending. ap (with_pending pending) (sym e))
choose-Chosen names r r' (c ∷ cs) otherwise s h =
    go (c.when (asked names c r)) refl h
      (λ k. choose-Chosen names (asked names c r) r' cs otherwise s k)
  where
    go :
        (a : Answer)
        → c.when (asked names c r) ≡ a
        → elim a [
          | answers b ↦
              if b
              then (asked names c r, ok (some c.stage))
              else choose names cs otherwise (asked names c r)
          | not_bool ↦ (asked names c r, raise type_error)
          | raises e ↦ (asked names c r, raise e)
        ]
          ≡ (r', ok (some s))
        → (choose names cs otherwise (asked names c r) ≡ (r', ok (some s))
            → Chose names (asked names c r) cs otherwise r' s)
        → Chose names r (c ∷ cs) otherwise r' s
    go (answers true) e g rec =
        let (same, f) = reply_parts g in
        (
          inl (record {
            chosen = c;
            earlier = [];
            later = cs;
            split = refl;
            stage = stage_inj f;
            holds = e;
            refused = tt;
          }),
          λ pending. ap (with_pending pending) (sym same),
        )
    go (answers false) e g rec =
        let (chosen, same) = rec g in
        (
          elim chosen [
            | inl f ↦ inl (Found-tail names r c cs s e f)
            | inr (o, all) ↦ inr (o, (e, all))
          ],
          same,
        )
    go not_bool e g rec = absurd (ground arith)
    go (raises x) e g rec = absurd (ground arith)

-- The case that the rules select: the highest priority whose predicate is true, or without priorities
-- the first registered; or else the fallback, if every predicate is false.
pub record IsCase (c : Cases) (names : List Text) (r : Request) (s : Stage) : Type 0 where
  pub chosen : Case
  pub registered : Member chosen c.cases
  pub stage : chosen.stage ≡ s
  pub holds : chosen.when (asked names chosen r) ≡ answers true
  pub first :
      (any_given c.cases ≡ true)
        × ((d : Case)
            → Member d c.cases
            → int_ltb (priority_of chosen) (priority_of d) ≡ true
            → Refused names r d)
      ⊎ (any_given c.cases ≡ false)
        × ((earlier : List Case) × (later : List Case) × (c.cases ≡ earlier ++ chosen ∷ later)
            × All (Refused names r) earlier)

abbrev pub IsChoice : Cases → List Text → Request → Stage → Type 0
IsChoice c names r s =
    IsCase c names r s
    ⊎ (c.otherwise ≡ some s) × ((d : Case) → Member d c.cases → Refused names r d)

All-Member : (P : Case → Type 0) (l : List Case) → All P l → (d : Case) → Member d l → P d
All-Member P [] a d m = absurd m
All-Member P (c ∷ l) a d m = elim m [ inl e ↦ subst P (sym e) a.0 | inr n ↦ All-Member P l a.1 d n ]

Member-middle : (c : Case) (earlier later : List Case) → Member c (earlier ++ c ∷ later)
Member-middle c [] later = inl refl
Member-middle c (d ∷ earlier) later = inr (Member-middle c earlier later)

never_both : {b : Bool} → b ≡ false → b ≡ true → ⊥
never_both f t = cc

not_above_self : (c : Case) → int_ltb (priority_of c) (priority_of c) ≡ true → ⊥
not_above_self c t = never_both (int_ltb_asym (priority_of c) (priority_of c) t) t

-- In descending order, what has a higher priority stands before.
higher-Member :
    (c d : Case) (earlier later : List Case)
    → Descending (earlier ++ c ∷ later)
    → Member d (earlier ++ c ∷ later)
    → int_ltb (priority_of c) (priority_of d) ≡ true
    → Member d earlier
higher-Member c d [] later s m h = elim m [
  | inl e ↦
      absurd (not_above_self c (subst (λ x. int_ltb (priority_of c) (priority_of x) ≡ true) e h))
  | inr n ↦ absurd (never_both (All-Member (Before c) later s.0 d n) h)
]
higher-Member c d (e ∷ earlier) later s m h = elim m [
  | inl x ↦ inl x
  | inr n ↦ inr (higher-Member c d earlier later s.1 n h)
]

pub Chosen-IsChoice :
    (c : Cases) (cs : List Case) (names : List Text) (r : Request) (s : Stage)
    → IsArranged c.cases cs
    → Chosen names r cs c.otherwise s
    → IsChoice c names r s
Chosen-IsChoice c cs names r s a (inr (o, all)) =
    inr (o, λ d m. All-Member (Refused names r) cs all d ((a.same d).0 m))
Chosen-IsChoice c cs names r s a (inl f) =
    let member = subst (Member f.chosen) (sym f.split) (Member-middle f.chosen f.earlier f.later) in
    inl (record {
      chosen = f.chosen;
      registered = (a.same f.chosen).1 member;
      stage = f.stage;
      holds = f.holds;
      first = elim a.order [
        | inl (t, sorted) ↦ inl (
          t,
          λ d m h. All-Member (Refused names r) f.earlier f.refused d (
              higher-Member f.chosen d f.earlier f.later (subst Descending f.split sorted)
                (subst (Member d) f.split ((a.same d).0 m)) h),
        )
        | inr (n, e) ↦ inr (n, (f.earlier, f.later, sym e ∙ f.split, f.refused))
      ];
    })
