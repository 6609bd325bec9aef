-- ===== src/Controller/Cases/Order.antt =====
-- The order in which `_freeze` of Cases, cloudcoil/controller/_stages.py, leaves the cases.
use cloudcoil.Base.{
  Bool, true, false, not, ◌&&◌, List, [], ◌∷◌, ◌≡◌, ◌⊎◌, inl, inr, refl, sym, ap, subst, arith,
  if◌then◌else◌, All, Member, Bool-cases, is_empty,
}
use cloudcoil.Base.Results.{
  Result, ok, raise_if, ◌>>◌, bind_returned, then_returned, ok_inj, value_error,
}
use cloudcoil.Controller.Cases.{
  ℤ, pos, negsuc, int_ltb, Case, Cases, priority_of, place, sort, any_given, any_missing, arrange,
  freeze, is_some,
}

-- The priority of the second is not higher.
abbrev pub Before : Case → Case → Type 0
Before c d = int_ltb (priority_of c) (priority_of d) ≡ false

abbrev pub Descending : List Case → Type 0
Descending [] = Unit
Descending (c ∷ cs) = All (Before c) cs × Descending cs

int_leb_trans : (a b c : ℤ) → int_ltb a b ≡ false → int_ltb b c ≡ false → int_ltb a c ≡ false
unfolding int_ltb
int_leb_trans (pos a) (pos b) (pos c) h g = ground arith
int_leb_trans (pos a) b (negsuc c) h g = refl
int_leb_trans (pos a) (negsuc b) (pos c) h g = cc
int_leb_trans (negsuc a) (pos b) c h g = cc
int_leb_trans (negsuc a) (negsuc b) (pos c) h g = cc
int_leb_trans (negsuc a) (negsuc b) (negsuc c) h g = ground arith

pub int_ltb_asym : (a b : ℤ) → int_ltb a b ≡ true → int_ltb b a ≡ false
unfolding int_ltb
int_ltb_asym (pos a) (pos b) h = ground arith
int_ltb_asym (pos a) (negsuc b) h = cc
int_ltb_asym (negsuc a) (pos b) h = refl
int_ltb_asym (negsuc a) (negsuc b) h = ground arith

All-Before : (c d : Case) (l : List Case) → Before c d → All (Before d) l → All (Before c) l
All-Before c d [] h a = tt
All-Before c d (e ∷ l) h a =
    (int_leb_trans (priority_of c) (priority_of d) (priority_of e) h a.0, All-Before c d l h a.1)

place-All :
    (e c : Case) (l : List Case) → Before e c → All (Before e) l → All (Before e) (place c l)
unfolding place
place-All e c [] h a = (h, tt)
place-All e c (d ∷ l) h a = elim (Bool-cases (int_ltb (priority_of c) (priority_of d))) [
  | inl t ↦
      subst (All (Before e)) (sym (ap (λ b. if b then d ∷ place c l else c ∷ d ∷ l) t))
        (a.0, place-All e c l h a.1)
  | inr f ↦ subst (All (Before e)) (sym (ap (λ b. if b then d ∷ place c l else c ∷ d ∷ l) f)) (h, a)
]

place-Descending : (c : Case) (l : List Case) → Descending l → Descending (place c l)
unfolding place
place-Descending c [] s = (tt, tt)
place-Descending c (d ∷ l) s = elim (Bool-cases (int_ltb (priority_of c) (priority_of d))) [
  | inl t ↦ subst Descending (sym (ap (λ b. if b then d ∷ place c l else c ∷ d ∷ l) t)) (
    place-All d c l (int_ltb_asym (priority_of c) (priority_of d) t) s.0,
    place-Descending c l s.1,
  )
  | inr f ↦
      subst Descending (sym (ap (λ b. if b then d ∷ place c l else c ∷ d ∷ l) f))
        ((f, All-Before c d l f s.0), s)
]

sort-Descending : (l : List Case) → Descending (sort l)
unfolding sort
sort-Descending [] = tt
sort-Descending (c ∷ l) = place-Descending c (sort l) (sort-Descending l)

-- The same cases
abbrev pub SameMembers : List Case → List Case → Type 0
SameMembers l m = (c : Case) → (Member c l → Member c m) × (Member c m → Member c l)

place-SameMembers : (c : Case) (l : List Case) → SameMembers (c ∷ l) (place c l)
unfolding place
place-SameMembers c [] e = (λ m. m, λ m. m)
place-SameMembers c (d ∷ l) e = elim (Bool-cases (int_ltb (priority_of c) (priority_of d))) [
  | inl t ↦
      subst (λ k. (Member e (c ∷ d ∷ l) → Member e k) × (Member e k → Member e (c ∷ d ∷ l)))
        (sym (ap (λ b. if b then d ∷ place c l else c ∷ d ∷ l) t))
        (let (to, back) = place-SameMembers c l e in
          (
            λ m. elim m [
              | inl x ↦ inr (to (inl x))
              | inr n ↦ elim n [ inl y ↦ inl y | inr k ↦ inr (to (inr k)) ]
            ],
            λ m. elim m [
              | inl y ↦ inr (inl y)
              | inr n ↦ elim (back n) [ inl x ↦ inl x | inr k ↦ inr (inr k) ]
            ],
          ))
  | inr f ↦
      subst (λ k. (Member e (c ∷ d ∷ l) → Member e k) × (Member e k → Member e (c ∷ d ∷ l)))
        (sym (ap (λ b. if b then d ∷ place c l else c ∷ d ∷ l) f)) (λ m. m, λ m. m)
]

sort-SameMembers : (l : List Case) → SameMembers l (sort l)
unfolding sort
sort-SameMembers [] e = (λ m. m, λ m. m)
sort-SameMembers (c ∷ l) e =
    let (to, back) = sort-SameMembers l e in
    let (in_place, out) = place-SameMembers c (sort l) e in
    (
      λ m. in_place (elim m [ inl x ↦ inl x | inr n ↦ inr (to n) ]),
      λ m. elim (out m) [ inl x ↦ inl x | inr n ↦ inr (back n) ],
    )

-- Cases with priorities stand in the order of these; without any, they are as they were registered.
pub record IsArranged (before after : List Case) : Type 0 where
  pub same : SameMembers before after
  pub order :
      (any_given before ≡ true) × Descending after ⊎ (any_given before ≡ false) × (after ≡ before)

arrange-IsArranged :
    (before after : List Case) → arrange before ≡ ok after → IsArranged before after
unfolding arrange
arrange-IsArranged before after h = elim (Bool-cases (any_given before)) [
  | inl t ↦
      let g =
        subst
          (λ b.
            (if b then raise_if (any_missing before) value_error >> ok (sort before) else ok before)
            ≡ ok after)
          t h in
      let (_, e) = then_returned (raise_if (any_missing before) value_error) (ok (sort before)) g in
      subst (IsArranged before) (ok_inj e)
        (record { same = sort-SameMembers before; order = inl (t, sort-Descending before) })
  | inr f ↦
      let g =
        subst
          (λ b.
            (if b then raise_if (any_missing before) value_error >> ok (sort before) else ok before)
            ≡ ok after)
          f h in
      subst (IsArranged before) (ok_inj g)
        (record { same = λ c. (λ m. m, λ m. m); order = inr (f, refl) })
]

pub freeze-IsArranged :
    (validate : Bool → Result (Unit {0})) (c frozen : Cases)
    → freeze validate c ≡ ok frozen
    → IsArranged c.cases frozen.cases × (frozen.otherwise ≡ c.otherwise) × (frozen.frozen ≡ true)
unfolding freeze
freeze-IsArranged validate c frozen h =
    let tests =
      validate c.report_status
      >> raise_if (is_empty c.cases && not (is_some c.otherwise)) value_error in
    let (cases, first, e) = bind_returned (tests >> arrange c.cases) _ h in
    let (_, arranged) = then_returned tests (arrange c.cases) first in
    subst (λ f. IsArranged c.cases f.cases × (f.otherwise ≡ c.otherwise) × (f.frozen ≡ true))
      (ok_inj e) (arrange-IsArranged c.cases cases arranged, refl, refl)
