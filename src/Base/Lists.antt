-- ===== src/Base/Lists.antt =====
-- Lists measured by native numbers, under the library's names.
use Prim.Native.Nat.{ℕ, suc, ◌+◌}
use mathlib.Core.Path.{◌≡◌, refl, ap, ◌∙◌}
use mathlib.Core.Logic.{◌⊎◌, inl, inr}
use mathlib.Core.Bool.{Bool, true, false}
use mathlib.Core.List.{List, [], ◌∷◌, ◌++◌}
use native.Mathlib.Omega.{arith}

module _ {ℓ} {A : Type ℓ} where
  abbrev pub length : List A → ℕ
  length [] = 0
  length (x ∷ xs) = suc (length xs)

  pub length-append : (xs ys : List A) → length (xs ++ ys) ≡ length xs + length ys
  length-append [] ys = omega arith
  length-append (x ∷ xs) ys = omega (arith, length-append xs ys)

  -- `not xs`
  abbrev pub is_empty : List A → Bool
  is_empty [] = true
  is_empty (x ∷ xs) = false

-- A predicate on every member, by recursion, so that it computes to tuples.
abbrev pub All {ℓ κ} : {A : Type ℓ} → (A → Type κ) → List A → Type κ
All P [] = Unit
All P (x ∷ xs) = P x × All P xs

-- `x in xs`, where equality is not decided.
abbrev pub Member : {A : Type 0} → A → List A → Type 0
Member x [] = ⊥
Member x (y ∷ ys) = (x ≡ y) ⊎ Member x ys

-- `[x for x in xs if test(x)]`
unfoldable pub filter {ℓ} : {A : Type ℓ} → (A → Bool) → List A → List A
filter test [] = []
filter test (x ∷ xs) = let rest = filter test xs in elim (test x) [ true ↦ x ∷ rest | false ↦ rest ]

pub Member-filter :
    {A : Type 0} (test : A → Bool) (x : A) (xs : List A)
    → (Member x (filter test xs) → Member x xs × (test x ≡ true))
      × (Member x xs × (test x ≡ true) → Member x (filter test xs))
unfolding filter
Member-filter test x [] = (λ m. absurd m, λ m. absurd m.0)
Member-filter test x (y ∷ ys) =
    let (back, forth) = Member-filter test x ys in kept (test y) refl back forth
  where
    kept :
        (b : Bool)
        → test y ≡ b
        → (Member x (filter test ys) → Member x ys × (test x ≡ true))
        → (Member x ys × (test x ≡ true) → Member x (filter test ys))
        → (Member x (elim b [ true ↦ y ∷ filter test ys | false ↦ filter test ys ])
            → Member x (y ∷ ys) × (test x ≡ true))
          × (Member x (y ∷ ys) × (test x ≡ true)
              → Member x (elim b [ true ↦ y ∷ filter test ys | false ↦ filter test ys ]))
    kept true e back forth = (
      λ m. elim m [ inl p ↦ (inl p, ap test p ∙ e) | inr n ↦ (inr (back n).0, (back n).1) ],
      λ (m, t). elim m [ inl p ↦ inl p | inr n ↦ inr (forth (n, t)) ],
    )
    kept false e back forth = (
      λ m. (inr (back m).0, (back m).1),
      λ (m, t). elim m [ inl p ↦ absurd (ground (arith, t, e, ap test p)) | inr n ↦ forth (n, t) ],
    )
