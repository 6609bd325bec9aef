-- ===== src/Base/Sets.antt =====
-- A Python `set` over keys with decidable equality, as the list of its members.
use mathlib.Core.Path.{◌≡◌, refl}
use mathlib.Core.Bool.{Bool, true, false, ◌||◌}
use mathlib.Core.List.{List, [], ◌∷◌, ◌++◌}
use native.Mathlib.Omega.{arith}
use cloudcoil.Base.Lists.{is_empty}

module _ {ℓ} {A : Type ℓ} (dec : Discrete A) where
  -- `a in xs`, for a set and for a deque
  unfoldable pub contains : A → List A → Bool
  contains a [] = false
  contains a (x ∷ xs) = elim (dec x a) [ yes _ ↦ true | no _ ↦ contains a xs ]

  -- `xs.add(a)`
  unfoldable pub insert : A → List A → List A
  insert a xs = elim (contains a xs) [ true ↦ xs | false ↦ a ∷ xs ]

  -- `xs.discard(a)`
  unfoldable pub discard : A → List A → List A
  discard a [] = []
  discard a (x ∷ xs) = elim (dec x a) [ yes _ ↦ discard a xs | no _ ↦ x ∷ discard a xs ]

  pub contains-nil : (a : A) → contains a [] ≡ false
  unfolding contains
  contains-nil a = refl

  pub contains-cons :
      (a x : A) (xs : List A)
      → contains a (x ∷ xs) ≡ elim (dec x a) [ yes _ ↦ true | no _ ↦ contains a xs ]
  unfolding contains
  contains-cons a x xs = refl

  pub contains-append :
      (a : A) (xs ys : List A) → contains a (xs ++ ys) ≡ (contains a xs || contains a ys)
  unfolding contains
  contains-append a [] ys = refl
  contains-append a (x ∷ xs) ys = ground (arith, contains-append a xs ys)

  pub contains-snoc :
      (a x : A) (xs : List A)
      → contains a (xs ++ x ∷ []) ≡ elim (dec x a) [ yes _ ↦ true | no _ ↦ contains a xs ]
  unfolding contains
  contains-snoc a x [] = refl
  contains-snoc a x (y ∷ xs) = ground (arith, contains-snoc a x xs)

  pub contains-insert :
      (a x : A) (xs : List A)
      → contains a (insert x xs) ≡ elim (dec x a) [ yes _ ↦ true | no _ ↦ contains a xs ]
  unfolding contains insert
  contains-insert a x xs = ground arith

  pub contains-discard :
      (a x : A) (xs : List A)
      → contains a (discard x xs) ≡ elim (dec x a) [ yes _ ↦ false | no _ ↦ contains a xs ]
  unfolding contains discard
  contains-discard a x [] = ground arith
  contains-discard a x (y ∷ xs) = ground (arith, contains-discard a x xs)

  pub contains-head : (a : A) (xs : List A) → contains a (a ∷ xs) ≡ true
  unfolding contains
  contains-head a xs = ground arith

  -- A set is empty exactly when it has no member.
  pub nil_of_none : (xs : List A) → ((a : A) → contains a xs ≡ false) → xs ≡ []
  nil_of_none [] h = refl
  nil_of_none (x ∷ xs) h = ground (arith, h x, contains-head x xs)

  -- No member twice.
  abbrev pub Unique : List A → Type ℓ
  Unique [] = Unit
  Unique (x ∷ xs) = (contains x xs ≡ false) × Unique xs

  pub snoc-Unique :
      (x : A) (xs : List A) → contains x xs ≡ false → Unique xs → Unique (xs ++ x ∷ [])
  unfolding contains
  snoc-Unique x [] h u = (refl, tt)
  snoc-Unique x (y ∷ xs) h u =
      (ground (arith, contains-snoc y x xs), snoc-Unique x xs (ground arith) u.1)

  pub insert-nonempty : (a : A) (xs : List A) → is_empty (insert a xs) ≡ false
  unfolding insert contains
  insert-nonempty a [] = refl
  insert-nonempty a (x ∷ xs) = ground arith

  pub contains-nonempty : (a : A) (xs : List A) → contains a xs ≡ true → is_empty xs ≡ false
  unfolding contains
  contains-nonempty a [] h = cc
  contains-nonempty a (x ∷ xs) h = refl

pub snoc-nonempty {ℓ} : {A : Type ℓ} (xs : List A) (a : A) → is_empty (xs ++ a ∷ []) ≡ false
snoc-nonempty [] a = refl
snoc-nonempty (x ∷ xs) a = refl
