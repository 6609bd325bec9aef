-- ===== src/Controller/Registry/Branches.antt =====
-- `_Branches` of cloudcoil/controller/_registry.py: cases in their order, and the fallback. A handler
-- is its function, and a case is known by itself; what `_arity` asks of a signature is left out.
use cloudcoil.Base.{
  Bool, true, false, not, ◌||◌, Option, none, some, List, [], ◌∷◌, ◌++◌, is_empty, ◌≡◌, ◌⊎◌, inl,
  inr, refl, arith,
}
use cloudcoil.Base.Results.{
  value_error, type_error, assertion_error, Result, ok, raise, raise_if, ◌>>=◌, ◌>>◌,
}
use cloudcoil.Controller.Registry.{Node, ordered}
use cloudcoil.Controller.Registry.Orders.{IsOrder, ordered-IsOrder}

-- What a predicate returns: a `bool`, or a value of another type
pub data Matches : Type 0 where
  bool : Bool → Matches
  other_value : Matches

pub record Branches (Object : Type 0) : Type 0 where
  pub branches : List (Node Object)
  pub fallback : Option Object
  pub order : Option (List (Node Object))

abbrev pub is_some {ℓ} : {A : Type ℓ} → Option A → Bool
is_some (some _) = true
is_some none = false

module _ {Object : Type 0} where
  -- `case`, with what `_check` raises
  unfoldable pub case : Result (Unit {0}) → Node Object → Branches Object → Result (Branches Object)
  case check branch b = check >> ok (record b { branches = b.branches ++ branch ∷ [] })

  -- `otherwise`
  unfoldable pub otherwise : Result (Unit {0}) → Object → Branches Object → Result (Branches Object)
  otherwise check function b =
      check
      >> raise_if (is_some b.fallback) value_error
      >> ok (record b { fallback = some function })

  unfoldable pub populated : Branches Object → Bool
  populated b = not (is_empty b.branches) || is_some b.fallback

  module _ (dec : Discrete Object) where
    -- `validate`
    unfoldable pub validate : Branches Object → Result (List (Node Object))
    validate b = raise_if (not (is_some b.fallback)) value_error >> ordered dec b.branches

    -- `self._order`, once it is set
    unfoldable pub cases_of : Branches Object → Result (List (Node Object))
    cases_of b = elim b.order [ some order ↦ ok order | none ↦ validate b ]

    module _ (call : Object → Result Matches) where
      -- The loop of `select`
      unfoldable pub first : List (Node Object) → Option Object → Result Object
      first [] fallback = elim fallback [
        | some function ↦ ok function
        | none ↦ raise assertion_error
      ]
      first (branch ∷ branches) fallback = call branch.self >>= λ matches. elim matches [
        | bool b ↦ elim b [ true ↦ ok branch.identity | false ↦ first branches fallback ]
        | other_value ↦ raise type_error
      ]

      -- `select`
      unfoldable pub select : Branches Object → Result (Object × Branches Object)
      select b = cases_of b >>= λ order.
          first order b.fallback >>= λ function. ok (function, record b { order = some order })

      -- The function is that of the first case in the order whose predicate holds, or the fallback.
      abbrev pub IsFirst : List (Node Object) → Option Object → Object → Type 0
      IsFirst [] fallback function = fallback ≡ some function
      IsFirst (branch ∷ branches) fallback function =
          ((call branch.self ≡ ok (bool true)) × (function ≡ branch.identity))
          ⊎ ((call branch.self ≡ ok (bool false)) × IsFirst branches fallback function)

      first-IsFirst :
          (order : List (Node Object)) (fallback : Option Object) (function : Object)
          → first order fallback ≡ ok function
          → IsFirst order fallback function
      unfolding first
      first-IsFirst [] fallback function h = ground (arith, h)
      first-IsFirst (branch ∷ branches) fallback function h =
          matched (call branch.self) refl h (first-IsFirst branches fallback function)
        where
          matched :
              (r : Result Matches)
              → call branch.self ≡ r
              → (r >>= λ matches. elim matches [
                | bool b ↦ elim b [ true ↦ ok branch.identity | false ↦ first branches fallback ]
                | other_value ↦ raise type_error
              ])
                ≡ ok function
              → (first branches fallback ≡ ok function → IsFirst branches fallback function)
              → IsFirst (branch ∷ branches) fallback function
          matched (raise e) q t k = absurd (ground (arith, t))
          matched (ok other_value) q t k = absurd (ground (arith, t))
          matched (ok (bool true)) q t k = inl (q, ground (arith, t))
          matched (ok (bool false)) q t k = inr (q, k t)

    -- A cached order is the order of the cases.
    abbrev pub IsCached : Branches Object → Type 0
    IsCached b =
        (order : List (Node Object)) → b.order ≡ some order → IsOrder dec [] b.branches order

    cases_of-IsOrder :
        (b : Branches Object) (order : List (Node Object))
        → IsCached b
        → cases_of b ≡ ok order
        → IsOrder dec [] b.branches order
    unfolding cases_of validate
    cases_of-IsOrder b order c h = found b.order refl h
      where
        tested :
            (t : Bool) (r : Result (List (Node Object)))
            → (raise_if t value_error >> r) ≡ ok order
            → r ≡ ok order
        tested true r q = absurd (ground (arith, q))
        tested false r q = q

        found :
            (o : Option (List (Node Object)))
            → b.order ≡ o
            → elim o [
              | some cached ↦ ok cached
              | none ↦ raise_if (not (is_some b.fallback)) value_error >> ordered dec b.branches
            ]
              ≡ ok order
            → IsOrder dec [] b.branches order
        found (some cached) e q = c order (ground (arith, e, q))
        found none e q = (ordered-IsOrder dec b.branches).0 order (tested _ _ q)

    abbrev answer :
        Branches Object → List (Node Object) → Object → Result (Object × Branches Object)
    answer b order function = ok (function, record b { order = some order })

    -- With a cache that is right, a selection runs the predicates in the only order of the cases up to
    -- the first that holds, whose function it returns, or else returns the fallback; and it caches
    -- that order.
    pub select-IsFirst :
        (call : Object → Result Matches) (b : Branches Object) (function : Object)
        (next : Branches Object)
        → IsCached b
        → select call b ≡ ok (function, next)
        → (order : List (Node Object)) × IsOrder dec [] b.branches order
          × IsFirst call order b.fallback function
          × (next ≡ record b { order = some order })
    unfolding select
    select-IsFirst call b function next c h = chosen (cases_of b) refl h
      where
        answered :
            (order : List (Node Object)) (r : Result Object)
            → first call order b.fallback ≡ r
            → (r >>= λ f. answer b order f) ≡ ok (function, next)
            → (first call order b.fallback ≡ ok function) × (next ≡ record b { order = some order })
        answered order (raise e) q t = absurd (ground (arith, t))
        answered order (ok f) q t = (ground (arith, q, t), ground (arith, t))

        chosen :
            (r : Result (List (Node Object)))
            → cases_of b ≡ r
            → (r >>= λ order. first call order b.fallback >>= λ f. answer b order f)
              ≡ ok (function, next)
            → (order : List (Node Object)) × IsOrder dec [] b.branches order
              × IsFirst call order b.fallback function
              × (next ≡ record b { order = some order })
        chosen (raise e) q t = absurd (ground (arith, t))
        chosen (ok order) q t =
            let (f, n) = answered order (first call order b.fallback) refl t in
            (order, cases_of-IsOrder b order c q, first-IsFirst call order b.fallback function f, n)
