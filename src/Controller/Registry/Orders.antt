-- ===== src/Controller/Registry/Orders.antt =====
-- The order that `_ordered` of cloudcoil/controller/_registry.py returns, and that it always ends.
use cloudcoil.Base.{
  ℕ, zero, suc, ◌≤◌, Bool, true, false, List, [], ◌∷◌, length, filter, Member, Member-filter, ◌≡◌,
  ◌≢◌, inl, inr, refl, sym, ap, subst, arith,
}
use cloudcoil.Base.Results.{value_error, assertion_error, Result, ok, raise, raise_if, ◌>>=◌, ◌>>◌}
use cloudcoil.Controller.Registry.{Node, is_ready, remove, complete, place, ordered}

module _ {Object : Type 0} (dec : Discrete Object) where
  -- Every node stands after all that it depends on, where `completed` is done.
  abbrev pub IsTopological : List Object → List (Node Object) → Type 0
  IsTopological completed [] = Unit
  IsTopological completed (node ∷ nodes) =
      (is_ready dec completed node ≡ true) × IsTopological (complete dec node completed) nodes

  -- The nodes of `order` are those of `nodes`, each taken once.
  abbrev pub Arranges : List (Node Object) → List (Node Object) → Type 0
  Arranges [] nodes = nodes ≡ []
  Arranges (node ∷ order) nodes = Member node nodes × Arranges order (remove dec node nodes)

  -- The only topological order of the nodes.
  pub record IsOrder (completed : List Object) (nodes order : List (Node Object)) : Type 0 where
    pub topological : IsTopological completed order
    pub arranges : Arranges order nodes
    pub only :
        (other : List (Node Object))
        → IsTopological completed other
        → Arranges other nodes
        → other ≡ order

  length-remove :
      (node : Node Object) (nodes : List (Node Object))
      → Member node nodes
      → suc (length (remove dec node nodes)) ≡ length nodes
  unfolding remove
  length-remove node [] m = absurd m
  length-remove node (n ∷ nodes) (inl e) = ground (arith, ap (λ t. t.identity) e)
  length-remove node (n ∷ nodes) (inr m) = ground (arith, length-remove node nodes m)

  ready-Member :
      (completed : List Object) (nodes : List (Node Object)) (node : Node Object)
      → filter (is_ready dec completed) nodes ≡ node ∷ []
      → Member node nodes × (is_ready dec completed node ≡ true)
  ready-Member completed nodes node e =
      (Member-filter (is_ready dec completed) node nodes).0 (subst (Member node) (sym e) (inl refl))

  nil-IsOrder : (completed : List Object) → IsOrder completed [] []
  nil-IsOrder completed = record {
    topological = tt;
    arranges = refl;
    only = λ other t a. nothing other a;
  }
    where
      nothing : (other : List (Node Object)) → Arranges other [] → other ≡ []
      nothing [] a = refl
      nothing (node ∷ other) a = absurd a.0

  -- The one node that is ready comes first.
  cons-IsOrder :
      (completed : List Object) (n : Node Object) (nodes : List (Node Object)) (node : Node Object)
      (rest : List (Node Object))
      → filter (is_ready dec completed) (n ∷ nodes) ≡ node ∷ []
      → IsOrder (complete dec node completed) (remove dec node (n ∷ nodes)) rest
      → IsOrder completed (n ∷ nodes) (node ∷ rest)
  cons-IsOrder completed n nodes node rest e h =
      let (member, ready) = ready-Member completed (n ∷ nodes) node e in
      record {
        topological = (ready, h.topological);
        arranges = (member, h.arranges);
        only = only_cons;
      }
    where
      same_head :
          (m : Node Object) → Member m (n ∷ nodes) → is_ready dec completed m ≡ true → m ≡ node
      same_head m member ready =
          elim (subst (Member m) e
            ((Member-filter (is_ready dec completed) m (n ∷ nodes)).1 (member, ready))) [
              | inl p ↦ p
              | inr x ↦ absurd x
            ]

      same_tail :
          (m : Node Object) (other : List (Node Object))
          → m ≡ node
          → IsTopological (complete dec m completed) other
          → Arranges other (remove dec m (n ∷ nodes))
          → other ≡ rest
      same_tail m other p t a =
          h.only other (subst (λ x. IsTopological (complete dec x completed) other) p t)
            (subst (λ x. Arranges other (remove dec x (n ∷ nodes))) p a)

      only_cons :
          (other : List (Node Object))
          → IsTopological completed other
          → Arranges other (n ∷ nodes)
          → other ≡ node ∷ rest
      only_cons [] t a = absurd (ground (arith, a))
      only_cons (m ∷ other) t a =
          let p = same_head m a.0 t.0 in let q = same_tail m other p t.1 a.1 in ground (arith, p, q)

  -- One turn of the loop.
  abbrev turn :
      List Object → ℕ → List (Node Object) → List (Node Object) → Result (List (Node Object))
  turn completed fuel remaining ready = elim ready [
    | [] ↦ raise value_error
    | node ∷ others ↦ elim others [
      | [] ↦ place dec fuel (remove dec node remaining) (complete dec node completed) >>= λ rest.
          ok (node ∷ rest)
      | _ ∷ _ ↦ raise value_error
    ]
  ]

  bound_ok :
      (node : Node Object) (order : List (Node Object)) (r : Result (List (Node Object)))
      → (r >>= λ rest. ok (node ∷ rest)) ≡ ok order
      → (rest : List (Node Object)) × (r ≡ ok rest) × (order ≡ node ∷ rest)
  bound_ok node order (ok rest) h = (rest, refl, ground (arith, h))
  bound_ok node order (raise e) h = absurd (ground (arith, h))

  place-IsOrder :
      (fuel : ℕ) (nodes : List (Node Object)) (completed : List Object) (order : List (Node Object))
      → place dec fuel nodes completed ≡ ok order
      → IsOrder completed nodes order
  unfolding place
  place-IsOrder fuel [] completed order h =
      subst (IsOrder completed []) {x = []} (ground (arith, h)) (nil-IsOrder completed)
  place-IsOrder zero (n ∷ nodes) completed order h = absurd (ground (arith, h))
  place-IsOrder (suc fuel) (n ∷ nodes) completed order h =
      turned (filter (is_ready dec completed) (n ∷ nodes)) refl h (λ node rest.
        place-IsOrder fuel (remove dec node (n ∷ nodes)) (complete dec node completed) rest)
    where
      turned :
          (ready : List (Node Object))
          → filter (is_ready dec completed) (n ∷ nodes) ≡ ready
          → turn completed fuel (n ∷ nodes) ready ≡ ok order
          → ((node : Node Object) (rest : List (Node Object))
              → place dec fuel (remove dec node (n ∷ nodes)) (complete dec node completed) ≡ ok rest
              → IsOrder (complete dec node completed) (remove dec node (n ∷ nodes)) rest)
          → IsOrder completed (n ∷ nodes) order
      turned [] e t k = absurd (ground (arith, t))
      turned (node ∷ m ∷ others) e t k = absurd (ground (arith, t))
      turned (node ∷ []) e t k =
          let (rest, q, same) = bound_ok node order _ t in
          subst (IsOrder completed (n ∷ nodes)) (sym same)
            (cons-IsOrder completed n nodes node rest e (k node rest q))

  -- The loop ends before its fuel does.
  place-ends :
      (fuel : ℕ) (nodes : List (Node Object)) (completed : List Object)
      → length nodes ≤ fuel
      → place dec fuel nodes completed ≢ raise assertion_error
  unfolding place
  place-ends fuel [] completed l h = cc
  place-ends zero (n ∷ nodes) completed l h = absurd (omega (arith, l))
  place-ends (suc fuel) (n ∷ nodes) completed l h =
      turned (filter (is_ready dec completed) (n ∷ nodes)) refl h
        (λ node. place-ends fuel (remove dec node (n ∷ nodes)) (complete dec node completed))
    where
      bound_raise :
          (node : Node Object) (r : Result (List (Node Object)))
          → (r >>= λ rest. ok (node ∷ rest)) ≡ raise assertion_error
          → r ≡ raise assertion_error
      bound_raise node (ok rest) q = absurd (ground (arith, q))
      bound_raise node (raise e) q = ground (arith, q)

      turned :
          (ready : List (Node Object))
          → filter (is_ready dec completed) (n ∷ nodes) ≡ ready
          → turn completed fuel (n ∷ nodes) ready ≡ raise assertion_error
          → ((node : Node Object)
              → length (remove dec node (n ∷ nodes)) ≤ fuel
              → place dec fuel (remove dec node (n ∷ nodes)) (complete dec node completed)
                ≢ raise assertion_error)
          → ⊥
      turned [] e t k = cc
      turned (node ∷ m ∷ others) e t k = cc
      turned (node ∷ []) e t k =
          k node
            (omega (
              arith,
              l,
              length-remove node (n ∷ nodes) (ready-Member completed (n ∷ nodes) node e).0,
            ))
            (bound_raise node _ t)

  checked_ok :
      (a b : Bool) (r : Result (List (Node Object))) (order : List (Node Object))
      → (raise_if a value_error >> raise_if b value_error >> r) ≡ ok order
      → r ≡ ok order
  checked_ok true b r order h = absurd (ground (arith, h))
  checked_ok false true r order h = absurd (ground (arith, h))
  checked_ok false false r order h = h

  checked_ends :
      (a b : Bool) (r : Result (List (Node Object)))
      → r ≢ raise assertion_error
      → (raise_if a value_error >> raise_if b value_error >> r) ≢ raise assertion_error
  checked_ends true b r n h = cc
  checked_ends false true r n h = cc
  checked_ends false false r n h = n h

  -- An order that is returned has every node once, each after all that it depends on, and no other
  -- order of the nodes does; and the loop ends with an order or a ValueError.
  pub ordered-IsOrder :
      (nodes : List (Node Object))
      → ((order : List (Node Object)) → ordered dec nodes ≡ ok order → IsOrder [] nodes order)
        × (ordered dec nodes ≢ raise assertion_error)
  unfolding ordered
  ordered-IsOrder nodes = (
    λ order h. place-IsOrder (length nodes) nodes [] order (checked_ok _ _ _ order h),
    checked_ends _ _ _ (place-ends (length nodes) nodes [] (omega arith)),
  )
