-- ===== src/Controller/Queue/Drain.antt =====
-- A graceful stop, cloudcoil/controller/_queue.py: a worker that goes on with `get` and `done`
-- after `shutdown` empties the queue.
use cloudcoil.Base.{
  ℕ, zero, suc, ◌<◌, true, Option, none, some, List, [], ◌∷◌, ◌≡◌, refl, arith, length, sym, subst,
  ◌∙◌, ap,
}
use mathlib.Core.Option
use cloudcoil.Base.Sets.{contains, contains-head, contains-discard, insert, discard}
use cloudcoil.Base.Results.{ok, raise}
use cloudcoil.Controller.Queue.{
  WorkQueue, get, get_from, take_key, took, missing, drained, waiting, done, check_idle,
}
use cloudcoil.Controller.Queue.Calls.{after_get, after, step, gets, finishes}
use cloudcoil.Controller.Queue.Invariant.{Inv, step-Inv}
use cloudcoil.Controller.Queue.Keys.{KeyInv}

module _ {ℓ} {K : Type ℓ} (dec : Discrete K) where
  -- One worker, until `get` raises `QueueClosed`: the keys that it served in turn. The result is
  -- `none` if the queue makes it wait, raises anything else, or outlasts the fuel.
  unfoldable pub serve : ℕ → WorkQueue K → Option (List K)
  serve zero q = none
  serve (suc fuel) q = elim (get dec q) [
    | took key p ↦ elim (done dec key p) [
      | ok r ↦ Option.map (λ keys. key ∷ keys) (serve fuel r)
      | raise e ↦ none
    ]
    | drained ↦ some []
    | missing ↦ none
    | waiting p ↦ none
  ]

  -- The queue after one round with the key `key`.
  served : K → List K → WorkQueue K → WorkQueue K
  served key rest q = after (take_key dec key rest q) (done dec key (take_key dec key rest q))

  insert-nil : (key : K) → insert dec key [] ≡ key ∷ []
  unfolding insert contains
  insert-nil key = refl

  discard_only : (key : K) → discard dec key (key ∷ []) ≡ []
  unfolding discard
  discard_only key = ground arith

  -- One round hands out the first key and leaves the others ready.
  round :
      (key : K) (rest : List K) (q : WorkQueue K)
      → q.ready ≡ key ∷ rest
      → q.processing ≡ []
      → KeyInv dec q key
      → (get_from dec (key ∷ rest) q ≡ took key (take_key dec key rest q))
        × (done dec key (take_key dec key rest q) ≡ ok (served key rest q))
        × ((served key rest q).ready ≡ rest)
        × ((served key rest q).processing ≡ [])
        × ((served key rest q).closed ≡ q.closed)
  unfolding get_from take_key done check_idle served
  round key rest q e p h =
      let dirty : contains dec key q.dirty ≡ true = ground (arith, contains-head dec key rest) in
      let held = subst (λ l. insert dec key l ≡ key ∷ []) (sym p) (insert-nil key) in
      let alone = contains-head dec key [] in
      let cleared = contains-discard dec key key q.dirty in
      let emptied = discard_only key in
      (ground arith, ground arith, ground arith, ground arith, ground arith)

  serve-took :
      (fuel : ℕ) (q : WorkQueue K) {key : K} {p r : WorkQueue K} {keys : List K}
      → get dec q ≡ took key p
      → done dec key p ≡ ok r
      → serve fuel r ≡ some keys
      → serve (suc fuel) q ≡ some (key ∷ keys)
  unfolding serve
  serve-took fuel q g d e = rw (g, serve) (rw (d, serve) (rw e))

  serve-drained : (fuel : ℕ) (q : WorkQueue K) → get dec q ≡ drained → serve (suc fuel) q ≡ some []
  unfolding serve
  serve-drained fuel q g = rw (g, serve)

  get-ready : (keys : List K) (q : WorkQueue K) → q.ready ≡ keys → get dec q ≡ get_from dec keys q
  unfolding get
  get-ready keys q e = ap (λ l. get_from dec l q) e

  get_drained : (q : WorkQueue K) → q.closed ≡ true → get_from dec [] q ≡ drained
  unfolding get_from
  get_drained q c = ground arith

  took-Inv :
      (q : WorkQueue K) {key : K} {p : WorkQueue K} → Inv dec q → get dec q ≡ took key p → Inv dec p
  unfolding step
  took-Inv q h g = subst (λ t. Inv dec (after_get q t)) g (step-Inv dec gets q h)

  done-Inv :
      (key : K) (q : WorkQueue K) {p : WorkQueue K} → Inv dec q → done dec key q ≡ ok p → Inv dec p
  unfolding step
  done-Inv key q h d = subst (λ r. Inv dec (after q r)) d (step-Inv dec (finishes key) q h)

  serve_from :
      (keys : List K) (fuel : ℕ) (q : WorkQueue K)
      → q.ready ≡ keys
      → length keys < fuel
      → q.closed ≡ true
      → q.processing ≡ []
      → Inv dec q
      → serve fuel q ≡ some keys
  serve_from keys zero q e f c p h = elim f [ ]
  serve_from [] (suc fuel) q e f c p h = serve-drained fuel q (get-ready [] q e ∙ get_drained q c)
  serve_from (key ∷ rest) (suc fuel) q e f c p h =
      let (got, gave, left, free, closed) = round key rest q e p (h.keys key) in
      let taken = get-ready (key ∷ rest) q e ∙ got in
      serve-took fuel q taken gave (
        serve_from rest fuel (served key rest q) left (omega arith) (closed ∙ c) free
          (done-Inv key _ (took-Inv q h taken) gave))

  -- A graceful stop ends: a worker of a closed queue that nobody else works on serves exactly the
  -- ready keys, first in first out, and then `get` raises `QueueClosed`.
  pub serve-ready :
      (fuel : ℕ) (q : WorkQueue K)
      → Inv dec q
      → q.closed ≡ true
      → q.processing ≡ []
      → length q.ready < fuel
      → serve fuel q ≡ some q.ready
  serve-ready fuel q h c p f = serve_from q.ready fuel q refl f c p h
