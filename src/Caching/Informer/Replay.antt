-- ===== src/Caching/Informer/Replay.antt =====
-- A client of cloudcoil/caching/_informer.py that keeps its own dictionary by the notices it gets, and
-- what the notices of a relist make of it.
use cloudcoil.Base.{
  Option, none, some, List, [], ◌∷◌, ◌++◌, if◌then◌else◌, ◌≡◌, refl, ap, arith, All,
}
use cloudcoil.Base.Dicts.{
  lookup, put, pop, lookup-put, lookup-pop, lookup-nil, lookup-cons, UniqueKeys, put-UniqueKeys,
}
use cloudcoil.Caching.Informer.{
  Resource, Notice, added, updated, deleted, Key, Key-discrete, get_key, same_uid, index_by_key,
  departures, arrivals,
}

abbrev dec : Discrete Key
dec = Key-discrete

abbrev pub View : Type 0 → Type 0
View Body = List (Key × Resource Body)

module _ {Body : Type 0} where
  -- What a client does on a notice.
  unfoldable pub see : Notice (Resource Body) → View Body → View Body
  see (added obj) view = put Key-discrete (get_key obj) obj view
  see (updated _ obj) view = put Key-discrete (get_key obj) obj view
  see (deleted obj) view = pop Key-discrete (get_key obj) view

  unfoldable pub replay : List (Notice (Resource Body)) → View Body → View Body
  replay [] view = view
  replay (notice ∷ notices) view = replay notices (see notice view)

  pub replay-append :
      (xs ys : List (Notice (Resource Body))) (view : View Body)
      → replay (xs ++ ys) view ≡ replay ys (replay xs view)
  unfolding replay
  replay-append [] ys view = refl
  replay-append (x ∷ xs) ys view = replay-append xs ys (see x view)

  -- Every object lies under its own key.
  abbrev pub Keyed : View Body → Type 0
  Keyed = All (λ e. get_key e.1 ≡ e.0)

  put-Keyed :
      (obj : Resource Body) (view : View Body) → Keyed view → Keyed (put dec (get_key obj) obj view)
  unfolding put
  put-Keyed obj [] h = (refl, tt)
  put-Keyed obj ((key, old) ∷ view) h = ground (arith, put-Keyed obj view h.1)

  pub index_by_key-Keyed :
      (objs : List (Resource Body)) (view : View Body) → Keyed view → Keyed (index_by_key objs view)
  unfolding index_by_key
  index_by_key-Keyed [] view h = h
  index_by_key-Keyed (obj ∷ objs) view h = index_by_key-Keyed objs _ (put-Keyed obj view h)

  pub index_by_key-UniqueKeys :
      (objs : List (Resource Body)) (view : View Body)
      → UniqueKeys dec view
      → UniqueKeys dec (index_by_key objs view)
  unfolding index_by_key
  index_by_key-UniqueKeys [] view h = h
  index_by_key-UniqueKeys (obj ∷ objs) view h =
      index_by_key-UniqueKeys objs _ (put-UniqueKeys dec (get_key obj) obj view h)

  -- What is left under a key once the departures are seen.
  abbrev remains : Key → View Body → View Body → View Body → Option (Resource Body)
  remains k previous current view = elim (lookup dec k previous) [
    | none ↦ lookup dec k view
    | some old ↦ elim (lookup dec k current) [
      | none ↦ none
      | some new ↦ if same_uid old new then lookup dec k view else none
    ]
  ]

  pub lookup-departures :
      (k : Key) (previous current view : View Body)
      → Keyed previous
      → UniqueKeys dec previous
      → lookup dec k (replay (departures previous current) view) ≡ remains k previous current view
  unfolding departures replay see
  lookup-departures k [] current view h u = ground (arith, lookup-nil {V = Resource Body} dec k)
  lookup-departures k ((key, old) ∷ previous) current view h u =
      let same = λ (p : key ≡ k). ap (λ j. lookup dec j current) p in
      ground (
        arith,
        same,
        λ (p : key ≡ k). ap (λ j. lookup dec j previous) p,
        lookup-departures k previous current view h.1 u.1,
        lookup-departures k previous current (pop dec (get_key old) view) h.1 u.1,
        h.0,
        u.0,
        lookup-cons dec k key old previous,
        lookup-pop dec (get_key old) k view,
      )

  pub lookup-arrivals :
      (k : Key) (previous current view : View Body)
      → Keyed current
      → UniqueKeys dec current
      → lookup dec k (replay (arrivals previous current) view)
        ≡ elim (lookup dec k current) [ some new ↦ some new | none ↦ lookup dec k view ]
  unfolding arrivals replay see
  lookup-arrivals k previous [] view h u = ground (arith, lookup-nil {V = Resource Body} dec k)
  lookup-arrivals k previous ((key, new) ∷ current) view h u =
      let next = put dec (get_key new) new view in
      ground (
        arith,
        λ (p : key ≡ k). ap (λ j. lookup dec j current) p,
        lookup-arrivals k previous current next h.1 u.1,
        h.0,
        u.0,
        lookup-cons dec k key new current,
        lookup-put dec (get_key new) k new view,
      )
