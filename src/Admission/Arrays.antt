-- ===== src/Admission/Arrays.antt =====
-- How `_overlay` of cloudcoil/admission/_mutation.py finds the elements of the old array and of the raw one
-- that an element of the new array stands for.
use cloudcoil.Base.{
  ℕ, ℕ_discrete, zero, suc, Bool, true, false, not, ◌&&◌, ◌||◌, Option, none, some, List, [], ◌∷◌,
  length, is_empty, ltb, ◌==◌, if◌then◌else◌,
}
use cloudcoil.Base.Json.{Text, codes, text_discrete, Json, string, array, dict, Items}
use cloudcoil.Base.Json.Objects.{lookup}
use cloudcoil.Base.Sets.{contains}
use cloudcoil.Base.Results.{value_error, index_error, Result, ok, raise, raise_if, ◌>>=◌, ◌>>◌}
use cloudcoil.Admission.{equal, unknown, items_match, list_of}

-- The arguments of a call of `_overlay` for an element, without the new value
pub record Job : Type 0 where
  pub raw : Option Json
  pub before : Option Json
  pub explicit_before : Option Json
  pub explicit_after : Option Json

abbrev pub nth : List Json → ℕ → Result Json
nth [] i = raise index_error
nth (v ∷ l) zero = ok v
nth (v ∷ l) (suc i) = nth l i

-- `explicit[i] if isinstance(explicit, list) else _MISSING`
unfoldable pub explicit_at : Option Json → ℕ → Result (Option Json)
explicit_at (some (array xs)) i = nth (list_of xs) i >>= λ v. ok (some v)
explicit_at other i = ok none

unfoldable pub job : List Json → List Json → Option Json → Option Json → ℕ → ℕ → ℕ → Result Job
unfolding explicit_at
job raw before explicit_before explicit_after raw_index old_index index = nth raw raw_index >>= λ r.
    nth before old_index >>= λ b. explicit_at explicit_before old_index >>= λ eb.
    explicit_at explicit_after index >>= λ ea.
    ok (record { raw = some r; before = some b; explicit_before = eb; explicit_after = ea })

abbrev pub name_of : Json → Option Text
name_of (dict d) = elim (lookup (codes "name") d) [ some (string s) ↦ some s | _ ↦ none ]
name_of other = none

-- `_names`
unfoldable pub names_of : List Json → Option (List Text)
names_of [] = some []
names_of (v ∷ l) = elim (name_of v) [
  | none ↦ none
  | some name ↦ elim (names_of l) [
    | none ↦ none
    | some rest ↦
        if is_empty name || contains text_discrete name rest then none else some (name ∷ rest)
  ]
]

-- `{name: index ...}.get(name)`
unfoldable pub index_of : Text → List Text → Option ℕ
index_of name [] = none
index_of name (n ∷ ns) = elim (text_discrete n name) [
  | yes _ ↦ some 0
  | no _ ↦ elim (index_of name ns) [ none ↦ none | some i ↦ some (suc i) ]
]

-- `set(xs) <= set(ys)`
unfoldable pub all_in : List Text → List Text → Bool
all_in [] ys = true
all_in (x ∷ xs) ys = contains text_discrete x ys && all_in xs ys

abbrev pub index_or_zero : Option ℕ → ℕ
index_or_zero none = 0
index_or_zero (some i) = i

-- Whether a named element that is gone has unknown fields
unfoldable pub loses_unknown :
    List Json
    → List Json
    → (raw_names before_names after_names : List Text) → List Text
    → Result Bool
unfolding index_of
loses_unknown raw before raw_names before_names after_names [] = ok false
loses_unknown raw before raw_names before_names after_names (n ∷ ns) =
    let rest = loses_unknown raw before raw_names before_names after_names ns in
    if contains text_discrete n after_names
    then rest
    else (nth raw (index_or_zero (index_of n raw_names)) >>= λ r.
        nth before (index_or_zero (index_of n before_names)) >>= λ b.
        unknown r b >>= λ found. if found then ok true else rest)

module _ (raw before : List Json) (explicit_before explicit_after : Option Json) where
  unfoldable pub named_jobs :
      (raw_names before_names : List Text) → ℕ → List Text → Result (List (Option Job))
  unfolding job index_of
  named_jobs raw_names before_names index [] = ok []
  named_jobs raw_names before_names index (n ∷ ns) =
      let rest = named_jobs raw_names before_names (suc index) ns in
      elim (index_of n before_names) [
        | none ↦ ok none
        | some old ↦
            job raw before explicit_before explicit_after (index_or_zero (index_of n raw_names)) old
              index
            >>= λ j. ok (some j)
      ]
      >>= λ first. rest >>= λ others. ok (first ∷ others)

  -- The branch of an array whose elements have distinct names
  unfoldable pub by_name :
      (raw_names before_names after_names : List Text) → Result (List (Option Job))
  unfolding named_jobs all_in loses_unknown
  by_name raw_names before_names after_names =
      raise_if (not (all_in before_names raw_names && all_in raw_names before_names)) value_error
      >> (if all_in after_names before_names
          then ok false
          else loses_unknown raw before raw_names before_names after_names before_names)
      >>= λ lost. raise_if lost value_error >> named_jobs raw_names before_names 0 after_names

  -- The old elements that are equal to a value and not used
  unfoldable pub candidates : ℕ → List ℕ → List Json → Json → Result (List ℕ)
  unfolding equal
  candidates i used [] value = ok []
  candidates i used (b ∷ bs) value =
      let rest = candidates (suc i) used bs value in
      (if contains ℕ_discrete i used then ok false else equal b value) >>= λ found.
      rest >>= λ is. ok (if found then i ∷ is else is)

  -- Whether one of the raw elements differs from that at `first`
  unfoldable pub any_differs : ℕ → List ℕ → Result Bool
  any_differs first [] = ok false
  any_differs first (i ∷ is) =
      let rest = any_differs first is in
      nth raw first >>= λ a. nth raw i >>= λ b. equal a b >>= λ same. if same then rest else ok true

  abbrev pub first_of : List ℕ → Option ℕ
  first_of [] = none
  first_of (i ∷ is) = some i

  abbrev pub used_with : Option ℕ → List ℕ → List ℕ
  used_with none used = used
  used_with (some i) used = i ∷ used

  unfoldable pub match_one : List ℕ → Json → Result (Option ℕ)
  unfolding candidates any_differs
  match_one used value = candidates 0 used before value >>= λ found.
      elim found [ [] ↦ ok false | i ∷ is ↦ any_differs i is ] >>= λ differs.
      raise_if differs value_error >> ok (first_of found)

  unfoldable pub match_all : List ℕ → List Json → Result (List (Option ℕ))
  unfolding match_one
  match_all used [] = ok []
  match_all used (v ∷ vs) =
      match_one used v >>= λ i. match_all (used_with i used) vs >>= λ rest. ok (i ∷ rest)

  unfoldable pub in_place_jobs : ℕ → List Json → Result (List (Option Job))
  unfolding job
  in_place_jobs index [] = ok []
  in_place_jobs index (v ∷ vs) =
      job raw before explicit_before explicit_after index index index >>= λ j.
      in_place_jobs (suc index) vs >>= λ rest. ok (some j ∷ rest)

  unfoldable pub matched_jobs : ℕ → List (Option ℕ) → Result (List (Option Job))
  unfolding job
  matched_jobs index [] = ok []
  matched_jobs index (none ∷ is) = matched_jobs (suc index) is >>= λ rest. ok (none ∷ rest)
  matched_jobs index (some i ∷ is) =
      job raw before explicit_before explicit_after i i index >>= λ j.
      matched_jobs (suc index) is >>= λ rest. ok (some j ∷ rest)

abbrev pub is_none : Option ℕ → Bool
is_none none = true
is_none (some i) = false

unfoldable pub in_place : ℕ → List (Option ℕ) → Bool
in_place j [] = true
in_place j (none ∷ is) = in_place (suc j) is
in_place j (some i ∷ is) = i == j && in_place (suc j) is

unfoldable pub unmatched : List (Option ℕ) → List Bool
unmatched [] = []
unmatched (i ∷ is) = is_none i ∷ unmatched is

abbrev pub count : List Bool → ℕ
count [] = 0
count (true ∷ bs) = suc (count bs)
count (false ∷ bs) = count bs

abbrev pub used_of : List (Option ℕ) → List ℕ
used_of [] = []
used_of (none ∷ is) = used_of is
used_of (some i ∷ is) = i ∷ used_of is

unfoldable pub unused : ℕ → List ℕ → List Json → List Bool
unused i used [] = []
unused i used (v ∷ vs) = not (contains ℕ_discrete i used) ∷ unused (suc i) used vs

-- Whether one of the marked elements has unknown fields
unfoldable pub marked_unknown : List Bool → (raw before : List Json) → Result Bool
marked_unknown (mark ∷ marks) (r ∷ raw) (b ∷ before) =
    let rest = marked_unknown marks raw before in
    (if mark then unknown r b else ok false) >>= λ found. if found then ok true else rest
marked_unknown marks raw before = ok false

-- The branch of an array whose elements are matched by what they are
unfoldable pub by_value :
    Items → Items → List Json → Option Json → Option Json → Result (List (Option Job))
unfolding match_all in_place_jobs matched_jobs in_place unmatched unused marked_unknown
by_value raw_items before_items after explicit_before explicit_after =
    let raw = list_of raw_items in
    let before = list_of before_items in
    items_match raw_items before_items >>= λ same.
    raise_if (not same) value_error
    >> match_all raw before explicit_before explicit_after [] after
    >>= λ matches.
        if length before == length after && in_place 0 matches
        then ((if ltb 1 (count (unmatched matches))
              then marked_unknown (unmatched matches) raw before
              else ok false)
            >>= λ lost.
                raise_if lost value_error
                >> in_place_jobs raw before explicit_before explicit_after 0 after)
        else ((if ltb 0 (count (unmatched matches))
              then marked_unknown (unused 0 (used_of matches) before) raw before
              else ok false)
            >>= λ lost.
                raise_if lost value_error
                >> matched_jobs raw before explicit_before explicit_after 0 matches)

-- For each element of the new array, what it stands for, if anything
unfoldable pub plan :
    (raw before after : Items) (explicit_before explicit_after : Option Json)
    → Result (List (Option Job))
unfolding names_of by_name by_value
plan raw before after explicit_before explicit_after =
    let named = by_name (list_of raw) (list_of before) explicit_before explicit_after in
    let unnamed = by_value raw before (list_of after) explicit_before explicit_after in
    raise_if (not (length (list_of before) == length (list_of raw))) value_error
    >> elim (names_of (list_of before)) [
      | none ↦ unnamed
      | some before_names ↦ elim (names_of (list_of after)) [
        | none ↦ unnamed
        | some after_names ↦ elim (names_of (list_of raw)) [
          | none ↦ unnamed
          | some raw_names ↦ named raw_names before_names after_names
        ]
      ]
    ]
