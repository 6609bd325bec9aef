-- ===== src/Controller/Cases.antt =====
-- Cases of cloudcoil/controller/_stages.py. A predicate reads the request; what the status type of a resource
-- is checked for is an argument.
pub mod Order
pub mod Choice
pub mod Served
mod Tests
use cloudcoil.Base.{
  ℕ, Bool, true, false, not, ◌&&◌, ◌||◌, Option, none, some, List, [], ◌∷◌, ◌++◌, is_empty, filter,
  ltb, ◌==◌, if◌then◌else◌,
}
use cloudcoil.Base.Json.{Text, equal_texts}
use cloudcoil.Base.Results.{
  Exception, value_error, type_error, runtime_error, terminal_error, Result, ok, raise, raise_if,
  ◌>>=◌, ◌>>◌,
}
use cloudcoil.Controller.Requests.{Request, M, and_then}
use cloudcoil.Controller.Stages.{Stage, Outcome, make_stage, start, run_stage, Reconciled, done}

pub data ℤ : Type 0 where
  pos negsuc : ℕ → ℤ

unfoldable pub int_ltb : ℤ → ℤ → Bool
int_ltb (pos a) (pos b) = ltb a b
int_ltb (pos a) (negsuc b) = false
int_ltb (negsuc a) (pos b) = true
int_ltb (negsuc a) (negsuc b) = ltb b a

unfoldable pub same_int : ℤ → ℤ → Bool
same_int (pos a) (pos b) = a == b
same_int (negsuc a) (negsuc b) = a == b
same_int a b = false

-- What the call of a predicate comes to: it may return another type than bool, or raise.
pub data Answer : Type 0 where
  answers : Bool → Answer
  not_bool : Answer
  raises : Exception → Answer

pub record Case : Type 0 where
  pub stage : Stage
  pub when : Request → Answer
  pub priority : Option ℤ

pub record Cases : Type 0 where
  pub report_status : Bool
  pub cases : List Case
  pub otherwise : Option Stage
  pub frozen : Bool

-- `Cases.__init__`
abbrev pub init : Bool → Cases
init report_status = record {
  report_status = report_status;
  cases = [];
  otherwise = none;
  frozen = false;
}

abbrev pub is_named : Text → Option Stage → Bool
is_named name none = false
is_named name (some s) = equal_texts s.name name

unfoldable pub any_named : Text → List Case → Bool
any_named name [] = false
any_named name (c ∷ cs) = equal_texts c.stage.name name || any_named name cs

unfoldable pub check_name : Text → Cases → Result (Unit {0})
unfolding any_named
check_name name c =
    raise_if c.frozen runtime_error
    >> raise_if (any_named name c.cases || is_named name c.otherwise) value_error

abbrev pub same_priority : Option ℤ → Option ℤ → Bool
same_priority (some p) (some q) = same_int p q
same_priority none q = false
same_priority p none = false

unfoldable pub any_priority : Option ℤ → List Case → Bool
any_priority p [] = false
any_priority p (c ∷ cs) = same_priority c.priority p || any_priority p cs

-- `case(name, when=..., priority=...)(run)`
unfoldable pub case :
    Text → (Request → Answer) → Option ℤ → (Request → Request × Outcome) → Cases → Result Cases
unfolding check_name any_priority make_stage
case name when priority run c =
    check_name name c
    >> raise_if (any_priority priority c.cases) value_error
    >> make_stage name run
    >>= λ stage. ok (record c {
      cases = c.cases ++ record { stage = stage; when = when; priority = priority } ∷ [];
    })

abbrev pub is_some : {A : Type 0} → Option A → Bool
is_some none = false
is_some (some a) = true

-- `otherwise(name)(run)`
unfoldable pub add_otherwise : Text → (Request → Request × Outcome) → Cases → Result Cases
unfolding check_name make_stage
add_otherwise name run c =
    check_name name c
    >> raise_if (is_some c.otherwise) value_error
    >> make_stage name run
    >>= λ stage. ok (record c { otherwise = some stage })

-- `case.priority or 0`
abbrev pub priority_of : Case → ℤ
priority_of c = elim c.priority [ none ↦ pos 0 | some p ↦ p ]

-- A stable sort, the highest priority first
unfoldable pub place : Case → List Case → List Case
unfolding int_ltb
place c [] = c ∷ []
place c (d ∷ l) =
    let rest = place c l in if int_ltb (priority_of c) (priority_of d) then d ∷ rest else c ∷ d ∷ l

unfoldable pub sort : List Case → List Case
unfolding place
sort [] = []
sort (c ∷ l) = place c (sort l)

unfoldable pub any_given : List Case → Bool
any_given [] = false
any_given (c ∷ cs) = is_some c.priority || any_given cs

unfoldable pub any_missing : List Case → Bool
any_missing [] = false
any_missing (c ∷ cs) = not (is_some c.priority) || any_missing cs

unfoldable pub arrange : List Case → Result (List Case)
unfolding sort any_given any_missing
arrange cases =
    if any_given cases
    then (raise_if (any_missing cases) value_error >> ok (sort cases))
    else ok cases

-- `_freeze`, where `validate` checks the status type for `report_status`
unfoldable pub freeze : (validate : Bool → Result (Unit {0})) → Cases → Result Cases
unfolding arrange
freeze validate c =
    validate c.report_status
    >> raise_if (is_empty c.cases && not (is_some c.otherwise)) value_error
    >> arrange c.cases
    >>= λ cases. ok (record c { cases = cases; frozen = true })

abbrev pub case_names : List Case → List Text
case_names [] = []
case_names (c ∷ cs) = c.stage.name ∷ case_names cs

abbrev pub names_of : Cases → List Text
names_of c = case_names c.cases ++ elim c.otherwise [ none ↦ [] | some s ↦ s.name ∷ [] ]

abbrev pub with_pending : List Text → Request → Request
with_pending pending r = record r { report = record r.report { pending = pending } }

-- The request as the predicate of a case sees it
unfoldable pub asked : List Text → Case → Request → Request
unfolding filter
asked names c r =
    with_pending (c.stage.name ∷ filter (λ name. not (equal_texts name c.stage.name)) names) r

-- The loop of `__call__`: the first case whose predicate holds, or else `otherwise`
unfoldable pub choose : List Text → List Case → Option Stage → M (Option Stage)
unfolding asked
choose names [] otherwise r = (r, ok otherwise)
choose names (c ∷ cs) otherwise r =
    let rest = choose names cs otherwise (asked names c r) in
    elim (c.when (asked names c r)) [
      | answers b ↦ if b then (asked names c r, ok (some c.stage)) else rest
      | not_bool ↦ (asked names c r, raise type_error)
      | raises e ↦ (asked names c r, raise e)
    ]

-- `_done(request, await _run(request, selected))`
unfoldable pub run_selected : ℕ → Option Stage → M (Option Reconciled)
unfolding run_stage done
run_selected now none r = (r, raise terminal_error)
run_selected now (some s) r = and_then (run_stage now s (with_pending (s.name ∷ []) r)) (done now)

-- `__call__` after `_freeze`
unfoldable pub conduct : ℕ → Cases → M (Option Reconciled)
unfolding choose start run_selected
conduct now c r = and_then (start (names_of c) c.report_status false r) (λ started r1.
    elim started [
      | false ↦ (r1, ok none)
      | true ↦ and_then (choose (names_of c) c.cases c.otherwise r1) (run_selected now)
    ])

abbrev pub if_frozen :
    ℕ → Cases → Result Cases → Request → Cases × Request × Result (Option Reconciled)
if_frozen now c (raise e) r = (c, r, raise e)
if_frozen now c (ok c1) r = let (r1, out) = conduct now c1 r in (c1, r1, out)

-- `__call__`
unfoldable pub call :
    ℕ
    → (validate : Bool → Result (Unit {0})) → Cases
    → Request
    → Cases × Request × Result (Option Reconciled)
unfolding conduct freeze
call now validate c r = elim r.resource [
  | none ↦ (c, r, ok none)
  | some o ↦ if_frozen now c (if c.frozen then ok c else freeze validate c) r
]
