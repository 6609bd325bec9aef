-- ===== src/Controller/Stages/Failure.antt =====
-- What `_failed` of cloudcoil/controller/_types.py reports of a stage that failed.
use mathlib.Core.Option
use cloudcoil.Base.{ℕ, true, false, List, [], ◌∷◌, is_empty, ◌≡◌, refl, sym, ap, ◌∙◌, subst, All}
use cloudcoil.Base.Json.{Text, text_discrete, equal_texts}
use cloudcoil.Base.Sets.{Unique}
use cloudcoil.Base.Results.{Exception, terminal_error, ok}
use cloudcoil.Controller.Requests.{
  Request, M, and_then, each, condition, dependency_not_ready, ready, failure, failure_reason,
  report_failure, failed,
}
use cloudcoil.Controller.Requests.Conditions.{condition-IsNoted, condition_returns}
use cloudcoil.Controller.Requests.Framed.{is_present}
use cloudcoil.Controller.Stages.Frames.{
  Outside, Outside-head, Outside-tail, Kept, unknowns, unknowns-Kept, unknowns-Unknown,
}
use cloudcoil.Controller.Stages.Waits.{IsWaiting, All-map, ready-Outside, later-status}

abbrev pub IsNamed : Text → Type 0
IsNamed t = is_empty t ≡ false

unknowns_returns :
    (now : ℕ) (l : List Text) (r : Request)
    → All IsNamed l
    → is_present r ≡ true
    → (r' : Request) × (unknowns now l r ≡ (r', ok tt))
unfolding unknowns each text_discrete equal_texts
unknowns_returns now [] r h here = (r, refl)
unknowns_returns now (t ∷ l) r h here =
    let (r1, e) = condition_returns now (dependency_not_ready t) r here h.0 refl refl in
    let noted = condition-IsNoted now (dependency_not_ready t) r r1 e in
    let (r2, g) = unknowns_returns now l r1 h.1 (noted.framed.present ∙ here) in
    (r2, ap (λ p. and_then p (λ _. unknowns now l)) e ∙ g)

failure_named : (error : Exception) → is_empty (failure_reason error) ≡ false
failure_named terminal_error = refl
failure_named other = refl

-- The body of `_failed` for a managed report with stage conditions
abbrev stage_failed : ℕ → Exception → Text → Text → List Text → M (Unit {0})
stage_failed now error message n ns r =
    and_then (condition now (failure error message n true n) r) (λ _ r1.
      and_then (each (λ p. condition now (dependency_not_ready p)) ns r1)
        (λ _. condition now (failure error message ready false n)))

stage_failed-IsWaiting :
    (now : ℕ) (error : Exception) (message n : Text) (ns : List Text) (r : Request)
    → is_present r ≡ true
    → All IsNamed (n ∷ ns)
    → Unique text_discrete (n ∷ ns)
    → Outside (n ∷ ns) ready
    → (r' : Request) × (stage_failed now error message n ns r ≡ (r', ok tt)) × IsWaiting n ns r'
unfolding unknowns failure text_discrete equal_texts
stage_failed-IsWaiting now error message n ns r here named u out =
    let active = failure error message n true n in
    let whole = failure error message ready false n in
    let (r1, first) = condition_returns now active r here named.0 (failure_named error) refl in
    let shown = condition-IsNoted now active r r1 first in
    let (r2, second) = unknowns_returns now ns r1 named.1 (shown.framed.present ∙ here) in
    let others = subst (λ p. Kept (Outside ns) r1 p.0) second (unknowns-Kept now ns r1) in
    let (r3, third) =
      condition_returns now whole r2 (others.framed.present ∙ shown.framed.present ∙ here) refl
        (failure_named error) refl in
    let last = condition-IsNoted now whole r2 r3 third in
    (
      r3,
      ap (λ p. and_then p (λ _ r1. and_then (unknowns now ns r1) (λ _. condition now whole))) first
          ∙ ap (λ p. and_then p (λ _. condition now whole)) second
          ∙ third,
      (
        ap (Option.map (λ c. c.status)) (last.others n (λ e. Outside-head n ns ready out (sym e)))
            ∙ later-status n others u.0 shown.shown,
        All-map ns
            (λ t m e.
              ap (Option.map (λ c. c.status))
                (last.others t (ready-Outside ns t m (Outside-tail n ns ready out)))
              ∙ e)
            (unknowns-Unknown now ns r1 r2 u.1 second),
        last.shown,
      ),
    )

-- With stage conditions, after a stage failed, _failed returns, and leaves a false condition for the
-- pending stage that comes first, unknown ones for the others, and a false "Ready"; the object is
-- there, the pending names are different, not empty, and not "Ready".
pub failed-IsWaiting :
    (now : ℕ) (error : Exception) (message n : Text) (ns : List Text) (r : Request)
    → is_present r ≡ true
    → r.report.managed ≡ true
    → r.report.stage_conditions ≡ true
    → r.report.pending ≡ n ∷ ns
    → All IsNamed (n ∷ ns)
    → Unique text_discrete (n ∷ ns)
    → Outside (n ∷ ns) ready
    → (r' : Request) × (failed now error message r ≡ (r', ok tt)) × IsWaiting n ns r'
unfolding failed
failed-IsWaiting now error message n ns r here managed stages pend named u out =
    let (r', ran, waiting) = stage_failed-IsWaiting now error message n ns r here named u out in
    (
      r',
      ap (λ b. report_failure now error message b r.report.stage_conditions r.report.pending r)
            managed
          ∙ ap (λ b. report_failure now error message true b r.report.pending r) stages
          ∙ ap (λ l. report_failure now error message true true l r) pend
          ∙ ran,
      waiting,
    )
