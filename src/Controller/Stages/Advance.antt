-- ===== src/Controller/Stages/Advance.antt =====
-- What one stage of cloudcoil/controller/_stages.py reports.
use cloudcoil.Base.{
  ℕ, Bool, true, false, Option, none, some, List, [], ◌∷◌, ◌≡◌, ◌≢◌, ◌⊎◌, inl, inr, refl, sym, ap,
  ◌∙◌, subst,
}
use cloudcoil.Base.Json.{Text, text_discrete}
use cloudcoil.Base.Sets.{Unique}
use cloudcoil.Base.Results.{Exception, type_error, Result, ok, raise}
use cloudcoil.Controller.Status.{status_true}
use cloudcoil.Controller.Requests.{
  Request, Wait, M, and_then, Observation, condition, ready, tail, when,
}
use cloudcoil.Controller.Requests.Conditions.{IsNoted, condition-IsNoted, condition-others}
use cloudcoil.Controller.Requests.Framed.{
  condition_at, status_at, is_present, Framed, condition-Framed,
}
use cloudcoil.Controller.Stages.{
  Outcome, proceeds, waits, fails, up_to_date, waiting, report_wait, drop_pending, after_run,
}
use cloudcoil.Controller.Stages.Frames.{Outside, Outside-head}
use cloudcoil.Controller.Stages.Waits.{
  Elsewhere, report_wait-Kept, IsWaiting, report_wait-IsWaiting,
}

-- The part of the pass that is over: the stages whose names are `names` were still to run, it ended
-- in `r` with `out`.
abbrev pub Conducted : List Text → Request → Result (Option Wait) → Type 0
Conducted [] r out =
    (out ≡ ok none)
    × (is_present r ≡ true)
    × (r.report.managed ≡ true)
    × (r.report.stage_conditions ≡ true)
Conducted (n ∷ ns) r out =
    ((status_at r n ≡ some status_true) × Conducted ns r out)
    ⊎ (((w : Wait) × (out ≡ ok (some w)) × IsWaiting n ns r)
        ⊎ ((e : Exception) × (out ≡ raise e) × (r.report.pending ≡ n ∷ ns)))

-- The same for one stage
abbrev pub Advanced : Text → List Text → Request → Request × Result (Option Wait) → Type 0
Advanced n ns r (r', out) =
    ((out ≡ ok none)
      × (status_at r' n ≡ some status_true)
      × (r'.report.pending ≡ ns)
      × (r'.report.managed ≡ r.report.managed)
      × (r'.report.stage_conditions ≡ r.report.stage_conditions)
      × (is_present r' ≡ is_present r))
    ⊎ (((w : Wait) × (out ≡ ok (some w)) × IsWaiting n ns r')
        ⊎ ((e : Exception) × (out ≡ raise e) × (r'.report.pending ≡ n ∷ ns)))

abbrev next_stage : Unit {0} → M (Option Wait)
next_stage _ r = (drop_pending r, ok none)

abbrev stop_at : Wait → Unit {0} → M (Option Wait)
stop_at w _ r = (r, ok (some w))

dropped-conditions :
    (t : Text) (p : Request × Result (Unit {0}))
    → condition_at (and_then p next_stage).0 t ≡ condition_at p.0 t
unfolding condition_at
dropped-conditions t (r1, ok _) = refl
dropped-conditions t (r1, raise e) = refl

passed-conditions :
    (w : Wait) (t : Text) (p : Request × Result (Unit {0}))
    → condition_at (and_then p (stop_at w)).0 t ≡ condition_at p.0 t
passed-conditions w t (r1, ok _) = refl
passed-conditions w t (r1, raise e) = refl

up_to_date-type :
    (stages : Bool) (n : Text) (t : Text) → t ≢ n → t ≢ ready → t ≢ (up_to_date stages n).type
unfolding up_to_date
up_to_date-type true n t h g = h
up_to_date-type false n t h g = g

drop_pending-Advanced :
    (n : Text) (ns : List Text) (r : Request) (c : Observation) (p : Request × Result (Unit {0}))
    → r.report.pending ≡ n ∷ ns
    → c.type ≡ n
    → c.status ≡ status_true
    → Framed r p.0
    → ((r1 : Request) → p ≡ (r1, ok tt) → IsNoted c r r1)
    → Advanced n ns r (and_then p next_stage)
unfolding condition_at
drop_pending-Advanced n ns r c (r1, raise e) pend typed good f noted =
    inr (inr (e, refl, f.pending ∙ pend))
drop_pending-Advanced n ns r c (r1, ok _) pend typed good f noted =
    let x = noted r1 refl in
    inl (
      refl,
      subst (λ t. status_at r1 t ≡ some status_true) typed (x.shown ∙ ap some good),
      ap tail (f.pending ∙ pend),
      f.managed,
      f.stage_conditions,
      f.present,
    )

report_wait-Advanced :
    (n : Text) (ns : List Text) (w : Wait) (r : Request) (p : Request × Result (Unit {0}))
    → r.report.pending ≡ n ∷ ns
    → Framed r p.0
    → ((r1 : Request) → p ≡ (r1, ok tt) → IsWaiting n ns r1)
    → Advanced n ns r (and_then p (stop_at w))
report_wait-Advanced n ns w r (r1, raise e) pend f waiting = inr (inr (e, refl, f.pending ∙ pend))
report_wait-Advanced n ns w r (r1, ok _) pend f waiting = inr (inl (w, refl, waiting r1 refl))

module _ (now : ℕ) (n : Text) (ns : List Text) (r : Request)
    (pend : r.report.pending ≡ n ∷ ns) where
  pub after_run-conditions :
      (outcome : Outcome) (t : Text)
      → Elsewhere (n ∷ ns) t
      → condition_at (after_run now n outcome r).0 t ≡ condition_at r t
  unfolding after_run
  after_run-conditions proceeds t p = go r.report.managed
    where
      go :
          (b : Bool)
          → condition_at
              (and_then
                (when b (condition now (up_to_date r.report.stage_conditions n)) r)
                next_stage).0
              t
            ≡ condition_at r t
      go false = unfold condition_at in refl
      go true =
          dropped-conditions t (condition now (up_to_date r.report.stage_conditions n) r)
          ∙ condition-others now (up_to_date r.report.stage_conditions n) r t
              (up_to_date-type r.report.stage_conditions n t (Outside-head n ns t p.1) p.0)
  after_run-conditions (waits w) t p = go r.report.managed
    where
      go :
          (b : Bool)
          → condition_at (and_then (when b (report_wait now n w) r) (stop_at w)).0 t
            ≡ condition_at r t
      go false = refl
      go true =
          passed-conditions w t (report_wait now n w r)
          ∙ (report_wait-Kept now n ns w r pend).conditions t p
  after_run-conditions (fails e) t p = refl
  after_run-conditions other t p = refl

  pub after_run-Advanced :
      (outcome : Outcome)
      → r.report.managed ≡ true
      → r.report.stage_conditions ≡ true
      → Unique text_discrete (n ∷ ns)
      → Outside (n ∷ ns) ready
      → Advanced n ns r (after_run now n outcome r)
  unfolding after_run
  after_run-Advanced proceeds managed stages u out =
      subst
        (λ b.
          Advanced n ns r (
            and_then (when b (condition now (up_to_date r.report.stage_conditions n)) r)
              next_stage))
        (sym managed)
        (subst (λ b. Advanced n ns r (and_then (condition now (up_to_date b n) r) next_stage))
          (sym stages)
          (drop_pending-Advanced n ns r (up_to_date true n) (condition now (up_to_date true n) r)
            pend (unfold up_to_date in refl) (unfold up_to_date in refl)
            (condition-Framed now (up_to_date true n) r)
            (λ r1 h. condition-IsNoted now (up_to_date true n) r r1 h)))
  after_run-Advanced (waits w) managed stages u out =
      subst (λ b. Advanced n ns r (and_then (when b (report_wait now n w) r) (stop_at w)))
        (sym managed)
        (report_wait-Advanced n ns w r (report_wait now n w r) pend
          (report_wait-Kept now n ns w r pend).framed
          (λ r1 h. report_wait-IsWaiting now n ns w r r1 stages pend u out h))
  after_run-Advanced (fails e) managed stages u out = inr (inr (e, refl, pend))
  after_run-Advanced other managed stages u out = inr (inr (type_error, refl, pend))
