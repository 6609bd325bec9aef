-- ===== src/Controller/Stages/Reported.antt =====
-- What a call of Stages, cloudcoil/controller/_stages.py, leaves in the status and returns.
use mathlib.Core.Option
use cloudcoil.Base.{
  ℕ, Bool, true, false, ◌&&◌, Option, none, some, List, [], ◌∷◌, ◌≡◌, ◌≢◌, ◌⊎◌, inl, inr, refl, sym,
  ap, ◌∙◌, subst, arith, All,
}
use cloudcoil.Base.Json.{Text, text_discrete, equal_texts}
use cloudcoil.Base.Sets.{contains-cons, contains-nil, Unique}
use cloudcoil.Base.Results.{Exception, value_error, Result, ok, raise}
use cloudcoil.Controller.Status.{
  Condition, Resource, get_condition, status_true, status_false, update_generation,
}
use cloudcoil.Controller.Status.Conditions.{equal_texts_iff}
use cloudcoil.Controller.Requests.{
  Request, Wait, and_then, stage, set_generation, condition, ready, when,
}
use cloudcoil.Controller.Requests.Conditions.{
  condition-IsNoted, condition-others, condition_returns,
}
use cloudcoil.Controller.Requests.Framed.{condition_at, status_at, is_present}
use cloudcoil.Controller.Stages.{
  Stage, make_stage, run_all, names, repeats, Reconciled, all_current, result_of, done, start,
  Stages, make_stages, call,
}
use cloudcoil.Controller.Stages.Frames.{Outside, Outside-head, Outside-tail}
use cloudcoil.Controller.Stages.Advance.{Conducted}
use cloudcoil.Controller.Stages.Waits.{IsWaiting}
use cloudcoil.Controller.Stages.Conduct.{IsModest, run_all-Passed}

-- Each stage is true and then "Ready" is; or a first stage waits, or fails and is pending first.
abbrev pub Reported : List Text → Request → Result (Option Reconciled) → Type 0
Reported [] r out =
    (status_at r ready ≡ some status_true)
    × ((o : Resource) × (r.resource ≡ some o)
        × (out ≡ ok (some (record { resource = o; requeue_after = none }))))
Reported (n ∷ ns) r out =
    ((status_at r n ≡ some status_true) × Reported ns r out)
    ⊎ (((w : Wait) × (o : Resource) × (r.resource ≡ some o)
          × (out ≡ ok (some (record { resource = o; requeue_after = some w.requeue_after })))
          × IsWaiting n ns r)
        ⊎ ((e : Exception) × (out ≡ raise e) × (r.report.pending ≡ n ∷ ns)))

resource-of_present : (r : Request) → is_present r ≡ true → (o : Resource) × (r.resource ≡ some o)
resource-of_present r h = go r.resource refl h
  where
    go :
        (x : Option Resource)
        → r.resource ≡ x
        → elim x as (λ _. Bool) [ none ↦ false | some _ ↦ true ] ≡ true
        → (o : Resource) × (r.resource ≡ some o)
    go none e g = absurd (ground arith)
    go (some o) e g = (o, e)

resource-of_status :
    (r : Request) (t s : Text) → status_at r t ≡ some s → (o : Resource) × (r.resource ≡ some o)
unfolding condition_at
resource-of_status r t s h = go r.resource refl h
  where
    go :
        (x : Option Resource)
        → r.resource ≡ x
        → Option.map
            (λ c. c.status)
            (elim x as (λ _. Option Condition) [ none ↦ none | some o ↦ get_condition o t ])
          ≡ some s
        → (o : Resource) × (r.resource ≡ some o)
    go none e g = absurd (ground arith)
    go (some o) e g = (o, e)

result_of-present :
    (delay : Option ℕ) (r : Request) (o : Resource)
    → r.resource ≡ some o
    → result_of delay r ≡ (r, ok (some (record { resource = o; requeue_after = delay })))
result_of-present delay r o h = rw h refl

result_of-same : (delay : Option ℕ) (r : Request) → (result_of delay r).0 ≡ r
result_of-same delay r = go r.resource
  where
    go :
        (x : Option Resource)
        → (elim x as (λ _. Request × Result (Option Reconciled)) [
          | none ↦ (r, raise value_error)
          | some o ↦ (r, ok (some (record { resource = o; requeue_after = delay })))
        ]).0
          ≡ r
    go none = refl
    go (some o) = refl

module _ (now : ℕ) where
  -- `_done` touches only "Ready".
  done-others :
      (wait : Option Wait) (r : Request) (t : Text)
      → t ≢ ready
      → condition_at (done now wait r).0 t ≡ condition_at r t
  unfolding done
  done-others (some w) r t n = ap (λ x. condition_at x t) (result_of-same (some w.requeue_after) r)
  done-others none r t n = go (r.report.managed && r.report.stage_conditions)
    where
      last :
          (p : Request × Result (Unit {0}))
          → condition_at (and_then p (λ _. result_of none)).0 t ≡ condition_at p.0 t
      last (r1, ok _) = ap (λ x. condition_at x t) (result_of-same none r1)
      last (r1, raise e) = refl

      go :
          (b : Bool)
          → condition_at (and_then (when b (condition now all_current) r) (λ _. result_of none)).0 t
            ≡ condition_at r t
      go false = last (r, ok tt)
      go true = last (condition now all_current r) ∙ condition-others now all_current r t n

  done-Reported :
      (r : Request)
      → is_present r ≡ true
      → r.report.managed ≡ true
      → r.report.stage_conditions ≡ true
      → Reported [] (done now none r).0 (done now none r).1
  unfolding done text_discrete equal_texts
  done-Reported r here managed conds =
      let (r1, e) = condition_returns now all_current r here refl refl refl in
      let noted = condition-IsNoted now all_current r r1 e in
      let (o, found) = resource-of_present r1 (noted.framed.present ∙ here) in
      let step : and_then
            (when (r.report.managed && r.report.stage_conditions) (condition now all_current) r)
            (λ _. result_of none)
          ≡ (r1, ok (some (record { resource = o; requeue_after = none }))) =
        ap
          (λ b.
            and_then (when (b && r.report.stage_conditions) (condition now all_current) r)
              (λ _. result_of none))
          managed
        ∙ ap (λ b. and_then (when (true && b) (condition now all_current) r) (λ _. result_of none))
            conds
        ∙ ap (λ p. and_then p (λ _. result_of none)) e
        ∙ result_of-present none r1 o found in
      subst (λ p. Reported [] p.0 p.1) (sym step) (noted.shown, (o, found, refl))

  finish :
      (l : List Text) (r : Request) (out : Result (Option Wait))
      → Outside l ready
      → Conducted l r out
      → Reported l (and_then (r, out) (done now)).0 (and_then (r, out) (done now)).1
  finish [] r out outside c =
      subst (λ x. Reported [] (and_then (r, x) (done now)).0 (and_then (r, x) (done now)).1)
        (sym c.0) (done-Reported r c.1 c.2 c.3)
  finish (n ∷ l) r out outside (inl (shown, c)) = inl (
    ap (Option.map (λ x. x.status)) (kept out) ∙ shown,
    finish l r out (Outside-tail n l ready outside) c,
  )
    where
      kept :
          (x : Result (Option Wait))
          → condition_at (and_then (r, x) (done now)).0 n ≡ condition_at r n
      kept (raise e) = refl
      kept (ok wait) = done-others wait r n (λ p. Outside-head n l ready outside (sym p))
  finish (n ∷ l) r out outside (inr (inl (w, e, waiting))) =
      let (o, found) = resource-of_status r n status_false waiting.0 in
      let step : and_then (r, out) (done now)
          ≡ (r, ok (some (record { resource = o; requeue_after = some w.requeue_after }))) =
        ap (λ x. and_then (r, x) (done now)) e
        ∙ (unfold done in result_of-present (some w.requeue_after) r o found) in
      subst (λ p. Reported (n ∷ l) p.0 p.1) (sym step) (inr (inl (w, o, found, refl, waiting)))
  finish (n ∷ l) r out outside (inr (inr (e, eq, pend))) =
      subst (λ x. Reported (n ∷ l) (and_then (r, x) (done now)).0 (and_then (r, x) (done now)).1)
        (sym eq) (inr (inr (e, refl, pend)))

repeats-Unique : (l : List Text) → repeats l ≡ false → Unique text_discrete l
repeats-Unique [] h = tt
repeats-Unique (t ∷ l) h = (ground arith, repeats-Unique l (ground arith))

make_stage-ne-ready : (s : Stage) → make_stage s.name s.run ≡ ok s → ready ≢ s.name
unfolding make_stage
make_stage-ne-ready s h e = ground (arith, equal_texts_iff s.name ready)

names-Outside :
    (stages : List Stage)
    → All (λ s. make_stage s.name s.run ≡ ok s) stages
    → Outside (names stages) ready
names-Outside [] h = contains-nil text_discrete ready
names-Outside (s ∷ l) h =
    contains-cons text_discrete ready s.name (names l)
    ∙ ground (arith, make_stage-ne-ready s h.0, names-Outside l h.1)

-- The request that the loop starts with
abbrev started : List Text → Resource → Request → Request
started l o r =
    stage (update_generation o.generation o) (record r {
      report = record r.report { managed = true; stage_conditions = true; pending = l };
    })

start-present :
    (l : List Text) (r : Request) (o : Resource)
    → r.resource ≡ some o
    → o.deleting ≡ false
    → start l true true r ≡ (started l o r, ok true)
unfolding start set_generation
start-present l r o here alive = ground (arith, here, alive)

make_stages-facts :
    (s : Stages)
    → make_stages s.stages true ≡ ok s
    → (repeats (names s.stages) ≡ false) × (s.report_status ≡ true)
unfolding make_stages
make_stages-facts s h = ground (arith, h)

-- Stages that __init__ accepts, with handlers that leave the conditions and the report alone, called
-- on an object that is not being deleted: either every stage has a true condition, "Ready" is true
-- and the object is returned without a delay; or there is a first stage that waits, with a false
-- condition after true ones, unknown ones for the later stages, a false "Ready", and the object
-- is returned with the delay of the wait; or there is a first stage that raises, after stages with
-- true conditions, and it stands first in the pending stages.
pub call-Reported :
    (now : ℕ) (s : Stages) (r : Request) (o : Resource)
    → make_stages s.stages true ≡ ok s
    → All (λ st. make_stage st.name st.run ≡ ok st) s.stages
    → All IsModest s.stages
    → r.resource ≡ some o
    → o.deleting ≡ false
    → Reported (names s.stages) (call now s r).0 (call now s r).1
unfolding call
call-Reported now s r o made stages modest here alive =
    let (distinct, reports) = make_stages-facts s made in
    let l = names s.stages in
    let r1 = started l o r in
    let outside = names-Outside s.stages stages in
    let passed =
      run_all-Passed now s.stages r1 modest (repeats-Unique l distinct) outside
        (unfold stage in refl) (unfold stage in refl) (unfold stage in refl)
        (unfold stage in refl) in
    let out = run_all now s.stages r1 in
    let body = λ (b : Bool) (x : Request). elim b as (λ _. Request × Result (Option Reconciled)) [
      | false ↦ (x, ok none)
      | true ↦ and_then (run_all now s.stages x) (done now)
    ] in
    let step : and_then (start l s.report_status true r) body ≡ and_then out (done now) =
      ap (λ b. and_then (start l b true r) body) reports
      ∙ ap (λ p. and_then p body) (start-present l r o here alive) in
    subst (λ p. Reported l p.0 p.1) (sym step) (finish now l out.0 out.1 outside passed.conducted)
