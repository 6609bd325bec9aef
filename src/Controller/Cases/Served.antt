-- ===== src/Controller/Cases/Served.antt =====
-- What a call of Cases, cloudcoil/controller/_stages.py, has done when it returns a result.
use cloudcoil.Base.{
  ℕ, Bool, true, false, Option, none, some, [], ◌∷◌, ◌≡◌, ◌⊎◌, inl, inr, refl, ap, ◌∙◌, subst,
  arith, if◌then◌else◌,
}
use cloudcoil.Base.Results.{Result, ok, raise}
use cloudcoil.Controller.Status.{Resource}
use cloudcoil.Controller.Requests.{Request, and_then}
use cloudcoil.Controller.Stages.{Stage, start, run_stage, Reconciled, done}
use cloudcoil.Controller.Cases.{
  Cases, freeze, names_of, with_pending, choose, run_selected, conduct, if_frozen, call,
}
use cloudcoil.Controller.Cases.Order.{IsArranged, freeze-IsArranged}
use cloudcoil.Controller.Cases.Choice.{IsChoice, Chosen, choose-Chosen, Chosen-IsChoice}

-- The call went through: the observed generation was set, then a case was chosen, and it alone was run.
pub record IsServed (now : ℕ) (c arranged : Cases) (r r' : Request) (result : Reconciled)
    : Type 0 where
  pub started : Request
  pub start_ok : start (names_of arranged) arranged.report_status false r ≡ (started, ok true)
  pub selected : Stage
  pub choice : IsChoice c (names_of arranged) started selected
  pub ran :
      and_then (run_stage now selected (with_pending (selected.name ∷ []) started)) (done now)
      ≡ (r', ok (some result))

module _ (now : ℕ) (c arranged : Cases) (a : IsArranged c.cases arranged.cases)
    (same : arranged.otherwise ≡ c.otherwise) (r r' : Request) (result : Reconciled) where
  chosen-IsServed :
      (started : Request)
      → start (names_of arranged) arranged.report_status false r ≡ (started, ok true)
      → (reply : Request × Result (Option Stage))
      → choose (names_of arranged) arranged.cases arranged.otherwise started ≡ reply
      → and_then reply (run_selected now) ≡ (r', ok (some result))
      → IsServed now c arranged r r' result
  unfolding run_selected
  chosen-IsServed started e (r1, raise x) g h = absurd (ground arith)
  chosen-IsServed started e (r1, ok none) g h = absurd (ground arith)
  chosen-IsServed started e (r1, ok (some s)) g h =
      let (chosen, kept) =
        choose-Chosen (names_of arranged) started r1 arranged.cases arranged.otherwise s g in
      record {
        started = started;
        start_ok = e;
        selected = s;
        choice =
            Chosen-IsChoice c arranged.cases (names_of arranged) started s a
              (subst (λ o. Chosen (names_of arranged) started arranged.cases o s) same chosen);
        ran =
            subst (λ q. and_then (run_stage now s q) (done now) ≡ (r', ok (some result)))
              (kept (s.name ∷ [])) h;
      }

  conduct-IsServed :
      conduct now arranged r ≡ (r', ok (some result)) → IsServed now c arranged r r' result
  unfolding conduct
  conduct-IsServed h = go (start (names_of arranged) arranged.report_status false r) refl h
    where
      go :
          (reply : Request × Result Bool)
          → start (names_of arranged) arranged.report_status false r ≡ reply
          → and_then reply (λ started r1. elim started [
            | false ↦ (r1, ok none)
            | true ↦
                and_then
                  (choose (names_of arranged) arranged.cases arranged.otherwise r1)
                  (run_selected now)
          ])
            ≡ (r', ok (some result))
          → IsServed now c arranged r r' result
      go (r1, raise x) e g = absurd (ground arith)
      go (r1, ok false) e g = absurd (ground arith)
      go (r1, ok true) e g =
          chosen-IsServed r1 e (choose (names_of arranged) arranged.cases arranged.otherwise r1)
            refl g

frozen_or :
    (c c1 : Cases) (m : Result Cases)
    → c.frozen ≡ true
    → (if c.frozen then ok c else m) ≡ ok c1
    → c ≡ c1
frozen_or c c1 m h g = ground (arith, h)

freeze_or :
    (c c1 : Cases) (m : Result Cases)
    → c.frozen ≡ false
    → (if c.frozen then ok c else m) ≡ ok c1
    → m ≡ ok c1
freeze_or c c1 m h g = ground (arith, h)

-- Whether the cases are the registered ones still, or frozen by an earlier call, if a call returns a
-- result, then the cases are frozen now, and it has run exactly the stage that the rules select: of
-- the cases with a true predicate the one of the highest priority, or, without priorities, the one
-- registered first; and the fallback if every predicate is false.
pub call-IsServed :
    (now : ℕ) (validate : Bool → Result (Unit {0})) (registered c c' : Cases) (r r' : Request)
    (result : Reconciled)
    → registered.frozen ≡ false
    → (c ≡ registered) ⊎ (freeze validate registered ≡ ok c)
    → call now validate c r ≡ (c', r', ok (some result))
    → (freeze validate registered ≡ ok c') × IsServed now registered c' r r' result
unfolding call
call-IsServed now validate registered c c' r r' result open_ origin h = present r.resource h
  where
    reply_parts :
        {x y : Cases} {q q' : Request} {u v : Result (Option Reconciled)}
        → ◌≡◌ {A = Cases × Request × Result (Option Reconciled)} (x, q, u) (y, q', v)
        → (x ≡ y) × ◌≡◌ {A = Request × Result (Option Reconciled)} (q, u) (q', v)
    reply_parts g = (ap (λ p. p.0) g, ap (λ p. (p.1, p.2)) g)

    frozen :
        (c1 : Cases)
        → freeze validate registered ≡ ok c1
        → if_frozen now c (ok c1) r ≡ (c', r', ok (some result))
        → (freeze validate registered ≡ ok c') × IsServed now registered c' r r' result
    frozen c1 f g =
        let (e, out) = reply_parts g in
        let (arranged, same, _) = freeze-IsArranged validate registered c1 f in
        subst (λ k. (freeze validate registered ≡ ok k) × IsServed now registered k r r' result) e
          (f, conduct-IsServed now registered c1 arranged same r r' result out)

    tried :
        (m : Result Cases)
        → (if c.frozen then ok c else freeze validate c) ≡ m
        → if_frozen now c m r ≡ (c', r', ok (some result))
        → (freeze validate registered ≡ ok c') × IsServed now registered c' r r' result
    tried (raise x) e g = absurd (ground arith)
    tried (ok c1) e g =
        frozen c1
          (elim origin [
            | inl same ↦
                subst (λ k. freeze validate k ≡ ok c1) same
                  (freeze_or c c1 (freeze validate c) (ap (λ k. k.frozen) same ∙ open_) e)
            | inr f ↦
                let (_, _, t) = freeze-IsArranged validate registered c f in
                f ∙ ap ok (frozen_or c c1 (freeze validate c) t e)
          ])
          g

    present :
        (x : Option Resource)
        → ◌≡◌ {A = Cases × Request × Result (Option Reconciled)}
            (elim x [
              | none ↦ (c, r, ok none)
              | some o ↦ if_frozen now c (if c.frozen then ok c else freeze validate c) r
            ])
            (c', r', ok (some result))
        → (freeze validate registered ≡ ok c') × IsServed now registered c' r r' result
    present none g = absurd (ground arith)
    present (some o) g = tried (if c.frozen then ok c else freeze validate c) refl g
