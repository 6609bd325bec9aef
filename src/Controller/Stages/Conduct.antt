-- ===== src/Controller/Stages/Conduct.antt =====
-- What a pass over all stages of cloudcoil/controller/_stages.py reports.
use mathlib.Core.Option
use cloudcoil.Base.{
  ℕ, true, Option, none, some, List, [], ◌∷◌, ◌≡◌, inl, inr, refl, sym, ap, ◌∙◌, arith, All,
}
use cloudcoil.Base.Json.{Text, text_discrete}
use cloudcoil.Base.Sets.{Unique}
use cloudcoil.Base.Results.{Result, ok, raise}
use cloudcoil.Controller.Requests.{Request, Wait, M, and_then, ready}
use cloudcoil.Controller.Requests.Framed.{condition_at, is_present}
use cloudcoil.Controller.Stages.{Stage, after_run, run_stage, run_all, names}
use cloudcoil.Controller.Stages.Frames.{Kept, Outside, Outside-head, Outside-tail}
use cloudcoil.Controller.Stages.Advance.{
  Conducted, Advanced, after_run-conditions, after_run-Advanced,
}
use cloudcoil.Controller.Stages.Waits.{Elsewhere}

-- A handler that leaves the conditions and the report to the code around it
abbrev pub IsModest : Stage → Type 0
IsModest s = (r : Request) → Kept (λ _. Unit {0}) r (s.run r).0

abbrev then_all : ℕ → List Stage → Option Wait → M (Option Wait)
then_all now stages wait r = elim wait [ none ↦ run_all now stages r | some w ↦ (r, ok (some w)) ]

pub record Passed (l : List Text) (r : Request) (p : Request × Result (Option Wait)) : Type 0 where
  pub conducted : Conducted l p.0 p.1
  pub elsewhere : (t : Text) → Elsewhere l t → condition_at p.0 t ≡ condition_at r t

module _ (now : ℕ) where
  -- The rest of the loop after the stage `n`
  advance :
      (n : Text) (stages : List Stage) (r : Request) (p : Request × Result (Option Wait))
      → Unique text_discrete (n ∷ names stages)
      → Outside (n ∷ names stages) ready
      → is_present r ≡ true
      → r.report.managed ≡ true
      → r.report.stage_conditions ≡ true
      → Advanced n (names stages) r p
      → ((t : Text) → Elsewhere (n ∷ names stages) t → condition_at p.0 t ≡ condition_at r t)
      → ((r1 : Request)
          → is_present r1 ≡ true
          → r1.report.managed ≡ true
          → r1.report.stage_conditions ≡ true
          → r1.report.pending ≡ names stages
          → Passed (names stages) r1 (run_all now stages r1))
      → Passed (n ∷ names stages) r (and_then p (then_all now stages))
  advance n stages r (r1, raise e) u out here managed conds (inl a) same rest =
      absurd (ground (arith, a.0))
  advance n stages r (r1, raise e) u out here managed conds (inr (inl (w, eq, _))) same rest =
      absurd (ground (arith, eq))
  advance n stages r (r1, raise e) u out here managed conds (inr (inr a)) same rest = record {
    conducted = inr (inr a);
    elsewhere = same;
  }
  advance n stages r (r1, ok (some w)) u out here managed conds (inl a) same rest =
      absurd (ground (arith, a.0))
  advance n stages r (r1, ok (some w)) u out here managed conds (inr (inr (e, eq, _))) same rest =
      absurd (ground (arith, eq))
  advance n stages r (r1, ok (some w)) u out here managed conds (inr (inl a)) same rest = record {
    conducted = inr (inl a);
    elsewhere = same;
  }
  advance n stages r (r1, ok none) u out here managed conds (inr (inl (w, eq, _))) same rest =
      absurd (ground (arith, eq))
  advance n stages r (r1, ok none) u out here managed conds (inr (inr (e, eq, _))) same rest =
      absurd (ground (arith, eq))
  advance n stages r (r1, ok none) u out here managed conds (inl (_, shown, pend, m, c, pr)) same
        rest =
      let q = rest r1 (pr ∙ here) (m ∙ managed) (c ∙ conds) pend in
      record {
        conducted = inl (
          ap (Option.map (λ x. x.status))
                (q.elsewhere n ((λ e. Outside-head n (names stages) ready out (sym e)), u.0))
              ∙ shown,
          q.conducted,
        );
        elsewhere = λ t p. q.elsewhere t (p.0, Outside-tail n (names stages) t p.1) ∙ same t p;
      }

  pub run_all-Passed :
      (stages : List Stage) (r : Request)
      → All IsModest stages
      → Unique text_discrete (names stages)
      → Outside (names stages) ready
      → is_present r ≡ true
      → r.report.managed ≡ true
      → r.report.stage_conditions ≡ true
      → r.report.pending ≡ names stages
      → Passed (names stages) r (run_all now stages r)
  unfolding run_all run_stage
  run_all-Passed [] r modest u out here managed conds pend = record {
    conducted = (refl, here, managed, conds);
    elsewhere = λ t p. refl;
  }
  run_all-Passed (s ∷ stages) r modest u out here managed conds pend =
      let k = modest.0 r in
      let r0 = (s.run r).0 in
      let pend' = k.framed.pending ∙ pend in
      let passed =
        advance s.name stages r0 (after_run now s.name (s.run r).1 r0) u out
          (k.framed.present ∙ here) (k.framed.managed ∙ managed) (k.framed.stage_conditions ∙ conds)
          (after_run-Advanced now s.name (names stages) r0 pend' (s.run r).1
            (k.framed.managed ∙ managed) (k.framed.stage_conditions ∙ conds) u out)
          (after_run-conditions now s.name (names stages) r0 pend' (s.run r).1)
          (λ r1 h m c p.
            run_all-Passed stages r1 modest.1 u.1 (Outside-tail s.name (names stages) ready out) h m
              c p) in
      record {
        conducted = passed.conducted;
        elsewhere = λ t p. passed.elsewhere t p ∙ k.conditions t tt;
      }
