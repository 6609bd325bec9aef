-- ===== src/Controller/Stages/Waits.antt =====
-- What `_run` of cloudcoil/controller/_stages.py reports of a stage that waits.
use mathlib.Core.Option
use cloudcoil.Base.{
  ℕ, Bool, true, false, Option, some, List, [], ◌∷◌, ◌≡◌, ◌≢◌, sym, ap, ◌∙◌, subst, arith, All,
}
use cloudcoil.Base.Json.{Text, text_discrete}
use cloudcoil.Base.Sets.{contains, contains-cons, Unique}
use cloudcoil.Base.Results.{ok}
use cloudcoil.Controller.Status.{status_false, status_unknown}
use cloudcoil.Controller.Requests.{
  Request, Wait, and_then, each, condition, dependency_not_ready, ready, tail, when,
}
use cloudcoil.Controller.Requests.Conditions.{condition-IsNoted}
use cloudcoil.Controller.Requests.Framed.{status_at}
use cloudcoil.Controller.Stages.{waiting, not_ready, report_wait}
use cloudcoil.Controller.Stages.Frames.{
  Kept, Kept-refl, and_then-Kept, condition-Kept, Outside, Outside-head, Outside-tail, unknowns,
  unknowns-Kept, unknowns-Unknown, and_then-ok,
}

-- A type that is neither "Ready" nor one of the list
abbrev pub Elsewhere : List Text → Text → Type 0
Elsewhere l t = (t ≢ ready) × Outside l t

pub narrow-Kept :
    {P Q : Text → Type 0} {r r' : Request} → ((t : Text) → Q t → P t) → Kept P r r' → Kept Q r r'
narrow-Kept f k = record { framed = k.framed; conditions = λ t q. k.conditions t (f t q) }

waiting-type :
    (stages : Bool) (n : Text) (w : Wait) (t : Text)
    → t ≢ n
    → t ≢ ready
    → t ≢ (waiting stages n w).type
unfolding waiting
waiting-type true n w t h g = h
waiting-type false n w t h g = g

pub report_wait-Kept :
    (now : ℕ) (n : Text) (ns : List Text) (w : Wait) (r : Request)
    → r.report.pending ≡ n ∷ ns
    → Kept (Elsewhere (n ∷ ns)) r (report_wait now n w r).0
unfolding report_wait
report_wait-Kept now n ns w r pend =
    and_then-Kept (Elsewhere (n ∷ ns)) r (condition now (waiting r.report.stage_conditions n w) r) _
      (condition-Kept (Elsewhere (n ∷ ns)) now (waiting r.report.stage_conditions n w) r
        (λ t e. waiting-type r.report.stage_conditions n w t (Outside-head n ns t e.1) e.0))
      (λ a r1 first. rest r.report.stage_conditions r1 (
        subst (λ p. Kept (Elsewhere (n ∷ ns)) r p.0) first
          (condition-Kept (Elsewhere (n ∷ ns)) now (waiting r.report.stage_conditions n w) r
            (λ t e. waiting-type r.report.stage_conditions n w t (Outside-head n ns t e.1) e.0))))
  where
    rest :
        (b : Bool) (r1 : Request)
        → Kept (Elsewhere (n ∷ ns)) r r1
        → Kept
            (Elsewhere (n ∷ ns))
            r1
            (when b
              (λ s.
                and_then
                  (each (λ p. condition now (dependency_not_ready p)) (tail s.report.pending) s)
                  (λ _. condition now (not_ready w)))
              r1).0
    rest false r1 k = Kept-refl (Elsewhere (n ∷ ns)) r1
    rest true r1 k =
        and_then-Kept (Elsewhere (n ∷ ns)) r1
          (each (λ p. condition now (dependency_not_ready p)) (tail r1.report.pending) r1)
          (λ _. condition now (not_ready w))
          (subst
            (λ l.
              Kept (Elsewhere (n ∷ ns)) r1
                (each (λ p. condition now (dependency_not_ready p)) l r1).0)
            (sym (ap tail (k.framed.pending ∙ pend)))
            (narrow-Kept (λ t e. Outside-tail n ns t e.1)
              (unfold unknowns in unknowns-Kept now ns r1)))
          (λ a s e. condition-Kept (Elsewhere (n ∷ ns)) now (not_ready w) s (λ t p. p.0))

-- The stage that waits, those after it, and "Ready"
abbrev pub IsWaiting : Text → List Text → Request → Type 0
IsWaiting n ns r =
    (status_at r n ≡ some status_false)
    × All (λ k. status_at r k ≡ some status_unknown) ns
    × (status_at r ready ≡ some status_false)

pub All-map :
    {P Q : Text → Type 0} (l : List Text)
    → ((t : Text) → contains text_discrete t l ≡ true → P t → Q t)
    → All P l
    → All Q l
All-map [] f h = tt
All-map (x ∷ l) f h = (
  f x (ground (arith, contains-cons text_discrete x x l)) h.0,
  All-map l (λ t m. f t (ground (arith, contains-cons text_discrete t x l, m))) h.1,
)

pub ready-Outside :
    (l : List Text) (t : Text) → contains text_discrete t l ≡ true → Outside l ready → t ≢ ready
ready-Outside l t m out e = ground (arith, ap (λ k. contains text_discrete k l) e, m, out)

pub later-status :
    {P : Text → Type 0} {r r' : Request} (t : Text)
    → Kept P r r'
    → P t
    → {s : Option Text} → status_at r t ≡ s
    → status_at r' t ≡ s
later-status t k p e = ap (Option.map (λ c. c.status)) (k.conditions t p) ∙ e

pub report_wait-IsWaiting :
    (now : ℕ) (n : Text) (ns : List Text) (w : Wait) (r r' : Request)
    → r.report.stage_conditions ≡ true
    → r.report.pending ≡ n ∷ ns
    → Unique text_discrete (n ∷ ns)
    → Outside (n ∷ ns) ready
    → report_wait now n w r ≡ (r', ok tt)
    → IsWaiting n ns r'
unfolding report_wait waiting unknowns
report_wait-IsWaiting now n ns w r r' stages pend u out h =
    let unknown = λ (p : Text). condition now (dependency_not_ready p) in
    let h' =
      subst
        (λ b.
          and_then (condition now (waiting b n w) r) (λ _. when b (λ r1.
            and_then (each unknown (tail r1.report.pending) r1) (λ _. condition now (not_ready w))))
          ≡ (r', ok tt))
        stages h in
    let (r1, _, first, rest) =
      and_then-ok (condition now (waiting true n w) r)
        (λ _. when true (λ r1.
          and_then (each unknown (tail r1.report.pending) r1) (λ _. condition now (not_ready w))))
        r' tt h' in
    let shown = condition-IsNoted now (waiting true n w) r r1 first in
    let (r2, _, second, third) =
      and_then-ok (each unknown (tail r1.report.pending) r1) (λ _. condition now (not_ready w)) r'
        tt rest in
    let second' =
      subst (λ l. each unknown l r1 ≡ (r2, ok tt)) (ap tail (shown.framed.pending ∙ pend)) second in
    let others = subst (λ p. Kept (Outside ns) r1 p.0) second' (unknowns-Kept now ns r1) in
    let last = condition-IsNoted now (not_ready w) r2 r' third in
    let all = unknowns-Unknown now ns r1 r2 u.1 second' in
    (
      ap (Option.map (λ c. c.status)) (last.others n (λ e. Outside-head n ns ready out (sym e)))
          ∙ later-status n others u.0 shown.shown,
      All-map ns
          (λ t m e.
            ap (Option.map (λ c. c.status))
              (last.others t (λ p. ready-Outside ns t m (Outside-tail n ns ready out) p))
            ∙ e)
          all,
      last.shown,
    )
