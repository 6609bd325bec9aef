-- ===== src/Controller/Mutations/Finalizers.antt =====
-- The callbacks of `ensure_finalizer` and `remove_finalizer`, cloudcoil/controller/_mutations.py.
use cloudcoil.Base.{
  true, false, not, List, [], ◌∷◌, ◌++◌, ◌≡◌, refl, sym, ap, subst, ◌∙◌, filter, arith,
  if◌then◌else◌,
}
use cloudcoil.Base.Json.{Text, text_discrete, equal_texts}
use cloudcoil.Base.Sets.{contains, contains-snoc}
use cloudcoil.Base.Results.{
  ok, raise_if, ◌>>◌, terminal_error, then_returned, raise_if_returned, ok_inj,
}
use cloudcoil.Controller.Status.Conditions.{equal_texts_iff}
use cloudcoil.Patches.{Resource}
use cloudcoil.Controller.Mutations.{Api, add_finalizer, drop_finalizer}

-- `[value for value in existing if value != finalizer]`
abbrev pub without : Text → List Text → List Text
without finalizer l = filter (λ value. not (equal_texts value finalizer)) l

without-absent : (f : Text) (l : List Text) → contains text_discrete f l ≡ false → without f l ≡ l
unfolding filter contains
without-absent f [] h = refl
without-absent f (x ∷ l) h = ground (arith, equal_texts_iff x f, without-absent f l)

without-snoc :
    (f : Text) (l : List Text) → contains text_discrete f l ≡ false → without f (l ++ f ∷ []) ≡ l
unfolding filter contains
without-snoc f [] h = ground (arith, equal_texts_iff f f)
without-snoc f (x ∷ l) h = ground (arith, equal_texts_iff x f, without-snoc f l)

contains-end : (f : Text) (l : List Text) → contains text_discrete f (l ++ f ∷ []) ≡ true
contains-end f l = ground (arith, contains-snoc text_discrete f f l)

-- If the callback of ensure_finalizer returns for an object without the finalizer, then the object is
-- not being deleted and the edited one has the finalizer; the callback of remove_finalizer gives that
-- one the finalizers of the first object again, in the same order. A finalizer list that was written
-- is read as it was written.
pub drop_finalizer-add_finalizer :
    (api : Api) (finalizer : Text) (obj held : Resource)
    (read_written : (l : List Text) (r : Resource) → api.finalizers (api.with_finalizers l r) ≡ l)
    → contains text_discrete finalizer (api.finalizers obj) ≡ false
    → add_finalizer api finalizer obj ≡ ok held
    → (api.is_deleting obj ≡ false)
      × (contains text_discrete finalizer (api.finalizers held) ≡ true)
      × (api.finalizers (drop_finalizer api finalizer held) ≡ api.finalizers obj)
unfolding add_finalizer drop_finalizer
drop_finalizer-add_finalizer api finalizer obj held read_written absent h =
    let before = api.finalizers obj in
    let added = before ++ finalizer ∷ [] in
    let edited =
      subst
        (λ b.
          (if b
            then ok obj
            else (raise_if (api.is_deleting obj) terminal_error
                >> ok (api.with_finalizers added obj)))
          ≡ ok held)
        absent h in
    let (alive, e) =
      then_returned (raise_if (api.is_deleting obj) terminal_error)
        (ok (api.with_finalizers added obj)) edited in
    let list = ap api.finalizers (sym (ok_inj e)) ∙ read_written added obj in
    let has = ap (contains text_discrete finalizer) list ∙ contains-end finalizer before in
    let dropped =
      ap
        (λ b.
          if b then api.with_finalizers (without finalizer (api.finalizers held)) held else held)
        has in
    (
      raise_if_returned (api.is_deleting obj) terminal_error alive,
      has,
      ap api.finalizers dropped
          ∙ read_written (without finalizer (api.finalizers held)) held
          ∙ ap (without finalizer) list
          ∙ without-snoc finalizer before absent,
    )
