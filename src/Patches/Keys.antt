-- ===== src/Patches/Keys.antt =====
-- The keys that `visit` of cloudcoil/patches.py goes through: each key of either object once.
use cloudcoil.Base.{true, false, ◌||◌, List, [], ◌∷◌, ◌++◌, ◌≡◌, refl, ◌∙◌, arith, if_ind}
use cloudcoil.Base.Json.{Text, text_discrete, text_leb}
use cloudcoil.Base.Sets.{contains, contains-insert, contains-append, insert, Unique}
use cloudcoil.Patches.{place, sorted, as_set, union}

contains-place :
    (j k : Text) (ks : List Text)
    → contains text_discrete j (place k ks)
      ≡ elim (text_discrete k j) [ yes _ ↦ true | no _ ↦ contains text_discrete j ks ]
unfolding place contains
contains-place j k [] = refl
contains-place j k (i ∷ ks) = ground (arith, contains-place j k ks)

contains-sorted :
    (j : Text) (ks : List Text) → contains text_discrete j (sorted ks) ≡ contains text_discrete j ks
unfolding sorted contains
contains-sorted j [] = refl
contains-sorted j (k ∷ ks) = contains-place j k (sorted ks) ∙ ground (arith, contains-sorted j ks)

place-Unique :
    (k : Text) (ks : List Text)
    → contains text_discrete k ks ≡ false
    → Unique text_discrete ks
    → Unique text_discrete (place k ks)
unfolding place contains
place-Unique k [] h u = (refl, tt)
place-Unique k (i ∷ ks) h u =
    if_ind (λ l. Unique text_discrete l) (text_leb k i) (λ _. (h, u))
      (λ _. (ground (arith, contains-place i k ks), place-Unique k ks (ground arith) u.1))

pub sorted-Unique : (ks : List Text) → Unique text_discrete ks → Unique text_discrete (sorted ks)
unfolding sorted
sorted-Unique [] u = tt
sorted-Unique (k ∷ ks) u =
    place-Unique k (sorted ks) (contains-sorted k ks ∙ u.0) (sorted-Unique ks u.1)

contains-as_set :
    (j : Text) (ks : List Text) → contains text_discrete j (as_set ks) ≡ contains text_discrete j ks
unfolding as_set contains
contains-as_set j [] = refl
contains-as_set j (k ∷ ks) =
    contains-insert text_discrete j k (as_set ks) ∙ ground (arith, contains-as_set j ks)

as_set-Unique : (ks : List Text) → Unique text_discrete (as_set ks)
unfolding as_set insert
as_set-Unique [] = tt
as_set-Unique (k ∷ ks) = ground (arith, as_set-Unique ks)

pub union-Unique : (ks js : List Text) → Unique text_discrete (sorted (union ks js))
unfolding union
union-Unique ks js = sorted-Unique (as_set (ks ++ js)) (as_set-Unique (ks ++ js))

pub contains-union :
    (j : Text) (ks js : List Text)
    → contains text_discrete j (sorted (union ks js))
      ≡ (contains text_discrete j ks || contains text_discrete j js)
unfolding union
contains-union j ks js =
    contains-sorted j (as_set (ks ++ js))
    ∙ contains-as_set j (ks ++ js)
    ∙ contains-append text_discrete j ks js
