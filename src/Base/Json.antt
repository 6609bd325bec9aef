-- ===== src/Base/Json.antt =====
-- JSON values as Python's json module reads and writes them. A text is the list of its code points;
-- a finite number is the text that `json.dumps` writes for it; an object is its items in order.
pub mod Objects
use Prim.Native.Nat.{ℕ, suc, max}
use Prim.Native.Char.{code}
use Prim.Native.String.{String}
use mathlib.Core.Path.{◌≡◌, refl, ap}
use mathlib.Core.Logic.{◌≢◌}
use mathlib.Core.Bool.{Bool, true, false, ◌&&◌}
use mathlib.Core.Option.{Option, none, some}
use mathlib.Core.List.{List, [], ◌∷◌}
use native.Mathlib.Omega.{arith}
use cloudcoil.Base.Tests.{ltb, ◌==◌, if◌then◌else◌}

abbrev pub Text : Type 0
Text = List ℕ

abbrev same_text : Text → Text → Bool
same_text [] [] = true
same_text [] (d ∷ t) = false
same_text (c ∷ s) [] = false
same_text (c ∷ s) (d ∷ t) = c == d && same_text s t

same_text_refl : (s : Text) → same_text s s ≡ true
same_text_refl [] = refl
same_text_refl (c ∷ s) = ground (arith, same_text_refl s)

same_text-eq : (s t : Text) → same_text s t ≡ true → s ≡ t
same_text-eq [] [] h = refl
same_text-eq [] (d ∷ t) h = cc
same_text-eq (c ∷ s) [] h = cc
same_text-eq (c ∷ s) (d ∷ t) h = ground (arith, same_text-eq s t)

different-text : (s t : Text) → same_text s t ≡ false → s ≢ t
different-text s t h e = cc (same_text_refl s, ap (same_text s) e)

-- The code points of a literal
abbrev pub codes : String → Text
codes String.[] = []
codes (String.◌∷◌ c s) = code c ∷ codes s

decide_text : (s t : Text) (b : Bool) → same_text s t ≡ b → Dec (s ≡ t)
decide_text s t true e = yes (same_text-eq s t e)
decide_text s t false e = no (different-text s t e)

unfoldable pub text_discrete : Discrete Text
unfolding decide_text same_text-eq different-text same_text_refl
text_discrete s t = decide_text s t (same_text s t) refl

-- `s == t`
unfoldable pub equal_texts : Text → Text → Bool
equal_texts s t = elim (text_discrete s t) [ yes _ ↦ true | no _ ↦ false ]

-- `s == t` where each may be None
unfoldable pub equal_options : Option Text → Option Text → Bool
unfolding equal_texts
equal_options none none = true
equal_options none (some t) = false
equal_options (some s) none = false
equal_options (some s) (some t) = equal_texts s t

-- `s <= t`: by the first code point that differs
unfoldable pub text_leb : Text → Text → Bool
text_leb [] t = true
text_leb (c ∷ s) [] = false
text_leb (c ∷ s) (d ∷ t) =
    let rest = text_leb s t in if ltb c d then true else if ltb d c then false else rest

mutual
  pub data Json : Type 0 where
    null : Json
    boolean : Bool → Json
    number : Text → Json
    not_finite : Json
    string : Text → Json
    array : Items → Json
    dict : Fields → Json

  pub data Items : Type 0 where
    nil : Items
    cons : Json → Items → Items

  pub data Fields : Type 0 where
    end : Fields
    field : Text → Json → Fields → Fields

unfoldable pub Json-discrete : Discrete Json
Json-discrete = hlevel (text_discrete)

-- `json.dumps(value, allow_nan=False)` raises no ValueError
unfoldable mutual
  pub is_finite : Json → Bool
  is_finite not_finite = false
  is_finite (array xs) = finite_items xs
  is_finite (dict d) = finite_fields d
  is_finite v = true

  pub finite_items : Items → Bool
  finite_items nil = true
  finite_items (cons v xs) = is_finite v && finite_items xs

  pub finite_fields : Fields → Bool
  finite_fields end = true
  finite_fields (field k v d) = is_finite v && finite_fields d

-- What `json.dumps(value, sort_keys=True)` writes: the value with its keys in order.
unfoldable pub place_field : Text → Json → Fields → Fields
place_field k v end = field k v end
place_field k v (field j w d) =
    if text_leb k j then field k v (field j w d) else field j w (place_field k v d)

unfoldable mutual
  pub sort_keys : Json → Json
  sort_keys (array xs) = array (sort_items xs)
  sort_keys (dict d) = dict (sort_fields d)
  sort_keys v = v

  pub sort_items : Items → Items
  sort_items nil = nil
  sort_items (cons v xs) = cons (sort_keys v) (sort_items xs)

  pub sort_fields : Fields → Fields
  sort_fields end = end
  sort_fields (field k v d) = place_field k (sort_keys v) (sort_fields d)

-- `json.dumps(a, sort_keys=True) == json.dumps(b, sort_keys=True)`
unfoldable pub same_dumps : Json → Json → Bool
same_dumps a b = elim (Json-discrete (sort_keys a) (sort_keys b)) [ yes _ ↦ true | no _ ↦ false ]

pub same_dumps-eq : (a b : Json) → same_dumps a b ≡ true → sort_keys a ≡ sort_keys b
unfolding same_dumps
same_dumps-eq a b h = ground arith

-- How deep dictionaries are nested in each other
unfoldable mutual
  pub height : Json → ℕ
  height (dict d) = suc (height_fields d)
  height v = 0

  pub height_fields : Fields → ℕ
  height_fields end = 0
  height_fields (field k v d) = max (height v) (height_fields d)
