-- ===== src/Patches/Pointers.antt =====
-- JSON Pointers as RFC 6901 reads them, and the ones that cloudcoil/patches.py writes.
use mathlib.Core.List.{append-nil, append_assoc}
use mathlib.Core.Option
use cloudcoil.Base.{
  ℕ, false, Option, none, some, List, [], ◌∷◌, ◌++◌, ◌≡◌, refl, sym, ap, ◌∙◌, arith, if◌then◌else◌,
  ◌==◌,
}
use cloudcoil.Base.Json.{Text}
use cloudcoil.Patches.{escape, pointer}

-- "~0" stands for "~" and "~1" for "/"; any other "~" is an error.
unfoldable pub unescape : Text → Option Text
unescape [] = some []
unescape (c ∷ []) = if c == b'~' then none else some (c ∷ [])
unescape (c ∷ d ∷ s) =
    let skipped = unescape s in
    let longer = unescape (d ∷ s) in
    if c == b'~'
    then if d == b'0'
      then Option.map (λ t. b'~' ∷ t) skipped
      else if d == b'1'
      then Option.map (λ t. b'/' ∷ t) skipped
      else none
    else Option.map (λ t. c ∷ t) longer

abbrev cons_head : ℕ → List Text → List Text
cons_head c [] = (c ∷ []) ∷ []
cons_head c (t ∷ ts) = (c ∷ t) ∷ ts

-- The parts between the slashes
unfoldable pub segments : Text → List Text
segments [] = [] ∷ []
segments (c ∷ s) = let rest = segments s in if c == b'/' then [] ∷ rest else cons_head c rest

abbrev prepend : Option Text → Option (List Text) → Option (List Text)
prepend none ts = none
prepend (some t) none = none
prepend (some t) (some ts) = some (t ∷ ts)

unfoldable pub unescape_all : List Text → Option (List Text)
unescape_all [] = some []
unescape_all (t ∷ ts) = prepend (unescape t) (unescape_all ts)

-- The reference tokens of a pointer
unfoldable pub tokens : Text → Option (List Text)
tokens [] = some []
tokens (c ∷ s) = if c == b'/' then unescape_all (segments s) else none

unfoldable pub path_of : List Text → Text
path_of [] = []
path_of (k ∷ ks) = b'/' ∷ escape k ++ path_of ks

abbrev NoSlash : Text → Type 0
NoSlash [] = Unit
NoSlash (c ∷ s) = ((c == b'/') ≡ false) × NoSlash s

escape-cons :
    (c : ℕ) (s : Text)
    → escape (c ∷ s) ≡ (
        if c == b'~'
        then b'~' ∷ b'0' ∷ escape s
        else if c == b'/'
        then b'~' ∷ b'1' ∷ escape s
        else c ∷ escape s)
unfolding escape
escape-cons c s = ground arith

escape-NoSlash : (s : Text) → NoSlash (escape s)
escape-NoSlash [] = unfold escape in tt
escape-NoSlash (c ∷ s) = rw (escape-cons c s) (ground (arith, escape-NoSlash s))

unescape-cons :
    (c : ℕ) (s : Text)
    → (c == b'~') ≡ false
    → unescape (c ∷ s) ≡ Option.map (λ t. c ∷ t) (unescape s)
unfolding unescape
unescape-cons c [] h = ground arith
unescape-cons c (d ∷ s) h = ground arith

unescape-tilde :
    (s : Text)
    → (unescape (b'~' ∷ b'0' ∷ s) ≡ Option.map (λ t. b'~' ∷ t) (unescape s))
      × (unescape (b'~' ∷ b'1' ∷ s) ≡ Option.map (λ t. b'/' ∷ t) (unescape s))
unfolding unescape
unescape-tilde s = (refl, refl)

unescape-escape : (s : Text) → unescape (escape s) ≡ some s
unescape-escape [] = unfold escape unescape in refl
unescape-escape (c ∷ s) =
    rw (escape-cons c s)
      (ground (arith, unescape-escape s, unescape-cons c (escape s), unescape-tilde (escape s)))

segments_last : (s : Text) → NoSlash s → segments s ≡ s ∷ []
unfolding segments
segments_last [] h = refl
segments_last (c ∷ s) h = ground (arith, segments_last s)

segments-append : (s t : Text) → NoSlash s → segments (s ++ b'/' ∷ t) ≡ s ∷ segments t
unfolding segments
segments-append [] t h = refl
segments-append (c ∷ s) t h = ground (arith, segments-append s t)

unescape_all-segments :
    (k : Text) (ks : List Text) → unescape_all (segments (escape k ++ path_of ks)) ≡ some (k ∷ ks)
unfolding unescape_all path_of
unescape_all-segments k [] =
    rw (append-nil (escape k), segments_last (escape k) (escape-NoSlash k))
      (ground (arith, unescape-escape k))
unescape_all-segments k (j ∷ ks) =
    rw (segments-append (escape k) (escape j ++ path_of ks) (escape-NoSlash k))
      (ground (arith, unescape-escape k, unescape_all-segments j ks))

-- A path that was built from keys is read as these keys.
pub tokens-path_of : (ks : List Text) → tokens (path_of ks) ≡ some ks
unfolding tokens path_of
tokens-path_of [] = refl
tokens-path_of (k ∷ ks) = unescape_all-segments k ks

pub path_of-snoc : (ks : List Text) (k : Text) → path_of (ks ++ k ∷ []) ≡ pointer (path_of ks) k
unfolding path_of pointer
path_of-snoc [] k = ap (λ t. b'/' ∷ t) (append-nil (escape k))
path_of-snoc (j ∷ ks) k =
    ap (λ t. b'/' ∷ escape j ++ t) (path_of-snoc ks k)
    ∙ ap (λ t. b'/' ∷ t) (sym (append_assoc (escape j) (path_of ks) (b'/' ∷ escape k)))
