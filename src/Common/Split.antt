-- ===== src/Common/Split.antt =====
-- s.split(sep) for a separator of one character, and the texts that it splits into.
use Prim.Native.Char.{Char, code}
use Prim.Native.String.{String, [] as no_text, ◌∷◌ as prepend, ◌++◌ as join}
use mathlib.Core.Bool.{Bool, true, false, not, ◌&&◌}
use mathlib.Core.List.{List, [], ◌∷◌}
use mathlib.Core.Path.{◌≡◌, refl, ap, sym, ◌∙◌}
use mathlib.Core.Logic.{inl, inr}
use text.Mathlib.TextEquality.{Char-path}
use text.Mathlib.TextLemmas.{nil-append, cons-append}
use native.Mathlib.Omega.{arith}
use aws_lambda_powertools_py.Common.Tests.{Bool-cases, eqb, if◌then◌else◌}
use aws_lambda_powertools_py.Common.Text.{join_with}

abbrev add_front : Char → List String → List String
add_front c [] = prepend c no_text ∷ []
add_front c (p ∷ ps) = prepend c p ∷ ps

unfoldable pub split : Char → String → List String
split sep no_text = no_text ∷ []
split sep (prepend c s) =
    let rest = split sep s in if eqb (code c) (code sep) then no_text ∷ rest else add_front c rest

-- a text without the separator
unfoldable pub lacks : Char → String → Bool
lacks sep no_text = true
lacks sep (prepend c s) = not (eqb (code c) (code sep)) && lacks sep s

abbrev pub sep_text : Char → String
sep_text sep = prepend sep no_text

sep_append : (sep : Char) (rest : String) → join (sep_text sep) rest ≡ prepend sep rest
sep_append sep rest = cons-append sep "" rest ∙ ap (prepend sep) (nil-append rest)

same_sep : (sep : Char) → eqb (code sep) (code sep) ≡ true
same_sep sep = ground arith

pub split-sep :
    (sep : Char) (rest : String) → split sep (join (sep_text sep) rest) ≡ no_text ∷ split sep rest
unfolding split
split-sep sep rest = rw (sep_append sep rest, same_sep sep) refl

other_sep :
    (sep c : Char) (a : String)
    → lacks sep (prepend c a) ≡ true
    → (eqb (code c) (code sep) ≡ false) × (lacks sep a ≡ true)
unfolding lacks
other_sep sep c a h = both_of (eqb (code c) (code sep)) (lacks sep a) h
  where
    both_of : (x y : Bool) → (not x && y) ≡ true → (x ≡ false) × (y ≡ true)
    both_of true y h = ground (arith, h)
    both_of false y h = (refl, h)

pub split-join :
    (sep : Char) (a rest : String)
    → lacks sep a ≡ true
    → split sep (join a (join (sep_text sep) rest)) ≡ a ∷ split sep rest
unfolding split
split-join sep no_text rest h =
    ap (split sep) (nil-append (join (sep_text sep) rest)) ∙ split-sep sep rest
split-join sep (prepend c a) rest h =
    let (other, others) = other_sep sep c a h in
    rw (cons-append c a (join (sep_text sep) rest), other)
      (ap (add_front c) (split-join sep a rest others))

pub split-lacks : (sep : Char) (a : String) → lacks sep a ≡ true → split sep a ≡ a ∷ []
unfolding split
split-lacks sep no_text h = refl
split-lacks sep (prepend c a) h =
    let (other, others) = other_sep sep c a h in
    rw other (ap (add_front c) (split-lacks sep a others))

abbrev is_some_text : List String → Bool
is_some_text [] = false
is_some_text (p ∷ ps) = true

-- a split gives one text at least
split_some : (sep : Char) (s : String) → is_some_text (split sep s) ≡ true
unfolding split
split_some sep no_text = refl
split_some sep (prepend c s) = some_part (eqb (code c) (code sep)) (split sep s)
  where
    some_part :
        (b : Bool) (ps : List String)
        → is_some_text (if b then no_text ∷ ps else add_front c ps) ≡ true
    some_part true ps = refl
    some_part false [] = refl
    some_part false (p ∷ ps) = refl

join_with-add_front :
    (sep : String) (c : Char) (ps : List String)
    → join_with sep (add_front c ps) ≡ prepend c (join_with sep ps)
join_with-add_front sep c [] = refl
join_with-add_front sep c (p ∷ []) = refl
join_with-add_front sep c (p ∷ (q ∷ ps)) = cons-append c p _

join_with_empty :
    (sep : Char) (ps : List String)
    → is_some_text ps ≡ true
    → join_with (sep_text sep) (no_text ∷ ps) ≡ prepend sep (join_with (sep_text sep) ps)
join_with_empty sep [] h = ground (arith, h)
join_with_empty sep (p ∷ ps) h = nil-append _ ∙ sep_append sep _

-- Joining what was split gives the text again.
pub join_with-split : (sep : Char) (s : String) → join_with (sep_text sep) (split sep s) ≡ s
unfolding split
join_with-split sep no_text = refl
join_with-split sep (prepend c s) = elim (Bool-cases (eqb (code c) (code sep))) [
  | inl same ↦ rw same (
      join_with_empty sep (split sep s) (split_some sep s)
      ∙ ap (prepend sep) (join_with-split sep s)
      ∙ ap (λ d. prepend d s) (sym (Char-path c sep (ground (arith, same)))))
  | inr other ↦
      rw other (
        join_with-add_front (sep_text sep) c (split sep s) ∙ ap (prepend c) (join_with-split sep s))
]

pub lacks-join :
    (sep : Char) (a b : String)
    → lacks sep a ≡ true
    → lacks sep b ≡ true
    → lacks sep (join a b) ≡ true
unfolding lacks
lacks-join sep no_text b h k = ap (lacks sep) (nil-append b) ∙ k
lacks-join sep (prepend c a) b h k =
    let (other, others) = other_sep sep c a h in
    rw (cons-append c a b, other) (lacks-join sep a b others k)
