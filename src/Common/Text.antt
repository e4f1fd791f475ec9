-- ===== src/Common/Text.antt =====
-- Python's operations on texts, by the characters.
use Prim.Native.String.{String, [] as no_text, ◌∷◌ as prepend, ◌++◌ as join, compare}
use Prim.Native.Nat.{Ordering}
use Prim.Native.Char.{code}
use mathlib.Core.Bool.{◌&&◌}
use mathlib.Core.List.{List, [], ◌∷◌}
use mathlib.Core.Path.{◌≡◌}
use text.Mathlib.TextLemmas.{nil-append, cons-append}
use aws_lambda_powertools_py.Common.Tests.{eqb, if◌then◌else◌}
use aws_lambda_powertools_py.Common.Eq.{◌==◌, string_eq}

-- s[len(p):]
abbrev pub drop_like : String → String → String
drop_like no_text s = s
drop_like (prepend c p) no_text = no_text
drop_like (prepend c p) (prepend d s) = drop_like p s

-- s.rstrip("/")
abbrev pub rstrip_slashes : String → String
rstrip_slashes no_text = no_text
rstrip_slashes (prepend c s) =
    let rest = rstrip_slashes s in if eqb (code c) 47 && rest == "" then no_text else prepend c rest

-- sep.join(texts)
abbrev pub join_with : String → List String → String
join_with sep [] = ""
join_with sep (t ∷ []) = t
join_with sep (t ∷ (v ∷ ts)) = join t (join sep (join_with sep (v ∷ ts)))

-- A text among the sorted ones, where it is not there yet.
abbrev pub insert_text : String → List String → List String
insert_text t [] = t ∷ []
insert_text t (v ∷ vs) =
    let rest = insert_text t vs in
    elim (compare t v) [
      | Ordering.lt ↦ t ∷ (v ∷ vs)
      | Ordering.eq ↦ v ∷ vs
      | Ordering.gt ↦ v ∷ rest
    ]

-- sorted(set(texts))
abbrev pub sorted_set : List String → List String
sorted_set [] = []
sorted_set (t ∷ ts) = insert_text t (sorted_set ts)

pub drop_like-append : (p s : String) → drop_like p (join p s) ≡ s
drop_like-append no_text s = nil-append s
drop_like-append (prepend c p) s = rw (cons-append c p s) (drop_like-append p s)
