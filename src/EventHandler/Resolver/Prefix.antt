-- ===== src/EventHandler/Resolver/Prefix.antt =====
-- `_remove_prefix` on a path under a prefix.
use Prim.Native.Char.{Char}
use Prim.Native.String.{[] as no_text, ◌∷◌ as prepend, ◌++◌ as join}
use package.text.Mathlib.Text.{starts_with}
use package.text.Mathlib.TextEquality.{starts_with_iff}
use package.text.Mathlib.TextLemmas.{
  nil-append, cons-append, append_assoc, cons≢nil, tail-eq_of_cons-eq,
}
use aws_lambda_powertools_py.Common.{
  String, true, false, some, List, ◌∷◌, ◌≡◌, ◌≢◌, refl, sym, ◌∙◌, Bool-cases, inl, inr,
}
use aws_lambda_powertools_py.Common.Eq.{◌==◌, string_eq}
use aws_lambda_powertools_py.Common.Text.{drop_like-append}
use aws_lambda_powertools_py.EventHandler.Resolver.{remove_prefix, path_starts_with}

longer : (p s : String) → s ≢ "" → join p s ≢ p
longer no_text s full = rw (nil-append s) full
longer (prepend c p) s full =
    λ e. longer p s full (tail-eq_of_cons-eq (rw (cons-append c p s) at e))

char_full : (c : Char) (s : String) → join (prepend c no_text) s ≢ ""
char_full c s e = cons≢nil (sym (cons-append c "" s) ∙ e)

starts : (p s : String) → starts_with (join p (join "/" s)) (join p "/") ≡ true
starts p s = (starts_with_iff (join p (join "/" s)) (join p "/")).1 (s, append_assoc p "/" s)

different : (s t : String) → s ≢ t → (s == t) ≡ false
different s t h = elim (Bool-cases (s == t)) [
  | inl same ↦ absurd (h ((string_eq.same_key_iff s t).0 same))
  | inr other ↦ other
]

under_prefix : (p rest : String) → p ≢ "" → path_starts_with (join p (join "/" rest)) p ≡ true
unfolding remove_prefix
under_prefix p rest full = rw (different p "" full, starts p rest) refl

-- A path under the first prefix loses this prefix, and keeps the slash and what follows, whatever the
-- other prefixes are.
pub remove_prefix-join :
    (p rest : String) (prefixes : List String)
    → p ≢ ""
    → remove_prefix (some (p ∷ prefixes)) (join p (join "/" rest)) ≡ join "/" rest
unfolding remove_prefix
remove_prefix-join p rest prefixes full =
    let whole = join p (join "/" rest) in
    let slash : Char = "/" in
    rw
      (
        different whole p (longer p (join "/" rest) (char_full slash rest)),
        under_prefix p rest full,
      )
      (drop_like-append p (join "/" rest))
