-- ===== src/Logging/Copy/Selected.antt =====
-- Which loggers a setup is copied to, and how they are then.
use aws_lambda_powertools_py.Common.{
  String, Bool, true, false, not, ◌&&◌, Option, some, List, [], ◌∷◌, ◌++◌, ◌≡◌, refl, ap, ◌∙◌, All,
  arith, Bool-cases, inl, inr,
}
use aws_lambda_powertools_py.Common.Eq.{◌==◌, string_eq}
use aws_lambda_powertools_py.Common.Dict.{Dict}
use aws_lambda_powertools_py.Common.Effect.{ok}
use aws_lambda_powertools_py.Common.Run.{Run, Never, Run-gets, Run-implies}
use aws_lambda_powertools_py.Logging.Formatter.{Formatter}
use aws_lambda_powertools_py.Logging.Process.{Level, Registered, World, Logger, Library, registered}
use aws_lambda_powertools_py.Logging.Start.{known}
use aws_lambda_powertools_py.Common.Split.{split, lacks, split-lacks}
use aws_lambda_powertools_py.Logging.Copy.{
  is_in, head_of, dot, is_selected, excluded, find_registered_loggers, given_level, package_logger,
  copy_config_to_registered_loggers,
}
use aws_lambda_powertools_py.Logging.Copy.Same.{with_name, IsCopied, configure_each-IsCopied}

in_last : (exclude : List String) (n p : String) → is_in (exclude ++ n ∷ p ∷ []) n ≡ true
unfolding is_selected
in_last [] n p = ground (arith, string_eq.same_key_iff n n)
in_last (x ∷ exclude) n p = ground (arith, in_last exclude n p)

and_not : (a b c : Bool) → b ≡ true → (a && not b && c) ≡ false
and_not false b c h = ground (arith, h)
and_not true b c h = ground (arith, h)

-- the source itself is not selected
not_selected :
    (self : Logger) (include exclude : List String)
    → head_of (split dot self.name) ≡ self.name
    → is_selected include (excluded self exclude) self.name ≡ false
unfolding is_selected excluded
not_selected self include exclude top = and_not _ _ _ (
    ap (λ h. is_in (exclude ++ h ∷ package_logger ∷ []) self.name) top
    ∙ in_last exclude self.name package_logger)

selected-apart :
    (self : Logger) (include exclude : List String) (name : String)
    → head_of (split dot self.name) ≡ self.name
    → is_selected include (excluded self exclude) name ≡ true
    → (self.name == name) ≡ false
selected-apart self include exclude name top chosen = elim (Bool-cases (self.name == name)) [
  | inr other ↦ other
  | inl same ↦
      let no_one = not_selected self include exclude top in
      let e =
        ap (is_selected include (excluded self exclude))
          ((string_eq.same_key_iff self.name name).0 same) in
      cc
]

found-apart :
    (self : Logger) (include exclude : List String) (loggers : Dict String Registered)
    → head_of (split dot self.name) ≡ self.name
    → All
        (λ n. (self.name == n) ≡ false)
        (find_registered_loggers include (excluded self exclude) loggers)
unfolding find_registered_loggers
found-apart self include exclude [] top = tt
found-apart self include exclude ((name, l) ∷ loggers) top =
    let rest = found-apart self include exclude loggers top in
    elim (Bool-cases (is_selected include (excluded self exclude) name)) [
      | inl chosen ↦ rw chosen (selected-apart self include exclude name top chosen, rest)
      | inr left ↦ rw left rest
    ]

All-both :
    {A : Type 0} (P Q : A → Type 0) (xs : List A) → All P xs → All Q xs → All (λ x. P x × Q x) xs
All-both P Q [] p q = tt
All-both P Q (x ∷ xs) (p, ps) (q, qs) = ((p, q), All-both P Q xs ps qs)

module _ {App : Type 0} (lib : Library) (self : Logger) (own : self.child ≡ false) where
  -- After the setup of a logger that is no child, has a name without dots and a formatter, was copied
  -- with a level that `logging` knows, each logger of the registry that the two lists select, among
  -- which is not the source, has the level, or that of the source where none is given, and the source's
  -- handlers, whose first formatter writes the logger's name now, and no other handler, and hands
  -- nothing to its parent.
  pub copy_config-IsCopied :
      (log_level : Option Level) (exclude include : List String) (f : Formatter)
      (o : List (Option Formatter)) (w : World App)
      → lacks dot self.name ≡ true
      → known lib.knows_level (given_level log_level (registered self.name w).level) ≡ ok tt
      → (registered self.name w).handlers ≡ some f ∷ o
      → Run
          (λ u v.
            All
              (λ n.
                IsCopied
                  (given_level log_level (registered self.name w).level)
                  (some (with_name f) ∷ o)
                  (registered n v)
                × ((self.name == n) ≡ false))
              (find_registered_loggers include (excluded self exclude) w.loggers))
          (Never {A = String})
          (copy_config_to_registered_loggers lib self log_level exclude include w)
  unfolding copy_config_to_registered_loggers head_of
  copy_config-IsCopied log_level exclude include f o w plain knows source =
      let top = ap head_of (split-lacks dot self.name plain) in
      let apart = found-apart self include exclude w.loggers top in
      Run-gets _ _ w (registered self.name w) refl (
        Run-gets _ _ w w.loggers refl (
          Run-implies (λ u v all. All-both _ _ _ all apart) (λ e v never. never)
            (configure_each-IsCopied lib self own
              (given_level log_level (registered self.name w).level) o knows f _ w apart source)))
