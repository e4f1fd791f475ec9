-- ===== src/Logging/Copy/Same.antt =====
-- The loggers that a setup was copied to.
use aws_lambda_powertools_py.Common.{
  String, false, Option, some, List, [], ◌∷◌, ◌++◌, ◌≡◌, refl, sym, ap, ◌∙◌, All, arith, Bool-cases,
  inl, inr,
}
use mathlib.Core.Path.{subst}
use aws_lambda_powertools_py.Common.Eq.{◌==◌, string_eq}
use aws_lambda_powertools_py.Common.Dict.{Dict, store, merge}
use aws_lambda_powertools_py.Common.Effect.{ok, pure}
use aws_lambda_powertools_py.Common.Json.{str}
use aws_lambda_powertools_py.Common.Run.{
  Run, returned, Never, Run-bind, Run-lift, Run-gets, Run-implies,
}
use aws_lambda_powertools_py.Logging.Formatter.{Formatter, append_keys}
use aws_lambda_powertools_py.Logging.Process.{
  Level, Registered, World, Logger, Library, registered, update, first_formatter, with_first,
}
use aws_lambda_powertools_py.Logging.Logger.{
  registered_formatter, set_formatter, on_formatter, add_keys,
}
use aws_lambda_powertools_py.Logging.Logger.Isolated.{registered-update, own_name}
use aws_lambda_powertools_py.Logging.Start.{known, set_level}
use aws_lambda_powertools_py.Logging.Start.Only.{registered-update_other}
use aws_lambda_powertools_py.Logging.Copy.{configure_logger, configure_each}

-- the formatter of the source once a logger was configured
abbrev pub with_name : Formatter → Formatter
with_name f = append_keys (("name", str "%(name)s") ∷ []) f

module _ {App : Type 0} (lib : Library) (self : Logger) (own : self.child ≡ false) (n : String)
    (apart : (n == self.name) ≡ false) (apart' : (self.name == n) ≡ false) (w : World App) where
  -- the source's handlers, the logger that is configured, and the others as they were
  record During (hs : List (Option Formatter)) (l : Registered) (t : World App) : Type 0 where
    source : (registered self.name t).handlers ≡ hs
    target : registered n t ≡ l
    others :
        (m : String) → (n == m) ≡ false → (self.name == m) ≡ false → registered m t ≡ registered m w

  update-During :
      (f : Registered → Registered) (hs : List (Option Formatter)) (l : Registered) (t : World App)
      → During hs l t
      → Run (λ u v. During hs (f l) v) (Never {A = String}) (update n f t)
  update-During f hs l t h =
      unfold update in
      returned (record {
        source =
            ap (λ (r : Registered). r.handlers) (registered-update_other n self.name f t apart)
            ∙ h.source;
        target = registered-update n f t ∙ ap f h.target;
        others = λ m o o'. registered-update_other n m f t o ∙ h.others m o o';
      })

  add_keys-During :
      (f : Formatter) (o : List (Option Formatter)) (l : Registered) (t : World App)
      → During (some f ∷ o) l t
      → Run
          (λ u v. During (some (with_name f) ∷ o) l v)
          (Never {A = String})
          (add_keys lib self (("name", str "%(name)s") ∷ []) t)
  unfolding add_keys on_formatter
  add_keys-During f o l t h =
      Run-bind {Q = λ x v. (x ≡ f) × (v ≡ t)} _ _ t (rw found_one (returned (refl, refl)))
        λ x v (got, same).
          rw (got, same)
            (unfold set_formatter in
              (rw (own_name lib self own) (
                unfold update in
                returned (record {
                  source =
                      ap (λ (r : Registered). r.handlers) (registered-update self.name put t)
                      ∙ ap (with_first (with_name f)) h.source;
                  target = registered-update_other self.name n put t apart' ∙ h.target;
                  others = λ m p p'. registered-update_other self.name m put t p' ∙ h.others m p p';
                }))))
    where
      put : Registered → Registered
      put r = record r { handlers = with_first (with_name f) r.handlers }

      found_one : registered_formatter lib self t ≡ (ok f, t)
      found_one =
          unfold registered_formatter in
          (ap (λ i. (first_formatter (registered i t).handlers, t)) (own_name lib self own)
            ∙ ap (λ hs. (first_formatter hs, t)) h.source)

  abbrev copied_to : Level → List (Option Formatter) → Registered → Registered
  copied_to level hs l = record l { level = some level; handlers = hs; propagate = false }

  configure_logger-During :
      (level : Level) (f : Formatter) (o : List (Option Formatter))
      → known lib.knows_level level ≡ ok tt
      → (registered self.name w).handlers ≡ some f ∷ o
      → Run
          (λ u v.
            During
              (some (with_name f) ∷ o)
              (copied_to level (some (with_name f) ∷ o) (registered n w))
              v)
          (Never {A = String})
          (configure_logger lib self level n w)
  unfolding configure_logger set_level
  configure_logger-During level f o knows source =
      let hs = some f ∷ o in
      Run-bind _ _ w
        (update-During (λ l. record l { handlers = [] }) hs (registered n w) w
          (record { source = source; target = refl; others = λ m p p'. refl }))
        λ _ t1 d1.
          Run-bind _ _ t1
            (Run-lift _ _ t1 tt knows
              (update-During (λ l. record l { level = some level }) hs _ t1 d1))
            λ _ t2 d2.
              Run-bind _ _ t2 (update-During (λ l. record l { propagate = false }) hs _ t2 d2)
                λ _ t3 d3. Run-bind _ _ t3 (add_keys-During f o _ t3 d3) λ _ t4 d4.
                  Run-gets _ _ t4 (some (with_name f) ∷ o) d4.source (
                    update-During
                      (λ l. record l { handlers = l.handlers ++ (some (with_name f) ∷ o) })
                      (some (with_name f) ∷ o) _ t4 d4)

store-again :
    {V : Type 0} (k : String) (v : V) (d : Dict String V) → store k v (store k v d) ≡ store k v d
unfolding store
store-again k v [] = rw ((string_eq.same_key_iff k k).1 refl) refl
store-again k v ((j, u) ∷ d) = elim (Bool-cases (j == k)) [
  | inl same ↦ rw (same, same) refl
  | inr other ↦ rw (other, other) (ap (λ e. (j, u) ∷ e) (store-again k v d))
]

with_name-again : (f : Formatter) → with_name (with_name f) ≡ with_name f
unfolding append_keys merge
with_name-again f =
    ap (λ d. record f { log_format = d }) (store-again "name" (str "%(name)s") f.log_format)

flipped : (a b : String) → (a == b) ≡ false → (b == a) ≡ false
flipped a b h = ground (arith, string_eq.same_key_iff a b, string_eq.same_key_iff b a)

-- A logger has the given level and handlers, and hands nothing to its parent.
pub record IsCopied (level : Level) (hs : List (Option Formatter)) (l : Registered) : Type 0 where
  pub leveled : l.level ≡ some level
  pub handled : l.handlers ≡ hs
  pub alone : l.propagate ≡ false

module _ {App : Type 0} (lib : Library) (self : Logger) (own : self.child ≡ false) (level : Level)
    (o : List (Option Formatter)) (knows : known lib.knows_level level ≡ ok tt) where
  -- one logger more
  record After (f : Formatter) (n : String) (w v : World App) : Type 0 where
    source : (registered self.name v).handlers ≡ some (with_name f) ∷ o
    copied : IsCopied level (some (with_name f) ∷ o) (registered n v)
    kept :
        (m : String)
        → (self.name == m) ≡ false
        → IsCopied level (some (with_name f) ∷ o) (registered m w)
        → IsCopied level (some (with_name f) ∷ o) (registered m v)

  configure_logger-After :
      (f : Formatter) (n : String) (w : World App)
      → (self.name == n) ≡ false
      → (registered self.name w).handlers ≡ some f ∷ o
      → Run (λ u v. After f n w v) (Never {A = String}) (configure_logger lib self level n w)
  configure_logger-After f n w apart source =
      Run-implies
        (λ u v d.
          let at : IsCopied level (some (with_name f) ∷ o) (registered n v) =
            subst (IsCopied level (some (with_name f) ∷ o)) (sym d.target)
              (record { leveled = refl; handled = refl; alone = refl }) in
          record {
            source = d.source;
            copied = at;
            kept = λ m away h. elim (Bool-cases (n == m)) [
              | inl same ↦
                  subst (λ i. IsCopied level (some (with_name f) ∷ o) (registered i v))
                    ((string_eq.same_key_iff n m).0 same) at
              | inr other ↦
                  subst (IsCopied level (some (with_name f) ∷ o)) (sym (d.others m other away)) h
            ];
          })
        (λ e v never. never)
        (configure_logger-During lib self own n (flipped self.name n apart) apart w level f o knows
          source)

  -- the loggers after the first one, when the source has its name key
  record Rest (f : Formatter) (names : List String) (w v : World App) : Type 0 where
    copied : All (λ n. IsCopied level (some f ∷ o) (registered n v)) names
    kept :
        (m : String)
        → (self.name == m) ≡ false
        → IsCopied level (some f ∷ o) (registered m w)
        → IsCopied level (some f ∷ o) (registered m v)

  configure_each-Rest :
      (f : Formatter) (names : List String) (w : World App)
      → with_name f ≡ f
      → All (λ n. (self.name == n) ≡ false) names
      → (registered self.name w).handlers ≡ some f ∷ o
      → Run (λ u v. Rest f names w v) (Never {A = String}) (configure_each lib self level names w)
  unfolding configure_each
  configure_each-Rest f [] w still apart source =
      unfold pure in returned (record { copied = tt; kept = λ m away h. h })
  configure_each-Rest f (n ∷ names) w still (apart, rest) source =
      Run-bind _ _ w (configure_logger-After f n w apart source) λ u t a.
        Run-implies
          (λ x v r. record {
            copied = (r.kept n apart (rename still t n a.copied), r.copied);
            kept = λ m away h.
                r.kept m away (rename still t m (a.kept m away (rename (sym still) w m h)));
          })
          (λ e v never. never)
          (configure_each-Rest f names t still rest (a.source ∙ ap (λ i. some i ∷ o) still))
    where
      rename :
          {g h : Formatter}
          → g ≡ h
          → (t : World App) (m : String) → IsCopied level (some g ∷ o) (registered m t)
          → IsCopied level (some h ∷ o) (registered m t)
      rename e t m c = subst (λ i. IsCopied level (some i ∷ o) (registered m t)) e c

  -- the same from a source that has not its name key yet
  pub configure_each-IsCopied :
      (f : Formatter) (names : List String) (w : World App)
      → All (λ n. (self.name == n) ≡ false) names
      → (registered self.name w).handlers ≡ some f ∷ o
      → Run
          (λ u v. All (λ n. IsCopied level (some (with_name f) ∷ o) (registered n v)) names)
          (Never {A = String})
          (configure_each lib self level names w)
  configure_each-IsCopied f [] w apart source = unfold configure_each in unfold pure in returned tt
  configure_each-IsCopied f (n ∷ names) w (apart, rest) source =
      unfold configure_each in
      (Run-bind _ _ w (configure_logger-After f n w apart source) λ u t a.
        Run-implies (λ x v r. (r.kept n apart a.copied, r.copied)) (λ e v never. never)
          (configure_each-Rest (with_name f) names t (with_name-again f) rest a.source))
