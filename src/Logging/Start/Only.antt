-- ===== src/Logging/Start/Only.antt =====
-- What the construction of one logger changes.
use aws_lambda_powertools_py.Common.{
  String, Bool, true, false, ◌||◌, Option, none, some, List, [], ◌∷◌, ◌++◌, ◌≡◌, refl, ap, ◌∙◌,
  if◌then◌else◌,
}
use aws_lambda_powertools_py.Common.Eq.{◌==◌, string_eq}
use aws_lambda_powertools_py.Common.Dict.{Dict, get, store, merge, get-store}
use aws_lambda_powertools_py.Common.Effect.{Result, ok, raised, pure, lift, modify}
use aws_lambda_powertools_py.Common.Json.{Json}
use aws_lambda_powertools_py.Common.Run.{
  Run, returned, threw, Never, Run-bind, Run-chain, Run-lift, Run-gets, Run-implies,
}
use aws_lambda_powertools_py.Logging.Formatter.{Formatter, new_formatter, append_keys}
use aws_lambda_powertools_py.Logging.Process.{
  Level, Registered, World, Logger, Library, or_fresh, is_option, any_option, custom_keys,
  formatter_with, registered, update, first_formatter, no_handlers, with_first,
}
use aws_lambda_powertools_py.Logging.Logger.{
  formatter_for, registered_formatter, set_formatter, on_formatter, add_keys, has_handler, register,
  structure_logs,
}
use aws_lambda_powertools_py.Logging.Logger.Isolated.{registered-update, own_name}
use aws_lambda_powertools_py.Logging.Start.{
  Arguments, configure_sampling, set_level, add_handler, suppress, known, set_up,
}

pub registered-update_other :
    {App : Type 0} (name n : String) (f : Registered → Registered) (w : World App)
    → (name == n) ≡ false
    → registered n (update name f w).1 ≡ registered n w
unfolding registered update
registered-update_other name n f w other = ap or_fresh (
    get-store name n (f (registered name w)) w.loggers
    ∙ ap (λ b. if b then some (f (registered name w)) else get n w.loggers) other)

-- Of the loggers of a process only one may have changed, and that is as given.
pub record Only {App : Type 0} (name : String) (w : World App) (b : Bool)
    (hs : List (Option Formatter)) (t : World App) : Type 0 where
  pub flag : (registered name t).init ≡ b
  pub handlers : (registered name t).handlers ≡ hs
  pub elsewhere : (n : String) → (name == n) ≡ false → registered n t ≡ registered n w

module _ {App : Type 0} (name : String) (w : World App) where
  update-Only :
      (f : Registered → Registered) (b b' : Bool) (hs hs' : List (Option Formatter)) (t : World App)
      → Only name w b hs t
      → ((l : Registered) → l.init ≡ b → (f l).init ≡ b')
      → ((l : Registered) → l.handlers ≡ hs → (f l).handlers ≡ hs')
      → Run (λ u v. Only name w b' hs' v) (Never {A = String}) (update name f t)
  update-Only f b b' hs hs' t h flag handlers =
      unfold update in
      returned (record {
        flag = ap (λ (l : Registered). l.init) (registered-update name f t) ∙ flag _ h.flag;
        handlers =
            ap (λ (l : Registered). l.handlers) (registered-update name f t)
            ∙ handlers _ h.handlers;
        elsewhere = λ n other. registered-update_other name n f t other ∙ h.elsewhere n other;
      })

both_false : (b c : Bool) → (b || c) ≡ false → (b ≡ false) × (c ≡ false)
both_false true c h = cc
both_false false c h = (refl, h)

either_false : (b c : Bool) → b ≡ false → c ≡ false → (b || c) ≡ false
either_false true c h g = cc
either_false false c h g = g

if_none :
    (b : Bool) (d d' : Dict String Json)
    → any_option d ≡ false
    → any_option d' ≡ false
    → any_option (if b then d else d') ≡ false
if_none true d d' h h' = h
if_none false d d' h h' = h'

-- keys that are no options of the formatter stay so beside others
any_option-store :
    (k : String) (v : Json) (d : Dict String Json)
    → is_option k ≡ false
    → any_option d ≡ false
    → any_option (store k v d) ≡ false
unfolding any_option store
any_option-store k v [] fresh h = either_false _ _ fresh refl
any_option-store k v ((j, u) ∷ d) fresh h =
    let (here, rest) = both_false (is_option j) (any_option d) h in
    if_none (j == k) ((j, v) ∷ d) ((j, u) ∷ store k v d) h
      (either_false _ _ here (any_option-store k v d fresh rest))

pub any_option-merge :
    (items d : Dict String Json)
    → any_option items ≡ false
    → any_option d ≡ false
    → any_option (merge items d) ≡ false
unfolding merge any_option
any_option-merge [] d h g = g
any_option-merge ((k, v) ∷ items) d h g =
    let (here, rest) = both_false (is_option k) (any_option items) h in
    any_option-merge items (store k v d) rest (any_option-store k v d here g)

module _ {App : Type 0} (lib : Library) (self : Logger) (own : self.child ≡ false)
    (w : World App) where
  set_formatter-Only :
      (b : Bool) (h : Option Formatter) (g : Formatter) (t : World App)
      → Only self.name w b (h ∷ []) t
      → Run
          (λ u v. Only self.name w b (some g ∷ []) v)
          (Never {A = String})
          (set_formatter lib self g t)
  unfolding set_formatter
  set_formatter-Only b h g t only = rw (own_name lib self own) (
      update-Only self.name w (λ l. record l { handlers = with_first g l.handlers }) b b (h ∷ [])
        (some g ∷ []) t only (λ l e. e) (λ l e. ap (with_first g) e))

  add_keys-Only :
      (b : Bool) (f : Formatter) (keys : Dict String Json) (t : World App)
      → Only self.name w b (some f ∷ []) t
      → Run
          (λ u v. (g : Formatter) × Only self.name w b (some g ∷ []) v)
          (Never {A = String})
          (add_keys lib self keys t)
  unfolding add_keys on_formatter
  add_keys-Only b f keys t only =
      Run-bind {Q = λ x v. (x ≡ f) × (v ≡ t)} _ _ t (rw found_one (returned (refl, refl)))
        λ x v (got, same).
          rw (got, same)
            (Run-implies (λ u v only'. (append_keys keys f, only')) (λ e v never. never)
              (set_formatter-Only b (some f) (append_keys keys f) t only))
    where
      found_one : registered_formatter lib self t ≡ (ok f, t)
      found_one =
          unfold registered_formatter in
          (ap (λ n. (first_formatter (registered n t).handlers, t)) (own_name lib self own)
            ∙ ap (λ hs. (first_formatter hs, t)) only.handlers)

  formatter_for-ok :
      (o : Option Formatter) (order : Option (List String)) (keys : Dict String Json)
      → any_option keys ≡ false
      → (f : Formatter) × (formatter_for o (some order) keys ≡ ok f)
  unfolding formatter_for formatter_with
  formatter_for-ok (some f) order keys plain = (f, refl)
  formatter_for-ok none order keys plain =
      (new_formatter order keys, if_made (any_option keys) plain)
    where
      if_made :
          (b : Bool)
          → b ≡ false
          → if◌then◌else◌ {A = Result String Formatter} b
              (raised "TypeError")
              (ok (new_formatter order keys))
            ≡ ok (new_formatter order keys)
      if_made true h = cc
      if_made false h = refl

  structure_logs-Only :
      (h : Option Formatter) (order : Option (List String)) (keys : Dict String Json)
      (t : World App)
      → any_option (merge keys self.default_log_keys) ≡ false
      → Only self.name w false (h ∷ []) t
      → Run
          (λ u v. (g : Formatter) × Only self.name w false (some g ∷ []) v)
          (Never {A = String})
          (structure_logs lib self false (some order) keys t)
  unfolding structure_logs
  structure_logs-Only h order keys t plain only =
      let log_keys = merge keys self.default_log_keys in
      let (f, made) = formatter_for-ok self.logger_formatter order log_keys plain in
      Run-gets _ _ t false only.flag (
        unfold register in
        (Run-lift _ _ t f made (
          Run-bind {Q = λ u v. v ≡ t} _ _ t (there t only) λ u v same. rw same (
            Run-bind _ _ t (set_formatter-Only false h f t only)
              λ _ v' only'. add_keys-Only false f (custom_keys log_keys) v' only'))))
    where
      one :
          (t : World App) → Only self.name w false (h ∷ []) t → has_handler lib self t ≡ (ok tt, t)
      one t only =
          unfold has_handler in
          (ap (λ n. (no_handlers (registered n t).handlers, t)) (own_name lib self own)
            ∙ ap (λ hs. (no_handlers hs, t)) only.handlers)

      there :
          (t : World App)
          → Only self.name w false (h ∷ []) t
          → Run (λ u v. v ≡ t) (Never {A = String}) (has_handler lib self t)
      there t only = rw (one t only) (returned refl)

module _ {App : Type 0} (lib : Library) (self : Logger) (own : self.child ≡ false)
    (w : World App) where
  -- the logger has no handler yet
  abbrev Bare : World App → Type 0
  Bare t = Only self.name w false [] t

  lift-Bare :
      {A : Type 0} (r : Result String A) (t : World App)
      → Bare t
      → Run (λ x v. Bare v) (λ e v. Bare v) (lift r t)
  unfolding lift
  lift-Bare (ok x) t o = returned o
  lift-Bare (raised e) t o = threw o

  set_level-Bare :
      (level : Level) (t : World App)
      → Bare t
      → Run (λ x v. Bare v) (λ e v. Bare v) (set_level lib self.name level t)
  unfolding set_level
  set_level-Bare level t o = Run-chain _ _ t (lift-Bare (known lib.knows_level level) t o) λ u v o'.
      Run-implies (λ u v' o''. o'') (λ e v' never. absurd never)
        (update-Only self.name w (λ l. record l { level = some level }) false false [] [] v o'
          (λ l e. e) (λ l e. e))

  quieted :
      (f : Formatter) (b : Bool) (t : World App)
      → Only self.name w false (some f ∷ []) t
      → Run
          (λ u v. Only self.name w false (some f ∷ []) v)
          (Never {A = String})
          ((if b then pure tt else suppress lib self.service) t)
  unfolding suppress
  quieted f true t o = unfold pure in returned o
  quieted f false t o =
      unfold modify in
      unfold registered in
      returned (record { flag = o.flag; handlers = o.handlers; elsewhere = o.elsewhere })

  -- the logger stays as it was, or is set up with one handler
  pub set_up-Only :
      (quiet : Bool) (a : Arguments) (t : World App)
      → any_option (merge a.keys self.default_log_keys) ≡ false
      → Bare t
      → Run
          (λ l v. (f : Formatter) × Only self.name w true (some f ∷ []) v)
          (λ e v. Bare v)
          (set_up lib quiet a self t)
  unfolding set_up add_handler
  set_up-Only quiet a t plain only =
      Run-chain _ _ t (lift-Bare (configure_sampling self) t only) λ level t1 o1.
        Run-chain _ _ t1 (set_level-Bare level t1 o1) λ _ t2 o2.
          Run-bind _ _ t2
            (update-Only self.name w (λ l. record l { handlers = l.handlers ++ a.handler ∷ [] })
              false false [] (a.handler ∷ []) t2 o2 (λ l e. e)
              (λ l e. ap (λ hs. hs ++ a.handler ∷ []) e))
            λ _ t3 o3.
              Run-bind _ _ t3
                (structure_logs-Only lib (record self { log_level = level }) own w a.handler
                  a.log_record_order a.keys t3 plain o3)
                λ _ t4 (f, o4). Run-bind _ _ t4 (quieted f quiet t4 o4) λ _ t5 o5.
                  Run-bind _ _ t5
                    (update-Only self.name w (λ l. record l { init = true }) false true
                      (some f ∷ []) (some f ∷ []) t5 o5 (λ l e. refl) (λ l e. e))
                    λ _ t6 o6. unfold pure in returned (f, o6)
