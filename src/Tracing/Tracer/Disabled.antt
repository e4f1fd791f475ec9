-- ===== src/Tracing/Tracer/Disabled.antt =====
-- Tracers that are made one after the other, over the configuration that they share.
use aws_lambda_powertools_py.Common.{
  String, Bool, true, false, ◌||◌, Option, none, some, List, [], ◌∷◌, ◌≡◌, refl, ap, ◌∙◌,
}
use aws_lambda_powertools_py.Common.Effect.{Op, Result, ok, raised, pure, lift, modify, ◌>>=◌}
use aws_lambda_powertools_py.Common.Invariant.{
  Preserves, preserving, Preserves-bind, Preserves-lift, Preserves-gets,
}
use aws_lambda_powertools_py.Tracing.Provider.{
  Provider, Sdk, Environment, Tracer, World, on_recorder,
}
use aws_lambda_powertools_py.Tracing.Tracer.{
  patch, patch_by, tracer_of, wanted, configured, start, init,
}
use aws_lambda_powertools_py.Common.Run.{
  Run, returned, threw, Run-chain, Run-gets, Run-any, Run-implies,
}

or_true : (b c : Bool) → c ≡ true → (b || c) ≡ true
or_true true c h = refl
or_true false c h = h

module _ {Seg S App : Type 0} where
  -- the process makes disabled tracers only
  abbrev IsOff : World Seg S App → Type 0
  IsOff w = w.config.disabled ≡ true

  on_recorder-IsOff : {A : Type 0} (m : Op S String A) → Preserves IsOff (on_recorder m)
  unfolding on_recorder
  on_recorder-IsOff m = record { final = λ w h. h }

  patch_by-IsOff :
      (t : Tracer Seg S) (o : Option (List String)) → Preserves IsOff (patch_by {App = App} t o)
  unfolding patch_by
  patch_by-IsOff t none = search (preserving, on_recorder-IsOff)
  patch_by-IsOff t (some l) = search (preserving, on_recorder-IsOff)

  patch-IsOff :
      (t : Tracer Seg S) (o : Option (List String)) → Preserves IsOff (patch {App = App} t o)
  unfolding patch
  patch-IsOff t o = search (preserving, patch_by-IsOff)

-- the arguments of a constructor call
pub record Arguments (Seg S : Type 0) : Type 0 where
  pub service : Option String
  pub disabled : Option Bool
  pub auto_patch : Option Bool
  pub patch_modules : Option (List String)
  pub provider : Option (Provider Seg S)

module _ {Seg S App : Type 0} (sdk : Sdk Seg S) (env : Environment) where
  abbrev pub make : Arguments Seg S → Op (World Seg S App) String (Tracer Seg S)
  make a = init sdk env a.service a.disabled a.auto_patch a.patch_modules a.provider

  -- the process after some constructor calls, which may have raised
  abbrev pub make_all : List (Arguments Seg S) → World Seg S App → World Seg S App
  make_all [] w = w
  make_all (a ∷ rest) w = make_all rest (make a w).1

  start-IsOff :
      (t : Tracer Seg S) (o : Option (List String))
      → Preserves (IsOff {App = App}) (start sdk env t o)
  unfolding start
  start-IsOff t o = search (preserving, on_recorder-IsOff, patch-IsOff) depth 12

  -- the tracer that is returned is the one that was made
  start-same :
      (t : Tracer Seg S) (o : Option (List String)) (w : World Seg S App)
      → Run (λ t' _. t' ≡ t) (λ e _. Unit {0}) (start sdk env t o w)
  unfolding start
  start-same t o w = Run-chain _ _ w (Run-any _) λ _ w1 _.
      Run-chain _ _ w1 (Run-any _)
        λ _ w2 _. Run-chain _ _ w2 (Run-any _) λ _ w3 _. unfold pure in returned refl

  configured-IsOff :
      (a : Arguments Seg S) (d : Bool)
      → Preserves {E = String} (IsOff {App = App}) (
          modify (λ w. record w {
            config =
                configured sdk env a.service d a.auto_patch a.patch_modules a.provider w.config;
          }))
  unfolding modify configured
  configured-IsOff a d = record { final = λ w off. or_true d w.config.disabled off }

  make-IsOff : (a : Arguments Seg S) → Preserves (IsOff {App = App}) (make a)
  unfolding init
  make-IsOff a = Preserves-bind _ _ (Preserves-lift (wanted sdk env a.disabled)) λ d.
      Preserves-bind _ _ (configured-IsOff a d) λ _.
        Preserves-bind _ _ (Preserves-gets (λ w. w.config))
          λ c. start-IsOff (tracer_of sdk env c) a.patch_modules

  make_all-IsOff :
      (later : List (Arguments Seg S)) (w : World Seg S App) → IsOff w → IsOff (make_all later w)
  make_all-IsOff [] w off = off
  make_all-IsOff (a ∷ rest) w off = make_all-IsOff rest (make a w).1 ((make-IsOff a).final w off)

  -- a tracer that is asked to be disabled leaves the process off, also where the constructor raises
  first-IsOff :
      (a : Arguments Seg S) (w : World Seg S App) → a.disabled ≡ some true → IsOff (make a w).1
  unfolding init wanted configured ◌>>=◌
  first-IsOff a w e =
      let c = configured sdk env a.service true a.auto_patch a.patch_modules a.provider w.config in
      rw e
        ((start-IsOff (tracer_of sdk env c) a.patch_modules).final (record w { config = c }) refl)

  make-disabled :
      (a : Arguments Seg S) (w : World Seg S App)
      → IsOff w
      → Run (λ t _. t.disabled ≡ true) (λ e _. Unit {0}) (make a w)
  unfolding init configured
  make-disabled a w off =
      Run-chain {Q = λ d t. IsOff t} _ _ w (lifted (wanted sdk env a.disabled)) λ d t at.
        Run-chain {Q = λ _ t. IsOff t} _ _ t
          (unfold modify in returned (or_true d t.config.disabled at))
          λ _ u at'. Run-gets _ _ u u.config refl (
            Run-implies (λ t' v same. ap (λ (x : Tracer Seg S). x.disabled) same ∙ at') (λ e v x. x)
              (start-same _ a.patch_modules u))
    where
      lifted : (r : Result String Bool) → Run (λ d t. IsOff t) (λ e t. Unit {0}) (lift r w)
      lifted (ok d) = unfold lift in returned off
      lifted (raised e) = unfold lift in threw tt

  -- Once a tracer was asked to be disabled, every tracer that the process makes later is disabled,
  -- whatever its own arguments, those of the ones between and the environment.
  pub make-stays_disabled :
      (first : Arguments Seg S) (later : List (Arguments Seg S)) (last : Arguments Seg S)
      (w : World Seg S App)
      → first.disabled ≡ some true
      → Run
          (λ t _. t.disabled ≡ true)
          (λ e _. Unit {0})
          (make last (make_all later (make first w).1))
  make-stays_disabled first later last w e =
      make-disabled last _ (make_all-IsOff later _ (first-IsOff first w e))
