-- ===== src/Logging/Caller.antt =====
-- logging/logger.py: `findCaller`, and `set_package_logger`.
use aws_lambda_powertools_py.Common.{
  ℕ, zero, suc, String, Bool, ◌&&◌, ◌||◌, Option, none, some, List, [], ◌∷◌, ◌≡◌, ap, ◌∙◌,
  Bool-cases, inl, inr, if◌then◌else◌,
}
use aws_lambda_powertools_py.Common.Eq.{◌==◌, string_eq}
use aws_lambda_powertools_py.Common.Effect.{Op, ◌>>◌}
use aws_lambda_powertools_py.Logging.Process.{Level, World, Library}
use aws_lambda_powertools_py.Logging.Start.{set_level, add_handler, is_part}
use aws_lambda_powertools_py.Logging.Copy.{package_logger}

-- A frame of the call stack by its code's file, its line and its function; os.path.normcase leaves a
-- file's name as it is on the systems that Lambda runs on.
pub record Frame : Type 0 where
  pub filename : String
  pub lineno : ℕ
  pub function : String

-- `_is_internal_frame`, by logging's own file
unfoldable pub is_internal_frame : String → Frame → Bool
is_internal_frame srcfile f =
    f.filename == srcfile || (is_part "importlib" f.filename && is_part "_bootstrap" f.filename)

-- the loop: the frame, and its callers from the nearest on
unfoldable pub walk : String → ℕ → Frame → List Frame → Frame
walk srcfile zero f callers = f
walk srcfile (suc stacklevel) f [] = f
walk srcfile (suc stacklevel) f (caller ∷ callers) =
    walk srcfile (if is_internal_frame srcfile caller then suc stacklevel else stacklevel) caller
      callers

-- `findCaller`, of the stack from the current frame on; `printed` is what `print_stack` writes for a
-- frame, less a line's end
unfoldable pub find_caller :
    String → (Frame → String) → Bool → ℕ → List Frame → (String × ℕ × String) × Option String
find_caller srcfile printed stack_info stacklevel [] =
    (("(unknown file)", 0, "(unknown function)"), none)
find_caller srcfile printed stack_info stacklevel (current ∷ callers) =
    let f = walk srcfile stacklevel current callers in
    ((f.filename, f.lineno, f.function), if stack_info then some (printed f) else none)

-- the callers that are no frames of logging or of the import system
unfoldable pub external : String → List Frame → List Frame
external srcfile [] = []
external srcfile (f ∷ callers) =
    let rest = external srcfile callers in if is_internal_frame srcfile f then rest else f ∷ rest

abbrev pub get_elem? : List Frame → ℕ → Option Frame
get_elem? [] n = none
get_elem? (f ∷ fs) zero = some f
get_elem? (f ∷ fs) (suc n) = get_elem? fs n

walk-external :
    (srcfile : String) (stacklevel : ℕ) (f g : Frame) (callers : List Frame)
    → get_elem? (external srcfile callers) stacklevel ≡ some g
    → walk srcfile (suc stacklevel) f callers ≡ g
unfolding walk external
walk-external srcfile n f g [] h = cc
walk-external srcfile zero f g (c ∷ callers) h = elim (Bool-cases (is_internal_frame srcfile c)) [
  | inl internal ↦
      ap (λ b. walk srcfile (if b then 1 else 0) c callers) internal
      ∙ walk-external srcfile zero c g callers (rw internal at h)
  | inr other ↦
      let e = rw other at h in
      ap (λ b. walk srcfile (if b then 1 else 0) c callers) other ∙ only_one e
]
  where
    only_one : ◌≡◌ {A = Option Frame} (some c) (some g) → c ≡ g
    only_one e = cc
walk-external srcfile (suc k) f g (c ∷ callers) h =
    elim (Bool-cases (is_internal_frame srcfile c)) [
      | inl internal ↦
          ap (λ b. walk srcfile (if b then suc (suc k) else suc k) c callers) internal
          ∙ walk-external srcfile (suc k) c g callers (rw internal at h)
      | inr other ↦
          ap (λ b. walk srcfile (if b then suc (suc k) else suc k) c callers) other
          ∙ walk-external srcfile k c g callers (rw other at h)
    ]

-- The place of a log call is that of the external caller that the level counts to, the nearest being
-- the first, if there are as many, whatever frames of logging or of the import system lie between.
pub find_caller-external :
    (srcfile : String) (printed : Frame → String) (stack_info : Bool) (stacklevel : ℕ)
    (current g : Frame) (callers : List Frame)
    → get_elem? (external srcfile callers) stacklevel ≡ some g
    → find_caller srcfile printed stack_info (suc stacklevel) (current ∷ callers)
      ≡ ((g.filename, g.lineno, g.function), if stack_info then some (printed g) else none)
unfolding find_caller
find_caller-external srcfile printed stack_info n current g callers h =
    ap
      (λ (f : Frame).
        ((f.filename, f.lineno, f.function), if stack_info then some (printed f) else none))
      (walk-external srcfile n current g callers h)

-- `set_package_logger`: a handler whose formatter is not Powertools' own is written as one without
unfoldable pub set_package_logger :
    {App : Type 0} → Library → Level → Op (World App) String (Unit {0})
set_package_logger lib level = do
  set_level lib package_logger level
  add_handler lib package_logger none
