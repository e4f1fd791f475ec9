-- ===== src/Logging/Formatter/Reset.antt =====
-- The keys that a formatter has after `clear_state`.
use aws_lambda_powertools_py.Common.{String, Option, List, ◌≡◌, refl}
use aws_lambda_powertools_py.Common.Dict.{Dict}
use aws_lambda_powertools_py.Common.Json.{Json}
use aws_lambda_powertools_py.Logging.Formatter.{
  Formatter, new_formatter, append_keys, remove_keys, clear_state,
}

-- The formatters that are reached from the first by the three operations.
pub data Reached (first : Formatter) : Formatter → Type 0 where
  same : Reached first first
  appended_to :
      {f : Formatter} (keys : Dict String Json)
      → Reached first f
      → Reached first (append_keys keys f)
  removed_from :
      {f : Formatter} (keys : List String) → Reached first f → Reached first (remove_keys keys f)
  cleared : {f : Formatter} → Reached first f → Reached first (clear_state f)

clear_state_same : (first f : Formatter) → Reached first f → clear_state f ≡ clear_state first
unfolding append_keys remove_keys clear_state
clear_state_same first f same = refl
clear_state_same first f (appended_to {f = g} keys h) = clear_state_same first g h
clear_state_same first f (removed_from {f = g} keys h) = clear_state_same first g h
clear_state_same first f (cleared {f = g} h) = clear_state_same first g h

-- Whatever keys were appended and removed, clearing gives the formatter as it was constructed.
pub clear_state-new_formatter :
    (order : Option (List String)) (keys : Dict String Json) (f : Formatter)
    → Reached (new_formatter order keys) f
    → clear_state f ≡ new_formatter order keys
unfolding clear_state new_formatter
clear_state-new_formatter order keys f h = clear_state_same (new_formatter order keys) f h
