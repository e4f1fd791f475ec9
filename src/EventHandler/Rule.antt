-- ===== src/EventHandler/Rule.antt =====
-- event_handler/api_gateway.py: `_compile_regex` and `Pattern.match` on what it compiles. The
-- characters of a rule outside `<name>` stand for themselves, and `.` for any but a line feed; rules
-- with other operators of regular expressions are left out.
use Prim.Native.Char.{Char, code}
use Prim.Native.String.{[] as no_text, ◌∷◌ as prepend, ◌++◌ as join}
use aws_lambda_powertools_py.Common.{
  String, Bool, true, false, ◌&&◌, ◌||◌, not, Option, none, some, List, [], ◌∷◌, ◌++◌, any, eqb,
  if◌then◌else◌,
}
use aws_lambda_powertools_py.Common.Eq.{◌==◌, string_eq}

-- What `str` and `re` take from the Unicode tables.
pub record Unicode : Type 0 where
  -- `\w`
  pub is_word : Char → Bool
  pub isidentifier : String → Bool
  pub upper : String → String
  pub lower : String → String

pub data Token : Type 0 where
  lit : Char → Token
  any_char : Token
  group : String → Token

-- what stands for `$` at the end of `base_regex`
pub data Ending : Type 0 where
  exact : Ending
  slashes : Ending

pub record Rule : Type 0 where
  pub tokens : List Token
  pub ending : Ending

abbrev pub Args : Type 0
Args = List (String × String)

-- _SAFE_URI and _UNSAFE_URI
abbrev pub safe_uri : String
safe_uri = "-._~()'!*:@,;"

abbrev pub unsafe_uri : String
unsafe_uri = "%<> []{}|^"

abbrev pub same_char : Char → Char → Bool
same_char c d = eqb (code c) (code d)

char_in : Char → String → Bool
char_in c no_text = false
char_in c (prepend d s) = same_char c d || char_in c s

pub is_text_char : Char → String → Bool
is_text_char c (prepend d s) = same_char c d
is_text_char c no_text = false

literal : Char → Token
unfolding is_text_char
literal c = if is_text_char c "." then any_char else lit c

literals : String → List Token → List Token
unfolding literal
literals no_text ts = ts
literals (prepend c s) ts = literal c ∷ literals s ts

group_names : List Token → List String
group_names [] = []
group_names (group name ∷ ts) = name ∷ group_names ts
group_names (t ∷ ts) = group_names ts

-- `$`: at the end, or before a line feed that ends the text
unfoldable pub at_end : Ending → String → Bool
unfolding is_text_char
at_end ending no_text = true
at_end exact (prepend c s) = is_text_char c "\n" && s == ""
at_end slashes (prepend c s) =
    let rest = at_end slashes s in
    if is_text_char c "/" then rest else is_text_char c "\n" && s == ""

abbrev bind_name : String → Option (String × Args) → Option Args
bind_name name none = none
bind_name name (some (v, args)) = some ((name, v) ∷ args)

abbrev first_of : Option (String × Args) → Char → Option Args → Option (String × Args)
first_of (some (v, args)) c rest = some (prepend c v, args)
first_of none c none = none
first_of none c (some args) = some (prepend c no_text, args)

module _ (u : Unicode) where
  -- the character class of _NAMED_GROUP_BOUNDARY_PATTERN
  pub is_allowed : Char → Bool
  unfolding char_in
  is_allowed c = char_in c safe_uri || (char_in c unsafe_uri || u.is_word c)

  -- one character of `re.sub` for `<\w+>`: the tokens that it settles, and what was read since a `<`
  -- that may open a name
  read_char : Option String → Char → List Token × Option String
  unfolding literals is_text_char
  read_char none c = if is_text_char c "<" then ([], some "") else (literal c ∷ [], none)
  read_char (some name) c =
      if u.is_word c
      then ([], some (join name (prepend c no_text)))
      else if is_text_char c "<"
      then (literals (join "<" name) [], some "")
      else if is_text_char c ">" && not (name == "")
      then (group name ∷ [], none)
      else (literals (join "<" name) (literal c ∷ []), none)

  scan : Option String → String → List Token
  unfolding read_char
  scan none no_text = []
  scan (some name) no_text = literals (join "<" name) []
  scan pending (prepend c s) = let (ts, rest) = read_char pending c in ts ++ scan rest s

  -- what `re.compile` wants of the names: identifiers, each of which stands once
  are_names : List String → Bool
  are_names [] = true
  are_names (name ∷ names) =
      u.isidentifier name && (not (any (λ m. m == name) names) && are_names names)

  -- `_compile_regex`; `none` is `re.error`.
  unfoldable pub compile_regex : Ending → String → Option Rule
  unfolding scan group_names are_names
  compile_regex ending rule =
      let tokens = scan none rule in
      if are_names (group_names tokens)
      then some (record { tokens = tokens; ending = ending })
      else none

  -- A group takes as many of its characters as it can, and gives back from the end as long as `rest`
  -- does not match what follows.
  take_group : (String → Option Args) → String → Option (String × Args)
  take_group rest no_text = none
  take_group rest (prepend c s) =
      let longer = take_group rest s in if is_allowed c then first_of longer c (rest s) else none

  -- what `re` does of `Pattern.match` and `groupdict` for the rules above, from the first token: it is
  -- Python's, and stands here so that a rule can be matched
  unfoldable pub match_tokens : Ending → List Token → String → Option Args
  unfolding at_end take_group is_allowed
  match_tokens ending [] s = if at_end ending s then some [] else none
  match_tokens ending (group name ∷ ts) s = bind_name name (take_group (match_tokens ending ts) s)
  match_tokens ending (t ∷ ts) no_text = none
  match_tokens ending (any_char ∷ ts) (prepend c s) =
      if is_text_char c "\n" then none else match_tokens ending ts s
  match_tokens ending (lit d ∷ ts) (prepend c s) =
      if same_char d c then match_tokens ending ts s else none

  unfoldable pub match_rule : Rule → String → Option Args
  unfolding match_tokens
  match_rule rule path = match_tokens rule.ending rule.tokens path
