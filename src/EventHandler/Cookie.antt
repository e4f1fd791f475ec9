-- ===== src/EventHandler/Cookie.antt =====
-- shared/cookies.py. Dates, and the texts of dates and numbers, are parameters.
use Prim.Native.String.{◌++◌ as join}
use aws_lambda_powertools_py.Common.{
  ℕ, zero, String, Bool, Option, none, some, List, [], ◌∷◌, if◌then◌else◌,
}
use aws_lambda_powertools_py.Common.Eq.{◌==◌, string_eq}
use aws_lambda_powertools_py.Common.Int.{ℤ, pos, negsuc}

pub data SameSite : Type 0 where
  default_mode lax_mode strict_mode none_mode : SameSite

pub record Cookie (Date : Type 0) : Type 0 where
  pub name : String
  pub value : String
  pub path : String
  pub domain : String
  pub secure : Bool
  pub http_only : Bool
  pub max_age : Option ℤ
  pub expires : Option Date
  pub same_site : Option SameSite
  pub custom_attributes : List String

-- `strftime` for the format of `_format_date`, and `str` of a number that is positive
pub record Texts (Date : Type 0) : Type 0 where
  pub format_date : Date → String
  pub str : ℕ → String

abbrev mode : SameSite → String
mode default_mode = ""
mode lax_mode = "Lax"
mode strict_mode = "Strict"
mode none_mode = "None"

-- "; " and what follows, where `text` is not empty
with_text : String → String → String
with_text label text = if text == "" then "" else join label text

age_text : (ℕ → String) → Option ℤ → String
age_text str none = ""
age_text str (some (pos zero)) = ""
age_text str (some (pos n)) = join "; MaxAge=" (str n)
age_text str (some (negsuc n)) = "; MaxAge=0"

site_text : Option SameSite → String
site_text none = ""
site_text (some s) = join "; SameSite=" (mode s)

expires_text : {Date : Type 0} → (Date → String) → Option Date → String
expires_text format none = ""
expires_text format (some d) = join "; Expires=" (format d)

custom_text : List String → String
custom_text [] = ""
custom_text (attr ∷ attrs) = join "; " (join attr (custom_text attrs))

module _ {Date : Type 0} (texts : Texts Date) where
  -- `Cookie.__str__`
  unfoldable pub to_text : Cookie Date → String
  unfolding with_text age_text site_text expires_text custom_text
  to_text c = join c.name (
      join "=" (
        join c.value (
          join (with_text "; Path=" c.path) (
            join (with_text "; Domain=" c.domain) (
              join (expires_text texts.format_date c.expires) (
                join (age_text texts.str c.max_age) (
                  join (if c.http_only then "; HttpOnly" else "") (
                    join (if c.secure then "; Secure" else "")
                      (join (site_text c.same_site) (custom_text c.custom_attributes))))))))))
