-- ===== src/Parameters/Ssm/Options.antt =====
-- parameters/ssm.py: the options of the parameters, and which of them are decrypted.
use aws_lambda_powertools_py.Common.{
  ℕ, String, Bool, Option, none, some, [], ◌∷◌, if◌then◌else◌, ◌||◌, true, false,
}
use aws_lambda_powertools_py.Common.Eq.{string_eq}
use aws_lambda_powertools_py.Common.Dict.{Dict, store}
use aws_lambda_powertools_py.Parameters.Provider.{is_set}

-- the options that a caller gives for one parameter
pub record Overrides : Type 0 where
  pub given_transform : Option String
  pub given_decrypt : Option Bool
  pub given_max_age : Option ℕ

-- and the options with the defaults filled in
pub record Wanted : Type 0 where
  pub transform : Option String
  pub decrypt : Bool
  pub max_age : ℕ

or_default : {A : Type 0} → Option A → A → A
or_default none d = d
or_default (some a) d = a

with_defaults : Option String → ℕ → Bool → Overrides → Wanted
unfolding or_default
with_defaults transform max_age decrypt o = record {
  transform = if is_set o.given_transform then o.given_transform else transform;
  decrypt = or_default o.given_decrypt decrypt;
  max_age = or_default o.given_max_age max_age;
}

is_given : {A : Type 0} → Option A → Bool
is_given none = false
is_given (some a) = true

-- The caller's own dict of a parameter after the call: where it is not empty, the options are written
-- into it in place. The call itself reads each dict once, before it writes, so that the dicts are no
-- part of the state below; a later call with the same dicts starts from these.
unfoldable pub callers_overrides : Option String → ℕ → Bool → Overrides → Overrides
unfolding with_defaults is_given
callers_overrides transform max_age decrypt o =
    if is_given o.given_transform || is_given o.given_decrypt || is_given o.given_max_age
    then (let w = with_defaults transform max_age decrypt o in
        record {
          given_transform = w.transform;
          given_decrypt = some w.decrypt;
          given_max_age = some w.max_age;
        })
    else o

abbrev put_aside :
    String
    → Wanted
    → Dict String Wanted × Dict String Wanted
    → Dict String Wanted × Dict String Wanted
put_aside name o (batch, decrypted) =
    if o.decrypt then (batch, store name o decrypted) else (store name o batch, decrypted)

split_from :
    Option String
    → ℕ
    → Bool
    → Dict String Overrides
    → Dict String Wanted × Dict String Wanted
    → Dict String Wanted × Dict String Wanted
unfolding with_defaults
split_from transform max_age decrypt [] done = done
split_from transform max_age decrypt ((name, o) ∷ parameters) done =
    split_from transform max_age decrypt parameters
      (put_aside name (with_defaults transform max_age decrypt o) done)

-- `_split_batch_and_decrypt_parameters`
unfoldable pub split_parameters :
    Dict String Overrides → Option String → ℕ → Bool → Dict String Wanted × Dict String Wanted
unfolding split_from
split_parameters parameters transform max_age decrypt =
    split_from transform max_age decrypt parameters ([], [])
