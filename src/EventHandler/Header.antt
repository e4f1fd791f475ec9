-- ===== src/EventHandler/Header.antt =====
-- shared/headers_serializer.py, over the texts of the cookies.
pub mod Values
use Prim.Native.String.{◌++◌ as join}
use aws_lambda_powertools_py.Common.{
  String, Bool, true, false, Option, none, some, List, [], ◌∷◌, ◌++◌, is_empty, if◌then◌else◌,
}
use aws_lambda_powertools_py.Common.Eq.{string_eq}
use aws_lambda_powertools_py.Common.Dict.{Dict, get, store}

pub data HeaderValue : Type 0 where
  one : String → HeaderValue
  many : List String → HeaderValue

abbrev pub Headers : Type 0
Headers = Dict String HeaderValue

pub data Serializer : Type 0 where
  http_api multi_value single_value : Serializer

-- What the serializers add to the response.
pub data Payload : Type 0 where
  -- "headers" and "cookies"
  combined : Dict String String → List String → Payload
  -- "multiValueHeaders"
  multi : Dict String (List String) → Payload
  -- "headers"
  single : Dict String String → Payload

-- ", ".join(values)
abbrev pub join_all : List String → String
join_all [] = ""
join_all (v ∷ []) = v
join_all (v ∷ (w ∷ vs)) = join v (join ", " (join_all (w ∷ vs)))

abbrev as_text : HeaderValue → String
as_text (one v) = v
as_text (many vs) = join_all vs

unfoldable pub combine : Headers → Dict String String → Dict String String
combine [] done = done
combine ((k, v) ∷ headers) done = combine headers (store k (as_text v) done)

abbrev pub or_empty : Option (List String) → List String
or_empty none = []
or_empty (some vs) = vs

-- payload[key].append(value) of a defaultdict
abbrev pub append_to : String → String → Dict String (List String) → Dict String (List String)
append_to k v done = store k (or_empty (get k done) ++ v ∷ []) done

unfoldable pub append_each :
    String → List String → Dict String (List String) → Dict String (List String)
append_each k [] done = done
append_each k (v ∷ vs) done = append_each k vs (append_to k v done)

abbrev pub values_of : HeaderValue → List String
values_of (one v) = v ∷ []
values_of (many vs) = vs

unfoldable pub append_all : Headers → Dict String (List String) → Dict String (List String)
unfolding append_each
append_all [] done = done
append_all ((k, v) ∷ headers) done = append_all headers (append_each k (values_of v) done)

-- payload.setdefault("Set-Cookie", []), which the first append to the defaultdict does as well
add_cookies : List String → Dict String (List String) → Dict String (List String)
unfolding append_each
add_cookies cookies done = append_each "Set-Cookie" cookies done

-- values[-1]; `none` is IndexError
unfoldable pub last : List String → Option String
last [] = none
last (v ∷ []) = some v
last (v ∷ (w ∷ vs)) = last (w ∷ vs)

abbrev pub on_last :
    Option String → (String → Option (Dict String String)) → Option (Dict String String)
on_last none next = none
on_last (some x) next = next x

-- the loop over the headers, which stops at a header of no values
unfoldable pub keep_last : Headers → Dict String String → Option (Dict String String)
unfolding last
keep_last [] done = some done
keep_last ((k, v) ∷ headers) done =
    on_last (last (values_of v)) (λ x. keep_last headers (store k x done))

last_cookie : Option String → Dict String String
last_cookie none = []
last_cookie (some c) = ("Set-Cookie", c) ∷ []

as_single : Option (Dict String String) → Option Payload
as_single none = none
as_single (some d) = some (single d)

-- `serialize` of the three classes; `none` is the IndexError of the last.
unfoldable pub serialize : Serializer → Headers → List String → Option Payload
unfolding combine append_all add_cookies keep_last last last_cookie as_single
serialize http_api headers cookies = some (combined (combine headers []) cookies)
serialize multi_value headers cookies = some (multi (add_cookies cookies (append_all headers [])))
serialize single_value headers cookies = as_single (keep_last headers (last_cookie (last cookies)))
