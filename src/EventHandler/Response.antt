-- ===== src/EventHandler/Response.antt =====
-- event_handler/api_gateway.py: `CORSConfig`, `Response` and `ResponseBuilder`.
use aws_lambda_powertools_py.Common.{
  ℕ, String, Bool, true, false, Option, none, some, List, [], ◌∷◌, ◌++◌, map, is_empty, eqb,
  if◌then◌else◌,
}
use aws_lambda_powertools_py.Common.Eq.{◌==◌, string_eq}
use aws_lambda_powertools_py.Common.Dict.{contains, store, merge}
use aws_lambda_powertools_py.Common.Effect.{Result, ok, raised}
use aws_lambda_powertools_py.Common.Int.{ℤ}
use aws_lambda_powertools_py.Common.Text.{join_with, sorted_set}
use aws_lambda_powertools_py.EventHandler.Cookie.{Cookie, Texts, to_text}
use aws_lambda_powertools_py.EventHandler.Header.{Headers, one, Serializer, Payload, serialize}

-- An exception: the names of its type and of the types above it, the nearest first, and status and
-- message if it is a ServiceError.
pub record Exception : Type 0 where
  pub mro : List String
  pub service : Option (ℕ × String)

abbrev pub builtin : String → Exception
builtin name = record { mro = name ∷ "Exception" ∷ "BaseException" ∷ "object" ∷ []; service = none }

pub record Cors : Type 0 where
  pub allow_origin : String
  pub allow_headers : List String
  pub expose_headers : List String
  pub max_age : Option ℤ
  pub allow_credentials : Bool

-- _REQUIRED_HEADERS
abbrev pub required_headers : List String
required_headers =
    "Authorization" ∷ "Content-Type" ∷ "X-Amz-Date" ∷ "X-Api-Key" ∷ "X-Amz-Security-Token" ∷ []

-- `CORSConfig.__init__`; a set is the list of what it holds, sorted.
unfoldable pub init_cors :
    String → Option (List String) → Option (List String) → Option ℤ → Bool → Cors
init_cors allow_origin allow_headers expose_headers max_age allow_credentials = record {
  allow_origin = allow_origin;
  allow_headers = sorted_set (required_headers ++ or_none allow_headers);
  expose_headers = or_none expose_headers;
  max_age = max_age;
  allow_credentials = allow_credentials;
}
  where
    or_none : Option (List String) → List String
    or_none none = []
    or_none (some xs) = xs

-- CORSConfig()
abbrev pub default_cors : Cors
default_cors = record {
  allow_origin = "*";
  allow_headers = sorted_set required_headers;
  expose_headers = [];
  max_age = none;
  allow_credentials = false;
}

age_entry : (ℤ → String) → Option ℤ → Headers
age_entry str none = []
age_entry str (some n) = ("Access-Control-Max-Age", one (str n)) ∷ []

-- `CORSConfig.to_dict`
unfoldable pub cors_headers : (ℤ → String) → Cors → Headers
unfolding age_entry
cors_headers str cors =
    ("Access-Control-Allow-Origin", one cors.allow_origin)
      ∷ ("Access-Control-Allow-Headers", one (join_with "," cors.allow_headers))
      ∷ (if is_empty cors.expose_headers
          then []
          else ("Access-Control-Expose-Headers", one (join_with "," cors.expose_headers)) ∷ [])
    ++ age_entry str cors.max_age
    ++ (if cors.allow_credentials
        then ("Access-Control-Allow-Credentials", one "true") ∷ []
        else [])

pub data Body (Bytes : Type 0) : Type 0 where
  absent : Body Bytes
  text : String → Body Bytes
  bytes : Bytes → Body Bytes

pub record Response (Bytes Date : Type 0) : Type 0 where
  pub status_code : ℕ
  pub body : Body Bytes
  pub base64_encoded : Bool
  pub headers : Headers
  pub cookies : List (Cookie Date)

-- What the code calls of `str`, `zlib` and `base64`: the text of a number, the UTF-8 bytes of a text,
-- the gzip of bytes, and the text of their base64.
pub record Encoding (Bytes Date : Type 0) : Type 0 where
  pub str : ℤ → String
  pub utf8 : String → Bytes
  pub gzip : Bytes → Bytes
  pub b64encode : Bytes → String
  pub texts : Texts Date

-- The options of a route that a response depends on.
pub record Options : Type 0 where
  pub cors : Bool
  pub compress : Bool
  pub cache_control : Option String

-- The dictionary that Lambda is given.
pub record Reply : Type 0 where
  pub status : ℕ
  pub reply_body : Option String
  pub is_base64_encoded : Bool
  pub payload : Payload

with_content_type : Option String → Headers → Headers
with_content_type none headers = headers
with_content_type (some t) headers =
    if t == ""
    then headers
    else if contains "Content-Type" headers
    then headers
    else store "Content-Type" (one t) headers

module _ {Bytes Date : Type 0} where
  -- `Response.__init__`
  unfoldable pub init :
      ℕ → Option String → Body Bytes → Headers → List (Cookie Date) → Response Bytes Date
  unfolding with_content_type
  init status_code content_type body headers cookies = record {
    status_code = status_code;
    body = body;
    base64_encoded = false;
    headers = with_content_type content_type headers;
    cookies = cookies;
  }

  -- `_add_cache_control`
  unfoldable pub add_cache_control : String → Response Bytes Date → Response Bytes Date
  add_cache_control cache_control r = record r {
    headers =
        store "Cache-Control" (one (if eqb r.status_code 200 then cache_control else "no-cache"))
          r.headers;
  }

  cache : Option String → Response Bytes Date → Response Bytes Date
  unfolding add_cache_control
  cache none r = r
  cache (some c) r = if c == "" then r else add_cache_control c r

module _ {Bytes Date : Type 0} (enc : Encoding Bytes Date) where
  -- `_add_cors`
  unfoldable pub add_cors : Cors → Response Bytes Date → Response Bytes Date
  add_cors cors r = record r { headers = merge (cors_headers enc.str cors) r.headers }

  zipped : Body Bytes → Result Exception (Body Bytes)
  zipped absent = raised (builtin "TypeError")
  zipped (text s) = ok (bytes (enc.gzip (enc.utf8 s)))
  zipped (bytes b) = ok (bytes (enc.gzip b))

  with_body :
      Response Bytes Date → Result Exception (Body Bytes) → Result Exception (Response Bytes Date)
  with_body r (ok b) = ok (record r { body = b })
  with_body r (raised e) = raised e

  -- `_compress`
  unfoldable pub compress : Response Bytes Date → Result Exception (Response Bytes Date)
  unfolding zipped with_body
  compress r =
      with_body (record r { headers = store "Content-Encoding" (one "gzip") r.headers })
        (zipped r.body)

  or_default : Option Cors → Cors
  or_default none = default_cors
  or_default (some c) = c

  abbrev test :
      Result Exception Bool
      → (Bool → Result Exception (Response Bytes Date))
      → Result Exception (Response Bytes Date)
  test (ok b) f = f b
  test (raised e) f = raised e

  -- `_route`. The last argument is the answer to "gzip" in the header accept-encoding, which is read
  -- where the route compresses.
  unfoldable pub apply_route :
      Option Options
      → Option Cors
      → Result Exception Bool
      → Response Bytes Date
      → Result Exception (Response Bytes Date)
  unfolding add_cors or_default cache compress
  apply_route none cors accepts r = ok r
  apply_route (some route) cors accepts r =
      let s = cache route.cache_control (if route.cors then add_cors (or_default cors) r else r) in
      if route.compress then test accepts (λ b. if b then compress s else ok s) else ok s

  abbrev encoded : Body Bytes → Response Bytes Date → Response Bytes Date
  encoded (bytes b) r = record r { base64_encoded = true; body = text (enc.b64encode b) }
  encoded b r = r

  abbrev text_of : Body Bytes → Option String
  text_of (text s) = some s
  text_of b = none

  as_reply : Response Bytes Date → Option Payload → Result Exception Reply
  as_reply r none = raised (builtin "IndexError")
  as_reply r (some p) = ok (record {
    status = r.status_code;
    reply_body = text_of r.body;
    is_base64_encoded = r.base64_encoded;
    payload = p;
  })

  finish : Serializer → Result Exception (Response Bytes Date) → Result Exception Reply
  unfolding as_reply
  finish serializer (raised e) = raised e
  finish serializer (ok r) =
      let s = encoded r.body r in
      as_reply s (serialize serializer s.headers (map (to_text enc.texts) s.cookies))

  -- `ResponseBuilder.build`
  unfoldable pub build :
      Option Options
      → Option Cors
      → Result Exception Bool
      → Serializer
      → Response Bytes Date
      → Result Exception Reply
  unfolding apply_route finish
  build route cors accepts serializer r = finish serializer (apply_route route cors accepts r)
