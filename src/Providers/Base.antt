-- ===== src/Providers/Base.antt =====
-- What the providers share: HTTP, JSON and the process environment, which are parameters.
use tsecret.Crypto.Base64
use tsecret.Common.{
  external, ℕ, Option, none, some, List, [], ◌∷◌, ◌++◌, Text, Bytes, String, codes, is_empty, Map,
  lookup, Result, ok, err, errorf, wrapf, text, if◌then◌else◌,
}

pub record HttpRequest : Type 0 where
  pub method : Text
  pub url : Text
  pub raw_query : Text
  pub headers : Map Text
  pub body : Bytes

pub record HttpResponse : Type 0 where
  pub status_code : ℕ
  pub body : Bytes

-- `check` is the outcome of http.NewRequestWithContext for a method and a URL, `send` the answer
-- of the server while one method of a provider runs.
pub record Http : Type 0 where
  pub check : Text → Text → Result (Unit {0})
  pub send : HttpRequest → Result HttpResponse

-- encoding/json as far as it is used, over the type `J` of decoded values: an object, the string
-- at a path of fields (empty where a field is missing), the object at a path (a nil map where it is
-- missing), `fmt.Sprintf("%v")`
-- of a value, and the encoding of an object.
pub record Json (J : Type 0) : Type 0 where
  pub decode_object : Bytes → Result (Map J)
  pub decode_string : List Text → Bytes → Result Text
  pub decode_nested : List Text → Bytes → Result (Option (Map J))
  pub show : J → Text
  pub encode : Option (Map J) → Result Text
  pub encode_strings : Map Text → Result Bytes

-- os.Getenv
abbrev pub Environ : Type 0
Environ = Text → Text

abbrev pub get : Text
get = codes "GET"

abbrev pub post : Text
post = codes "POST"

-- A plain GET with the given headers.
abbrev pub get_request : Text → Map Text → HttpRequest
get_request url headers = record {
  method = get;
  url = url;
  raw_query = [];
  headers = headers;
  body = [];
}

-- `if p.token != "" { req.Header.Set(name, value) }`
unfoldable pub token_header : Text → Text → Map Text
token_header name token = if is_empty token then [] else (name, token) ∷ []

abbrev pub bearer : Text → Map Text
bearer token = (codes "Authorization", codes "Bearer " ++ token) ∷ []

-- `m[k]` of a map that may be nil.
unfoldable pub lookup_nil {ℓ} : {V : Type ℓ} → Text → Option (Map V) → Option V
lookup_nil k none = none
lookup_nil k (some m) = lookup k m

module _ {J : Type 0} (json : Json J) where
  -- How AWS, Azure, GCP and Oracle return a decoded secret: whole, or one property of the JSON
  -- object that it holds. The two texts are the provider's messages.
  unfoldable pub property_or_all : String → String → Text → Text → Bytes → Result Text
  property_or_all not_json not_found key property value =
      if is_empty property then ok value else elim (json.decode_object value) [
        | err e ↦ err (errorf not_json (text key ∷ text property ∷ []))
        | ok values ↦ elim (lookup property values) [
          | none ↦ err (errorf not_found (text property ∷ text key ∷ []))
          | some v ↦ ok (json.show v)
        ]
      ]

-- base64.StdEncoding.DecodeString
unfoldable pub decode_std : String → Text → Result Bytes
decode_std format s = elim (Base64.std_decode s) [
  | none ↦ err (wrapf format [] (external (codes "illegal base64 data")))
  | some b ↦ ok b
]
