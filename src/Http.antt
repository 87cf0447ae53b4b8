-- ===== src/Http.antt =====
-- What the handlers and the middleware use of net/http (cmd/monolith/main.go, internal/auth,
-- internal/rate, internal/idempotency): requests, responses, and handlers over a state.
pub mod Text
use Prim.Native.String.{◌++◌ as concat}
use text.Mathlib.Text.{◌==◌ as str_eq}
use micro_coin.Base.{ℕ, Bool, true, false, List, [], ◌∷◌, String, Option, none, some, if◌then◌else◌}

-- A key of a context is a value with its dynamic type: a string is never equal to a
-- `auth.contextKey` of the same characters.
pub data ContextKey : Type 0 where
  plain : String → ContextKey
  auth_key : String → ContextKey

abbrev pub same_key : ContextKey → ContextKey → Bool
same_key (plain a) (plain b) = str_eq a b
same_key (plain a) (auth_key b) = false
same_key (auth_key a) (plain b) = false
same_key (auth_key a) (auth_key b) = str_eq a b

-- Header names are in their canonical form. No `body` is a failed reading. The list of the headers
-- stands for a map, and Idempotency takes the order in which Go visits it as a parameter. `context`
-- holds the values of type `uuid.UUID`, the newest first.
pub record Request : Type 0 where
  pub method : String
  pub path : String
  pub query : List (String × String)
  pub headers : List (String × List String)
  pub body : Option String
  pub context : List (ContextKey × ℕ)

pub record Response : Type 0 where
  pub code : ℕ
  pub headers : List (String × String)
  pub body : String

-- A handler always responds.
abbrev pub HandlerFunc : Type 0 → Type 0
HandlerFunc S = Request → S → Response × S

-- `r.Header.Get(name)`
abbrev pub header_get : String → List (String × List String) → String
header_get name [] = ""
header_get name ((key, values) ∷ rest) =
    if str_eq key name then elim values [ [] ↦ "" | v ∷ vs ↦ v ] else header_get name rest

-- `r.URL.Query().Get(name)`
abbrev pub query_get : String → List (String × String) → String
query_get name [] = ""
query_get name ((key, value) ∷ rest) = if str_eq key name then value else query_get name rest

-- `ctx.Value(key).(uuid.UUID)`
abbrev pub context_value : ContextKey → List (ContextKey × ℕ) → Option ℕ
context_value key [] = none
context_value key ((k, v) ∷ rest) = if same_key k key then some v else context_value key rest

-- `http.Error`
abbrev pub http_error : String → ℕ → Response
http_error text code = record {
  code = code;
  headers =
      ("Content-Type", "text/plain; charset=utf-8") ∷ ("X-Content-Type-Options", "nosniff") ∷ [];
  body = concat text "\n";
}

-- A 200 with a JSON body.
abbrev pub json_response : String → Response
json_response body = record {
  code = 200;
  headers = ("Content-Type", "application/json") ∷ [];
  body = body;
}
