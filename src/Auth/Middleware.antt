-- ===== src/Auth/Middleware.antt =====
-- internal/auth/middleware.go: `AuthMiddleware`.
pub mod Entry
use text.Mathlib.Text.{◌==◌ as str_eq}
use micro_coin.Base.{ℕ, Bool, true, false, List, [], ◌∷◌, String, Option, none, some, if◌then◌else◌}
use micro_coin.Database.World.{ok, err}
use micro_coin.Http.{
  ContextKey, auth_key, Request, Response, HandlerFunc, header_get, context_value, http_error,
}
use micro_coin.Http.Text.{split_two}
use micro_coin.Auth.Tokens.{Jwt, validate_token}

-- `for _, skipPath := range skipPaths { if path == skipPath { return true } }`
abbrev pub mentions : List String → String → Bool
mentions [] path = false
mentions (p ∷ ps) path = if str_eq path p then true else mentions ps path

unfoldable pub should_skip_auth : String → Bool
should_skip_auth = mentions ("/auth/signup" ∷ "/auth/login" ∷ "/health" ∷ "/metrics" ∷ [])

abbrev pub user_id_key : ContextKey
user_id_key = auth_key "user_id"

unfoldable pub get_user_id_from_context : Request → Option ℕ
get_user_id_from_context r = context_value user_id_key r.context

-- The token of an Authorization header: `strings.SplitN(header, " ", 2)` gives "Bearer" and it.
abbrev pub bearer : String → Option String
bearer header = elim (split_two 32 header) [
  | scheme ∷ token ∷ [] ↦ if str_eq scheme "Bearer" then some token else none
  | _ ↦ none
]

abbrev pub with_user : ℕ → Request → Request
with_user user r = record r { context = (user_id_key, user) ∷ r.context }

-- `now` reads the clock in the state.
module _ {S : Type 0} (jwt : Jwt) (now : S → ℕ) where
  unfoldable pub auth_middleware : HandlerFunc S → HandlerFunc S
  unfolding should_skip_auth
  auth_middleware next r s =
      if should_skip_auth r.path
      then next r s
      else if str_eq (header_get "Authorization" r.headers) ""
      then (http_error "Authorization header required" 401, s)
      else elim (bearer (header_get "Authorization" r.headers)) [
        | none ↦ (http_error "Invalid authorization header format" 401, s)
        | some token ↦ elim (validate_token jwt (now s) token) [
          | err e ↦ (http_error "Invalid token" 401, s)
          | ok claims ↦ next (with_user claims.user_id r) s
        ]
      ]
