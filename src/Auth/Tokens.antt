-- ===== src/Auth/Tokens.antt =====
-- internal/auth/auth.go: `GenerateTokens` and `ValidateToken`. The package jwt is not part of the
-- repository: an interface of the two calls of it, and their documented laws. Times are seconds, as
-- jwt keeps them.
pub mod Lifetime
use micro_coin.Base.{ℕ, ◌+◌, ◌≤◌, ◌<◌, ◌≡◌, ◌≢◌, Bool, true, false, String, if◌then◌else◌}
use micro_coin.Database.World.{Result, ok, err, Error, message}

pub record Claims : Type 0 where
  pub user_id : ℕ
  pub email : String
  pub expires_at : ℕ
  pub issued_at : ℕ
  pub not_before : ℕ

pub data SigningMethod : Type 0 where
  hmac : String → SigningMethod
  other_method : String → SigningMethod

pub record Token : Type 0 where
  pub method : SigningMethod
  pub claims : Claims
  pub valid : Bool

abbrev pub KeyFunc : Type 0
KeyFunc = SigningMethod → Result String

-- `NewWithClaims(method, claims).SignedString(key)`, and `ParseWithClaims` at a time.
pub record Jwt : Type 0 where
  pub signed_string : SigningMethod → Claims → String → Result String
  pub parse_with_claims : ℕ → String → KeyFunc → Result Token

-- A token that was signed is parsed with the key of its method from `nbf` on, until `exp`.
pub record IsJwt (jwt : Jwt) : Type 0 where
  pub parses :
      (m : SigningMethod) (c : Claims) (key s : String) (f : KeyFunc) (t : ℕ)
      → jwt.signed_string m c key ≡ ok s
      → f m ≡ ok key
      → c.not_before ≤ t
      → t < c.expires_at
      → jwt.parse_with_claims t s f ≡ ok (record { method = m; claims = c; valid = true })
  pub expires :
      (m : SigningMethod) (c : Claims) (key s : String) (f : KeyFunc) (t : ℕ) (token : Token)
      → jwt.signed_string m c key ≡ ok s
      → c.expires_at ≤ t
      → jwt.parse_with_claims t s f ≢ ok token

abbrev pub access_token_duration : ℕ
access_token_duration = 900

abbrev pub refresh_token_duration : ℕ
refresh_token_duration = 604800

abbrev pub jwt_secret : String
jwt_secret = "microcoin-secret-key-change-in-production"

abbrev pub hs256 : SigningMethod
hs256 = hmac "HS256"

-- `now n` is the n-th reading of the clock.
abbrev pub access_claims : (ℕ → ℕ) → ℕ → String → Claims
access_claims now user_id email = record {
  user_id = user_id;
  email = email;
  expires_at = now 0 + access_token_duration;
  issued_at = now 1;
  not_before = now 2;
}

abbrev pub refresh_claims : (ℕ → ℕ) → ℕ → String → Claims
refresh_claims now user_id email = record {
  user_id = user_id;
  email = email;
  expires_at = now 3 + refresh_token_duration;
  issued_at = now 4;
  not_before = now 5;
}

abbrev pub key_of : KeyFunc
key_of (hmac name) = ok jwt_secret
key_of (other_method name) = err (message "unexpected signing method")

module _ (jwt : Jwt) where
  unfoldable pub generate_tokens : (ℕ → ℕ) → ℕ → String → Result (String × String)
  generate_tokens now user_id email =
      elim (jwt.signed_string hs256 (access_claims now user_id email) jwt_secret) [
        | err e ↦ err e
        | ok access ↦ elim (jwt.signed_string hs256 (refresh_claims now user_id email) jwt_secret) [
          | err e ↦ err e
          | ok refresh ↦ ok (access, refresh)
        ]
      ]

  unfoldable pub validate_token : ℕ → String → Result Claims
  validate_token now token_string = elim (jwt.parse_with_claims now token_string key_of) [
    | err e ↦ err e
    | ok token ↦ if token.valid then ok token.claims else err (message "invalid token")
  ]
