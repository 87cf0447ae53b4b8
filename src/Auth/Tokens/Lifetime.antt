-- ===== src/Auth/Tokens/Lifetime.antt =====
-- How long the tokens of a login are accepted.
use micro_coin.Base.{
  ℕ, ◌+◌, ◌≤◌, ◌<◌, ◌≡◌, refl, String, arith, Option, some, none, ltb, Bool-cases, inl, inr,
  if◌then◌else◌,
}
use micro_coin.Database.World.{Result, ok, err, message}
use micro_coin.Auth.Tokens.{
  Jwt, IsJwt, Token, Claims, generate_tokens, validate_token, access_claims, refresh_claims,
  access_token_duration, refresh_token_duration, hs256, jwt_secret, key_of,
}

-- The claims that a validation gives.
abbrev pub answer : Result Claims → Option Claims
answer (ok c) = some c
answer (err e) = none

module _ (jwt : Jwt) (laws : IsJwt jwt) where
  signed_access :
      (now : ℕ → ℕ) (user : ℕ) (email access refresh : String)
      → generate_tokens jwt now user email ≡ ok (access, refresh)
      → jwt.signed_string hs256 (access_claims now user email) jwt_secret ≡ ok access
  unfolding generate_tokens
  signed_access now user email access refresh h = ground arith

  signed_refresh :
      (now : ℕ → ℕ) (user : ℕ) (email access refresh : String)
      → generate_tokens jwt now user email ≡ ok (access, refresh)
      → jwt.signed_string hs256 (refresh_claims now user email) jwt_secret ≡ ok refresh
  unfolding generate_tokens
  signed_refresh now user email access refresh h = ground arith

  accepted :
      (c : Claims) (s : String) (t : ℕ)
      → jwt.signed_string hs256 c jwt_secret ≡ ok s
      → c.not_before ≤ t
      → t < c.expires_at
      → validate_token jwt t s ≡ ok c
  unfolding validate_token
  accepted c s t h p q =
      rw (validate_token, laws.parses hs256 c jwt_secret s key_of t h refl p q) refl

  refused :
      (c : Claims) (s : String) (t : ℕ)
      → jwt.signed_string hs256 c jwt_secret ≡ ok s
      → c.expires_at ≤ t
      → answer (validate_token jwt t s) ≡ none
  unfolding validate_token
  refused c s t h p = go (jwt.parse_with_claims t s key_of) refl
    where
      go :
          (r : Result Token)
          → jwt.parse_with_claims t s key_of ≡ r
          → answer (elim r as (λ _. Result Claims) [
            | err e ↦ err e
            | ok token ↦ if token.valid then ok token.claims else err (message "invalid token")
          ])
            ≡ none
      go (err x) q = refl
      go (ok token) q = absurd (laws.expires hs256 c jwt_secret s key_of t token h p q)

  lifetime :
      (c : Claims) (s : String) (t : ℕ)
      → jwt.signed_string hs256 c jwt_secret ≡ ok s
      → c.not_before ≤ t
      → answer (validate_token jwt t s) ≡ (if ltb t c.expires_at then some c else none)
  lifetime c s t h p = elim (Bool-cases (ltb t c.expires_at)) [
    | inl e ↦ rw (e, accepted c s t h p (ground arith)) refl
    | inr e ↦ rw e (refused c s t h (ground arith))
  ]

  -- The tokens of a login, signed at the readings `now 0` to `now 5` of the clock, from the moment from
  -- which both may be used: the access token is accepted, as the user's, exactly until 15 minutes after
  -- `now 0`, and the refresh token is accepted in the same way exactly until 7 days after `now 3`.
  pub validate_token-generate_tokens :
      (now : ℕ → ℕ) (user t : ℕ) (email access refresh : String)
      → generate_tokens jwt now user email ≡ ok (access, refresh)
      → now 2 ≤ t
      → now 5 ≤ t
      → (answer (validate_token jwt t access) ≡ (
          if ltb t (now 0 + access_token_duration)
          then some (access_claims now user email)
          else none))
        × (answer (validate_token jwt t refresh) ≡ (
            if ltb t (now 3 + refresh_token_duration)
            then some (refresh_claims now user email)
            else none))
  validate_token-generate_tokens now user t email access refresh h p q = (
    lifetime (access_claims now user email) access t (signed_access now user email access refresh h)
        p,
    lifetime (refresh_claims now user email) refresh t
        (signed_refresh now user email access refresh h) q,
  )
