-- ===== src/Auth/Tests.antt =====
-- Tokens and the middleware at concrete requests, with a toy jwt that signs the two claims of one login.
use text.Mathlib.Text.{◌==◌ as str_eq}
use text.Mathlib.TextEquality.{eq_iff}
use micro_coin.Base.{
  ℕ, ◌≤◌, ◌<◌, ◌+◌, ◌≡◌, ◌⊎◌, inl, inr, refl, Bool, true, ◌&&◌, [], ◌∷◌, String, some, none, arith,
  ◌==◌, ltb, if◌then◌else◌,
}
use micro_coin.Base.Int.{ℤ}
use micro_coin.Database.World.{World, Result, ok, err, driver}
use micro_coin.Http.{Request, HandlerFunc}
use micro_coin.Auth.Tokens.{
  Jwt, IsJwt, Token, Claims, KeyFunc, SigningMethod, hmac, other_method, hs256, access_claims,
  refresh_claims, generate_tokens, validate_token, access_token_duration, refresh_token_duration,
}
use micro_coin.Auth.Tokens.Lifetime.{answer, validate_token-generate_tokens}

abbrev now : ℕ → ℕ
now n = 100 + n

abbrev access : Claims
access = access_claims now 7 "a@b.c"

abbrev refresh : Claims
refresh = refresh_claims now 7 "a@b.c"

abbrev same_claims : Claims → Claims → Bool
same_claims c d =
    c.user_id == d.user_id
    && str_eq c.email d.email
    && c.expires_at == d.expires_at
    && c.issued_at == d.issued_at
    && c.not_before == d.not_before

same_claims-true : (c d : Claims) → same_claims c d ≡ true → c ≡ d
same_claims-true c d h = ground (arith, (eq_iff c.email d.email).0)

abbrev sign : SigningMethod → Claims → String → Result String
sign (other_method name) c key = err driver
sign (hmac name) c key =
    if str_eq name "HS256"
    then (if same_claims c access
        then ok "a"
        else if same_claims c refresh
        then ok "r"
        else err driver)
    else err driver

abbrev token_of : Claims → Token
token_of c = record { method = hs256; claims = c; valid = true }

abbrev parse : ℕ → String → KeyFunc → Result Token
parse t s f =
    if str_eq s "a"
    then (if ltb t access.expires_at then ok (token_of access) else err driver)
    else (if ltb t refresh.expires_at then ok (token_of refresh) else err driver)

signed :
    (m : SigningMethod) (c : Claims) (key s : String)
    → sign m c key ≡ ok s
    → (m ≡ hs256) × (((c ≡ access) × (s ≡ "a")) ⊎ ((c ≡ refresh) × (s ≡ "r")))
signed (other_method name) c key s h = cc
signed (hmac name) c key s h =
    ground (arith, (eq_iff name "HS256").0, same_claims-true c access, same_claims-true c refresh)

abbrev pub toy : Jwt
toy = record { signed_string = sign; parse_with_claims = parse }

parses_toy :
    (m : SigningMethod) (c : Claims) (s : String) (f : KeyFunc) (t : ℕ)
    → (m ≡ hs256) × (((c ≡ access) × (s ≡ "a")) ⊎ ((c ≡ refresh) × (s ≡ "r")))
    → t < c.expires_at
    → parse t s f ≡ ok (record { method = m; claims = c; valid = true })
parses_toy m c s f t (e, inl (e', e'')) q = rw (e, e', e'') (ground arith)
parses_toy m c s f t (e, inr (e', e'')) q = rw (e, e', e'') (ground arith)

expires_toy :
    (m : SigningMethod) (c : Claims) (s : String) (f : KeyFunc) (t : ℕ)
    → (m ≡ hs256) × (((c ≡ access) × (s ≡ "a")) ⊎ ((c ≡ refresh) × (s ≡ "r")))
    → c.expires_at ≤ t
    → parse t s f ≡ err driver
expires_toy m c s f t (e, inl (e', e'')) q = rw e'' (ground arith)
expires_toy m c s f t (e, inr (e', e'')) q = rw e'' (ground arith)

pub toy-IsJwt : IsJwt toy
toy-IsJwt = record {
  parses = λ m c key s f t h k p q. parses_toy m c s f t (signed m c key s h) q;
  expires = λ m c key s f t token h p k. cc (expires_toy m c s f t (signed m c key s h) p);
}

validate_token-generate_tokens_example :
    (answer (validate_token toy 500 "a")
      ≡ (if ltb 500 (now 0 + access_token_duration) then some access else none))
    × (answer (validate_token toy 500 "r")
        ≡ (if ltb 500 (now 3 + refresh_token_duration) then some refresh else none))
unfolding generate_tokens
validate_token-generate_tokens_example =
    validate_token-generate_tokens toy toy-IsJwt now 7 500 "a@b.c" "a" "r" refl (omega arith)
      (omega arith)

abbrev pub request : Request
request = record {
  method = "GET";
  path = "/api/portfolio";
  query = [];
  headers = ("Authorization", "Bearer a" ∷ []) ∷ [];
  body = some "";
  context = [];
}

abbrev page : HandlerFunc (World ℤ)
page r w = (record { code = 200; headers = []; body = "" }, w)
