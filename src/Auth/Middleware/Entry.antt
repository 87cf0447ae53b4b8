-- ===== src/Auth/Middleware/Entry.antt =====
-- Who gets past `AuthMiddleware`.
use Prim.Native.Char.{Char, code}
use Prim.Native.String.{◌++◌ as concat}
use Prim.Native.String.append
use text.Mathlib.Text.{◌==◌ as str_eq}
use text.Mathlib.TextEquality.{eq_iff, Char-path}
use micro_coin.Base.{
  ℕ, ◌≡◌, ◌∙◌, refl, sym, ap, false, [], String, some, Option-cases, Bool-cases, inl, inr, ◌⊎◌,
  arith,
}
use micro_coin.Database.World.{Result, ok, err, World}
use micro_coin.Http.{Request, HandlerFunc, header_get}
use micro_coin.Http.Text.{cut, cut_lem}
use micro_coin.Auth.Tokens.{Jwt, Claims, validate_token}
use micro_coin.Auth.Middleware.{should_skip_auth, auth_middleware, bearer, with_user}
use micro_coin.Idempotency.{Hashing}
use micro_coin.Idempotency.Handler.{idempotent_handler, admit}

space_before : (d : Char) (t : String) → code d ≡ 32 → String.◌∷◌ d t ≡ concat " " t
space_before d t e =
    let sp : Char = " " in
    let same : d ≡ sp = Char-path d sp e in
    rw same (sym (append.cons sp "" t ∙ ap (λ u. String.◌∷◌ sp u) (append.nil t)))

-- A header that holds a token is "Bearer", a space and the token.
bearer_lem :
    (header token : String)
    → bearer header ≡ some token
    → header ≡ concat "Bearer" (concat " " token)
bearer_lem header token h = elim (Option-cases (cut 32 header)) [
  | inl missing ↦ absurd (ground arith)
  | inr ((scheme, rest), found) ↦
      let (d, blank, whole) = cut_lem 32 header scheme rest found in
      elim (Bool-cases (str_eq scheme "Bearer")) [
        | inl e ↦
            let same : rest ≡ token = ground arith in
            let is_bearer : scheme ≡ "Bearer" = (eq_iff scheme "Bearer").0 e in
            whole ∙ ap (concat scheme) (space_before d rest blank) ∙ (rw (is_bearer, same) refl)
        | inr e ↦ absurd (ground arith)
      ]
]

module _ {S : Type 0} (jwt : Jwt) (now : S → ℕ) (next : HandlerFunc S) (r : Request) (s : S) where
  -- A request to a path that is not let through either is answered 401 with the state unchanged, or
  -- has the header "Bearer " with a token that is valid now, and is what the next handler makes of the
  -- request with the token's user in its context.
  pub auth_middleware_cases :
      should_skip_auth r.path ≡ false
      → ((auth_middleware jwt now next r s).0.code ≡ 401)
          × ((auth_middleware jwt now next r s).1 ≡ s)
        ⊎ ((token : String) × (claims : Claims) × (header_get "Authorization" r.headers
              ≡ concat "Bearer" (concat " " token))
            × (validate_token jwt (now s) token ≡ ok claims)
            × (auth_middleware jwt now next r s ≡ next (with_user claims.user_id r) s))
  unfolding auth_middleware
  auth_middleware_cases guarded =
      elim (Bool-cases (str_eq (header_get "Authorization" r.headers) "")) [
        | inl empty ↦ inl (ground arith, ground arith)
        | inr given ↦ elim (Option-cases (bearer (header_get "Authorization" r.headers))) [
          | inl missing ↦ inl (ground arith, ground arith)
          | inr (token, found) ↦ go token found (validate_token jwt (now s) token) refl given
        ]
      ]
    where
      go :
          (token : String)
          → bearer (header_get "Authorization" r.headers) ≡ some token
          → (v : Result Claims) → validate_token jwt (now s) token ≡ v
          → str_eq (header_get "Authorization" r.headers) "" ≡ false
          → ((auth_middleware jwt now next r s).0.code ≡ 401)
              × ((auth_middleware jwt now next r s).1 ≡ s)
            ⊎ ((token : String) × (claims : Claims) × (header_get "Authorization" r.headers
                  ≡ concat "Bearer" (concat " " token))
                × (validate_token jwt (now s) token ≡ ok claims)
                × (auth_middleware jwt now next r s ≡ next (with_user claims.user_id r) s))
      go token found (err e) q given = inl (ground arith, ground arith)
      go token found (ok claims) q given = inr (
        token,
        claims,
        bearer_lem (header_get "Authorization" r.headers) token found,
        q,
        ground arith,
      )

module _ {D : Type 0} (jwt : Jwt) (now : World D → ℕ) (hash : Hashing)
    (handler : HandlerFunc (World D)) where
  -- Behind `AuthMiddleware`, which stores the user under a key of its own type, `IdempotentHandler`,
  -- which looks under a string, answers 401 to every request that arrives with an empty context on a
  -- path that is not let through, and changes nothing.
  pub idempotent_handler_blocked :
      (r : Request) (w : World D)
      → r.context ≡ []
      → should_skip_auth r.path ≡ false
      → ((auth_middleware jwt now (idempotent_handler hash handler) r w).0.code ≡ 401)
        × ((auth_middleware jwt now (idempotent_handler hash handler) r w).1 ≡ w)
  unfolding idempotent_handler admit
  idempotent_handler_blocked r w empty guarded =
      elim (auth_middleware_cases jwt now (idempotent_handler hash handler) r w guarded) [
        | inl refused ↦ refused
        | inr (token, claims, header, valid, passed) ↦
            (ground (arith, passed), ground (arith, passed))
      ]
