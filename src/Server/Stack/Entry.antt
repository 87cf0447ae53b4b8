-- ===== src/Server/Stack/Entry.antt =====
-- Who gets through the stack.
use Prim.Native.String.{◌++◌ as concat}
use micro_coin.Base.{
  ℕ, ◌/◌, ◌≡◌, ◌∙◌, ap, refl, Bool, true, false, String, some, arith, ◌⊎◌, inl, inr, if◌then◌else◌,
}
use micro_coin.Models.{ErrorResponse}
use micro_coin.Database.World.{World, Result, ok, err}
use micro_coin.Http.{Request, Response, HandlerFunc, header_get}
use micro_coin.Auth.Tokens.{Jwt, Claims, validate_token}
use micro_coin.Auth.Middleware.{should_skip_auth, get_user_id_from_context, with_user}
use micro_coin.Auth.Middleware.Entry.{auth_middleware_cases}
use micro_coin.Rate.Number.{Number}
use micro_coin.Rate.Limiter.{Redis, Limiter, allow}
use micro_coin.Rate.Middleware.{should_skip_rate_limit, rate_limit_middleware}
use micro_coin.Server.Stack.{serve, limiter, cors_middleware, unlimited}

-- The two lists of paths that are let through say the same of every path.
pub should_skip_rate_limit-eq-should_skip_auth :
    (path : String) → should_skip_rate_limit path ≡ should_skip_auth path
unfolding should_skip_rate_limit should_skip_auth
should_skip_rate_limit-eq-should_skip_auth path = ground arith

user_found : (user : ℕ) (r : Request) → get_user_id_from_context (with_user user r) ≡ some user
unfolding get_user_id_from_context
user_found user r = refl

module _ {R D : Type 0} ⦃num : Number R⦄ (encode : ErrorResponse → String) (digits : ℕ → String)
    (l : Limiter) (next : HandlerFunc (World D)) where
  -- The limiter answers, or lets the request through to the next handler.
  abbrev RateCases : ℕ → Request → Redis R × World D → Type 0
  RateCases user r s =
      let result = rate_limit_middleware encode digits l next r s in
      ((result.0.code ≡ 429) ⊎ (result.0.code ≡ 500)) × (result.1.1.tables ≡ s.1.tables)
      ⊎ (((allow l user s.0).0 ≡ ok true)
          × (result.1.1 ≡ (next r s.1).1)
          × (result.0.code ≡ (next r s.1).0.code)
          × (result.0.body ≡ (next r s.1).0.body))

  rate_limit_cases :
      (user : ℕ) (r : Request) (s : Redis R × World D)
      → should_skip_rate_limit r.path ≡ false
      → get_user_id_from_context r ≡ some user
      → RateCases user r s
  unfolding rate_limit_middleware
  rate_limit_cases user r s guarded who = go (allow l user s.0).0 refl
    where
      go : (v : Result Bool) → (allow l user s.0).0 ≡ v → RateCases user r s
      go (err e) q = inl (inr (ground arith), ground arith)
      go (ok false) q = inl (inl (ground arith), ground arith)
      go (ok true) q = inr (q, ground arith, ground arith, ground arith)

module _ {R D : Type 0} ⦃num : Number R⦄ (encode : ErrorResponse → String) (digits : ℕ → String)
    (handler : HandlerFunc (World D)) where
  -- What stands behind `AuthMiddleware`.
  abbrev inner : Bool → HandlerFunc (Redis R × World D)
  inner redis_up =
      if redis_up
      then rate_limit_middleware encode digits limiter (cors_middleware handler)
      else unlimited (cors_middleware handler)

  abbrev InnerCases : Bool → ℕ → Request → Redis R × World D → Type 0
  InnerCases redis_up user r s =
      (((inner redis_up r s).0.code ≡ 429) ⊎ ((inner redis_up r s).0.code ≡ 500))
        × ((inner redis_up r s).1.1.tables ≡ s.1.tables)
      ⊎ (((redis_up ≡ false) ⊎ ((allow limiter user s.0).0 ≡ ok true))
          × ((inner redis_up r s).1.1 ≡ (cors_middleware handler r s.1).1)
          × ((inner redis_up r s).0.code ≡ (cors_middleware handler r s.1).0.code)
          × ((inner redis_up r s).0.body ≡ (cors_middleware handler r s.1).0.body))

  inner_cases :
      (redis_up : Bool) (user : ℕ) (r : Request) (s : Redis R × World D)
      → should_skip_rate_limit r.path ≡ false
      → get_user_id_from_context r ≡ some user
      → InnerCases redis_up user r s
  inner_cases true user r s guarded who =
      elim (rate_limit_cases encode digits limiter (cors_middleware handler) user r s guarded who) [
        | inl limited ↦ inl limited
        | inr (yes_, world, code, body) ↦ inr (inr yes_, world, code, body)
      ]
  inner_cases false user r s guarded who = inr (inl refl, refl, refl, refl)

module _ {R D : Type 0} ⦃num : Number R⦄ (redis_up : Bool) (jwt : Jwt)
    (encode : ErrorResponse → String) (digits : ℕ → String) (handler : HandlerFunc (World D)) where
  -- The request has the header "Bearer " with a token that is valid now, the limiter, if there is one,
  -- has allowed a request of the token's user, and the world, the code and the body are those that the handler behind
  -- `corsMiddleware` gives for it.
  pub record Entered (r : Request) (s : Redis R × World D) : Type 0 where
    pub token : String
    pub claims : Claims
    pub bearer : header_get "Authorization" r.headers ≡ concat "Bearer" (concat " " token)
    pub valid : validate_token jwt (s.0.now / 1000) token ≡ ok claims
    pub allowed : (redis_up ≡ false) ⊎ ((allow limiter claims.user_id s.0).0 ≡ ok true)
    pub world :
        (serve redis_up jwt encode digits handler r s).1.1
        ≡ (cors_middleware handler (with_user claims.user_id r) s.1).1
    pub code :
        (serve redis_up jwt encode digits handler r s).0.code
        ≡ (cors_middleware handler (with_user claims.user_id r) s.1).0.code
    pub body :
        (serve redis_up jwt encode digits handler r s).0.body
        ≡ (cors_middleware handler (with_user claims.user_id r) s.1).0.body

  -- A request on a path that is not let through either is answered 401, 429 or 500 with no table
  -- changed, whatever the handler, or has entered with a valid token of a user whom the limiter allows.
  pub serve_cases :
      (r : Request) (s : Redis R × World D)
      → should_skip_auth r.path ≡ false
      → ((serve redis_up jwt encode digits handler r s).0.code ≡ 401)
          × ((serve redis_up jwt encode digits handler r s).1.1.tables ≡ s.1.tables)
        ⊎ (((serve redis_up jwt encode digits handler r s).0.code ≡ 429)
            ⊎ ((serve redis_up jwt encode digits handler r s).0.code ≡ 500))
          × ((serve redis_up jwt encode digits handler r s).1.1.tables ≡ s.1.tables)
        ⊎ Entered r s
  unfolding serve
  serve_cases r s guarded =
      elim (auth_middleware_cases jwt (λ v. v.0.now / 1000) (inner encode digits handler redis_up) r
        s guarded) [
          | inl (refused, same) ↦ inl (refused, rw same refl)
          | inr (token, claims, header, valid, passed) ↦
              let r' = with_user claims.user_id r in
              let who : get_user_id_from_context r' ≡ some claims.user_id =
                user_found claims.user_id r in
              let open_ : should_skip_rate_limit r.path ≡ false =
                rw (should_skip_rate_limit-eq-should_skip_auth r.path) guarded in
              elim (inner_cases encode digits handler redis_up claims.user_id r' s open_ who) [
                | inl (code, same) ↦ inr (
                    inl (
                      elim code [
                        | inl e ↦
                            inl (ap (λ (v : Response × (Redis R × World D)). v.0.code) passed ∙ e)
                        | inr e ↦
                            inr (ap (λ (v : Response × (Redis R × World D)). v.0.code) passed ∙ e)
                      ],
                      ap (λ (v : Response × (Redis R × World D)). v.1.1.tables) passed ∙ same,
                    ))
                | inr (yes_, world, code, body) ↦ inr (
                    inr (record {
                      token = token;
                      claims = claims;
                      bearer = header;
                      valid = valid;
                      allowed = yes_;
                      world = ap (λ (v : Response × (Redis R × World D)). v.1.1) passed ∙ world;
                      code = ap (λ (v : Response × (Redis R × World D)). v.0.code) passed ∙ code;
                      body = ap (λ (v : Response × (Redis R × World D)). v.0.body) passed ∙ body;
                    }))
              ]
        ]
