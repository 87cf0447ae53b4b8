-- ===== src/Server/Stack.antt =====
-- cmd/monolith/main.go: `corsMiddleware` and the order in which `main` stacks the middleware.
-- `loggingMiddleware`, the innermost, only writes to the log.
pub mod Entry
use text.Mathlib.Text.{◌==◌ as str_eq}
use micro_coin.Base.{ℕ, Bool, ◌/◌, List, [], ◌∷◌, String, if◌then◌else◌}
use micro_coin.Models.{ErrorResponse}
use micro_coin.Database.World.{World}
use micro_coin.Http.{Request, Response, HandlerFunc}
use micro_coin.Auth.Tokens.{Jwt}
use micro_coin.Auth.Middleware.{auth_middleware}
use micro_coin.Rate.Number.{Number}
use micro_coin.Rate.Limiter.{Redis, Limiter, new_limiter}
use micro_coin.Rate.Middleware.{rate_limit_middleware, with_headers}

abbrev pub cors_headers : List (String × String)
cors_headers =
    ("Access-Control-Allow-Origin", "*")
    ∷ ("Access-Control-Allow-Methods", "GET, POST, PUT, DELETE, OPTIONS")
    ∷ ("Access-Control-Allow-Headers", "Content-Type, Authorization, Idempotency-Key")
    ∷ []

unfoldable pub cors_middleware : {S : Type 0} → HandlerFunc S → HandlerFunc S
cors_middleware next r s =
    if str_eq r.method "OPTIONS"
    then (record { code = 200; headers = cors_headers; body = "" }, s)
    else (let (res, s') = next r s in (with_headers cors_headers res, s'))

-- `rate.NewLimiter(redisClient, 60, time.Minute)`
abbrev pub limiter : Limiter
limiter = new_limiter 60 60

-- Without a limiter the handler runs on the world alone.
abbrev pub unlimited : {R D : Type 0} → HandlerFunc (World D) → HandlerFunc (Redis R × World D)
unlimited next r (redis, w) = let (res, w') = next r w in (res, (redis, w'))

-- A handler behind the whole stack. `redis_up` is whether Redis answered at the start: if not, `main`
-- makes no limiter. Seconds of the caller's clock are what tokens are judged by.
module _ {R D : Type 0} ⦃num : Number R⦄ (redis_up : Bool) (jwt : Jwt)
    (encode : ErrorResponse → String) (digits : ℕ → String) where
  unfoldable pub serve : HandlerFunc (World D) → HandlerFunc (Redis R × World D)
  serve handler =
      auth_middleware jwt (λ s. s.0.now / 1000)
        (if redis_up
          then rate_limit_middleware encode digits limiter (cors_middleware handler)
          else unlimited (cors_middleware handler))
