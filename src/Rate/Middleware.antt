-- ===== src/Rate/Middleware.antt =====
-- internal/rate/middleware.go: `RateLimitMiddleware`. JSON and "%d" are the parameters `encode` and
-- `digits`.
use micro_coin.Base.{
  ℕ, ◌+◌, ◌/◌, Bool, true, false, List, [], ◌∷◌, ◌++◌, String, none, some, if◌then◌else◌,
}
use micro_coin.Models.{ErrorResponse, error_code_rate_limit}
use micro_coin.Database.World.{World, Result, ok, err, new_uuid}
use micro_coin.Http.{Response, HandlerFunc, http_error}
use micro_coin.Auth.Middleware.{mentions, get_user_id_from_context}
use micro_coin.Rate.Number.{Number}
use micro_coin.Rate.Limiter.{Redis, Limiter, allow, get_remaining_tokens}

unfoldable pub should_skip_rate_limit : String → Bool
should_skip_rate_limit = mentions ("/health" ∷ "/metrics" ∷ "/auth/signup" ∷ "/auth/login" ∷ [])

-- Headers that are set before the next handler writes.
abbrev pub with_headers : List (String × String) → Response → Response
with_headers hs res = record res { headers = hs ++ res.headers }

abbrev pub too_many_requests : (ErrorResponse → String) → ℕ → Response
too_many_requests encode id = record {
  code = 429;
  headers = ("Content-Type", "application/json") ∷ [];
  body = encode (record {
    error = record {
      code = error_code_rate_limit;
      message = "Rate limit exceeded";
      request_id = id;
    };
  });
}

abbrev pub rate_headers : (ℕ → String) → Result ℕ → ℕ → List (String × String)
rate_headers digits (err e) now = []
rate_headers digits (ok remaining) now =
    ("X-RateLimit-Remaining", digits remaining)
    ∷ ("X-RateLimit-Reset", digits ((now + 60000) / 1000))
    ∷ []

-- The next handler runs on the world, and Redis stays as the limiter leaves it.
module _ {R D : Type 0} ⦃num : Number R⦄ (encode : ErrorResponse → String) (digits : ℕ → String)
    (limiter : Limiter) where
  unfoldable pub rate_limit_middleware : HandlerFunc (World D) → HandlerFunc (Redis R × World D)
  unfolding should_skip_rate_limit get_user_id_from_context
  rate_limit_middleware next r (redis, w) =
      if should_skip_rate_limit r.path
      then (let (res, w') = next r w in (res, (redis, w')))
      else elim (get_user_id_from_context r) [
        | none ↦ (http_error "User not authenticated" 401, (redis, w))
        | some user_id ↦
            let (allowed, redis') = allow limiter user_id redis in
            elim allowed [
              | err e ↦ (http_error "Rate limit check failed" 500, (redis', w))
              | ok false ↦
                  let id = w.fresh w.ids in
                  let w' = (new_uuid w).1 in (too_many_requests encode id, (redis', w'))
              | ok true ↦
                  let (remaining, redis'') = get_remaining_tokens limiter user_id redis' in
                  let (res, w') = next r w in
                  (with_headers (rate_headers digits remaining redis''.now) res, (redis'', w'))
            ]
      ]
