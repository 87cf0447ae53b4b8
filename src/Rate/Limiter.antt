-- ===== src/Rate/Limiter.antt =====
-- internal/rate/limiter.go: `Limiter`. The scripts run in Redis as one step, and are part of the
-- file; Redis itself is not part of the repository.
pub mod Bounds
pub mod Burst
use micro_coin.Base.{ℕ, ◌+◌, ◌≡◌, Bool, true, false, Option, some, none, ltb, ◌==◌, if◌then◌else◌}
use micro_coin.Database.World.{Result, ok, err, driver, Error, wrap}
use micro_coin.Rate.Number.{Number, min_number}

-- The hash at a user's key. `expires_at` is the time, in milliseconds of Redis's clock, at which Redis
-- drops it.
pub record Bucket (R : Type 0) : Type 0 where
  pub tokens : R
  pub last_refill : ℕ
  pub expires_at : ℕ

-- The keys "rate:<user>", by user, with the two clocks: Redis's and the caller's. `reply` is what
-- becomes of the next calls: a call can fail before the script runs or after.
pub data Reply : Type 0 where
  replied refused lost : Reply

pub record Redis (R : Type 0) : Type 0 where
  pub bucket_of : ℕ → Option (Bucket R)
  pub clock : ℕ
  pub now : ℕ
  pub reply : ℕ → Reply
  pub calls : ℕ

-- `refill` is in seconds.
pub record Limiter : Type 0 where
  pub capacity : ℕ
  pub refill : ℕ

abbrev pub new_limiter : ℕ → ℕ → Limiter
new_limiter capacity refill = record { capacity = capacity; refill = refill }

module _ {R : Type 0} ⦃num : Number R⦄ where
  -- `HMGET`: a hash past its expiry is gone.
  abbrev pub live : Redis R → ℕ → Option (Bucket R)
  live r user = elim (r.bucket_of user) [
    | none ↦ none
    | some b ↦ if ltb r.clock b.expires_at then some b else none
  ]

  -- `HMSET` and `EXPIRE`
  abbrev pub store : ℕ → R → Redis R → Redis R
  store user tokens r = record r {
    bucket_of = λ u.
        if u == user
        then some
            (record { tokens = num.kept tokens; last_refill = r.now; expires_at = r.clock + 60000 })
        else r.bucket_of u;
  }

  -- `float64(l.capacity) / l.refill.Seconds()`
  abbrev pub refill_per_sec : Limiter → R
  refill_per_sec l = num.quo (num.of_nat l.capacity) (num.of_nat l.refill)

  -- The tokens that both scripts find: those of the bucket, a full one if there is none, and what has
  -- been refilled since, up to the capacity.
  unfoldable pub new_tokens : Limiter → Redis R → ℕ → R
  new_tokens l r user = elim (live r user) [
    | none ↦ min_number (num.of_nat l.capacity) (
        num.add (num.of_nat l.capacity) (
          num.mul (num.quo (num.sub (num.of_nat r.now) (num.of_nat r.now)) (num.of_nat 1000))
            (refill_per_sec l)))
    | some b ↦ min_number (num.of_nat l.capacity) (
        num.add b.tokens (
          num.mul
            (num.quo (num.sub (num.of_nat r.now) (num.of_nat b.last_refill)) (num.of_nat 1000))
            (refill_per_sec l)))
  ]

  -- The script of `Allow`.
  unfoldable pub allow_script : Limiter → ℕ → Redis R → ℕ × Redis R
  allow_script l user r =
      let tokens = new_tokens l r user in
      if num.less tokens (num.of_nat 1)
      then (0, store user tokens r)
      else (1, store user (num.sub tokens (num.of_nat 1)) r)

  -- `client.Eval(...).Result()`
  abbrev pub eval : {A : Type 0} → (Redis R → A × Redis R) → Redis R → Result A × Redis R
  eval script r =
      let r' = record r { calls = r.calls + 1 } in
      elim (r.reply r.calls) [
        | replied ↦ let (a, r'') = script r' in (ok a, r'')
        | refused ↦ (err driver, r')
        | lost ↦ (err driver, (script r').1)
      ]

  unfoldable pub allow : Limiter → ℕ → Redis R → Result Bool × Redis R
  allow l user r =
      let (result, r') = eval (allow_script l user) r in
      (
        elim result [
          | err e ↦ err (wrap "failed to execute rate limit script" e)
          | ok n ↦ ok (n == 1)
        ],
        r',
      )

  unfoldable pub get_remaining_tokens : Limiter → ℕ → Redis R → Result ℕ × Redis R
  get_remaining_tokens l user r =
      let (result, r') = eval (λ v. (num.floor (new_tokens l v user), v)) r in
      (elim result [ err e ↦ err (wrap "failed to get remaining tokens" e) | ok n ↦ ok n ], r')

  -- `Del`
  unfoldable pub reset : ℕ → Redis R → Result (Unit {0}) × Redis R
  reset user =
      eval (λ r. (tt, record r { bucket_of = λ u. if u == user then none else r.bucket_of u }))
