-- ===== src/Rate/Tests.antt =====
-- The limiter and its theorems over the whole numbers, with divisions rounded down.
use micro_coin.Base.{
  ℕ, suc, ◌+◌, ◌-◌, ◌*◌, ◌/◌, ◌≡◌, refl, Bool, true, false, some, none, arith, ◌==◌, ltb, leb,
  if◌then◌else◌,
}
use native.Mathlib.Nat.{zero-div}
use micro_coin.Rate.Number.{Number, IsNumber}
use micro_coin.Rate.Limiter.{Redis, replied, Limiter, new_limiter, allow}
use micro_coin.Rate.Limiter.Bounds.{HoldsWithin, IsBounded, allow-IsBounded}
use micro_coin.Rate.Limiter.Burst.{passed, allow_burst}

self_less : (n : ℕ) → n - n ≡ 0
self_less n = omega arith

instance abbrev pub whole_numbers : Number ℕ
whole_numbers = record {
  of_nat = λ n. n;
  add = ◌+◌;
  sub = ◌-◌;
  mul = ◌*◌;
  quo = ◌/◌;
  less = ltb;
  floor = λ n. n;
  kept = λ n. n;
}

instance pub whole_numbers-IsNumber : IsNumber ℕ
whole_numbers-IsNumber = record {
  whole = 1000;
  less_irrefl = λ a. ground arith;
  less_trans = λ a b c h k. ground arith;
  less_asym = λ a b h. ground arith;
  sub_self = λ n d. rw (self_less n) (zero-div (suc d));
  zero_mul = λ m n. ground arith;
  add_zero = λ a. omega arith;
  sub_nonneg = λ m n d h. ground arith;
  quo_nonneg = λ m n. ground arith;
  mul_nonneg = λ a b h k. ground arith;
  add_nonneg = λ a b h k. ground arith;
  sub_one_nonneg = λ a h. ground arith;
  sub_one_le = λ a. ground arith;
  sub_one = λ n h. omega arith;
  less_of_nat = λ m n h k. refl;
  one_whole = omega arith;
  floor_of_nat = λ n h. refl;
  kept_of_nat = λ n h. refl;
  kept_mono = λ a b h. h;
}

abbrev limiter : Limiter
limiter = new_limiter 60 60

abbrev redis : Redis ℕ
redis = record { bucket_of = λ u. none; clock = 0; now = 0; reply = λ n. replied; calls = 0 }

abbrev used : Redis ℕ
used = record redis {
  bucket_of = λ u.
      if u == 7 then some (record { tokens = 3; last_refill = 0; expires_at = 60000 }) else none;
}

used-IsBounded : IsBounded limiter used
used-IsBounded u = go (u == 7)
  where
    go :
        (b : Bool)
        → HoldsWithin {R = ℕ} limiter
            (if b then some (record { tokens = 3; last_refill = 0; expires_at = 60000 }) else none)
    go true = record { nonneg = refl; capped = refl }
    go false = tt

allow-IsBounded_example : IsBounded limiter (allow limiter 7 used).1
unfolding whole_numbers-IsNumber
allow-IsBounded_example =
    allow-IsBounded limiter (omega arith) used 7 59 refl used-IsBounded (omega arith)

allow_burst_example : passed limiter 7 100 redis ≡ (if leb 100 60 then 100 else 60)
unfolding whole_numbers-IsNumber
allow_burst_example = allow_burst limiter 7 59 (omega arith) refl 100 redis refl (λ i. refl)
