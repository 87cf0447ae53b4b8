-- ===== src/Rate/Limiter/Burst.antt =====
-- How many requests pass at one instant.
use micro_coin.Base.{
  ℕ, zero, suc, ◌+◌, ◌≤◌, ◌≡◌, true, false, none, arith, if◌then◌else◌, ltb, leb, ==_refl,
}
use micro_coin.Database.World.{ok}
use micro_coin.Rate.Number.{Number, IsNumber, min_number}
use micro_coin.Rate.Limiter.{
  Redis, Limiter, replied, store, new_tokens, allow_script, allow, refill_per_sec,
}

module _ {R : Type 0} ⦃num : Number R⦄ (l : Limiter) (user : ℕ) where
  -- How many of the next `n` calls of `Allow` say yes.
  unfoldable pub passed : ℕ → Redis R → ℕ
  passed zero r = 0
  passed (suc n) r =
      let (result, r') = allow l user r in
      elim result [ ok true ↦ suc (passed n r') | _ ↦ passed n r' ]

  -- The bucket of the user holds `k` tokens, as of now.
  abbrev Holds : ℕ → Redis R → Type 0
  Holds k r = new_tokens l r user ≡ num.of_nat k

module _ {R : Type 0} ⦃num : Number R⦄ ⦃laws : IsNumber R⦄ (l : Limiter) (user s : ℕ)
    (small : l.capacity ≤ laws.whole) (lasts : l.refill ≡ suc s) where
  -- At the instant of the last refill nothing has been refilled since.
  refilled :
      (now k : ℕ)
      → k ≤ l.capacity
      → min_number (num.of_nat l.capacity) (
          num.add (num.of_nat k) (
            num.mul
              (num.quo (num.sub (num.of_nat now) (num.of_nat now)) (num.of_nat 1000))
              (refill_per_sec l)))
        ≡ num.of_nat k
  refilled now k le =
      let e : num.mul (num.quo (num.sub (num.of_nat now) (num.of_nat now)) (num.of_nat 1000))
            (refill_per_sec l)
          ≡ num.of_nat 0 =
        rw (lasts, laws.sub_self now 999) (laws.zero_mul l.capacity s) in
      ground (arith, e, laws.add_zero (num.of_nat k), laws.less_of_nat k l.capacity)

  fresh-Holds : (r : Redis R) → r.bucket_of user ≡ none → Holds l user l.capacity r
  unfolding new_tokens
  fresh-Holds r e = rw (new_tokens, e) (refilled r.now l.capacity (omega arith))

  store-Holds :
      (r : Redis R) (k : ℕ) → k ≤ l.capacity → Holds l user k (store user (num.of_nat k) r)
  unfolding new_tokens
  store-Holds r k le =
      let alive : ltb r.clock (r.clock + 60000) ≡ true = ground arith in
      rw (new_tokens, ==_refl user, alive, laws.kept_of_nat k (omega arith)) (refilled r.now k le)

  allow_yes :
      (r : Redis R) (k : ℕ)
      → suc k ≤ l.capacity
      → r.reply r.calls ≡ replied
      → Holds l user (suc k) r
      → allow l user r ≡ (ok true, store user (num.of_nat k) (record r { calls = r.calls + 1 }))
  unfolding allow allow_script new_tokens
  allow_yes r k le answers h =
      let pass = laws.less_of_nat (suc k) 1 (omega arith) laws.one_whole in
      ground (arith, h, pass, laws.sub_one k (omega arith))

  allow_no :
      (r : Redis R)
      → r.reply r.calls ≡ replied
      → Holds l user 0 r
      → allow l user r ≡ (ok false, store user (num.of_nat 0) (record r { calls = r.calls + 1 }))
  unfolding allow allow_script new_tokens
  allow_no r answers h =
      let stop = laws.less_of_nat 0 1 (omega arith) laws.one_whole in ground (arith, h, stop)

  passed_of_held :
      (n k : ℕ) (r : Redis R)
      → k ≤ l.capacity
      → ((i : ℕ) → r.reply i ≡ replied)
      → Holds l user k r
      → passed l user n r ≡ (if leb n k then n else k)
  unfolding passed
  passed_of_held zero k r le answers h = ground arith
  passed_of_held (suc n) zero r le answers h =
      let v = record r { calls = r.calls + 1 } in
      ground (
        arith,
        allow_no r (answers r.calls) h,
        passed_of_held n 0 (store user (num.of_nat 0) v) le answers (store-Holds v 0 le),
      )
  passed_of_held (suc n) (suc k) r le answers h =
      let v = record r { calls = r.calls + 1 } in
      ground (
        arith,
        allow_yes r k le (answers r.calls) h,
        passed_of_held n k (store user (num.of_nat k) v) (omega arith) answers
            (store-Holds v k (omega arith)),
      )

  -- At one instant, with Redis answering, exactly the first `capacity` of any number of requests of a
  -- user without a bucket are allowed. The capacity is a number that doubles hold exactly, and the
  -- refill time is not zero.
  pub allow_burst :
      (n : ℕ) (r : Redis R)
      → r.bucket_of user ≡ none
      → ((i : ℕ) → r.reply i ≡ replied)
      → passed l user n r ≡ (if leb n l.capacity then n else l.capacity)
  allow_burst n r fresh answers =
      passed_of_held n l.capacity r (omega arith) answers (fresh-Holds r fresh)
