-- ===== src/Rate/Limiter/Bounds.antt =====
-- internal/rate/limiter.go: the number of tokens in the buckets.
use micro_coin.Base.{
  ℕ, suc, ◌+◌, ◌≤◌, ◌≡◌, ◌∙◌, refl, false, Bool-cases, Option, some, none, arith, inl, inr,
  if_split, ◌==◌, ltb,
}
use micro_coin.Database.World.{Result, ok, err, driver}
use micro_coin.Rate.Number.{Number, IsNumber, min_number}
use micro_coin.Rate.Limiter.{
  Bucket, Redis, Limiter, store, new_tokens, allow_script, allow, refill_per_sec, Reply, replied,
  refused, lost,
}

module _ {R : Type 0} ⦃num : Number R⦄ where
  -- From 0 to the capacity.
  pub record IsWithin (l : Limiter) (a : R) : Type 0 where
    pub nonneg : num.less a (num.of_nat 0) ≡ false
    pub capped : num.less (num.of_nat l.capacity) a ≡ false

  abbrev pub HoldsWithin : Limiter → Option (Bucket R) → Type 0
  HoldsWithin l none = Unit
  HoldsWithin l (some b) = IsWithin l b.tokens

  abbrev pub Precedes : ℕ → Option (Bucket R) → Type 0
  Precedes now none = Unit
  Precedes now (some b) = b.last_refill ≤ now

  -- Every bucket holds a number of tokens from 0 to the capacity.
  abbrev pub IsBounded : Limiter → Redis R → Type 0
  IsBounded l r = (u : ℕ) → HoldsWithin l (r.bucket_of u)

module _ {R : Type 0} ⦃num : Number R⦄ ⦃laws : IsNumber R⦄ (l : Limiter)
    (small : l.capacity ≤ laws.whole) where
  min_capped : (a b : R) → num.less a (min_number a b) ≡ false
  min_capped a b = elim (Bool-cases (num.less b a)) [
    | inl e ↦ rw e (laws.less_asym b a e)
    | inr e ↦ rw e (laws.less_irrefl a)
  ]

  min_nonneg :
      (a b c : R)
      → num.less a c ≡ false
      → num.less b c ≡ false
      → num.less (min_number a b) c ≡ false
  min_nonneg a b c p q = if_split (λ (x : R). num.less x c ≡ false) (num.less b a) (λ _. q) (λ _. p)

  refilled-IsWithin :
      (a : R) (m n s : ℕ)
      → l.refill ≡ suc s
      → m ≤ n
      → num.less a (num.of_nat 0) ≡ false
      → IsWithin l (
          min_number (num.of_nat l.capacity) (
            num.add a (
              num.mul
                (num.quo (num.sub (num.of_nat n) (num.of_nat m)) (num.of_nat 1000))
                (refill_per_sec l))))
  refilled-IsWithin a m n s e le p = record {
    nonneg =
        min_nonneg (num.of_nat l.capacity) _ (num.of_nat 0)
          (laws.less_of_nat l.capacity 0 small (omega arith) ∙ ground arith)
          (laws.add_nonneg a _ p
            (laws.mul_nonneg _ (refill_per_sec l) (laws.sub_nonneg m n 999 le) rate_nonneg));
    capped = min_capped (num.of_nat l.capacity) _;
  }
    where
      rate_nonneg : num.less (refill_per_sec l) (num.of_nat 0) ≡ false
      rate_nonneg = rw e (laws.quo_nonneg l.capacity s)

  new_tokens-IsWithin :
      (r : Redis R) (user s : ℕ)
      → l.refill ≡ suc s
      → IsBounded l r
      → Precedes r.now (r.bucket_of user)
      → IsWithin l (new_tokens l r user)
  unfolding new_tokens
  new_tokens-IsWithin r user s e v past = go (r.bucket_of user) refl
    where
      full : IsWithin l (
          min_number (num.of_nat l.capacity) (
            num.add (num.of_nat l.capacity) (
              num.mul
                (num.quo (num.sub (num.of_nat r.now) (num.of_nat r.now)) (num.of_nat 1000))
                (refill_per_sec l))))
      full =
          refilled-IsWithin (num.of_nat l.capacity) r.now r.now s e (omega arith)
            (laws.less_of_nat l.capacity 0 small (omega arith) ∙ ground arith)

      go : (o : Option (Bucket R)) → r.bucket_of user ≡ o → IsWithin l (new_tokens l r user)
      go none q = rw (new_tokens, q) full
      go (some b) q =
          let within : IsWithin l b.tokens = rw q at (v user) in
          let before : b.last_refill ≤ r.now = rw q at past in
          elim (Bool-cases (ltb r.clock b.expires_at)) [
            | inl alive ↦
                rw (new_tokens, q, alive)
                  (refilled-IsWithin b.tokens b.last_refill r.now s e before within.nonneg)
            | inr gone ↦ rw (new_tokens, q, gone) full
          ]

  store-IsBounded :
      (r : Redis R) (user : ℕ) (a : R) → IsBounded l r → IsWithin l a → IsBounded l (store user a r)
  store-IsBounded r user a v within u =
      if_split (λ (o : Option (Bucket R)). HoldsWithin l o) (u == user)
        (λ _. record {
          nonneg =
              rw (laws.kept_of_nat 0 (omega arith)) at
                (laws.kept_mono a (num.of_nat 0) within.nonneg);
          capped =
              rw (laws.kept_of_nat l.capacity small) at
                (laws.kept_mono (num.of_nat l.capacity) a within.capped);
        })
        (λ _. v u)

  spent-IsWithin :
      (a : R)
      → IsWithin l a
      → num.less a (num.of_nat 1) ≡ false
      → IsWithin l (num.sub a (num.of_nat 1))
  spent-IsWithin a within one = record {
    nonneg = laws.sub_one_nonneg a one;
    capped =
        laws.less_trans (num.of_nat l.capacity) a (num.sub a (num.of_nat 1)) within.capped
          (laws.sub_one_le a);
  }

  allow_script-IsBounded :
      (r : Redis R) (user s : ℕ)
      → l.refill ≡ suc s
      → IsBounded l r
      → Precedes r.now (r.bucket_of user)
      → IsBounded l (allow_script l user r).1
  unfolding allow_script
  allow_script-IsBounded r user s e v past =
      let a = new_tokens l r user in
      let within = new_tokens-IsWithin r user s e v past in
      elim (Bool-cases (num.less a (num.of_nat 1))) [
        | inl few ↦ rw (allow_script, few) (store-IsBounded r user a v within)
        | inr enough ↦
            rw (allow_script, enough)
              (store-IsBounded r user (num.sub a (num.of_nat 1)) v (spent-IsWithin a within enough))
      ]

  -- If the capacity is a number that doubles hold exactly and the refill time is not zero, then a call
  -- of `Allow` keeps every bucket between 0 and the capacity, whatever becomes of the call, unless the
  -- caller's clock has gone back since the user's bucket was last refilled.
  pub allow-IsBounded :
      (r : Redis R) (user s : ℕ)
      → l.refill ≡ suc s
      → IsBounded l r
      → Precedes r.now (r.bucket_of user)
      → IsBounded l (allow l user r).1
  unfolding allow
  allow-IsBounded r user s e v past = go (r.reply r.calls)
    where
      run : IsBounded l (allow_script l user (record r { calls = r.calls + 1 })).1
      run = allow_script-IsBounded (record r { calls = r.calls + 1 }) user s e v past

      go :
          (p : Reply)
          → IsBounded l
              (elim p as (λ _. Result ℕ × Redis R) [
                | replied ↦ (
                  ok (allow_script l user (record r { calls = r.calls + 1 })).0,
                  (allow_script l user (record r { calls = r.calls + 1 })).1,
                )
                | refused ↦ (err driver, record r { calls = r.calls + 1 })
                | lost ↦ (err driver, (allow_script l user (record r { calls = r.calls + 1 })).1)
              ]).1
      go replied = run
      go refused = v
      go lost = run
