-- ===== src/Limitbook/Match/Invariant.antt =====
-- What every run of `MatchOrder` keeps, however it ends.
use micro_coin.Base.{
  ℕ, zero, suc, ◌≡◌, ◌≢◌, sym, ap, ◌∙◌, true, false, List, [], ◌∷◌, ◌++◌, arith, All, All-append,
  All-get, ℕ-cases, inl, inr, get_elem?, Option-cases, Bool-cases, ◌==◌, if_split,
}
use micro_coin.Decimal.{Decimal, IsDecimal, nought, ◌⊕◌, ◌⊖◌, ◌≼◌, ◌≺◌, less_than_or_equal, min_of}
use micro_coin.Decimal.Laws.{move_total, sub_nonneg, le_refl, sub_add_cancel}
use micro_coin.Models.{Order, Trade}
use micro_coin.Limitbook.Match.{
  Matching, Outcome, returned, panicked, out_of_fuel, trade_of, add_filled, fill_level, open_qty,
  beyond,
}
use micro_coin.Limitbook.Match.Trading.{
  trade, trade-remaining, trade-trades, trade-taker, trade-filled, trade-qty, trade-price,
  trade-array, trade-orders,
}

module _ {D : Type 0} ⦃dec : Decimal D⦄ where
  abbrev pub sum_qty : List (Trade D) → D
  sum_qty [] = nought
  sum_qty (t ∷ ts) = t.qty ⊕ sum_qty ts

  -- The order is filled to its quantity at most.
  abbrev pub IsWithin : Order D → Type 0
  IsWithin o = o.filled_qty ≼ o.qty

  -- A trade of a positive quantity, in the name of the taker, at a price that it accepts.
  pub record IsFair (o : Order D) (t : Trade D) : Type 0 where
    pub positive : nought ≺ t.qty
    pub accepted : beyond o t.price ≡ false
    pub taker : t.taker_id ≡ o.user_id

  -- The state of a run for the taker `o`, which was `o` when the run began. No level holds the taker.
  pub record IsRun (taker : ℕ) (o : Order D) (s : Matching D) : Type 0 where
    pub apart : (j : ℕ) → All (λ r. r ≢ taker) (s.memory.level_at j).orders
    pub same :
        s.memory.order_at taker ≡ record o { filled_qty = (s.memory.order_at taker).filled_qty }
    pub whole : s.remaining ⊕ (s.memory.order_at taker).filled_qty ≡ o.qty
    pub traded : (s.memory.order_at taker).filled_qty ≡ o.filled_qty ⊕ sum_qty s.trades
    pub left : nought ≼ s.remaining
    pub fair : All (IsFair o) s.trades
    pub within : (r : ℕ) → r ≢ taker → IsWithin (s.memory.order_at r)

module _ {D : Type 0} ⦃dec : Decimal D⦄ ⦃laws : IsDecimal D⦄ where
  sum_qty-append : (ts : List (Trade D)) (t : Trade D) → sum_qty (ts ++ t ∷ []) ≡ sum_qty ts ⊕ t.qty
  sum_qty-append [] t = laws.add_comm t.qty nought
  sum_qty-append (u ∷ ts) t =
      rw (sum_qty-append ts t) (sym (laws.add_assoc u.qty (sum_qty ts) t.qty))

  min-le_left : (a b : D) → min_of a b ≼ a
  min-le_left a b = ground (arith, le_refl a, (laws.cmp_swap a b).0, (laws.cmp_swap b a).0)

  min-le_right : (a b : D) → min_of a b ≼ b
  min-le_right a b = ground (arith, le_refl b)

  min_pos : (a b : D) → nought ≺ a → nought ≺ b → nought ≺ min_of a b
  min_pos a b h k = ground arith

  -- Room for `x` is room after it is taken.
  room : (f q x : D) → x ≼ q ⊖ f → f ⊕ x ≼ q
  room f q x h =
      let e : dec.cmp (x ⊕ f) (q ⊖ f ⊕ f) ≡ dec.cmp x (q ⊖ f) = laws.cmp-add x (q ⊖ f) f in
      rw (laws.add_comm f x) (rw (sub_add_cancel q f) at (rw (← e) at h))

  module _ (taker : ℕ) (o : Order D) (l i maker : ℕ) (array : List ℕ) (x : D) (s : Matching D) where
    trade-IsRun :
        IsRun taker o s
        → maker ≢ taker
        → All (λ r. r ≢ taker) array
        → nought ≺ x
        → x ≼ s.remaining
        → x ≼ open_qty (s.memory.order_at maker)
        → beyond o (s.memory.level_at l).price ≡ false
        → IsRun taker o (trade taker l i maker array x s).2
    trade-IsRun v ne apart pos le_left le_open ok = record {
      apart = λ j. trade-orders taker l i maker array x s (λ r. r ≢ taker) j apart (v.apart j);
      same = rw tk (ap (add_filled x) v.same);
      whole =
          rw (trade-remaining taker l i maker array x s, tk)
            (move_total s.remaining (s.memory.order_at taker).filled_qty x ∙ v.whole);
      traded =
          rw
            (
              trade-trades taker l i maker array x s,
              sum_qty-append s.trades (trade_of s.memory taker l maker x),
              tk,
            )
            (ap (λ f. f ⊕ x) v.traded ∙ laws.add_assoc o.filled_qty (sum_qty s.trades) x);
      left = rw (trade-remaining taker l i maker array x s) (sub_nonneg s.remaining x le_left);
      fair = rw (trade-trades taker l i maker array x s) (
          All-append (IsFair o) s.trades (trade_of s.memory taker l maker x ∷ []) v.fair (
            record {
              positive = pos;
              accepted = ok;
              taker = ap (λ (u : Order D). u.user_id) v.same;
            },
            tt,
          ));
      within = λ r n.
          rw (trade-filled taker l i maker array x s r n, trade-qty taker l i maker array x s r)
            (elim (ℕ-cases maker r) [
              | inl e ↦
                  let test : (maker == r) ≡ true = ground arith in
                  let fits : x ≼ open_qty (s.memory.order_at r) = rw (← e) le_open in
                  rw test (room (s.memory.order_at r).filled_qty (s.memory.order_at r).qty x fits)
              | inr d ↦ let test : (maker == r) ≡ false = ground arith in rw test (v.within r n)
            ]);
    }
      where
        tk :
            (trade taker l i maker array x s).2.memory.order_at taker
            ≡ add_filled x (s.memory.order_at taker)
        tk = trade-taker taker l i maker array x s ne

  pub resume :
      {taker : ℕ} {o : Order D} (r : Outcome) (next : Outcome × Matching D) (s : Matching D)
      → IsRun taker o s
      → IsRun taker o next.1
      → IsRun taker o
          (elim r as (λ _. Outcome × Matching D) [
            | returned ↦ next
            | panicked ↦ (panicked, s)
            | out_of_fuel ↦ (out_of_fuel, s)
          ]).1
  resume returned next s v n = n
  resume panicked next s v n = v
  resume out_of_fuel next s v n = v

  -- The inner loop, from any of its rounds.
  pub fill_level-IsRun :
      (n taker l i : ℕ) (o : Order D) (array : List ℕ) (s : Matching D)
      → IsRun taker o s
      → All (λ r. r ≢ taker) array
      → beyond o (s.memory.level_at l).price ≡ false
      → IsRun taker o (fill_level n taker l i array s).1
  unfolding fill_level
  fill_level-IsRun zero taker l i o array s v apart ok = v
  fill_level-IsRun (suc n) taker l i o array s v apart ok =
      elim (Bool-cases (less_than_or_equal s.remaining nought)) [
        | inl done ↦ rw (done, fill_level) v
        | inr more ↦ elim (Option-cases (get_elem? array i)) [
          | inl e ↦ rw (more, e, fill_level) v
          | inr (maker, e) ↦
              let available = open_qty (s.memory.order_at maker) in
              let x = min_of s.remaining available in
              let t = trade taker l i maker array x s in
              let next = fill_level n taker l (suc i) t.1 t.2 in
              rw (more, e, fill_level)
                (if_split (λ (r : Outcome × Matching D). IsRun taker o r.1)
                  (less_than_or_equal available nought)
                  (λ _. fill_level-IsRun n taker l (suc i) o array s v apart ok)
                  λ live.
                    let pos : nought ≺ s.remaining =
                      ground (arith, (laws.cmp_swap s.remaining nought).0) in
                    let pos' : nought ≺ available =
                      ground (arith, (laws.cmp_swap available nought).0) in
                    let v' =
                      trade-IsRun taker o l i maker array x s v
                        (All-get (λ r. r ≢ taker) array i apart e) apart
                        (min_pos s.remaining available pos pos') (min-le_left s.remaining available)
                        (min-le_right s.remaining available) ok in
                    resume t.0 next t.2 v' (
                      fill_level-IsRun n taker l (suc i) o t.1 t.2 v'
                        (trade-array taker l i maker array x s (λ r. r ≢ taker) apart)
                        (rw (trade-price taker l i maker array x s l) ok)))
        ]
      ]
