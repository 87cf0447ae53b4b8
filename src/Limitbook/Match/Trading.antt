-- ===== src/Limitbook/Match/Trading.antt =====
-- What one trade of `MatchOrder` does to each part of the state.
use micro_coin.Base.{
  ℕ, suc, ◌-◌, ◌≡◌, ◌≢◌, ◌⊎◌, List, [], ◌∷◌, ◌++◌, arith, ◌==◌, if◌then◌else◌, length, take, drop,
  All, All-append, All-take, All-drop, inl, inr,
}
use micro_coin.Decimal.{Decimal, ◌⊕◌, ◌⊖◌}
use micro_coin.Limitbook.Match.{
  Matching, Outcome, add_filled, trade_of, execute, settle, shift_left,
}

module _ {D : Type 0} ⦃dec : Decimal D⦄ where
  -- The state after a trade of `x`, whether or not the removal panics.
  abbrev pub trade : ℕ → ℕ → ℕ → ℕ → List ℕ → D → Matching D → Outcome × List ℕ × Matching D
  trade taker l i maker array x s = settle l i maker array (execute taker l maker x s)

  module _ (taker l i maker : ℕ) (array : List ℕ) (x : D) (s : Matching D) where
    pub trade-remaining : (trade taker l i maker array x s).2.remaining ≡ s.remaining ⊖ x
    unfolding settle execute
    trade-remaining = ground arith

    pub trade-trades :
        (trade taker l i maker array x s).2.trades
        ≡ s.trades ++ trade_of s.memory taker l maker x ∷ []
    unfolding settle execute
    trade-trades = ground arith

    pub trade-taker :
        maker ≢ taker
        → (trade taker l i maker array x s).2.memory.order_at taker
          ≡ add_filled x (s.memory.order_at taker)
    unfolding settle execute
    trade-taker n = ground arith

    -- The maker gains `x` and keeps its quantity; every other order but the taker is untouched.
    pub trade-filled :
        (r : ℕ)
        → r ≢ taker
        → ((trade taker l i maker array x s).2.memory.order_at r).filled_qty ≡ (
            if maker == r
            then (s.memory.order_at r).filled_qty ⊕ x
            else (s.memory.order_at r).filled_qty)
    unfolding settle execute
    trade-filled r n = ground arith

    pub trade-qty :
        (r : ℕ)
        → ((trade taker l i maker array x s).2.memory.order_at r).qty ≡ (s.memory.order_at r).qty
    unfolding settle execute
    trade-qty r = ground arith

    pub trade-price :
        (j : ℕ)
        → ((trade taker l i maker array x s).2.memory.level_at j).price
          ≡ (s.memory.level_at j).price
    unfolding settle execute
    trade-price j = ground arith

    -- The loop's array and the levels lose an order, or stay as they are.
    pub trade_array_cases :
        ((trade taker l i maker array x s).1 ≡ array)
        ⊎ ((trade taker l i maker array x s).1
            ≡ shift_left i (length (s.memory.level_at l).orders) array)
    unfolding settle execute
    trade_array_cases = ground arith

    pub trade_orders_cases :
        (j : ℕ)
        → ((((trade taker l i maker array x s).2.memory.level_at j).orders
              ≡ (s.memory.level_at j).orders)
            ⊎ (((trade taker l i maker array x s).2.memory.level_at j).orders
                ≡ take
                    (length (s.memory.level_at l).orders - 1)
                    (shift_left i (length (s.memory.level_at l).orders) array)))
    unfolding settle execute
    trade_orders_cases j = ground arith

    All-shift_left : (P : ℕ → Type 0) (k : ℕ) → All P array → All P (shift_left i k array)
    All-shift_left P k h =
        All-append P (take i array ++ drop (suc i) (take k array)) (drop (k - 1) array)
          (All-append P (take i array) (drop (suc i) (take k array)) (All-take P i array h)
            (All-drop P (suc i) (take k array) (All-take P k array h)))
          (All-drop P (k - 1) array h)

    -- No order comes into them.
    pub trade-array : (P : ℕ → Type 0) → All P array → All P (trade taker l i maker array x s).1
    trade-array P h = elim trade_array_cases [
      | inl e ↦ rw e h
      | inr e ↦ rw e (All-shift_left P (length (s.memory.level_at l).orders) h)
    ]

    pub trade-orders :
        (P : ℕ → Type 0) (j : ℕ)
        → All P array
        → All P (s.memory.level_at j).orders
        → All P ((trade taker l i maker array x s).2.memory.level_at j).orders
    trade-orders P j h k = elim (trade_orders_cases j) [
      | inl e ↦ rw e k
      | inr e ↦
          let n = length (s.memory.level_at l).orders in
          rw e (All-take P (n - 1) (shift_left i n array) (All-shift_left P n h))
    ]
