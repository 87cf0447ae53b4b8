-- ===== src/Limitbook/Match/Skips.antt =====
-- A level of three orders, of which the range loop of `MatchOrder` passes over the second.
use micro_coin.Base.{ℕ, suc, ◌≡◌, ◌≢◌, refl, ◌∙◌, false, List, [], ◌∷◌, some, arith, ap}
use micro_coin.Decimal.{Decimal, IsDecimal, nought, ◌⊕◌, ◌⊖◌, ◌≼◌, ◌≺◌}
use micro_coin.Decimal.Laws.{lt_of_lt_of_le}
use micro_coin.Models.{Trade}
use micro_coin.Limitbook.Memory.{Memory}
use micro_coin.Limitbook.Side.{get_best_level}
use micro_coin.Limitbook.Book.{OrderBook}
use micro_coin.Limitbook.Match.Trading.{
  trade, trade-remaining, trade-filled, trade-qty, trade-trades,
}
use micro_coin.Limitbook.Match.Fills.{
  drop_empty-remaining, drop_empty-trades, spent, stop, filled_up, min_eq, min_eq_right,
}
use micro_coin.Limitbook.Match.Runs.{loop_returned}
use micro_coin.Limitbook.Match.{
  Matching, returned, fill_level, match_loop, match_order, open_qty, beyond, drop_empty, execute,
  settle, start, opposite,
}

module _ {D : Type 0} ⦃dec : Decimal D⦄ ⦃laws : IsDecimal D⦄ where
  -- The first of three orders is filled and removed; the third then stands at the second place.
  first_of_three :
      (taker l a b c : ℕ) (s : Matching D)
      → (s.memory.level_at l).orders ≡ a ∷ b ∷ c ∷ []
      → a ≢ taker
      → let t = trade taker l 0 a (a ∷ b ∷ c ∷ []) (open_qty (s.memory.order_at a)) s in
        (t.0 ≡ returned) × (t.1 ≡ b ∷ c ∷ c ∷ []) × ((t.2.memory.level_at l).orders ≡ b ∷ c ∷ [])
  unfolding execute settle
  first_of_three taker l a b c s orders na =
      let o = s.memory.order_at a in
      ground (
        arith,
        filled_up o.filled_qty o.qty,
        (laws.cmp-eq (o.filled_qty ⊕ (o.qty ⊖ o.filled_qty)) o.qty).1,
      )

  -- The last order of a level of two can be removed.
  last_trade_returns :
      (taker l b c : ℕ) (array : List ℕ) (x : D) (s : Matching D)
      → (s.memory.level_at l).orders ≡ b ∷ c ∷ []
      → (trade taker l 1 c array x s).0 ≡ returned
  unfolding settle execute
  last_trade_returns taker l b c array x s e = ground arith

  -- The states after the two trades.
  abbrev after_first : ℕ → ℕ → ℕ → ℕ → ℕ → Matching D → Matching D
  after_first taker l a b c s =
      (trade taker l 0 a (a ∷ b ∷ c ∷ []) (open_qty (s.memory.order_at a)) s).2

  abbrev after_both : ℕ → ℕ → ℕ → ℕ → ℕ → Matching D → Matching D
  after_both taker l a b c s =
      let s' = after_first taker l a b c s in (trade taker l 1 c (b ∷ c ∷ c ∷ []) s'.remaining s').2

  level_skips :
      (taker l a b c : ℕ) (s : Matching D)
      → (s.memory.level_at l).orders ≡ a ∷ b ∷ c ∷ []
      → a ≢ c
      → a ≢ taker
      → c ≢ taker
      → nought ≺ open_qty (s.memory.order_at a)
      → open_qty (s.memory.order_at a) ≼ s.remaining
      → nought ≺ s.remaining ⊖ open_qty (s.memory.order_at a)
      → s.remaining ⊖ open_qty (s.memory.order_at a) ≼ open_qty (s.memory.order_at c)
      → fill_level 3 taker l 0 (a ∷ b ∷ c ∷ []) s ≡ (returned, after_both taker l a b c s)
  unfolding fill_level
  level_skips taker l a b c s orders ne na nc pa fits more rest =
      let oa = open_qty (s.memory.order_at a) in
      let oc = open_qty (s.memory.order_at c) in
      let t = trade taker l 0 a (a ∷ b ∷ c ∷ []) oa s in
      let (returns, array, left) = first_of_three taker l a b c s orders na in
      let same : open_qty (t.2.memory.order_at c) ≡ oc = ground (
        arith,
        trade-filled taker l 0 a (a ∷ b ∷ c ∷ []) oa s c nc,
        trade-qty taker l 0 a (a ∷ b ∷ c ∷ []) oa s c,
      ) in
      let size : t.2.remaining ≡ s.remaining ⊖ oa =
        trade-remaining taker l 0 a (a ∷ b ∷ c ∷ []) oa s in
      let x = t.2.remaining in
      let pos' : nought ≺ x = rw size more in
      let rest' : x ≼ oc = rw size rest in
      let pos : nought ≺ s.remaining = lt_of_lt_of_le nought oa s.remaining pa fits in
      let open_c : nought ≺ oc = lt_of_lt_of_le nought x oc pos' rest' in
      let t' = trade taker l 1 c (b ∷ c ∷ c ∷ []) x t.2 in
      ground (
        arith,
        returns,
        array,
        same,
        last_trade_returns taker l b c (b ∷ c ∷ c ∷ []) x t.2 left,
        (laws.cmp_swap s.remaining nought).1,
        (laws.cmp_swap oa nought).1,
        (laws.cmp_swap oc nought).1,
        (laws.cmp_swap x nought).1,
        min_eq_right s.remaining oa fits,
        min_eq x oc rest',
        stop 1 taker l 2 t'.1 t'.2 (trade-remaining taker l 1 c (b ∷ c ∷ c ∷ []) x t.2 ∙ spent x),
      )

  -- Who sells and how much, trade by trade.
  abbrev pub fills : List (Trade D) → List (ℕ × D)
  fills [] = []
  fills (t ∷ ts) = (t.maker_id, t.qty) ∷ fills ts

  -- A trade leaves the owners of the orders as they are.
  trade_owner :
      (taker l i maker : ℕ) (array : List ℕ) (x : D) (s : Matching D) (r : ℕ)
      → ((trade taker l i maker array x s).2.memory.order_at r).user_id
        ≡ (s.memory.order_at r).user_id
  unfolding settle execute
  trade_owner taker l i maker array x s r = ground arith

  after_both-fills :
      (taker l a b c : ℕ) (s : Matching D)
      → s.trades ≡ []
      → fills (after_both taker l a b c s).trades
        ≡ ((s.memory.order_at a).user_id, open_qty (s.memory.order_at a))
          ∷ ((s.memory.order_at c).user_id, s.remaining ⊖ open_qty (s.memory.order_at a))
          ∷ []
  after_both-fills taker l a b c s none_ =
      let oa = open_qty (s.memory.order_at a) in
      let s' = after_first taker l a b c s in
      rw
        (
          trade-trades taker l 1 c (b ∷ c ∷ c ∷ []) s'.remaining s',
          trade-trades taker l 0 a (a ∷ b ∷ c ∷ []) oa s,
          trade_owner taker l 0 a (a ∷ b ∷ c ∷ []) oa s c,
          trade-remaining taker l 0 a (a ∷ b ∷ c ∷ []) oa s,
          none_,
        )
        refl

  after_both-remaining :
      (taker l a b c : ℕ) (s : Matching D) → (after_both taker l a b c s).remaining ≡ nought
  after_both-remaining taker l a b c s =
      let s' = after_first taker l a b c s in
      trade-remaining taker l 1 c (b ∷ c ∷ c ∷ []) s'.remaining s' ∙ spent s'.remaining

  loop_skips :
      (fuel taker l a b c : ℕ) (s : Matching D)
      → nought ≺ s.remaining
      → get_best_level s.side ≡ some l
      → beyond (s.memory.order_at taker) (s.memory.level_at l).price ≡ false
      → (s.memory.level_at l).orders ≡ a ∷ b ∷ c ∷ []
      → fill_level 3 taker l 0 (a ∷ b ∷ c ∷ []) s ≡ (returned, after_both taker l a b c s)
      → match_loop (suc (suc fuel)) taker s ≡ (returned, drop_empty l (after_both taker l a b c s))
  unfolding match_loop
  loop_skips fuel taker l a b c s pos best ok orders filled =
      let s' = after_both taker l a b c s in
      let done : (drop_empty l s').remaining ≡ nought =
        drop_empty-remaining l s' ∙ after_both-remaining taker l a b c s in
      ground (
        arith,
        filled,
        done,
        (laws.cmp_swap s.remaining nought).1,
        (laws.cmp-eq (drop_empty l s').remaining nought).1,
      )

  -- The best level of the other side holds exactly three orders, the first and the third distinct and
  -- not the taker, at a price that the taker accepts. If the taker wants more than the first has open,
  -- and no more than the first and the third have together, the call returns, with two rounds of the
  -- outer loop, and makes exactly two trades: with the first for all that it has open, and with the
  -- third for the rest. The second, which came before the third, is passed over.
  pub match_order-skips :
      (fuel : ℕ) (m : Memory D) (ob : OrderBook) (taker l a b c : ℕ)
      → get_best_level (opposite (m.order_at taker) ob) ≡ some l
      → beyond (m.order_at taker) (m.level_at l).price ≡ false
      → (m.level_at l).orders ≡ a ∷ b ∷ c ∷ []
      → a ≢ c
      → a ≢ taker
      → c ≢ taker
      → nought ≺ open_qty (m.order_at a)
      → open_qty (m.order_at a) ≼ open_qty (m.order_at taker)
      → nought ≺ open_qty (m.order_at taker) ⊖ open_qty (m.order_at a)
      → open_qty (m.order_at taker) ⊖ open_qty (m.order_at a) ≼ open_qty (m.order_at c)
      → ((match_order (suc (suc fuel)) m ob taker).0 ≡ returned)
        × (fills (match_order (suc (suc fuel)) m ob taker).1.trades
            ≡ ((m.order_at a).user_id, open_qty (m.order_at a))
              ∷ ((m.order_at c).user_id, open_qty (m.order_at taker) ⊖ open_qty (m.order_at a))
              ∷ [])
  match_order-skips fuel m ob taker l a b c best ok orders ne na nc pa fits more rest =
      let s = start m ob taker in
      let s' = after_both taker l a b c s in
      let pos = lt_of_lt_of_le nought (open_qty (m.order_at a)) s.remaining pa fits in
      let (ends, same) = loop_returned (suc (suc fuel)) m ob taker (drop_empty l s') (
        loop_skips fuel taker l a b c s pos best ok orders
          (level_skips taker l a b c s orders ne na nc pa fits more rest)) in
      (ends, ap fills (same ∙ drop_empty-trades l s') ∙ after_both-fills taker l a b c s refl)
