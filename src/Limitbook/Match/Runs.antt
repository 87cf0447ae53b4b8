-- ===== src/Limitbook/Match/Runs.antt =====
-- How runs of `MatchOrder` end.
use micro_coin.Base.{ℕ, suc, ◌≡◌, ◌≢◌, refl, ◌∙◌, true, false, List, [], ◌∷◌, none, some, arith}
use micro_coin.Decimal.{Decimal, IsDecimal, nought, ◌⊕◌, ◌≼◌, ◌≺◌, greater_than}
use micro_coin.Decimal.Laws.{lt_of_lt_of_le, le_trans, le_add, le_of_lt}
use micro_coin.Models.{uuid_nil}
use micro_coin.Limitbook.Memory.{Memory}
use micro_coin.Limitbook.Side.{remove_in, get_best_level}
use micro_coin.Limitbook.Book.{OrderBook}
use micro_coin.Limitbook.Match.Trading.{trade, trade-trades}
use micro_coin.Limitbook.Match.{
  Matching, returned, panicked, out_of_fuel, match_loop, match_order, open_qty, beyond, drop_empty,
  start, opposite, trade_of,
}
use micro_coin.Limitbook.Match.Fills.{loop_hangs, drop_empty-trades, loop_fills, two_fills_panic}

module _ {D : Type 0} ⦃dec : Decimal D⦄ ⦃laws : IsDecimal D⦄ where
  -- A level that has run empty stays at the front of the heap. If it is the best level of the other
  -- side, the order accepts its price and has something left to fill, and no order of that side has
  -- the id `uuid.Nil`, then the call does not end: any fuel is used up.
  pub match_order-hangs :
      (fuel : ℕ) (m : Memory D) (ob : OrderBook) (taker l : ℕ)
      → greater_than (open_qty (m.order_at taker)) nought ≡ true
      → get_best_level (opposite (m.order_at taker) ob) ≡ some l
      → beyond (m.order_at taker) (m.level_at l).price ≡ false
      → (m.level_at l).orders ≡ []
      → remove_in m uuid_nil (opposite (m.order_at taker) ob).levels ≡ none
      → (match_order fuel m ob taker).0 ≡ out_of_fuel
  unfolding match_order
  match_order-hangs fuel m ob taker l more best ok empty gone =
      rw (match_order, loop_hangs fuel taker l (start m ob taker) more best ok empty gone) refl

  -- If the best level of the other side holds exactly two orders, distinct, open and neither of them
  -- the taker, and the taker accepts the price and wants at least both, then the call panics.
  pub match_order-panics :
      (fuel : ℕ) (m : Memory D) (ob : OrderBook) (taker l a b : ℕ)
      → get_best_level (opposite (m.order_at taker) ob) ≡ some l
      → beyond (m.order_at taker) (m.level_at l).price ≡ false
      → (m.level_at l).orders ≡ a ∷ b ∷ []
      → a ≢ b
      → a ≢ taker
      → b ≢ taker
      → nought ≺ open_qty (m.order_at a)
      → nought ≺ open_qty (m.order_at b)
      → open_qty (m.order_at a) ⊕ open_qty (m.order_at b) ≼ open_qty (m.order_at taker)
      → (match_order (suc fuel) m ob taker).0 ≡ panicked
  unfolding match_order match_loop
  match_order-panics fuel m ob taker l a b best ok orders ne na nb pa pb enough =
      let s = start m ob taker in
      let oa = open_qty (m.order_at a) in
      let ob' = open_qty (m.order_at b) in
      let pos =
        lt_of_lt_of_le nought oa s.remaining pa
          (le_trans oa (oa ⊕ ob') s.remaining (le_add oa ob' (le_of_lt nought ob' pb)) enough) in
      ground (
        arith,
        two_fills_panic taker l a b s orders ne na nb pa pb enough,
        (laws.cmp_swap s.remaining nought).1,
      )

  pub loop_returned :
      (fuel : ℕ) (m : Memory D) (ob : OrderBook) (taker : ℕ) (s : Matching D)
      → match_loop fuel taker (start m ob taker) ≡ (returned, s)
      → ((match_order fuel m ob taker).0 ≡ returned)
        × ((match_order fuel m ob taker).1.trades ≡ s.trades)
  unfolding match_order
  loop_returned fuel m ob taker s e = ground arith

  -- If the best level's first order can take the whole of the taker's open quantity, which is
  -- positive, at a price that the taker accepts, then the call returns, with two rounds of the outer
  -- loop, and makes exactly one trade: with that order, for the whole quantity, at the level's price.
  pub match_order-first_fill :
      (fuel : ℕ) (m : Memory D) (ob : OrderBook) (taker l maker : ℕ) (rest : List ℕ)
      → nought ≺ open_qty (m.order_at taker)
      → get_best_level (opposite (m.order_at taker) ob) ≡ some l
      → beyond (m.order_at taker) (m.level_at l).price ≡ false
      → (m.level_at l).orders ≡ maker ∷ rest
      → open_qty (m.order_at taker) ≼ open_qty (m.order_at maker)
      → ((match_order (suc (suc fuel)) m ob taker).0 ≡ returned)
        × ((match_order (suc (suc fuel)) m ob taker).1.trades
            ≡ trade_of m taker l maker (open_qty (m.order_at taker)) ∷ [])
  match_order-first_fill fuel m ob taker l maker rest pos best ok orders fits =
      let s = start m ob taker in
      let x = open_qty (m.order_at taker) in
      let t = trade taker l 0 maker (maker ∷ rest) x s in
      let (ends, same) =
        loop_returned (suc (suc fuel)) m ob taker (drop_empty l t.2)
          (loop_fills fuel taker l maker rest s pos best ok orders fits) in
      (ends, same ∙ drop_empty-trades l t.2 ∙ trade-trades taker l 0 maker (maker ∷ rest) x s)
