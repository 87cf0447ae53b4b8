-- ===== src/Limitbook/Book.antt =====
-- internal/limitbook/orderbook.go: `OrderBook`, without `MatchOrder`.
pub mod Removal
use micro_coin.Base.{ℕ, Bool, true, false, Option, none, some, if◌then◌else◌}
use micro_coin.Decimal.{Decimal, ◌⊖◌}
use micro_coin.Models.{Symbol, is_buy}
use micro_coin.Limitbook.Memory.{Memory}
use micro_coin.Limitbook.Side.{
  BookSide, new_book_side, add_to_side, remove_from_side, get_best_price,
}

pub record OrderBook : Type 0 where
  pub symbol : Symbol
  pub bids : BookSide
  pub asks : BookSide

unfoldable pub new_order_book : Symbol → OrderBook
new_order_book s = record { symbol = s; bids = new_book_side true; asks = new_book_side false }

module _ {D : Type 0} ⦃dec : Decimal D⦄ where
  unfoldable pub add_order : Memory D → OrderBook → ℕ → Option (Memory D × OrderBook)
  add_order m ob r =
      if is_buy (m.order_at r).side
      then elim (add_to_side m ob.bids r) [
        | none ↦ none
        | some (m', bs) ↦ some (m', record ob { bids = bs })
      ]
      else elim (add_to_side m ob.asks r) [
        | none ↦ none
        | some (m', bs) ↦ some (m', record ob { asks = bs })
      ]

  unfoldable pub get_best_bid : Memory D → OrderBook → Option D
  get_best_bid m ob = get_best_price m ob.bids

  unfoldable pub get_best_ask : Memory D → OrderBook → Option D
  get_best_ask m ob = get_best_price m ob.asks

  unfoldable pub get_spread : Memory D → OrderBook → Option D
  unfolding get_best_bid get_best_ask
  get_spread m ob = elim (get_best_bid m ob) [
    | none ↦ none
    | some bid ↦ elim (get_best_ask m ob) [ none ↦ none | some ask ↦ some (ask ⊖ bid) ]
  ]

module _ {D : Type 0} where
  -- `ob.Bids.RemoveOrder(orderID) || ob.Asks.RemoveOrder(orderID)`
  unfoldable pub remove_order : Memory D → OrderBook → ℕ → Bool × Memory D × OrderBook
  remove_order m ob id =
      let (found, m', bs) = remove_from_side m ob.bids id in
      let (found', m'', bs') = remove_from_side m' ob.asks id in
      if found
      then (true, m', record ob { bids = bs })
      else (found', m'', record ob { bids = bs; asks = bs' })
