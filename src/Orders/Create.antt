-- ===== src/Orders/Create.antt =====
-- internal/orders/service.go: `CreateOrder`, in its stages.
pub mod Stages
pub mod Invariant
pub mod Holds
pub mod Market
pub mod Tests
use micro_coin.Base.{
  ℕ, suc, Bool, true, false, ◌||◌, List, [], ◌∷◌, Option, some, none, if◌then◌else◌,
}
use micro_coin.Decimal.{Decimal, nought, ◌⊕◌, ◌⊗◌, equal, greater_than}
use micro_coin.Models.{
  CreateOrderRequest, CreateOrderResponse, Order, OrderStatus, Trade, new, filled, partially_filled,
  is_buy, is_market, is_active,
}
use micro_coin.Database.World.{
  World, Action, Result, Error, ok, err, message, wrap, ◌>>=◌, ◌>>◌, pure, wrapped, new_uuid, begin,
  commit, gets,
}
use micro_coin.Database.Orders.{create_order as insert_order_row, update_order}
use micro_coin.Limitbook.Memory.{Memory}
use micro_coin.Limitbook.Book.{OrderBook, add_order}
use micro_coin.Limitbook.Match.{match_order, Outcome, returned, panicked, out_of_fuel}
use micro_coin.Quotes.{get_quote}
use micro_coin.Orders.Service.{
  validate_order_request, calculate_required_amount, hold_funds, process_trade,
}
use micro_coin.Orders.Exchange.{Exchange, book_of, with_book, allocate}

-- How a call ends: with its result, with a run-time panic, or, where matching does not end, with the
-- fuel used up.
pub data Ending (A : Type 0) : Type 0 where
  finished : Result A → Ending A
  crashed : Ending A
  endless : Ending A

-- `totalFillQty` and `totalFillValue`
pub record Fills (D : Type 0) : Type 0 where
  pub qty : D
  pub value : D

module _ {D : Type 0} ⦃dec : Decimal D⦄ where
  -- The quote's price for a market order; no price for another.
  unfoldable pub find_fill_price : CreateOrderRequest D → Exchange D → Result (Option D)
  find_fill_price req x =
      if is_market req.order_type
      then elim (get_quote req.symbol x.quotes) [
        | err e ↦ err (wrap "failed to get quote" e)
        | ok quote ↦ ok (some (if is_buy req.side then quote.ask else quote.bid))
      ]
      else ok none

  abbrev pub order_for : ℕ → CreateOrderRequest D → ℕ → ℕ → Order D
  order_for user_id req id now = record {
    id = id;
    user_id = user_id;
    symbol = req.symbol;
    side = req.side;
    order_type = req.order_type;
    price = req.price;
    qty = req.qty;
    filled_qty = nought;
    status = new;
    created_at = now;
  }

  -- The new order, once its row is in the database.
  unfoldable pub insert_new : ℕ → CreateOrderRequest D → Action D (Order D)
  insert_new user_id req = do
    id ← new_uuid
    now ← gets (λ w. w.clock w.calls)
    wrapped "failed to create order" (insert_order_row (order_for user_id req id now))
    pure (order_for user_id req id now)

  -- The hold, and the row of the new order.
  unfoldable pub place : ℕ → CreateOrderRequest D → D → Action D (Order D)
  place user_id req amount = hold_funds user_id req amount >> insert_new user_id req

  -- A trade that cannot be paid is printed and passed over.
  unfoldable pub process_trades : List (Trade D) → Fills D → World D → Fills D × World D
  process_trades [] f w = (f, w)
  process_trades (t ∷ ts) f w =
      let (result, w') = process_trade t w in
      process_trades ts
        (elim result [
          | err e ↦ f
          | ok u ↦ record { qty = f.qty ⊕ t.qty; value = f.value ⊕ t.price ⊗ t.qty }
        ])
        w'

  -- The order after its trades.
  abbrev pub with_fills : Order D → Fills D → Order D
  with_fills o f = record o {
    filled_qty = f.qty;
    status =
        if equal f.qty o.qty
        then filled
        else if greater_than f.qty nought
        then partially_filled
        else o.status;
  }

  unfoldable pub save : Order D → Action D (Unit {0})
  save order = do
    tx ← wrapped "failed to begin transaction" begin
    tx ← wrapped "failed to update order" (update_order tx order)
    wrapped "failed to commit transaction" (commit tx)

  abbrev pub average : Fills D → Option D
  average f = if greater_than f.qty nought then some (dec.quo f.value f.qty) else none

  abbrev pub response_for : Order D → Fills D → CreateOrderResponse D
  response_for order f = record {
    order_id = order.id;
    status = order.status;
    filled_qty = f.qty;
    avg_fill_price = average f;
  }

  -- From the update of the order on. `p` is the order in the book.
  unfoldable pub finish :
      Order D → Fills D → ℕ → Exchange D → Ending (CreateOrderResponse D) × Exchange D
  finish order f p x =
      let (result, w) = save order x.world in
      let x' = record x { world = w } in
      elim result [
        | err e ↦ (finished (err e), x')
        | ok u ↦
            if is_active order.status
            then elim (add_order x'.memory (book_of order.symbol x') p) [
              | none ↦ (crashed, x')
              | some (m, b) ↦ (
                finished (ok (response_for order f)),
                with_book order.symbol b (record x' { memory = m }),
              )
            ]
            else (finished (ok (response_for order f)), x')
      ]

  -- From the trades on, where the matching returned.
  unfoldable pub settle_order :
      Outcome
      → Order D
      → ℕ
      → List (Trade D)
      → Exchange D
      → Ending (CreateOrderResponse D) × Exchange D
  settle_order returned order p trades x =
      let (f, w) = process_trades trades (record { qty = nought; value = nought }) x.world in
      finish (with_fills order f) f p (record x { world = w })
  settle_order panicked order p trades x = (crashed, x)
  settle_order out_of_fuel order p trades x = (endless, x)

  -- The matching of a saved order and what follows.
  unfoldable pub trade_out : ℕ → Order D → Exchange D → Ending (CreateOrderResponse D) × Exchange D
  trade_out fuel order x =
      let (p, m) = allocate order x.memory in
      let (o, s, b) = match_order fuel m (book_of order.symbol x) p in
      settle_order o order p s.trades (with_book order.symbol b (record x { memory = s.memory }))

  unfoldable pub create_order :
      ℕ → ℕ → CreateOrderRequest D → Exchange D → Ending (CreateOrderResponse D) × Exchange D
  create_order fuel user_id req x = elim (validate_order_request req) [
    | err e ↦ (finished (err e), x)
    | ok u ↦ elim (find_fill_price req x) [
      | err e ↦ (finished (err e), x)
      | ok fill_price ↦ elim (calculate_required_amount req fill_price) [
        | none ↦ (crashed, x)
        | some (err e) ↦ (finished (err e), x)
        | some (ok amount) ↦
            let (result, w) = place user_id req amount x.world in
            elim result [
              | err e ↦ (finished (err e), record x { world = w })
              | ok order ↦ trade_out fuel order (record x { world = w })
            ]
      ]
    ]
  ]
