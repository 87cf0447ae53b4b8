-- ===== src/Limitbook/Match.antt =====
-- internal/limitbook/orderbook.go: `MatchOrder`. The buy and the sell branch of the code differ only
-- in the side they match against and in the price test, and are one function here.
-- The inner loop ranges over the slice that `level.Orders` was when it began. Removing an order
-- shifts the rest of the shared array to the left, so `array` is that array, read by index, and
-- `level.Orders` is its beginning.
pub mod Trading
pub mod Invariant
pub mod Safety
pub mod Fills
pub mod Runs
pub mod Skips
use micro_coin.Base.{
  ℕ, zero, suc, ◌+◌, ◌-◌, Bool, true, false, ◌&&◌, List, [], ◌∷◌, ◌++◌, Option, none, some, ◌==◌,
  leb, if◌then◌else◌, length, get_elem?, take, drop,
}
use micro_coin.Decimal.{
  Decimal, nought, ◌⊕◌, ◌⊖◌, less_than, less_than_or_equal, greater_than, equal, min_of,
}
use micro_coin.Models.{
  Order, OrderSide, Trade, OrderStatus, filled, partially_filled, is_buy, is_limit, uuid_nil,
}
use micro_coin.Limitbook.Memory.{Memory, PriceLevel, write_order, write_orders}
use micro_coin.Limitbook.Side.{BookSide, get_best_level, remove_from_side}
use micro_coin.Limitbook.Book.{OrderBook}

-- How a run ends: by its return, by a run-time panic, or with the fuel of the model used up.
pub data Outcome : Type 0 where
  returned panicked out_of_fuel : Outcome

-- The variables of `MatchOrder`, with the side that it matches against.
pub record Matching (D : Type 0) : Type 0 where
  pub memory : Memory D
  pub side : BookSide
  pub remaining : D
  pub trades : List (Trade D)

-- `append(level.Orders[:i], level.Orders[i+1:]...)` in an array of which the first `k` entries are
-- the slice.
abbrev pub shift_left : ℕ → ℕ → List ℕ → List ℕ
shift_left i k array = (take i array ++ drop (suc i) (take k array)) ++ drop (k - 1) array

module _ {D : Type 0} ⦃dec : Decimal D⦄ where
  abbrev pub open_qty : Order D → D
  open_qty o = o.qty ⊖ o.filled_qty

  abbrev pub add_filled : D → Order D → Order D
  add_filled x o = record o { filled_qty = o.filled_qty ⊕ x }

  abbrev pub trade_of : Memory D → ℕ → ℕ → ℕ → D → Trade D
  trade_of m taker l maker x = record {
    id = m.fresh m.ticks;
    symbol = (m.order_at taker).symbol;
    side = (m.order_at taker).side;
    price = (m.level_at l).price;
    qty = x;
    taker_id = (m.order_at taker).user_id;
    maker_id = (m.order_at maker).user_id;
    created_at = m.clock m.ticks;
  }

  -- Both orders are filled by `x`, first the taker. They may be one object.
  abbrev pub fill_orders : ℕ → ℕ → D → Memory D → Memory D
  fill_orders taker maker x m =
      let m' = write_order taker (add_filled x (m.order_at taker)) m in
      write_order maker (add_filled x (m'.order_at maker)) (record m' { ticks = suc m.ticks })

  -- A trade of `x`, up to the update of the remaining quantity.
  unfoldable pub execute : ℕ → ℕ → ℕ → D → Matching D → Matching D
  execute taker l maker x s = record s {
    memory = fill_orders taker maker x s.memory;
    remaining = s.remaining ⊖ x;
    trades = s.trades ++ trade_of s.memory taker l maker x ∷ [];
  }

  -- The removal of a filled maker: the array after it, or a slice bound out of range.
  unfoldable pub settle : ℕ → ℕ → ℕ → List ℕ → Matching D → Outcome × List ℕ × Matching D
  settle l i maker array s =
      let o = s.memory.order_at maker in
      let k = length (s.memory.level_at l).orders in
      let array' = shift_left i k array in
      let m' =
        write_order maker (record o { status = filled })
          (write_orders l (take (k - 1) array') s.memory) in
      if equal o.filled_qty o.qty
      then (if leb (suc i) k
          then (returned, array', record s { memory = m' })
          else (panicked, array, s))
      else (
        returned,
        array,
        record s { memory = write_order maker (record o { status = partially_filled }) s.memory },
      )

  -- The range loop, with `n` rounds left, at index `i`.
  unfoldable pub fill_level : ℕ → ℕ → ℕ → ℕ → List ℕ → Matching D → Outcome × Matching D
  fill_level zero taker l i array s = (returned, s)
  fill_level (suc n) taker l i array s = elim (less_than_or_equal s.remaining nought) [
    | true ↦ (returned, s)
    | false ↦ elim (get_elem? array i) [
      | none ↦ (panicked, s)
      | some maker ↦
          let available = open_qty (s.memory.order_at maker) in
          let skip = fill_level n taker l (suc i) array s in
          let (o, array', s') =
            settle l i maker array (execute taker l maker (min_of s.remaining available) s) in
          let next = fill_level n taker l (suc i) array' s' in
          if less_than_or_equal available nought then skip else elim o [
            | returned ↦ next
            | panicked ↦ (panicked, s')
            | out_of_fuel ↦ (out_of_fuel, s')
          ]
    ]
  ]

  -- The price of the level is no longer acceptable to a limit order.
  abbrev pub beyond : Order D → D → Bool
  beyond taker p = elim taker.price [
    | none ↦ false
    | some limit_price ↦
        is_limit taker.order_type
        && (if is_buy taker.side then greater_than p limit_price else less_than p limit_price)
  ]

  -- `ob.Asks.RemoveOrder(uuid.Nil)` for a level that has run empty.
  abbrev pub drop_empty : ℕ → Matching D → Matching D
  drop_empty l s =
      if length (s.memory.level_at l).orders == 0
      then (let (found, m', bs') = remove_from_side s.memory s.side uuid_nil in
          record s { memory = m'; side = bs' })
      else s

  unfoldable pub match_loop : ℕ → ℕ → Matching D → Outcome × Matching D
  match_loop zero taker s = (out_of_fuel, s)
  match_loop (suc fuel) taker s = elim (greater_than s.remaining nought) [
    | false ↦ (returned, s)
    | true ↦ elim (get_best_level s.side) [
      | none ↦ (returned, s)
      | some l ↦ elim (beyond (s.memory.order_at taker) (s.memory.level_at l).price) [
        | true ↦ (returned, s)
        | false ↦
            let array = (s.memory.level_at l).orders in
            let (o, s') = fill_level (length array) taker l 0 array s in
            elim o [
              | returned ↦ match_loop fuel taker (drop_empty l s')
              | panicked ↦ (panicked, s')
              | out_of_fuel ↦ (out_of_fuel, s')
            ]
      ]
    ]
  ]

  -- The status of the order at the end of `MatchOrder`.
  abbrev pub final_status : Order D → OrderStatus
  final_status o =
      if equal o.filled_qty o.qty
      then filled
      else if greater_than o.filled_qty nought
      then partially_filled
      else o.status

  abbrev pub set_status : ℕ → Matching D → Matching D
  set_status taker s =
      let o = s.memory.order_at taker in
      record s { memory = write_order taker (record o { status = final_status o }) s.memory }

  -- The side that an order is matched against.
  abbrev pub opposite : Order D → OrderBook → BookSide
  opposite o ob = if is_buy o.side then ob.asks else ob.bids

  abbrev pub with_opposite : Order D → BookSide → OrderBook → OrderBook
  with_opposite o bs ob = if is_buy o.side then record ob { asks = bs } else record ob { bids = bs }

  abbrev pub start : Memory D → OrderBook → ℕ → Matching D
  start m ob taker = record {
    memory = m;
    side = opposite (m.order_at taker) ob;
    remaining = open_qty (m.order_at taker);
    trades = [];
  }

  -- What a panic leaves in memory stays: the mutex is released by a deferred call.
  unfoldable pub match_order : ℕ → Memory D → OrderBook → ℕ → Outcome × Matching D × OrderBook
  match_order fuel m ob taker =
      let (o, s) = match_loop fuel taker (start m ob taker) in
      elim o [
        | returned ↦ (returned, set_status taker s, with_opposite (m.order_at taker) s.side ob)
        | panicked ↦ (panicked, s, with_opposite (m.order_at taker) s.side ob)
        | out_of_fuel ↦ (out_of_fuel, s, with_opposite (m.order_at taker) s.side ob)
      ]
