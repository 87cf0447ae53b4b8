-- ===== src/Orders/Tests.antt =====
-- The theorems on orders at concrete requests and trades of whole amounts.
use micro_coin.Base.{◌≡◌, ◌⊎◌, ◌||◌, true, false, refl, [], ◌∷◌, Option, some, none}
use micro_coin.Base.Int.{ℤ, pos}
use micro_coin.Decimal.Instance.{int_decimal, int_IsDecimal}
use micro_coin.Models.{
  CreateOrderRequest, Order, OrderStatus, OrderType, limit, market, buy, btc_usd, eth_usd, Trade,
  new, partially_filled,
}
use micro_coin.Database.World.{World, Tx}
use micro_coin.Database.Tables.{update_order as update_order_row}
use micro_coin.Ledger.Tests.{world, tables-IsValid}
use micro_coin.Ledger.Spec.Invariant.{IsValid}
use micro_coin.Quotes.{new_quote_service}
use micro_coin.Orders.Exchange.{Exchange, new_service}
use micro_coin.Orders.Exchange.Loading.{blocks, new_service_cases}
use micro_coin.Orders.Create.Tests.{memory}
use micro_coin.Orders.Service.{process_trade}
use micro_coin.Orders.Service.Payment.{process_trade-IsValid}

abbrev request : OrderType → Option ℤ → CreateOrderRequest ℤ
request t price = record {
  symbol = btc_usd;
  side = buy;
  order_type = t;
  price = price;
  qty = pos 2;
}

abbrev trade : Trade ℤ
trade = record {
  id = 5;
  symbol = btc_usd;
  side = buy;
  price = pos 30;
  qty = pos 2;
  taker_id = 7;
  maker_id = 8;
  created_at = 0;
}

process_trade-IsValid_example : IsValid (process_trade trade world).1.tables
process_trade-IsValid_example = process_trade-IsValid trade world (λ e. cc) refl refl tables-IsValid

abbrev order_with : ℤ → OrderStatus → Order ℤ
order_with filled status = record {
  id = 6;
  user_id = 7;
  symbol = btc_usd;
  side = buy;
  order_type = limit;
  price = some (pos 30);
  qty = pos 2;
  filled_qty = filled;
  status = status;
  created_at = 0;
}

abbrev world_with_order : World ℤ
world_with_order = record world {
  tables = record world.tables { orders = order_with (pos 0) new ∷ [] };
}

abbrev tx : Tx ℤ
tx = record { started = 0; statements = [] }

abbrev tx_after : Tx ℤ
tx_after = record tx { statements = update_order_row 6 (pos 1) partially_filled ∷ [] }

-- A market order that was stored and not filled.
abbrev stuck : Order ℤ
stuck = record (order_with (pos 0) new) { order_type = market; price = none }

abbrev world_stuck : World ℤ
world_stuck = record world { tables = record world.tables { orders = stuck ∷ [] } }

new_service_cases_example :
    ((blocks btc_usd world_stuck || blocks eth_usd world_stuck) ≡ true)
      × (new_service world_stuck memory new_quote_service ≡ none)
    ⊎ ((blocks btc_usd world_stuck || blocks eth_usd world_stuck) ≡ false)
      × ((x : Exchange ℤ) × (new_service world_stuck memory new_quote_service ≡ some x)
          × (x.world.tables ≡ world_stuck.tables))
new_service_cases_example = new_service_cases world_stuck memory new_quote_service refl refl

stuck_blocks : (blocks btc_usd world_stuck || blocks eth_usd world_stuck) ≡ true
stuck_blocks = refl
