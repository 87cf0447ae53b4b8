-- ===== src/Orders/Create/Tests.antt =====
-- `CreateOrder` at a small exchange: a buyer of 2 and a resting sell order of 4, at the price 30.
use micro_coin.Base.{ℕ, ◌≡◌, ◌⊎◌, refl, [], ◌∷◌, some, none, true, All}
use micro_coin.Base.Int.{ℤ, pos, ◌+ℤ◌, ◌-ℤ◌}
use micro_coin.Decimal.Instance.{int_decimal, int_IsDecimal}
use micro_coin.Models.{
  CreateOrderRequest, Order, limit, market, buy, sell, btc_usd, eth_usd, new, filled,
  CreateOrderResponse,
}
use micro_coin.Database.World.{Error, err}
use micro_coin.Ledger.Tests.{world, tables}
use micro_coin.Limitbook.Memory.{Memory}
use micro_coin.Limitbook.Side.{new_book_side, get_best_level}
use micro_coin.Limitbook.Book.{OrderBook, new_order_book}
use micro_coin.Limitbook.Match.{match_order, match_loop, fill_level, execute, settle}
use micro_coin.Quotes.{new_quote_service}
use micro_coin.Orders.Exchange.{Exchange}
use micro_coin.Orders.Create.{crashed, finished, create_order, order_for}
use micro_coin.Orders.Create.Invariant.{IsPayable}
use micro_coin.Orders.Create.Stages.{trades_of}
use micro_coin.Orders.Create.Market.{create_order_unmatched}
use micro_coin.Orders.Service.{hold_funds}
use micro_coin.Ledger.Service.{hold_funds as ledger_hold_funds}
use micro_coin.Database.Orders.{create_order as insert_order_row}

abbrev resting : Order ℤ
resting = record {
  id = 1;
  user_id = 8;
  symbol = btc_usd;
  side = sell;
  order_type = limit;
  price = some (pos 30);
  qty = pos 4;
  filled_qty = pos 0;
  status = new;
  created_at = 0;
}

abbrev pub memory : Memory ℤ
memory = record {
  order_at = λ r. resting;
  level_at = λ l. record { price = pos 30; orders = 1 ∷ [] };
  next_order = 9;
  next_level = 3;
  fresh = λ n. n;
  clock = λ n. n;
  ticks = 0;
}

abbrev btc_book : OrderBook
btc_book = record {
  symbol = btc_usd;
  bids = new_book_side true;
  asks = record { levels = ("30", 1) ∷ []; heap = 1 ∷ [] };
}

abbrev pub exchange : Exchange ℤ
exchange = record {
  world = world;
  memory = memory;
  btc_book = btc_book;
  eth_book = new_order_book eth_usd;
  quotes = record new_quote_service {
    quotes = (eth_usd, record { symbol = eth_usd; bid = pos 9; ask = pos 10; ts = 1 }) ∷ [];
  };
}

abbrev pub request : CreateOrderRequest ℤ
request = record {
  symbol = btc_usd;
  side = buy;
  order_type = limit;
  price = some (pos 30);
  qty = pos 2;
}

pub trades-IsPayable :
    (id now : ℕ) → All IsPayable (trades_of 9 exchange (order_for 7 request id now))
unfolding match_order match_loop ◌-ℤ◌ get_best_level fill_level settle execute ◌+ℤ◌
trades-IsPayable id now = ((λ e. cc, refl, refl), tt)

-- Nobody sells ETH.
abbrev unmatched : CreateOrderRequest ℤ
unmatched = record { symbol = eth_usd; side = buy; order_type = market; price = none; qty = pos 2 }

create_order_unmatched_example :
    ((create_order 9 7 unmatched exchange).0 ≡ crashed)
    ⊎ ((e : Error) × ((create_order 9 7 unmatched exchange).0 ≡ finished (err e)))
unfolding new_order_book
create_order_unmatched_example = create_order_unmatched 8 7 unmatched exchange refl refl

-- User 7 buys 1 of the 4 that are on sale.
abbrev served : Exchange ℤ
served = record exchange {
  world = record world {
    tables = record tables {
      users = record { id = 7; email = "a@b.c"; password_hash = "hash"; created_at = 1 } ∷ [];
    };
  };
}

abbrev small : CreateOrderRequest ℤ
small = record request { qty = pos 1 }

abbrev response : CreateOrderResponse ℤ
response = record {
  order_id = 50;
  status = filled;
  filled_qty = pos 1;
  avg_fill_price = some (pos 30);
}
