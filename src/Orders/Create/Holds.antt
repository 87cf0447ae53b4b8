-- ===== src/Orders/Create/Holds.antt =====
-- What `CreateOrder` leaves on hold.
use micro_coin.Base.{if◌then◌else◌}
use micro_coin.Decimal.{Decimal}
use micro_coin.Models.{CreateOrderRequest, Currency, usd, btc, eth, is_buy, is_btc_usd}
use micro_coin.Database.Tables.{Tables}
use micro_coin.Database.Keeps.{Keeps}
use micro_coin.Database.World.{World}
use micro_coin.Ledger.Service.{hold_funds as ledger_hold_funds}
use micro_coin.Orders.Service.{hold_funds}
use micro_coin.Orders.Exchange.{Exchange}

-- The currency that an order draws on.
abbrev pub currency_for : {D : Type 0} → CreateOrderRequest D → Currency
currency_for req = if is_buy req.side then usd else if is_btc_usd req.symbol then btc else eth
