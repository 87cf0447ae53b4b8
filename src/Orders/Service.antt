-- ===== src/Orders/Service.antt =====
-- internal/orders/service.go: the checks of a request, the funds it needs, and the payment of a
-- trade.
pub mod Request
pub mod Payment
use micro_coin.Base.{ℕ, Bool, true, false, ◌&&◌, not, String, Option, none, some, if◌then◌else◌}
use micro_coin.Decimal.{Decimal, nought, ◌⊗◌, less_than_or_equal}
use micro_coin.Models.{
  Account, CreateOrderRequest, Currency, usd, btc, eth, Order, Trade, is_buy, is_market, is_limit,
  is_btc_usd, is_eth_usd,
}
use micro_coin.Database.World.{
  Action, Result, ok, err, message, ◌>>=◌, ◌>>◌, throw, wrapped, begin, commit,
}
use micro_coin.Database.Accounts.{get_account_by_user_id_and_currency}
use micro_coin.Ledger.Service.{transfer_funds, hold_funds as ledger_hold_funds}

module _ {D : Type 0} ⦃dec : Decimal D⦄ where
  -- `price == nil || price.LessThanOrEqual(decimal.Zero)`
  abbrev pub not_positive : Option D → Bool
  not_positive none = true
  not_positive (some p) = less_than_or_equal p nought

  unfoldable pub validate_order_request : CreateOrderRequest D → Result (Unit {0})
  validate_order_request req =
      if less_than_or_equal req.qty nought
      then err (message "quantity must be positive")
      else if is_limit req.order_type && not_positive req.price
      then err (message "limit orders must have a positive price")
      else if not (is_btc_usd req.symbol) && not (is_eth_usd req.symbol)
      then err (message "invalid symbol")
      else ok tt

  -- `none` is the panic of `*req.Price` at a nil price.
  unfoldable pub calculate_required_amount : CreateOrderRequest D → Option D → Option (Result D)
  calculate_required_amount req fill_price =
      if is_market req.order_type
      then elim fill_price [
        | none ↦ some (err (message "fill price required for market orders"))
        | some price ↦ some (ok (if is_buy req.side then price ⊗ req.qty else req.qty))
      ]
      else elim req.price [
        | none ↦ none
        | some price ↦ some (ok (if is_buy req.side then price ⊗ req.qty else req.qty))
      ]

  unfoldable pub hold_funds : ℕ → CreateOrderRequest D → D → Action D (Unit {0})
  hold_funds user_id req amount =
      if is_buy req.side
      then ledger_hold_funds user_id usd amount
      else if is_btc_usd req.symbol
      then ledger_hold_funds user_id btc amount
      else if is_eth_usd req.symbol
      then ledger_hold_funds user_id eth amount
      else throw (message "invalid symbol")

  -- The base account of a party to a trade; anything that is not BTC-USD is taken for ETH-USD.
  abbrev pub base_currency : Trade D → Currency
  base_currency trade = if is_btc_usd trade.symbol then btc else eth

  abbrev pub transfer_base : Trade D → Account D → Account D → Action D (Unit {0})
  transfer_base trade from to =
      if is_btc_usd trade.symbol
      then wrapped "failed to transfer BTC"
          (transfer_funds from.id to.id trade.qty btc "TRADE" trade.id)
      else wrapped "failed to transfer ETH"
          (transfer_funds from.id to.id trade.qty eth "TRADE" trade.id)

  abbrev pub transfer_usd : Trade D → Account D → Account D → Action D (Unit {0})
  transfer_usd trade from to =
      wrapped "failed to transfer USD"
        (transfer_funds from.id to.id (trade.price ⊗ trade.qty) usd "TRADE" trade.id)

  -- The two transfers, of the accounts in dollars of the taker and of the maker and of their base
  -- accounts.
  abbrev pub pay : Trade D → Account D → Account D → Account D → Account D → Action D (Unit {0})
  pay trade taker_usd maker_usd taker_base maker_base =
      if is_buy trade.side
      then (transfer_usd trade taker_usd maker_usd >> transfer_base trade maker_base taker_base)
      else (transfer_base trade taker_base maker_base >> transfer_usd trade maker_usd taker_usd)

  abbrev pub taker_base_error : Trade D → String
  taker_base_error trade =
      if is_btc_usd trade.symbol
      then "failed to get taker BTC account"
      else "failed to get taker ETH account"

  abbrev pub maker_base_error : Trade D → String
  maker_base_error trade =
      if is_btc_usd trade.symbol
      then "failed to get maker BTC account"
      else "failed to get maker ETH account"

  -- Each transfer commits a transaction of its own; the one begun here has no statement.
  unfoldable pub process_trade : Trade D → Action D (Unit {0})
  process_trade trade = do
    tx ← wrapped "failed to begin transaction" begin
    taker_usd ←
        wrapped "failed to get taker USD account"
          (get_account_by_user_id_and_currency trade.taker_id usd)
    maker_usd ←
        wrapped "failed to get maker USD account"
          (get_account_by_user_id_and_currency trade.maker_id usd)
    taker_base ←
        wrapped (taker_base_error trade)
          (get_account_by_user_id_and_currency trade.taker_id (base_currency trade))
    maker_base ←
        wrapped (maker_base_error trade)
          (get_account_by_user_id_and_currency trade.maker_id (base_currency trade))
    pay trade taker_usd maker_usd taker_base maker_base
    wrapped "failed to commit transaction" (commit tx)

-- `convertToBookOrder` copies every field, and the two types are one here.
abbrev pub convert_to_book_order : {D : Type 0} → Order D → Order D
convert_to_book_order order = record {
  id = order.id;
  user_id = order.user_id;
  symbol = order.symbol;
  side = order.side;
  order_type = order.order_type;
  price = order.price;
  qty = order.qty;
  filled_qty = order.filled_qty;
  status = order.status;
  created_at = order.created_at;
}
