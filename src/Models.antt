-- ===== src/Models.antt =====
-- internal/models/types.go and the requests of internal/models/requests.go: the data that the parts
-- share. Ids are numbers, of which 0 is `uuid.Nil`; times are numbers of a clock. `Symbol`,
-- `OrderSide` and `OrderType` are strings in Go, which a request can fill freely: `other` stands for
-- every string that is no declared constant.
use text.Mathlib.Text.{◌==◌ as str_eq}
use micro_coin.Base.{ℕ, Bool, true, false, List, Option, String, if◌then◌else◌}

pub data Currency : Type 0 where
  usd btc eth : Currency

pub data OrderSide : Type 0 where
  buy sell : OrderSide
  other_side : String → OrderSide

pub data OrderType : Type 0 where
  market limit : OrderType
  other_type : String → OrderType

pub data OrderStatus : Type 0 where
  new partially_filled filled canceled rejected : OrderStatus

pub data Symbol : Type 0 where
  btc_usd eth_usd : Symbol
  other_symbol : String → Symbol

-- The comparisons that the services make, `side == models.OrderSideBuy` and the like.
abbrev pub is_buy : OrderSide → Bool
is_buy buy = true
is_buy _ = false

abbrev pub is_market : OrderType → Bool
is_market market = true
is_market _ = false

abbrev pub is_limit : OrderType → Bool
is_limit limit = true
is_limit _ = false

abbrev pub same_currency : Currency → Currency → Bool
same_currency usd usd = true
same_currency btc btc = true
same_currency eth eth = true
same_currency _ _ = false

abbrev pub is_btc_usd : Symbol → Bool
is_btc_usd btc_usd = true
is_btc_usd _ = false

abbrev pub is_eth_usd : Symbol → Bool
is_eth_usd eth_usd = true
is_eth_usd _ = false

abbrev pub is_sell : OrderSide → Bool
is_sell sell = true
is_sell _ = false

abbrev pub same_symbol : Symbol → Symbol → Bool
same_symbol btc_usd btc_usd = true
same_symbol eth_usd eth_usd = true
same_symbol (other_symbol a) (other_symbol b) = str_eq a b
same_symbol _ _ = false

abbrev pub is_active : OrderStatus → Bool
is_active new = true
is_active partially_filled = true
is_active _ = false

abbrev pub uuid_nil : ℕ
uuid_nil = 0

pub record User : Type 0 where
  pub id : ℕ
  pub email : String
  pub password_hash : String
  pub created_at : ℕ

pub record Quote (D : Type 0) : Type 0 where
  pub symbol : Symbol
  pub bid : D
  pub ask : D
  pub ts : ℕ

pub record Account (D : Type 0) : Type 0 where
  pub id : ℕ
  pub user_id : ℕ
  pub currency : Currency
  pub balance_available : D
  pub balance_hold : D

pub record LedgerEntry (D : Type 0) : Type 0 where
  pub id : ℕ
  pub journal_id : ℕ
  pub account_id : ℕ
  pub amount : D
  pub currency : Currency
  pub ref_type : String
  pub ref_id : ℕ
  pub created_at : ℕ

-- Also `limitbook.Order`, which has the same fields.
pub record Order (D : Type 0) : Type 0 where
  pub id : ℕ
  pub user_id : ℕ
  pub symbol : Symbol
  pub side : OrderSide
  pub order_type : OrderType
  pub price : Option D
  pub qty : D
  pub filled_qty : D
  pub status : OrderStatus
  pub created_at : ℕ

pub record Trade (D : Type 0) : Type 0 where
  pub id : ℕ
  pub symbol : Symbol
  pub side : OrderSide
  pub price : D
  pub qty : D
  pub taker_id : ℕ
  pub maker_id : ℕ
  pub created_at : ℕ

pub record CreateOrderRequest (D : Type 0) : Type 0 where
  pub symbol : Symbol
  pub side : OrderSide
  pub order_type : OrderType
  pub price : Option D
  pub qty : D

pub record TopUpRequest (D : Type 0) : Type 0 where
  pub amount : D

pub record TopUpResponse (D : Type 0) : Type 0 where
  pub balance : D

-- The id, which the database makes up and nothing reads, is left out.
pub record IdempotencyKey : Type 0 where
  pub user_id : ℕ
  pub idem_key : String
  pub request_fingerprint : String
  pub response_code : ℕ
  pub response_body : String
  pub created_at : ℕ

pub record ErrorDetail : Type 0 where
  pub code : String
  pub message : String
  pub request_id : ℕ

pub record ErrorResponse : Type 0 where
  pub error : ErrorDetail

abbrev pub error_code_rate_limit : String
error_code_rate_limit = "RATE_LIMIT"

pub record CreateOrderResponse (D : Type 0) : Type 0 where
  pub order_id : ℕ
  pub status : OrderStatus
  pub filled_qty : D
  pub avg_fill_price : Option D

pub record AccountBalance (D : Type 0) : Type 0 where
  pub currency : Currency
  pub balance_available : D
  pub balance_hold : D
  pub balance_total : D

pub record Position (D : Type 0) : Type 0 where
  pub symbol : Symbol
  pub qty : D
  pub avg_price : D
  pub unrealized_pnl : D

pub record PnL (D : Type 0) : Type 0 where
  pub realized : D
  pub unrealized : D
  pub total : D

pub record Portfolio (D : Type 0) : Type 0 where
  pub balances : List (AccountBalance D)
  pub positions : List (Position D)
  pub pnl : PnL D

-- `models.Symbol(s)`
abbrev pub symbol_of : String → Symbol
symbol_of s =
    if str_eq s "BTC-USD" then btc_usd else if str_eq s "ETH-USD" then eth_usd else other_symbol s

-- `string(symbol)`
abbrev pub text_of : Symbol → String
text_of btc_usd = "BTC-USD"
text_of eth_usd = "ETH-USD"
text_of (other_symbol s) = s

pub record AuthRequest : Type 0 where
  pub email : String
  pub password : String

pub record AuthResponse : Type 0 where
  pub token : String
  pub refresh_token : String
  pub user : User
