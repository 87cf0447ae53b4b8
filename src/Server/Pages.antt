-- ===== src/Server/Pages.antt =====
-- cmd/monolith/main.go: the handlers that only read. What `json.NewEncoder(w).Encode` writes is a
-- parameter, `print` is the text of an error.
pub mod Balances
use Prim.Native.String.{◌++◌ as concat}
use text.Mathlib.Text.{◌==◌ as str_eq}
use micro_coin.Base.{ℕ, List, [], ◌∷◌, String, Option, none, some, if◌then◌else◌}
use micro_coin.Decimal.{Decimal, nought, ◌⊕◌}
use micro_coin.Models.{Account, AccountBalance, Portfolio, Order, Quote, symbol_of}
use micro_coin.Database.World.{World, Error, ok, err}
use micro_coin.Database.Accounts.{get_accounts_by_user_id}
use micro_coin.Http.{Request, HandlerFunc, query_get, http_error, json_response}
use micro_coin.Auth.Middleware.{get_user_id_from_context}
use micro_coin.Quotes.{QuoteService, get_quote}
use micro_coin.Orders.Exchange.{get_order}

unfoldable pub health_handler : {S : Type 0} → (String → String → String) → HandlerFunc S
health_handler encode r s = (json_response (encode "status" "healthy"), s)

module _ {D : Type 0} (print : Error → String) where
  unfoldable pub quotes_handler : (Quote D → String) → HandlerFunc (QuoteService D)
  quotes_handler encode r s =
      let symbol = query_get "symbol" r.query in
      if str_eq symbol ""
      then (http_error "Symbol parameter required" 400, s)
      else elim (get_quote (symbol_of symbol) s) [
        | err e ↦ (http_error (concat "Failed to get quote: " (print e)) 500, s)
        | ok quote ↦ (json_response (encode quote), s)
      ]

module _ {D : Type 0} where
  -- `vars` is `mux.Vars(r)["id"]`, `parse` is `uuid.Parse`.
  unfoldable pub get_order_handler :
      (Request → String) → (String → Option ℕ) → (Order D → String) → HandlerFunc (World D)
  get_order_handler vars parse encode r w = elim (parse (vars r)) [
    | none ↦ (http_error "Invalid order ID" 400, w)
    | some id ↦
        let (result, w') = get_order id w in
        (
          elim result [
            | err e ↦ http_error "Order not found" 404
            | ok order ↦ json_response (encode order)
          ],
          w',
        )
  ]

module _ {D : Type 0} ⦃dec : Decimal D⦄ where
  abbrev pub balance_of : Account D → AccountBalance D
  balance_of a = record {
    currency = a.currency;
    balance_available = a.balance_available;
    balance_hold = a.balance_hold;
    balance_total = a.balance_available ⊕ a.balance_hold;
  }

  abbrev pub balances_of : List (Account D) → List (AccountBalance D)
  balances_of [] = []
  balances_of (a ∷ accounts) = balance_of a ∷ balances_of accounts

  abbrev pub portfolio_of : List (Account D) → Portfolio D
  portfolio_of accounts = record {
    balances = balances_of accounts;
    positions = [];
    pnl = record { realized = nought; unrealized = nought; total = nought };
  }

  unfoldable pub portfolio_handler : (Portfolio D → String) → HandlerFunc (World D)
  portfolio_handler encode r w = elim (get_user_id_from_context r) [
    | none ↦ (http_error "User not authenticated" 401, w)
    | some user_id ↦
        let (result, w') = get_accounts_by_user_id user_id w in
        (
          elim result [
            | err e ↦ http_error "Failed to get accounts" 500
            | ok accounts ↦ json_response (encode (portfolio_of accounts))
          ],
          w',
        )
  ]
