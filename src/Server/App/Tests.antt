-- ===== src/Server/App/Tests.antt =====
-- A sequence of requests at the small exchange of the orders' tests.
use text.Mathlib.Text.{◌==◌ as str_eq}
use micro_coin.Base.{◌≡◌, refl, sym, subst, List, [], ◌∷◌, String, some, none, if◌then◌else◌}
use micro_coin.Base.Int.{ℤ, pos}
use micro_coin.Decimal.Instance.{int_decimal, int_IsDecimal}
use micro_coin.Models.{CreateOrderRequest}
use micro_coin.Http.{Request}
use micro_coin.Auth.Tests.{request as get_portfolio, toy}
use micro_coin.Auth.Middleware.{user_id_key}
use micro_coin.Auth.Passwords.Tests.{two_keys, entropy}
use micro_coin.Ledger.Tests.{tables-IsValid}
use micro_coin.Ledger.Spec.Invariant.{IsValid}
use micro_coin.Orders.Create.Tests.{exchange, request as bid, trades-IsPayable}
use micro_coin.Server.App.Requests.{OrderFits}
use micro_coin.Server.App.{Page, Packages, top_up, new_order, portfolio, serve_all}
use micro_coin.Server.App.Sequences.{Proper, serve_all-IsValid}

abbrev packages : Packages ℤ
packages = record {
  jwt = toy;
  now = λ n. n;
  id_key = two_keys;
  entropy = entropy;
  jsonb = λ s. some s;
  hash = record { sum = λ s. s; visit = λ hs. hs };
  print = λ e. "error";
  vars = λ r. "id";
  parse_uuid = λ s. none;
  read_auth = λ s. none;
  read_top_up = λ s. if str_eq s "30" then some (record { amount = pos 30 }) else none;
  read_order = λ s. if str_eq s "order" then some bid else none;
  write_status = λ k s. s;
  write_auth = λ a. "token";
  write_top_up = λ x. some "balance";
  write_created = λ c. some "order";
  write_quote = λ q. "quote";
  write_order = λ o. "order";
  write_portfolio = λ p. "portfolio";
}

abbrev of_user : String → String → Request
of_user key body = record get_portfolio {
  headers = ("Idempotency-Key", key ∷ []) ∷ [];
  body = some body;
  context = (user_id_key, 7) ∷ [];
}

-- An order that trades, a top-up and a look at the portfolio.
abbrev requests : List (Packages ℤ × Page × Request)
requests =
    (packages, new_order, of_user "b" "order")
    ∷ (packages, top_up, of_user "a" "30")
    ∷ (packages, portfolio, of_user "" "")
    ∷ []

bid_fits : OrderFits 9 7 bid exchange
bid_fits = record { held = λ price amount h k. refl; traded = trades-IsPayable }

read_bid :
    (body : String) (req : CreateOrderRequest ℤ)
    → some "order" ≡ some body
    → packages.read_order body ≡ some req
    → bid ≡ req
read_bid body req e e' =
    let same : "order" ≡ body = cc in
    let e'' : packages.read_order "order" ≡ some req =
      subst (λ b. packages.read_order b ≡ some req) (sym same) e' in
    cc

order-Proper : Proper 9 packages new_order (of_user "b" "order") exchange
order-Proper user body req e e' e'' =
    let same : 7 ≡ user = cc in rw (← same, ← read_bid body req e' e'') bid_fits

serve_all-IsValid_example : IsValid (serve_all 9 requests exchange).world.tables
serve_all-IsValid_example =
    serve_all-IsValid 9 requests exchange (order-Proper, ((λ body amount e e'. refl), (tt, tt)))
      tables-IsValid
