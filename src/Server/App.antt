-- ===== src/Server/App.antt =====
-- cmd/monolith/main.go: the handlers that `main` registers, over the state that they share, and the
-- requests that reach them one after the other. What is read from and written to JSON, `mux.Vars` and
-- `uuid.Parse` are parameters.
pub mod Requests
pub mod Sequences
mod Tests
use micro_coin.Base.{ℕ, List, [], ◌∷◌, String, Option}
use micro_coin.Decimal.{Decimal}
use micro_coin.Models.{
  AuthRequest, AuthResponse, CreateOrderRequest, CreateOrderResponse, Order, Portfolio, Quote,
  TopUpRequest, TopUpResponse,
}
use micro_coin.Database.World.{World, Error, ok}
use micro_coin.Http.{Request, Response, HandlerFunc}
use micro_coin.Auth.Tokens.{Jwt}
use micro_coin.Idempotency.{Hashing}
use micro_coin.Quotes.{QuoteService}
use micro_coin.Orders.Exchange.{Exchange}
use micro_coin.Orders.Create.{Ending, finished}
use micro_coin.Server.Accounts.{signup_handler, login_handler}
use micro_coin.Server.Money.{topup_handler, create_order_handler}
use micro_coin.Server.Pages.{health_handler, quotes_handler, get_order_handler, portfolio_handler}

-- The routes with an answer of their own.
pub data Page : Type 0 where
  health signup login top_up quotes new_order order_by_id portfolio : Page

-- The packages that the handlers call.
pub record Packages (D : Type 0) : Type 0 where
  pub jwt : Jwt
  -- the readings of the clock by a login, and Argon2
  pub now : ℕ → ℕ
  pub id_key : String → List ℕ → ℕ → ℕ → ℕ → ℕ → Option (List ℕ)
  pub entropy : ℕ → Option (List ℕ)
  pub jsonb : String → Option String
  pub hash : Hashing
  pub print : Error → String
  pub vars : Request → String
  pub parse_uuid : String → Option ℕ
  pub read_auth : String → Option AuthRequest
  pub read_top_up : String → Option (TopUpRequest D)
  pub read_order : String → Option (CreateOrderRequest D)
  pub write_status : String → String → String
  pub write_auth : AuthResponse → String
  pub write_top_up : TopUpResponse D → Option String
  pub write_created : CreateOrderResponse D → Option String
  pub write_quote : Quote D → String
  pub write_order : Order D → String
  pub write_portfolio : Portfolio D → String

-- A handler that always responds.
abbrev pub always : {S : Type 0} → (S → Response × S) → S → Ending Response × S
always f s = let (res, s') = f s in (finished (ok res), s')

module _ {D : Type 0} where
  -- A handler on the database, and one on the quotes.
  abbrev pub on_world :
      (World D → Ending Response × World D) → Exchange D → Ending Response × Exchange D
  on_world f x = let (res, w) = f x.world in (res, record x { world = w })

  abbrev pub on_quotes :
      (QuoteService D → Response × QuoteService D) → Exchange D → Ending Response × Exchange D
  on_quotes f x = let (res, q) = f x.quotes in (finished (ok res), record x { quotes = q })

module _ {D : Type 0} ⦃dec : Decimal D⦄ (fuel : ℕ) where
  unfoldable pub answer : Packages D → Page → Request → Exchange D → Ending Response × Exchange D
  answer pk health r = always (health_handler pk.write_status r)
  answer pk signup r =
      on_world (signup_handler pk.jwt pk.now pk.id_key pk.read_auth pk.write_auth pk.entropy r)
  answer pk login r = on_world (login_handler pk.jwt pk.now pk.id_key pk.read_auth pk.write_auth r)
  answer pk top_up r =
      on_world (always (topup_handler pk.jsonb pk.hash pk.print pk.read_top_up pk.write_top_up r))
  answer pk quotes r = on_quotes (quotes_handler pk.print pk.write_quote r)
  answer pk new_order r =
      create_order_handler pk.jsonb pk.hash pk.print fuel pk.read_order pk.write_created r
  answer pk order_by_id r =
      on_world (always (get_order_handler pk.vars pk.parse_uuid pk.write_order r))
  answer pk portfolio r = on_world (always (portfolio_handler pk.write_portfolio r))

  -- The state after the requests, each with what the packages answer to it.
  unfoldable pub serve_all : List (Packages D × Page × Request) → Exchange D → Exchange D
  serve_all [] x = x
  serve_all ((pk, p, r) ∷ rs) x = serve_all rs (answer pk p r x).1
